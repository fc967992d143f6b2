-- ===== src/Fwrule/Index/Addrs.antt =====
-- The address dimension of the index: `addrDim`, `normCIDR` and `cidrKey`.
pub mod Nets
pub mod Parsing
pub mod Query
pub mod Laws
use rulehawk.Common.{
  ℕ, Option, Bool, [], List, if◌then◌else◌, ◌==◌, false, some, ◌∷◌, suc, ltb, none, ◌&&◌, ◌+◌, ◌-◌,
  true, zero,
}
use rulehawk.Net.{IpAddr, IpNet, mask_bits, v4, v6, to4}
use rulehawk.Fwrule.Postings.{Postings, push, pair, keep_list}
use rulehawk.Common.Text.{Text, text_eq}
use rulehawk.Fwrule.Index.Table.{Table, put_at}
use rulehawk.Fwrule.Rule.{to_nets, any_addr, norm}

-- What `normCIDR` returns: the masked address, its prefix length, and the family (0 = v4, 1 = v6).
pub record Canon : Type 0 where
  pub addr : ℕ
  pub ones : ℕ
  pub fam : ℕ

-- The branch of `normCIDR` for an address with a `To4`.
unfoldable pub canon_v4 : ℕ → ℕ → ℕ → Option Canon
canon_v4 a ones bits =
    if bits == 128
    then (if ltb ones 96 then none else some (record { addr = a; ones = ones - 96; fam = 0 }))
    else some (record { addr = a; ones = ones; fam = 0 })

canon_other : IpAddr → ℕ → Option Canon
canon_other (v4 a) ones = none
canon_other (v6 a) ones = some (record { addr = a; ones = ones; fam = 1 })

-- `normCIDR`
unfoldable pub norm_cidr : IpNet → Option Canon
unfolding canon_other
norm_cidr n =
    if n.bits == 0
    then none
    else elim (to4 n.ip) [ some a ↦ canon_v4 a n.ones n.bits | none ↦ canon_other n.ip n.ones ]

-- The key `ip/len` of a masked network; its text spells these three.
pub record NetKey : Type 0 where
  pub masked : ℕ
  pub len : ℕ
  pub family : ℕ

-- `cidrKey`
unfoldable pub cidr_key : ℕ → ℕ → ℕ → NetKey
cidr_key ip ones fam = record {
  masked = mask_bits (if fam == 1 then 128 else 32) ones ip;
  len = ones;
  family = fam;
}

unfoldable pub net_key_eq : NetKey → NetKey → Bool
net_key_eq k l = (k.masked == l.masked) && ((k.len == l.len) && (k.family == l.family))

pub record AddrDim : Type 0 where
  pub any_list : Postings
  pub net : Table NetKey
  pub str : Table Text
  pub lens : ℕ → ℕ → Bool

abbrev pub no_addrs : AddrDim
no_addrs = record { any_list = []; net = λ k. []; str = λ k. []; lens = λ fam l. false }

-- The network of one element, if it has one that `normCIDR` accepts.
unfoldable pub canon_of : Text → Option Canon
canon_of a = elim (to_nets (a ∷ [])) [ [] ↦ none | n ∷ rest ↦ norm_cidr n ]

-- `d.lens[fam][ones] = true`
unfoldable pub set_len : (ℕ → ℕ → Bool) → ℕ → ℕ → ℕ → ℕ → Bool
set_len lens fam ones fam' ones' =
    if (fam == fam') && (ones == ones') then true else lens fam' ones'

unfoldable pub add_canon : AddrDim → ℕ → Option Canon → AddrDim
add_canon d idx none = d
add_canon d idx (some c) = record d {
  net = put_at net_key_eq d.net (cidr_key c.addr c.ones c.fam) idx;
  lens = set_len d.lens c.fam c.ones;
}

-- One round of the loop of `addrDim.add`.
unfoldable pub add_addr : AddrDim → ℕ → Text → AddrDim
add_addr d idx a = add_canon (record d { str = put_at text_eq d.str (norm a) idx }) idx (canon_of a)

unfoldable pub add_each : AddrDim → ℕ → List Text → AddrDim
add_each d idx [] = d
add_each d idx (a ∷ addrs) = add_each (add_addr d idx a) idx addrs

-- `addrDim.add`
unfoldable pub add_addrs : AddrDim → ℕ → List Text → AddrDim
add_addrs d idx addrs =
    if any_addr addrs then record d { any_list = push d.any_list idx } else add_each d idx addrs

-- The loop over the prefix lengths from `l` on, `count` of them.
unfoldable pub prefix_lists : AddrDim → Canon → ℕ → ℕ → List Postings
prefix_lists d c zero l = []
prefix_lists d c (suc count) l =
    let rest = prefix_lists d c count (l + 1) in
    if d.lens c.fam l then keep_list (d.net (cidr_key c.addr l c.fam)) rest else rest

unfoldable pub query_first : AddrDim → List Text → List Postings
query_first d [] = []
query_first d (be ∷ rest) = elim (canon_of be) [
  | none ↦ pair d.any_list (d.str (norm be))
  | some c ↦ keep_list d.any_list (prefix_lists d c (suc c.ones) 0)
]

-- `addrDim.query`. The first element is there, since an empty list means any address.
unfoldable pub query_addrs : AddrDim → List Text → List Postings
query_addrs d addrs = if any_addr addrs then pair d.any_list [] else query_first d addrs
