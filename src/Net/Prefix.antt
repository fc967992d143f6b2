-- ===== src/Net/Prefix.antt =====
-- What the containment test of fwrule says of networks, as `net.ParseCIDR` makes them.
use rulehawk.Common.{
  ℕ, Bool, ◌≡◌, false, ◌≤◌, some, true, Bool-cases, ap, leb, inl, subst, some_inj, leb→le, inr,
  refl, ◌/◌, ◌*◌, Option, ◌^◌, ◌==◌, ◌-◌, ==_iff, none, ◌↔◌,
}
use rulehawk.Net.{
  IpAddr, IpNet, same_prefix, v4, mask_bits, v6, shorten, to4, contains, contains_short,
}
use rulehawk.Net.Parse.{net_of, parse_cidr, cidr_of, cidr_at, parse_ip}
use rulehawk.Common.Text.{Text, read_number}

-- A 16-byte address that stands for an IPv4 one.
unfoldable pub is_mapped : IpAddr → Bool
is_mapped (v4 a) = false
is_mapped (v6 a) = a / 2 ^ 32 == 0xffff

-- The mask has the length of the address, and its ones fit.
abbrev pub MaskFits : IpAddr → ℕ → ℕ → Type 0
MaskFits (v4 a) ones bits = (bits ≡ 32) × (ones ≤ 32)
MaskFits (v6 a) ones bits = (bits ≡ 128) × (ones ≤ 128)

abbrev pub IsNet : IpNet → Type 0
IsNet n = MaskFits n.ip n.ones n.bits

net_of-IsNet : (ip : IpAddr) (k : ℕ) (n : IpNet) → net_of ip k ≡ some n → IsNet n
unfolding net_of
net_of-IsNet (v4 a) k n h = elim (Bool-cases (leb k 32)) [
  | inl e ↦ subst IsNet (some_inj (rw e at h)) (refl, leb→le k 32 e)
  | inr e ↦ let f = rw e at h in cc
]
net_of-IsNet (v6 a) k n h = elim (Bool-cases (leb k 128)) [
  | inl e ↦ subst IsNet (some_inj (rw e at h)) (refl, leb→le k 128 e)
  | inr e ↦ let f = rw e at h in cc
]

cidr_of-IsNet : (o : Option IpAddr) (k : Option ℕ) (n : IpNet) → cidr_of o k ≡ some n → IsNet n
unfolding cidr_of
cidr_of-IsNet (some ip) (some k) n h = net_of-IsNet ip k n h
cidr_of-IsNet none k n h = cc
cidr_of-IsNet (some ip) none n h = cc

cidr_at-IsNet : (o : Option (Text × Text)) (n : IpNet) → cidr_at o ≡ some n → IsNet n
unfolding cidr_at
cidr_at-IsNet none n h = cc
cidr_at-IsNet (some (a, m)) n h = cidr_of-IsNet (parse_ip a) (read_number m) n h

-- Whatever `net.ParseCIDR` accepts is a network with a fitting mask.
pub parse_cidr-IsNet : (s : Text) (n : IpNet) → parse_cidr s ≡ some n → IsNet n
unfolding parse_cidr
parse_cidr-IsNet s n h = cidr_at-IsNet _ n h

pub mask_bits_eq : (w k a b : ℕ) → same_prefix w k a b ≡ true → mask_bits w k a ≡ mask_bits w k b
unfolding same_prefix mask_bits
mask_bits_eq w k a b h = ap (λ (q : ℕ). q * 2 ^ (w - k)) ((==_iff _ _).0 h)

pub to4_unmapped : (a : ℕ) → is_mapped (v6 a) ≡ false → to4 (v6 a) ≡ none
unfolding is_mapped to4
to4_unmapped a h = simp h

-- An address that is not mapped is compared as it is.
pub shorten_unmapped : (ip : IpAddr) → is_mapped ip ≡ false → shorten ip ≡ ip
unfolding shorten
shorten_unmapped (v4 a) h = unfold to4 in refl
shorten_unmapped (v6 a) h = rw (to4_unmapped a h, shorten)

-- The prefixes are compared within a family, and no address of one is in a network of the other.
abbrev pub Within : IpAddr → ℕ → IpAddr → Type 0
Within (v4 a) ones (v4 b) = same_prefix 32 ones a b ≡ true
Within (v6 a) ones (v6 b) = same_prefix 128 ones a b ≡ true
Within _ ones _ = ⊥

pub contains_short-Within :
    (a b : IpAddr) (ones bits : ℕ)
    → MaskFits a ones bits
    → contains_short a ones bits b ≡ true
    → Within a ones b
unfolding contains_short
contains_short-Within (v4 a) (v4 b) ones bits f h = rw f.0 at h
contains_short-Within (v4 a) (v6 b) ones bits f h = cc
contains_short-Within (v6 a) (v4 b) ones bits f h = cc
contains_short-Within (v6 a) (v6 b) ones bits f h = rw f.0 at h

pub Within-contains_short :
    (a b : IpAddr) (ones bits : ℕ)
    → MaskFits a ones bits
    → Within a ones b
    → contains_short a ones bits b ≡ true
unfolding contains_short
Within-contains_short (v4 a) (v4 b) ones bits f h = rw f.0 h
Within-contains_short (v4 a) (v6 b) ones bits f h = absurd h
Within-contains_short (v6 a) (v4 b) ones bits f h = absurd h
Within-contains_short (v6 a) (v6 b) ones bits f h = rw f.0 h

-- `IPNet.Contains` compares prefixes, where neither side is a mapped address.
pub contains_iff :
    (n : IpNet) (ip : IpAddr)
    → IsNet n
    → is_mapped n.ip ≡ false
    → is_mapped ip ≡ false
    → (contains n ip ≡ true) ↔ Within n.ip n.ones ip
unfolding contains
contains_iff n ip f mn mi =
    rw (shorten_unmapped n.ip mn, shorten_unmapped ip mi)
      (contains_short-Within n.ip ip n.ones n.bits f, Within-contains_short n.ip ip n.ones n.bits f)
