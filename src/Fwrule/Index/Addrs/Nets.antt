-- ===== src/Fwrule/Index/Addrs/Nets.antt =====
-- The containment of networks against the keys of the index.
use rulehawk.Common.{ℕ, Option, ◌≡◌, false, true, some, ◌≤◌, ap, arith, refl}
use rulehawk.Net.{to4, contains, v4}
use rulehawk.Fwrule.Rule.{net_contains}
use rulehawk.Fwrule.Index.Addrs.{
  Canon, norm_cidr, v6, canon_v4, canon_other, cidr_key, IpAddr, IpNet,
}
use rulehawk.Net.Prefix.{
  is_mapped, MaskFits, to4_unmapped, Within, IsNet, mask_bits_eq, contains_iff,
}

-- What the index needs of a covering network: it is listed under a prefix of the covered one.
abbrev pub Listed : Option Canon → Option Canon → Type 0
Listed (some o) (some s) =
    (o.fam ≡ s.fam)
    × (o.ones ≤ s.ones)
    × (cidr_key o.addr o.ones o.fam ≡ cidr_key s.addr o.ones s.fam)
Listed _ _ = ⊥

-- The canonical form of a network that is not mapped.
abbrev canon_form : IpAddr → ℕ → Option Canon
canon_form (v4 a) ones = some (record { addr = a; ones = ones; fam = 0 })
canon_form (v6 a) ones = some (record { addr = a; ones = ones; fam = 1 })

norm_cidr-canon_form :
    (ip : IpAddr) (ones bits : ℕ)
    → MaskFits ip ones bits
    → is_mapped ip ≡ false
    → norm_cidr (record { ip = ip; ones = ones; bits = bits }) ≡ canon_form ip ones
unfolding norm_cidr canon_v4 canon_other
norm_cidr-canon_form (v4 a) ones bits f m = unfold to4 in rw f.0
norm_cidr-canon_form (v6 a) ones bits f m = rw (f.0, to4_unmapped a m)

Within-Listed :
    (a b : IpAddr) (o s : ℕ) → Within a o b → o ≤ s → Listed (canon_form a o) (canon_form b s)
unfolding cidr_key
Within-Listed (v4 a) (v4 b) o s w le =
    (refl, le, ap (λ m. record { masked = m; len = o; family = 0 }) (mask_bits_eq 32 o a b w))
Within-Listed (v4 a) (v6 b) o s w le = absurd w
Within-Listed (v6 a) (v4 b) o s w le = absurd w
Within-Listed (v6 a) (v6 b) o s w le =
    (refl, le, ap (λ m. record { masked = m; len = o; family = 1 }) (mask_bits_eq 128 o a b w))

pub net_contains-split :
    (outer sub : IpNet)
    → net_contains outer sub ≡ true
    → (contains outer sub.ip ≡ true) × (outer.ones ≤ sub.ones)
unfolding net_contains
net_contains-split outer sub h = ground arith

-- A network that contains another is listed under one of the prefixes that the query goes through.
pub net_contains-Listed :
    (outer sub : IpNet)
    → IsNet outer
    → IsNet sub
    → is_mapped outer.ip ≡ false
    → is_mapped sub.ip ≡ false
    → net_contains outer sub ≡ true
    → Listed (norm_cidr outer) (norm_cidr sub)
net_contains-Listed outer sub fo fs mo ms h =
    let (inside, le) = net_contains-split outer sub h in
    rw
      (
        norm_cidr-canon_form outer.ip outer.ones outer.bits fo mo,
        norm_cidr-canon_form sub.ip sub.ones sub.bits fs ms,
      )
      (Within-Listed outer.ip sub.ip outer.ones sub.ones
        ((contains_iff outer sub.ip fo mo ms).0 inside) le)
