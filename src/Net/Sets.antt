-- ===== src/Net/Sets.antt =====
-- Networks as sets of addresses.
use native.Mathlib.Nat.{pow-suc, div-div-eq-div-mul}
use rulehawk.Common.{
  ℕ, ◌/◌, ◌+◌, ◌≡◌, ◌≤◌, ◌^◌, suc, arith, true, subst, ==_iff, false, refl, ◌∙◌, ◌↔◌, ◌-◌, zero,
}
use rulehawk.Net.{same_prefix, IpAddr, contains, IpNet, v4, shorten, v6}
use rulehawk.Net.Prefix.{
  IsNet, Within, is_mapped, shorten_unmapped, contains_iff, contains_short-Within,
  Within-contains_short,
}

-- Two numbers with one quotient have one quotient by the double.
half_prefix : (k a b : ℕ) → a / 2 ^ k ≡ b / 2 ^ k → a / 2 ^ suc k ≡ b / 2 ^ suc k
half_prefix k a b h =
    rw (pow-suc 2 k, ← div-div-eq-div-mul a (2 ^ k) 2, ← div-div-eq-div-mul b (2 ^ k) 2, h) refl

shorter_quotient : (d k m a b : ℕ) → d + k ≡ m → a / 2 ^ k ≡ b / 2 ^ k → a / 2 ^ m ≡ b / 2 ^ m
shorter_quotient zero k m a b e h =
    let e' : k ≡ m = omega arith in subst (λ n. a / 2 ^ n ≡ b / 2 ^ n) e' h
shorter_quotient (suc d) k m a b e h =
    shorter_quotient d (suc k) m a b (omega arith) (half_prefix k a b h)

pub same_prefix_shorter :
    (w o s a b : ℕ) → o ≤ s → same_prefix w s a b ≡ true → same_prefix w o a b ≡ true
unfolding same_prefix
same_prefix_shorter w o s a b le h =
    (==_iff _ _).1
      (shorter_quotient ((w - o) - (w - s)) (w - s) (w - o) a b (omega arith) ((==_iff _ _).0 h))

same_prefix_trans :
    (w o a b c : ℕ)
    → same_prefix w o a b ≡ true
    → same_prefix w o b c ≡ true
    → same_prefix w o a c ≡ true
unfolding same_prefix
same_prefix_trans w o a b c h k = (==_iff _ _).1 ((==_iff _ _).0 h ∙ (==_iff _ _).0 k)

Within-trans : (a b c : IpAddr) (o s : ℕ) → o ≤ s → Within a o b → Within b s c → Within a o c
Within-trans (v4 a) (v4 b) (v4 c) o s le h k =
    same_prefix_trans 32 o a b c h (same_prefix_shorter 32 o s b c le k)
Within-trans (v6 a) (v6 b) (v6 c) o s le h k =
    same_prefix_trans 128 o a b c h (same_prefix_shorter 128 o s b c le k)
Within-trans (v4 a) (v4 b) (v6 c) o s le h k = absurd k
Within-trans (v4 a) (v6 b) c o s le h k = absurd h
Within-trans (v6 a) (v4 b) c o s le h k = absurd h
Within-trans (v6 a) (v6 b) (v4 c) o s le h k = absurd k

-- `Contains` on the shortened address.
contains-Within :
    (n : IpNet) (ip : IpAddr)
    → IsNet n
    → is_mapped n.ip ≡ false
    → (contains n ip ≡ true) ↔ Within n.ip n.ones (shorten ip)
unfolding contains
contains-Within n ip f m = rw (shorten_unmapped n.ip m) (
  contains_short-Within n.ip (shorten ip) n.ones n.bits f,
  Within-contains_short n.ip (shorten ip) n.ones n.bits f,
)

-- A network that contains another, by its first address and its length, has all its addresses.
pub net_contains-subset :
    (outer sub : IpNet)
    → IsNet outer
    → IsNet sub
    → is_mapped outer.ip ≡ false
    → is_mapped sub.ip ≡ false
    → contains outer sub.ip ≡ true
    → outer.ones ≤ sub.ones
    → (ip : IpAddr) → contains sub ip ≡ true
    → contains outer ip ≡ true
net_contains-subset outer sub fo fs mo ms inside le ip h = (contains-Within outer ip fo mo).1 (
    Within-trans outer.ip sub.ip (shorten ip) outer.ones sub.ones le
      ((contains_iff outer sub.ip fo mo ms).0 inside) ((contains-Within sub ip fs ms).0 h))
