-- ===== src/Common/Separated.antt =====
-- Texts that a separator puts together.
use rulehawk.Common.{ℕ, All, ◌≡◌, ◌≢◌, ◌++◌, ◌∷◌, [], refl, sym, any, ◌==◌, false, arith}
use rulehawk.Common.Text.{Text}

-- The text does not have the code point.
abbrev pub Lacks : ℕ → Text → Type 0
Lacks c s = All (λ (x : ℕ). x ≢ c) s

head-eq : {x y : ℕ} {s t : Text} → x ∷ s ≡ y ∷ t → x ≡ y
head-eq h = cc

tail-eq : {x y : ℕ} {s t : Text} → x ∷ s ≡ y ∷ t → s ≡ t
tail-eq h = cc

-- The text before the first separator and the text behind it are what was put together.
pub separated-inj :
    (c : ℕ) (a b u v : Text) → Lacks c a → Lacks c b → a ++ c ∷ u ≡ b ++ c ∷ v → (a ≡ b) × (u ≡ v)
separated-inj c [] [] u v ha hb e = (refl, tail-eq e)
separated-inj c [] (y ∷ b) u v ha hb e = absurd (hb.0 (sym (head-eq e)))
separated-inj c (x ∷ a) [] u v ha hb e = absurd (ha.0 (head-eq e))
separated-inj c (x ∷ a) (y ∷ b) u v ha hb e =
    let (p, q) = separated-inj c a b u v ha.1 hb.1 (tail-eq e) in let first = head-eq e in (cc, q)

pub any-Lacks : (c : ℕ) (s : Text) → any (λ x. x == c) s ≡ false → Lacks c s
unfolding any
any-Lacks c [] h = tt
any-Lacks c (x ∷ s) h = (ground arith, any-Lacks c s (ground arith))
