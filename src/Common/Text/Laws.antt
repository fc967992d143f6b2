-- ===== src/Common/Text/Laws.antt =====
-- Equality of texts, and lower case against trimming.
use Prim.Native.Nat.{ℕ, zero, suc, ◌+◌, ◌/◌, ◌%◌, ◌≤◌}
use mathlib.Core.Path.{◌≡◌, refl, sym, ap, ◌∙◌}
use mathlib.Core.Logic.{◌↔◌}
use mathlib.Core.Bool.{true}
use mathlib.Core.List.{[], ◌∷◌, ◌++◌, reverse, reverse_aux}
use native.Mathlib.Omega.{arith}
use rulehawk.Common.Tests.{ltb, if◌then◌else◌}
use rulehawk.Common.Text.Base.{
  Text, text_eq, is_space, lower_char, lower, drop_spaces, trim, digits_of, itoa,
}

pub text_eq_refl : (s : Text) → text_eq s s ≡ true
unfolding text_eq
text_eq_refl [] = refl
text_eq_refl (a ∷ s) = ground (arith, text_eq_refl s)

pub text_eq→eq : (s t : Text) → text_eq s t ≡ true → s ≡ t
unfolding text_eq
text_eq→eq [] [] h = refl
text_eq→eq [] (b ∷ t) h = cc
text_eq→eq (a ∷ s) [] h = cc
text_eq→eq (a ∷ s) (b ∷ t) h = ground (arith, text_eq→eq s t)

pub text_eq_iff : (s t : Text) → (text_eq s t ≡ true) ↔ (s ≡ t)
text_eq_iff s t = (text_eq→eq s t, λ e. ap (text_eq s) (sym e) ∙ text_eq_refl s)

is_space-lower_char : (c : ℕ) → is_space (lower_char c) ≡ is_space c
unfolding is_space lower_char
is_space-lower_char c = ground arith

drop_spaces-lower : (s : Text) → drop_spaces (lower s) ≡ lower (drop_spaces s)
unfolding lower drop_spaces
drop_spaces-lower [] = refl
drop_spaces-lower (c ∷ s) = ground (arith, is_space-lower_char c, drop_spaces-lower s)

reverse_aux-lower : (s t : Text) → lower (reverse_aux s t) ≡ reverse_aux (lower s) (lower t)
unfolding lower
reverse_aux-lower [] t = refl
reverse_aux-lower (c ∷ s) t = reverse_aux-lower s (c ∷ t)

reverse-lower : (s : Text) → lower (reverse s) ≡ reverse (lower s)
unfolding lower
reverse-lower s = reverse_aux-lower s []

-- Trimming and lower case commute.
pub trim-lower : (s : Text) → trim (lower s) ≡ lower (trim s)
unfolding trim
trim-lower s =
    rw
      (
        drop_spaces-lower s,
        ← reverse-lower (drop_spaces s),
        drop_spaces-lower (reverse (drop_spaces s)),
      )
      (sym (reverse-lower (drop_spaces (reverse (drop_spaces s)))))

-- One more division changes nothing once the fuel passes the number.
digits_of_fuel : (f g n : ℕ) → n ≤ f → n ≤ g → digits_of f n ≡ digits_of g n
unfolding digits_of
digits_of_fuel zero zero n p q = refl
digits_of_fuel zero (suc g) n p q = ground arith
digits_of_fuel (suc f) zero n p q = ground arith
digits_of_fuel (suc f) (suc g) n p q = ground (arith, digits_of_fuel f g (n / 10))

-- The printed number is the printed quotient by ten and the last digit.
pub itoa_lem :
    (n : ℕ) → itoa n ≡ (if ltb n 10 then (48 + n) ∷ [] else itoa (n / 10) ++ (48 + n % 10) ∷ [])
unfolding itoa digits_of
itoa_lem zero = refl
itoa_lem (suc n) = ground (arith, digits_of_fuel n (suc n / 10) (suc n / 10))
