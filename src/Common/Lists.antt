-- ===== src/Common/Lists.antt =====
-- Lists measured and indexed by native numbers, and membership by recursion.
use Prim.Native.Nat.{ℕ, zero, suc, ◌+◌}
use mathlib.Core.Path.{◌≡◌, refl, subst}
use mathlib.Core.Logic.{◌⊎◌, ◌≢◌, inl, inr}
use mathlib.Core.Bool.{false≢true, Bool, true, false, ◌||◌, ◌&&◌, false≢true}
use rulehawk.Common.Tests.{some_inj, none_ne_some, or-eq-true, and-eq-true}
use mathlib.Core.List.{List, [], ◌∷◌, ◌++◌}
use mathlib.Core.Option.{Option, none, some}
use native.Mathlib.Omega.{arith}

module _ {ℓ} {A : Type ℓ} where
  abbrev pub length : List A → ℕ
  length [] = 0
  length (x ∷ xs) = suc (length xs)

  abbrev pub get_elem? : List A → ℕ → Option A
  get_elem? [] i = none
  get_elem? (x ∷ xs) zero = some x
  get_elem? (x ∷ xs) (suc i) = get_elem? xs i

  abbrev pub get_or : List A → ℕ → A → A
  get_or [] i d = d
  get_or (x ∷ xs) zero d = x
  get_or (x ∷ xs) (suc i) d = get_or xs i d

  abbrev pub All {κ} : (A → Type κ) → List A → Type κ
  All P [] = Unit
  All P (x ∷ xs) = P x × All P xs

  -- `slices.ContainsFunc`, the loop that returns true at the first hit.
  unfoldable pub any : (A → Bool) → List A → Bool
  any p [] = false
  any p (x ∷ xs) = p x || any p xs

  -- The loop that returns false at the first miss.
  unfoldable pub all : (A → Bool) → List A → Bool
  all p [] = true
  all p (x ∷ xs) = p x && all p xs

  pub length-append : (xs ys : List A) → length (xs ++ ys) ≡ length xs + length ys
  length-append [] ys = omega arith
  length-append (x ∷ xs) ys = omega (arith, length-append xs ys)

module _ {A : Type 0} where
  -- Some element satisfies the predicate.
  abbrev pub Any : (A → Type 0) → List A → Type 0
  Any P [] = ⊥
  Any P (x ∷ xs) = P x ⊎ Any P xs

  -- `a` stands in the list.
  abbrev pub Holds : A → List A → Type 0
  Holds a [] = ⊥
  Holds a (x ∷ xs) = (a ≡ x) ⊎ Holds a xs

  -- A test that some element passes.
  pub any→Any : (p : A → Bool) (xs : List A) → any p xs ≡ true → Any (λ x. p x ≡ true) xs
  unfolding any
  any→Any p [] h = absurd (false≢true h)
  any→Any p (x ∷ xs) h = elim (or-eq-true (p x) (any p xs) h) [
    | inl e ↦ inl e
    | inr e ↦ inr (any→Any p xs e)
  ]

  pub Any→any : (p : A → Bool) (xs : List A) → Any (λ x. p x ≡ true) xs → any p xs ≡ true
  unfolding any
  Any→any p [] h = absurd h
  Any→any p (x ∷ xs) (inl e) = rw e
  Any→any p (x ∷ xs) (inr h) = let ih = Any→any p xs h in ground arith

  pub all→All : (p : A → Bool) (xs : List A) → all p xs ≡ true → All (λ x. p x ≡ true) xs
  unfolding all
  all→All p [] h = tt
  all→All p (x ∷ xs) h = let both = and-eq-true (p x) (all p xs) h in (both.0, all→All p xs both.1)

pub All-map {ℓ κ μ} :
    {A : Type ℓ} (P : A → Type κ) (Q : A → Type μ) (xs : List A)
    → ((x : A) → P x → Q x)
    → All P xs
    → All Q xs
All-map P Q [] f h = tt
All-map P Q (x ∷ xs) f h = (f x h.0, All-map P Q xs f h.1)

pub All-get_elem? {ℓ κ} :
    {A : Type ℓ} (P : A → Type κ) (xs : List A) (i : ℕ) (a : A)
    → All P xs
    → get_elem? xs i ≡ some a
    → P a
All-get_elem? P [] i a h e = absurd (none_ne_some e)
All-get_elem? P (x ∷ xs) zero a h e = subst P (some_inj e) h.0
All-get_elem? P (x ∷ xs) (suc i) a h e = All-get_elem? P xs i a h.1 e

pub Holds-append :
    {A : Type 0} (a : A) (xs ys : List A) → Holds a (xs ++ ys) → Holds a xs ⊎ Holds a ys
Holds-append a [] ys h = inr h
Holds-append a (x ∷ xs) ys h = elim h [
  | inl e ↦ inl (inl e)
  | inr k ↦ elim (Holds-append a xs ys k) [ inl l ↦ inl (inr l) | inr l ↦ inr l ]
]

pub All-push :
    {A : Type 0} (P : A → Type 0) (xs : List A) (y : A) → All P xs → P y → All P (xs ++ y ∷ [])
All-push P [] y h p = (p, tt)
All-push P (x ∷ xs) y h p = (h.0, All-push P xs y h.1 p)

pub cons_not_empty {ℓ} : {A : Type ℓ} {a : A} {rest : List A} → (a ∷ rest) ≢ []
cons_not_empty e = cc

-- What holds of both cases holds of the result.
pub List-keeps :
    {A B : Type 0} (P : B → Type 0) (xs : List A) (n : B) (f : A → List A → B)
    → (xs ≡ [] → P n)
    → ((a : A) (rest : List A) → xs ≡ a ∷ rest → P (f a rest))
    → P (elim xs [ [] ↦ n | a ∷ rest ↦ f a rest ])
List-keeps P [] n f p q = p refl
List-keeps P (a ∷ rest) n f p q = q a rest refl
