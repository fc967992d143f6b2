-- ===== src/Fwrule/Index/Leapfrog.antt =====
-- The leapfrog join finds the first covering position, with one round for each rule and one more.
use rulehawk.Common.{
  ℕ, List, get_elem?, ◌≡◌, All, some, ◌<◌, ◌∷◌, true, inl, ◌≤◌, inr, [], Option, length, subst, ◌+◌,
  refl, Bool-cases, suc, arith, ltb, ◌==◌, zero, ltb→lt, ==_iff, some_inj, none, sym, ◌∙◌, ap,
  false≢true,
}
use rulehawk.Fwrule.Rule.{Rule, covers}
use rulehawk.Fwrule.Index.{
  align, Outcome, found, Align, moved, absent, out_of_range, exhausted, aligned, out_of_fuel,
  leapfrog, may_cover,
}
use rulehawk.Fwrule.Postings.{Postings, seek_dim}
use rulehawk.Fwrule.Postings.Sorted.{SortedDim, InDim, Sorted-Holds}
use rulehawk.Fwrule.Postings.Seek.{Least, seek_dim-Least}

-- The position holds a rule that may cover.
abbrev pub Usable : List Rule → ℕ → Type 0
Usable rules j = (r : Rule) × (get_elem? rules j ≡ some r) × (may_cover r ≡ true)

-- The position holds such a rule, and it covers `ri`.
abbrev pub Hit : List Rule → Rule → ℕ → Type 0
Hit rules ri j =
    (r : Rule) × (get_elem? rules j ≡ some r) × (may_cover r ≡ true) × (covers r ri ≡ true)

-- The outcome is the first hit below `n`, or there is none.
abbrev pub FirstHit : List Rule → Rule → ℕ → Outcome → Type 0
FirstHit rules ri n (found j) = (j < n) × Hit rules ri j × ((k : ℕ) → k < j → ¬ Hit rules ri k)
FirstHit rules ri n absent = (k : ℕ) → k < n → ¬ Hit rules ri k
FirstHit rules ri n out_of_range = ⊥
FirstHit rules ri n out_of_fuel = ⊥

SortedDim-InDim :
    (P : ℕ → Type 0) (n j : ℕ) (lists : List Postings)
    → SortedDim P n lists
    → InDim j lists
    → (j < n) × P j
SortedDim-InDim P n j [] s h = absurd h
SortedDim-InDim P n j (l ∷ lists) s (inl h) =
    let below = Sorted-Holds P 0 n j l s.0 h in (below.1, below.2)
SortedDim-InDim P n j (l ∷ lists) s (inr h) = SortedDim-InDim P n j lists s.1 h

-- What one pass over the dimensions says of the positions that all of them hold.
abbrev Aligned : ℕ → ℕ → List (List Postings) → Align → Type 0
Aligned n x ds exhausted = (j : ℕ) → All (InDim j) ds → j < x
Aligned n x ds (moved v) = (x < v) × (v < n) × ((j : ℕ) → All (InDim j) ds → x ≤ j → v ≤ j)
Aligned n x ds aligned = All (InDim x) ds

module _ (P : ℕ → Type 0) (n x : ℕ) where
  Aligned-cons :
      (d : List Postings) (ds : List (List Postings)) (a : Align)
      → InDim x d
      → Aligned n x ds a
      → Aligned n x (d ∷ ds) a
  Aligned-cons d ds exhausted h al = λ j k. al j k.1
  Aligned-cons d ds (moved v) h al = (al.0, al.1, λ j k. al.2 j k.1)
  Aligned-cons d ds aligned h al = (h, al)

  align-cons :
      (d : List Postings) (ds : List (List Postings)) (o : Option ℕ)
      → seek_dim d x ≡ o
      → SortedDim P n d
      → Aligned n x ds (align ds x)
      → Aligned n x (d ∷ ds) (align (d ∷ ds) x)
  unfolding align
  align-cons d ds none e s rest =
      let l : Least (λ w. InDim w d) x none =
        subst (Least (λ w. InDim w d) x) e (seek_dim-Least P n x d s) in
      rw (e, align) (λ j k. l j k.0)
  align-cons d ds (some v) e s rest =
      let l : Least (λ w. InDim w d) x (some v) =
        subst (Least (λ w. InDim w d) x) e (seek_dim-Least P n x d s) in
      elim (Bool-cases (ltb x v)) [
        | inl up ↦
            rw (e, align, up)
              (ltb→lt x v up, (SortedDim-InDim P n v d s l.0).0, λ j k le. l.2 j k.0 le)
        | inr here ↦
            let le = l.1 in
            let same : v ≡ x = ground arith in
            rw (e, align, here)
              (Aligned-cons d ds (align ds x) (subst (λ w. InDim w d) same l.0) rest)
      ]

  align-Aligned : (ds : List (List Postings)) → All (SortedDim P n) ds → Aligned n x ds (align ds x)
  unfolding align
  align-Aligned [] s = tt
  align-Aligned (d ∷ ds) s = align-cons d ds (seek_dim d x) refl s.0 (align-Aligned ds s.1)

-- The dimensions are sorted lists of usable positions below `n`, and hold every hit below `n`.
module _ (rules : List Rule) (ri : Rule) (n : ℕ) (d : List Postings) (ds : List (List Postings))
    (in_rules : n ≤ length rules) (sorted : All (SortedDim (Usable rules) n) (d ∷ ds))
    (complete : (j : ℕ) → j < n → Hit rules ri j → All (InDim j) (d ∷ ds)) where
  abbrev NoHitBelow : ℕ → Type 0
  NoHitBelow x = (k : ℕ) → k < x → ¬ Hit rules ri k

  -- At an aligned position the rule is read, and the loop stops if it covers.
  at_position :
      (fuel x : ℕ) (r : Rule)
      → x < n
      → get_elem? rules x ≡ some r
      → may_cover r ≡ true
      → align (d ∷ ds) x ≡ aligned
      → NoHitBelow x
      → (NoHitBelow (x + 1) → FirstHit rules ri n (leapfrog fuel rules ri (d ∷ ds) (x + 1)))
      → FirstHit rules ri n (leapfrog (suc fuel) rules ri (d ∷ ds) x)
  unfolding leapfrog
  at_position fuel x r lt e m a low next = elim (Bool-cases (covers r ri)) [
    | inl c ↦ rw (a, leapfrog, e, c) (lt, (r, e, m, c), low)
    | inr c ↦
        rw (a, leapfrog, e, c)
          (next λ k k_lt. elim (Bool-cases (k == x)) [
            | inl here ↦ λ (r', e', m', c').
                let at : k ≡ x = (==_iff k x).0 here in
                let same : r' ≡ r = some_inj (sym e' ∙ ap (get_elem? rules) at ∙ e) in
                false≢true (sym c ∙ ap (λ q. covers q ri) (sym same) ∙ c')
            | inr below ↦ low k (ground arith)
          ])
  ]

  -- No hit is skipped when the floor moves up.
  floor_moved :
      (x v : ℕ)
      → x < v
      → v < n
      → ((j : ℕ) → All (InDim j) (d ∷ ds) → x ≤ j → v ≤ j)
      → NoHitBelow x
      → NoHitBelow v
  floor_moved x v up in_n least low k lt hit = elim (Bool-cases (ltb k x)) [
    | inl below ↦ low k (ltb→lt k x below) hit
    | inr from ↦
        let far = least k (complete k (omega arith) hit) (ground arith) in absurd (omega arith)
  ]

  round :
      (fuel x : ℕ) (a : Align)
      → x ≤ n
      → align (d ∷ ds) x ≡ a
      → Aligned n x (d ∷ ds) a
      → NoHitBelow x
      → ((y : ℕ)
          → x < y
          → y ≤ n
          → NoHitBelow y
          → FirstHit rules ri n (leapfrog fuel rules ri (d ∷ ds) y))
      → FirstHit rules ri n (leapfrog (suc fuel) rules ri (d ∷ ds) x)
  unfolding leapfrog
  round fuel x exhausted le e al low next =
      rw (e, leapfrog) λ k lt hit. low k (al k (complete k lt hit)) hit
  round fuel x (moved v) le e al low next =
      rw (e, leapfrog) (next v al.0 (omega (arith, al.1)) (floor_moved x v al.0 al.1 al.2 low))
  round fuel x aligned le e al low next =
      let (lt, (r, at, m)) = SortedDim-InDim (Usable rules) n x d sorted.0 al.0 in
      at_position fuel x r lt at m e low (next (x + 1) (omega arith) (omega arith))

  leapfrog-FirstHit :
      (fuel x : ℕ)
      → x ≤ n
      → n < fuel + x
      → NoHitBelow x
      → FirstHit rules ri n (leapfrog fuel rules ri (d ∷ ds) x)
  leapfrog-FirstHit zero x le enough low = absurd (omega arith)
  leapfrog-FirstHit (suc fuel) x le enough low =
      round fuel x (align (d ∷ ds) x) le refl (align-Aligned (Usable rules) n x (d ∷ ds) sorted) low
        λ y up le' low'. leapfrog-FirstHit fuel y le' (omega arith) low'

  -- The whole search, from the floor 0.
  pub leapfrog_first : FirstHit rules ri n (leapfrog (suc (length rules)) rules ri (d ∷ ds) 0)
  leapfrog_first =
      leapfrog-FirstHit (suc (length rules)) 0 (omega arith) (omega arith)
        (λ k lt. absurd (omega arith))
