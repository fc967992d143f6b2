-- ===== src/Fwrule/Analyze/Reference.antt =====
-- The indexed pass reports what the quadratic one reports.
use rulehawk.Common.{
  ℕ, List, get_elem?, ◌<◌, All, ◌≡◌, some, true, [], length, ◌∷◌, none_ne_some, false, suc, ap,
  if◌then◌else◌, arith, Bool-cases, ◌+◌, inl, some_inj, sym, zero, refl, inr, ◌∙◌, All-get_elem?,
  Bool, Option,
}
use rulehawk.Fwrule.Analyze.{
  passed_over, scan, issue_at, shadow_and_duplicate, shadow_and_duplicate_quadratic, shadow_loop,
  quadratic_loop, cover_issue, append_issues, Issue,
}
use rulehawk.Fwrule.Rule.{Rule, covers}
use rulehawk.Fwrule.Index.{
  may_cover, Outcome, CoverIndex, found, new_cover_index, absent, add, first_coverer, out_of_range,
  out_of_fuel,
}
use rulehawk.Fwrule.Index.Leapfrog.{Hit, FirstHit}
use rulehawk.Fwrule.Index.First.{
  IsPlain, Indexes, new-Indexes, add-Indexes, first_coverer-FirstHit, skip-Indexes,
  covers-CoversEach,
}

get_elem?-lt-length :
    {A : Type 0} (xs : List A) (i : ℕ) (a : A) → get_elem? xs i ≡ some a → i < length xs
get_elem?-lt-length [] i a e = absurd (none_ne_some e)
get_elem?-lt-length (x ∷ xs) zero a e = omega arith
get_elem?-lt-length (x ∷ xs) (suc i) a e = omega (arith, get_elem?-lt-length xs i a e)

-- The inner loop stops at a rule exactly when the index may return it.
pub passed_over_hit :
    (rj ri : Rule) → may_cover rj ≡ true → covers rj ri ≡ true → passed_over rj ri ≡ false
unfolding passed_over may_cover
passed_over_hit rj ri m c = ground arith

pub passed_over_usable :
    (rj ri : Rule) → passed_over rj ri ≡ false → (may_cover rj ≡ true) × (covers rj ri ≡ true)
unfolding passed_over may_cover
passed_over_usable rj ri e =
    let c : covers rj ri ≡ true = ground arith in
    let each = covers-CoversEach rj ri c in let u = each.unconditional in (ground arith, c)

passed_over_miss :
    (rj ri : Rule) → ¬ ((may_cover rj ≡ true) × (covers rj ri ≡ true)) → passed_over rj ri ≡ true
passed_over_miss rj ri miss = elim (Bool-cases (passed_over rj ri)) [
  | inl e ↦ e
  | inr e ↦ absurd (miss (passed_over_usable rj ri e))
]

-- No rule below `count` is a hit.
scan-absent :
    (rules : List Rule) (count : ℕ) (ri : Rule)
    → ((k : ℕ) → k < count → ¬ Hit rules ri k)
    → scan rules count ri ≡ []
unfolding scan
scan-absent [] count ri low = refl
scan-absent (rj ∷ rules) zero ri low = refl
scan-absent (rj ∷ rules) (suc count) ri low =
    rw (passed_over_miss rj ri (λ (m, c). low 0 (omega arith) (rj, refl, m, c)))
      (scan-absent rules count ri (λ k lt h. low (suc k) (omega arith) h))

scan-found :
    (rules : List Rule) (count j : ℕ) (ri rj : Rule)
    → j < count
    → get_elem? rules j ≡ some rj
    → may_cover rj ≡ true
    → covers rj ri ≡ true
    → ((k : ℕ) → k < j → ¬ Hit rules ri k)
    → scan rules count ri ≡ cover_issue rj ri ∷ []
unfolding scan
scan-found [] count j ri rj lt e m c low = absurd (none_ne_some e)
scan-found (r ∷ rules) zero j ri rj lt e m c low = absurd (omega arith)
scan-found (r ∷ rules) (suc count) zero ri rj lt e m c low =
    let same : r ≡ rj = some_inj e in rw (same, passed_over_hit rj ri m c) refl
scan-found (r ∷ rules) (suc count) (suc j) ri rj lt e m c low =
    rw (passed_over_miss r ri (λ (m', c'). low 0 (omega arith) (r, refl, m', c')))
      (scan-found rules count j ri rj (omega arith) e m c (λ k l h. low (suc k) (omega arith) h))

issue_at-scan :
    (rules : List Rule) (ri : Rule) (n : ℕ) (o : Outcome)
    → FirstHit rules ri n o
    → issue_at rules ri o ≡ some (scan rules n ri)
unfolding issue_at
issue_at-scan rules ri n (found j) (lt, (rj, e, m, c), low) =
    rw (e, issue_at, scan-found rules n j ri rj lt e m c low)
issue_at-scan rules ri n absent h = rw (scan-absent rules n ri h)
issue_at-scan rules ri n out_of_range h = absurd h
issue_at-scan rules ri n out_of_fuel h = absurd h

issues_if :
    (b : Bool) (x : Option (List Issue)) (y : List Issue)
    → x ≡ some y
    → (if b then x else some []) ≡ some (if b then y else [])
issues_if true x y e = e
issues_if false x y e = refl

module _ (rules : List Rule) (plain : All IsPlain rules) where
  grow_index :
      (i : ℕ) (ix : CoverIndex) (ri : Rule)
      → get_elem? rules i ≡ some ri
      → Indexes rules i ix
      → Indexes rules (suc i) (if may_cover ri then add ix i ri else ix)
  grow_index i ix ri e inv = elim (Bool-cases (may_cover ri)) [
    | inl m ↦ rw m (add-Indexes rules i ix ri e m inv)
    | inr m ↦ rw m (skip-Indexes rules i ix ri e m inv)
  ]

  head_issues :
      (i : ℕ) (ix : CoverIndex) (ri : Rule)
      → get_elem? rules i ≡ some ri
      → Indexes rules i ix
      → (if ri.enabled then issue_at rules ri (first_coverer ix rules ri) else some [])
        ≡ some (if ri.enabled then scan rules i ri else [])
  head_issues i ix ri e inv = issues_if ri.enabled _ _ (
      issue_at-scan rules ri i (first_coverer ix rules ri) (
        first_coverer-FirstHit rules i ix inv ri plain (All-get_elem? IsPlain rules i ri plain e)
          (omega (arith, get_elem?-lt-length rules i ri e))))

  shadow_loop-eq :
      (rest : List Rule) (i : ℕ) (ix : CoverIndex)
      → ((k : ℕ) → get_elem? rest k ≡ get_elem? rules (k + i))
      → Indexes rules i ix
      → shadow_loop rules rest i ix ≡ some (quadratic_loop rules rest i)
  unfolding shadow_loop quadratic_loop append_issues
  shadow_loop-eq [] i ix at inv = refl
  shadow_loop-eq (ri ∷ rest) i ix at inv =
      let here : get_elem? rules i ≡ some ri = sym (at 0 ∙ ap (get_elem? rules) (omega arith)) in
      let later =
        shadow_loop-eq rest (suc i) (if may_cover ri then add ix i ri else ix)
          (λ k. at (suc k) ∙ ap (get_elem? rules) (omega arith)) (grow_index i ix ri here inv) in
      rw (head_issues i ix ri here inv, later)

-- The indexed pass ends, never reads past the rules, and returns the issues of the quadratic scan
-- in the same order, where no address of the rules parses to a network of IPv4 addresses mapped
-- into IPv6.
pub shadow_and_duplicate-eq-quadratic :
    (rules : List Rule)
    → All IsPlain rules
    → shadow_and_duplicate rules ≡ some (shadow_and_duplicate_quadratic rules)
unfolding shadow_and_duplicate shadow_and_duplicate_quadratic
shadow_and_duplicate-eq-quadratic rules plain =
    shadow_loop-eq rules plain rules 0 new_cover_index (λ k. ap (get_elem? rules) (omega arith))
      (new-Indexes rules)
