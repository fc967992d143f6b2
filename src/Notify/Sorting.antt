-- ===== src/Notify/Sorting.antt =====
-- The sort by severity is stable.
use rulehawk.Notify.Ranks.{sink, unwind, sort_from, sort_by_severity, severity_rank}
use rulehawk.Common.{
  List, ℕ, ◌∷◌, ◌<◌, ◌≡◌, [], ◌≤◌, if◌then◌else◌, arith, Bool-cases, refl, ◌==◌, ltb, inl, inr, ap,
  ◌∙◌, if_eq, sym, if_false,
}
use rulehawk.Core.{Finding}

-- The most severe come first.
abbrev pub Descends : List Finding → Type 0
Descends [] = Unit
Descends (f ∷ []) = Unit
Descends (f ∷ g ∷ fs) = (severity_rank g.severity ≤ severity_rank f.severity) × Descends (g ∷ fs)

abbrev Climbs : List Finding → Type 0
Climbs [] = Unit
Climbs (f ∷ []) = Unit
Climbs (f ∷ g ∷ fs) = (severity_rank f.severity ≤ severity_rank g.severity) × Climbs (g ∷ fs)

-- The findings of a rank, in their order.
unfoldable pub with_rank : ℕ → List Finding → List Finding
with_rank k [] = []
with_rank k (f ∷ fs) =
    let rest = with_rank k fs in if severity_rank f.severity == k then f ∷ rest else rest

sink-Climbs_below :
    (h f : Finding) (before : List Finding)
    → severity_rank h.severity < severity_rank f.severity
    → Climbs (h ∷ before)
    → Climbs (sink f before)
    → Climbs (h ∷ sink f before)
unfolding sink
sink-Climbs_below h f [] lt c s = (omega arith, tt)
sink-Climbs_below h f (g ∷ before) lt c s =
    elim (Bool-cases (ltb (severity_rank g.severity) (severity_rank f.severity))) [
      | inl y ↦ rw (y, sink) (c.0, rw (y, sink) at s)
      | inr n ↦ rw (n, sink) (omega arith, rw (n, sink) at s)
    ]

Climbs-tail : (g : Finding) (before : List Finding) → Climbs (g ∷ before) → Climbs before
Climbs-tail g [] c = tt
Climbs-tail g (h ∷ before) c = c.1

sink-Climbs : (f : Finding) (before : List Finding) → Climbs before → Climbs (sink f before)
unfolding sink
sink-Climbs f [] c = tt
sink-Climbs f (g ∷ before) c =
    elim (Bool-cases (ltb (severity_rank g.severity) (severity_rank f.severity))) [
      | inl y ↦
          rw (y, sink)
            (sink-Climbs_below g f before (ground arith) c
              (sink-Climbs f before (Climbs-tail g before c)))
      | inr n ↦ rw (n, sink) (ground arith, c)
    ]

-- The nearest one before is no less severe than the first one behind.
abbrev Meets : List Finding → List Finding → Type 0
Meets [] out = Unit
Meets (g ∷ before) [] = Unit
Meets (g ∷ before) (f ∷ out) = severity_rank f.severity ≤ severity_rank g.severity

unwind-Descends :
    (before out : List Finding)
    → Climbs before
    → Descends out
    → Meets before out
    → Descends (unwind before out)
unfolding unwind
unwind-Descends [] out c d m = d
unwind-Descends (g ∷ []) [] c d m = tt
unwind-Descends (g ∷ []) (f ∷ out) c d m = (m, d)
unwind-Descends (g ∷ h ∷ before) [] c d m = unwind-Descends (h ∷ before) (g ∷ []) c.1 tt c.0
unwind-Descends (g ∷ h ∷ before) (f ∷ out) c d m =
    unwind-Descends (h ∷ before) (g ∷ f ∷ out) c.1 (m, d) c.0

sort_from-Descends : (before fs : List Finding) → Climbs before → Descends (sort_from before fs)
unfolding sort_from
sort_from-Descends [] [] c = unwind-Descends [] [] c tt tt
sort_from-Descends (g ∷ before) [] c = unwind-Descends (g ∷ before) [] c tt tt
sort_from-Descends before (f ∷ fs) c =
    sort_from-Descends (sink f before) fs (sink-Climbs f before c)

module _ (k : ℕ) where
  with_rank-sink :
      (f : Finding) (before : List Finding) → with_rank k (sink f before) ≡ with_rank k (f ∷ before)
  unfolding sink with_rank
  with_rank-sink f [] = refl
  with_rank-sink f (g ∷ before) =
      elim (Bool-cases (ltb (severity_rank g.severity) (severity_rank f.severity))) [
        | inl y ↦ rw (y, sink) (ground (arith, with_rank-sink f before))
        | inr n ↦ rw (n, sink) refl
      ]

  -- A finding between the two lists may count as one of either.
  unwind-between :
      (g : Finding) (before out : List Finding)
      → unwind (with_rank k (g ∷ before)) (with_rank k out)
        ≡ unwind (with_rank k before) (with_rank k (g ∷ out))
  unfolding unwind with_rank
  unwind-between g before out = elim (Bool-cases (severity_rank g.severity == k)) [
    | inl y ↦
        ap (λ l. unwind l (with_rank k out)) (if_eq (severity_rank g.severity == k) _ _ y)
        ∙ sym (ap (unwind (with_rank k before)) (if_eq (severity_rank g.severity == k) _ _ y))
    | inr n ↦
        ap (λ l. unwind l (with_rank k out)) (if_false (severity_rank g.severity == k) _ _ n)
        ∙ sym (ap (unwind (with_rank k before)) (if_false (severity_rank g.severity == k) _ _ n))
  ]

  with_rank-unwind :
      (before out : List Finding)
      → with_rank k (unwind before out) ≡ unwind (with_rank k before) (with_rank k out)
  unfolding unwind with_rank
  with_rank-unwind [] out = refl
  with_rank-unwind (g ∷ before) out =
      with_rank-unwind before (g ∷ out) ∙ sym (unwind-between g before out)

  with_rank-sort_from :
      (before fs : List Finding)
      → with_rank k (sort_from before fs) ≡ unwind (with_rank k before) (with_rank k fs)
  unfolding sort_from with_rank
  with_rank-sort_from before [] = with_rank-unwind before []
  with_rank-sort_from before (f ∷ fs) =
      with_rank-sort_from (sink f before) fs
      ∙ ap (λ l. unwind l (with_rank k fs)) (with_rank-sink f before)
      ∙ unwind-between f before fs

-- The findings of a digest that are open stand with the most severe first, each of them once for each
-- time that it was given, and those of one severity stand in the order in which they came.
pub sort_by_severity-Descends :
    (fs : List Finding)
    → Descends (sort_by_severity fs)
      × ((k : ℕ) → with_rank k (sort_by_severity fs) ≡ with_rank k fs)
unfolding sort_by_severity unwind with_rank
sort_by_severity-Descends fs = (sort_from-Descends [] fs tt, λ k. with_rank-sort_from k [] fs)
