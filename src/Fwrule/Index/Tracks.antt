-- ===== src/Fwrule/Index/Tracks.antt =====
-- A dimension that has been fed the rules so far, one position at a time.
use rulehawk.Common.{
  ℕ, List, get_elem?, ◌<◌, ◌≡◌, some, true, false, suc, Bool-cases, ◌==◌, inl, ==_iff, some_inj,
  sym, ◌∙◌, ap, subst, false≢true, inr, arith,
}
use rulehawk.Fwrule.Index.Dimension.{Dimension}
use rulehawk.Fwrule.Rule.{Rule}
use rulehawk.Fwrule.Index.Leapfrog.{Usable}
use rulehawk.Fwrule.Postings.{Postings}
use rulehawk.Fwrule.Postings.Sorted.{SortedDim, InDim}
use rulehawk.Fwrule.Index.{may_cover}

module _ {F : Type 0} (D : Dimension F) (feature : Rule → F) (rules : List Rule) where
  -- The dimension holds every usable position below `n`, and no other.
  pub record Tracks (n : ℕ) (d : D.Dim) : Type 0 where
    pub sorted : D.IsSorted (Usable rules) n d
    pub holds :
        (j : ℕ) (r : Rule)
        → j < n
        → get_elem? rules j ≡ some r
        → may_cover r ≡ true
        → D.Has d j (feature r)

  pub Tracks-add :
      (n : ℕ) (d : D.Dim) (r : Rule)
      → get_elem? rules n ≡ some r
      → may_cover r ≡ true
      → Tracks n d
      → Tracks (suc n) (D.add d n (feature r))
  Tracks-add n d r e m t = record {
    sorted = D.add-IsSorted (Usable rules) n d (feature r) (r, e, m) t.sorted;
    holds = λ j r' lt e' m'. elim (Bool-cases (j == n)) [
      | inl here ↦
          let at : j ≡ n = (==_iff j n).0 here in
          let same : r ≡ r' = some_inj (sym e ∙ ap (get_elem? rules) (sym at) ∙ e') in
          subst (λ q. D.Has (D.add d n (feature r)) j (feature q)) same
            (subst (λ k. D.Has (D.add d n (feature r)) k (feature r)) (sym at)
              (D.add-Has_new d n (feature r)))
      | inr below ↦ D.add-Has_old d j n (feature r) (feature r') (t.holds j r' (ground arith) e' m')
    ];
  }

  pub Tracks-skip :
      (n : ℕ) (d : D.Dim) (r : Rule)
      → get_elem? rules n ≡ some r
      → may_cover r ≡ false
      → Tracks n d
      → Tracks (suc n) d
  Tracks-skip n d r e m t = record {
    sorted = D.skip-IsSorted (Usable rules) n d t.sorted;
    holds = λ j r' lt e' m'. elim (Bool-cases (j == n)) [
      | inl here ↦
          let at : j ≡ n = (==_iff j n).0 here in
          let same : r ≡ r' = some_inj (sym e ∙ ap (get_elem? rules) (sym at) ∙ e') in
          absurd (false≢true (sym m ∙ ap may_cover same ∙ m'))
      | inr below ↦ t.holds j r' (ground arith) e' m'
    ];
  }

  -- A query lists every usable rule whose feature covers the one asked for.
  pub Tracks-complete :
      (n : ℕ) (d : D.Dim) (g : F) (lists : List Postings)
      → Tracks n d
      → D.query d g ≡ some lists
      → D.IsClean g
      → (j : ℕ) (r : Rule) → j < n
      → get_elem? rules j ≡ some r
      → may_cover r ≡ true
      → D.IsClean (feature r)
      → D.covers (feature r) g ≡ true
      → InDim j lists
  Tracks-complete n d g lists t q cg j r lt e m cf c =
      D.query_complete d j (feature r) g lists cf cg (t.holds j r lt e m) c q

  pub Tracks-SortedDim :
      (n : ℕ) (d : D.Dim) (g : F) (lists : List Postings)
      → Tracks n d
      → D.query d g ≡ some lists
      → SortedDim (Usable rules) n lists
  Tracks-SortedDim n d g lists t q = D.query-SortedDim (Usable rules) n d g lists t.sorted q
