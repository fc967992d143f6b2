-- ===== src/Fwrule/Index/Dimension.antt =====
-- What the search asks of one dimension of the index: it grows by positions in ascending order, and a
-- query returns every position whose feature covers the one asked for.
use rulehawk.Common.{ℕ, Option, List, Bool, suc, ◌≡◌, some, true}
use rulehawk.Fwrule.Postings.{Postings}
use rulehawk.Fwrule.Postings.Sorted.{SortedDim, InDim}

pub record Dimension (F : Type 0) : Type 1 where
  pub Dim : Type 0
  pub add : Dim → ℕ → F → Dim
  -- `none` where the dimension cannot prune.
  pub query : Dim → F → Option (List Postings)
  pub covers : F → F → Bool
  -- What the parsed feature must satisfy for the query to be complete.
  pub IsClean : F → Type 0
  -- Every list ascends below a bound, and its positions satisfy a predicate.
  pub IsSorted : (ℕ → Type 0) → ℕ → Dim → Type 0
  -- The position was added with the feature.
  pub Has : Dim → ℕ → F → Type 0
  pub skip-IsSorted : (P : ℕ → Type 0) (n : ℕ) (d : Dim) → IsSorted P n d → IsSorted P (suc n) d
  pub add-IsSorted :
      (P : ℕ → Type 0) (n : ℕ) (d : Dim) (f : F)
      → P n
      → IsSorted P n d
      → IsSorted P (suc n) (add d n f)
  pub add-Has_new : (d : Dim) (n : ℕ) (f : F) → Has (add d n f) n f
  pub add-Has_old : (d : Dim) (j n : ℕ) (f g : F) → Has d j g → Has (add d n f) j g
  pub query-SortedDim :
      (P : ℕ → Type 0) (n : ℕ) (d : Dim) (f : F) (lists : List Postings)
      → IsSorted P n d
      → query d f ≡ some lists
      → SortedDim P n lists
  pub query_complete :
      (d : Dim) (j : ℕ) (f g : F) (lists : List Postings)
      → IsClean f
      → IsClean g
      → Has d j f
      → covers f g ≡ true
      → query d g ≡ some lists
      → InDim j lists
