-- ===== src/Fwrule/Postings.antt =====
-- The posting lists of fwrule/coverindex.go: ascending positions of rules, how they grow, and how
-- `seekDim` looks for the next position.
pub mod Sorted
pub mod Seek
use rulehawk.Common.{
  ℕ, zero, suc, ◌+◌, ◌/◌, Bool, Option, none, some, List, [], ◌∷◌, ◌++◌, length, get_or, ltb, leb,
  ◌==◌, if◌then◌else◌,
}

abbrev pub Postings : Type 0
Postings = List ℕ

-- `dedupTail`
unfoldable pub dedup_tail : Postings → ℕ → Postings
dedup_tail [] idx = []
dedup_tail (x ∷ []) idx = if x == idx then [] else x ∷ []
dedup_tail (x ∷ y ∷ l) idx = x ∷ dedup_tail (y ∷ l) idx

-- `append(l, idx)`
unfoldable pub push : Postings → ℕ → Postings
push l idx = l ++ idx ∷ []

-- `append(dedupTail(l, idx), idx)`
unfoldable pub put : Postings → ℕ → Postings
put l idx = push (dedup_tail l idx) idx

-- The loop of Go's `sort.Search`; each round makes `j - i` smaller.
unfoldable pub search_loop : ℕ → ℕ → ℕ → (ℕ → Bool) → ℕ
search_loop zero i j f = i
search_loop (suc fuel) i j f =
    let h = (i + j) / 2 in
    let rest = search_loop fuel (if f h then i else h + 1) (if f h then h else j) f in
    if ltb i j then rest else i

-- `sort.Search`
unfoldable pub sort_search : ℕ → (ℕ → Bool) → ℕ
sort_search n f = search_loop n 0 n f

-- The first posting from `x` on in one list.
unfoldable pub first_ge : Postings → ℕ → Option ℕ
first_ge l x =
    let k = sort_search (length l) (λ i. leb x (get_or l i 0)) in
    if ltb k (length l) then some (get_or l k 0) else none

-- The update of `best` and `found`.
unfoldable pub better : Option ℕ → Option ℕ → Option ℕ
better none best = best
better (some v) none = some v
better (some v) (some b) = if ltb v b then some v else some b

unfoldable pub seek_from : Option ℕ → List Postings → ℕ → Option ℕ
seek_from best [] x = best
seek_from best (l ∷ lists) x = seek_from (better (first_ge l x) best) lists x

-- `seekDim`
unfoldable pub seek_dim : List Postings → ℕ → Option ℕ
seek_dim lists x = seek_from none lists x

-- `pair`: the lists of the two that are not empty.
unfoldable pub pair : Postings → Postings → List Postings
pair [] [] = []
pair [] (b ∷ bs) = (b ∷ bs) ∷ []
pair (a ∷ as') [] = (a ∷ as') ∷ []
pair (a ∷ as') (b ∷ bs) = (a ∷ as') ∷ (b ∷ bs) ∷ []

-- A list is a candidate only if it is not empty.
unfoldable pub keep_list : Postings → List Postings → List Postings
keep_list [] rest = rest
keep_list (x ∷ l) rest = (x ∷ l) ∷ rest
