-- ===== src/Fwrule/Postings/Sorted.antt =====
-- Posting lists ascend, stay below the next position, and lose nothing when they grow.
use rulehawk.Common.{
  ℕ, suc, ◌≤◌, ◌<◌, ◌≡◌, refl, ◌⊎◌, inl, inr, List, [], ◌∷◌, Holds, Any, All, ◌==◌, Bool-cases,
  arith,
}
use rulehawk.Fwrule.Postings.{Postings, dedup_tail, push, put, pair, keep_list}

-- The positions ascend from `lo` on below `hi`, and each satisfies `P`.
abbrev pub Sorted : (ℕ → Type 0) → ℕ → ℕ → Postings → Type 0
Sorted P lo hi [] = Unit
Sorted P lo hi (x ∷ l) = (lo ≤ x) × (x < hi) × P x × Sorted P (suc x) hi l

pub Sorted-suc :
    (P : ℕ → Type 0) (lo hi : ℕ) (l : Postings) → Sorted P lo hi l → Sorted P lo (suc hi) l
Sorted-suc P lo hi [] s = tt
Sorted-suc P lo hi (x ∷ l) s = (s.0, omega arith, s.2, Sorted-suc P (suc x) hi l s.3)

pub push-Sorted :
    (P : ℕ → Type 0) (lo n : ℕ) (l : Postings)
    → lo ≤ n
    → P n
    → Sorted P lo n l
    → Sorted P lo (suc n) (push l n)
unfolding push
push-Sorted P lo n [] h p s = (h, omega arith, p, tt)
push-Sorted P lo n (x ∷ l) h p s =
    (s.0, omega arith, s.2, push-Sorted P (suc x) n l (omega arith) p s.3)

-- The list behind `dedupTail` is one to push the position on.
dedup_tail-Sorted :
    (P : ℕ → Type 0) (lo n : ℕ) (l : Postings)
    → Sorted P lo (suc n) l
    → Sorted P lo n (dedup_tail l n)
unfolding dedup_tail
dedup_tail-Sorted P lo n [] s = tt
dedup_tail-Sorted P lo n (x ∷ []) s = elim (Bool-cases (x == n)) [
  | inl e ↦ rw e tt
  | inr e ↦ rw e (s.0, ground arith, s.2, tt)
]
dedup_tail-Sorted P lo n (x ∷ y ∷ l) s =
    (s.0, omega arith, s.2, dedup_tail-Sorted P (suc x) n (y ∷ l) s.3)

pub put-Sorted :
    (P : ℕ → Type 0) (n : ℕ) (l : Postings)
    → P n
    → Sorted P 0 (suc n) l
    → Sorted P 0 (suc n) (put l n)
unfolding put
put-Sorted P n l p s =
    push-Sorted P 0 n (dedup_tail l n) (omega arith) p (dedup_tail-Sorted P 0 n l s)

pub Holds-push_old : (j n : ℕ) (l : Postings) → Holds j l → Holds j (push l n)
unfolding push
Holds-push_old j n [] h = absurd h
Holds-push_old j n (x ∷ l) (inl e) = inl e
Holds-push_old j n (x ∷ l) (inr h) = inr (Holds-push_old j n l h)

pub Holds-push_new : (n : ℕ) (l : Postings) → Holds n (push l n)
unfolding push
Holds-push_new n [] = inl refl
Holds-push_new n (x ∷ l) = inr (Holds-push_new n l)

Holds-dedup_tail : (j n : ℕ) (l : Postings) → Holds j l → (j ≡ n) ⊎ Holds j (dedup_tail l n)
unfolding dedup_tail
Holds-dedup_tail j n [] h = absurd h
Holds-dedup_tail j n (x ∷ []) h = ground arith
Holds-dedup_tail j n (x ∷ y ∷ l) (inl e) = inr (inl e)
Holds-dedup_tail j n (x ∷ y ∷ l) (inr h) = elim (Holds-dedup_tail j n (y ∷ l) h) [
  | inl e ↦ inl e
  | inr k ↦ inr (inr k)
]

pub Holds-put_old : (j n : ℕ) (l : Postings) → Holds j l → Holds j (put l n)
unfolding put
Holds-put_old j n l h = elim (Holds-dedup_tail j n l h) [
  | inl e ↦ rw e (Holds-push_new n (dedup_tail l n))
  | inr k ↦ Holds-push_old j n (dedup_tail l n) k
]

pub Holds-put_new : (n : ℕ) (l : Postings) → Holds n (put l n)
unfolding put
Holds-put_new n l = Holds-push_new n (dedup_tail l n)

pub Sorted-Holds :
    (P : ℕ → Type 0) (lo hi j : ℕ) (l : Postings)
    → Sorted P lo hi l
    → Holds j l
    → (lo ≤ j) × (j < hi) × P j
Sorted-Holds P lo hi j [] s h = absurd h
Sorted-Holds P lo hi j (x ∷ l) s (inl e) = rw e (s.0, s.1, s.2)
Sorted-Holds P lo hi j (x ∷ l) s (inr h) =
    let below = Sorted-Holds P (suc x) hi j l s.3 h in
    let first = s.0 in (omega arith, below.1, below.2)

-- A position stands in one of the lists of a dimension.
abbrev pub InDim : ℕ → List Postings → Type 0
InDim j lists = Any (Holds j) lists

abbrev pub SortedDim : (ℕ → Type 0) → ℕ → List Postings → Type 0
SortedDim P n lists = All (Sorted P 0 n) lists

pub pair-InDim : (j : ℕ) (a b : Postings) → Holds j a ⊎ Holds j b → InDim j (pair a b)
unfolding pair
pair-InDim j [] [] (inl h) = absurd h
pair-InDim j [] [] (inr h) = absurd h
pair-InDim j [] (b ∷ bs) (inl h) = absurd h
pair-InDim j [] (b ∷ bs) (inr h) = inl h
pair-InDim j (a ∷ l) [] (inl h) = inl h
pair-InDim j (a ∷ l) [] (inr h) = absurd h
pair-InDim j (a ∷ l) (b ∷ bs) (inl h) = inl h
pair-InDim j (a ∷ l) (b ∷ bs) (inr h) = inr (inl h)

pub pair-SortedDim :
    (P : ℕ → Type 0) (n : ℕ) (a b : Postings)
    → Sorted P 0 n a
    → Sorted P 0 n b
    → SortedDim P n (pair a b)
unfolding pair
pair-SortedDim P n [] [] s t = tt
pair-SortedDim P n [] (b ∷ bs) s t = (t, tt)
pair-SortedDim P n (a ∷ l) [] s t = (s, tt)
pair-SortedDim P n (a ∷ l) (b ∷ bs) s t = (s, (t, tt))

pub keep_list-InDim :
    (j : ℕ) (l : Postings) (rest : List Postings) → Holds j l → InDim j (keep_list l rest)
unfolding keep_list
keep_list-InDim j [] rest h = absurd h
keep_list-InDim j (x ∷ l) rest h = inl h

pub InDim-keep_list :
    (j : ℕ) (l : Postings) (rest : List Postings) → InDim j rest → InDim j (keep_list l rest)
unfolding keep_list
InDim-keep_list j [] rest h = h
InDim-keep_list j (x ∷ l) rest h = inr h

pub keep_list-SortedDim :
    (P : ℕ → Type 0) (n : ℕ) (l : Postings) (rest : List Postings)
    → Sorted P 0 n l
    → SortedDim P n rest
    → SortedDim P n (keep_list l rest)
unfolding keep_list
keep_list-SortedDim P n [] rest s t = t
keep_list-SortedDim P n (x ∷ l) rest s t = (s, t)
