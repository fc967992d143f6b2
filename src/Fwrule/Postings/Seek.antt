-- ===== src/Fwrule/Postings/Seek.antt =====
-- `seekDim` finds the least posting from a floor on.
use rulehawk.Common.{
  ℕ, zero, suc, ◌+◌, ◌/◌, ◌≤◌, ◌<◌, ◌≡◌, refl, inl, inr, Bool, true, false, Option, none, some, [],
  ◌∷◌, Holds, length, get_or, ltb, Bool-cases, arith, ltb→lt, leb, ◌⊎◌, List, leb→le,
}
use rulehawk.Fwrule.Postings.{
  Postings, search_loop, sort_search, first_ge, seek_dim, better, seek_from,
}
use rulehawk.Fwrule.Postings.Sorted.{Sorted, SortedDim, InDim}

-- Where `sort.Search` stops: the test fails below and holds there, if the place is in range.
abbrev pub Boundary : ℕ → (ℕ → Bool) → ℕ → Type 0
Boundary n f k = (k ≤ n) × ((m : ℕ) → m < k → f m ≡ false) × (k < n → f k ≡ true)

module _ (n : ℕ) (f : ℕ → Bool) (mono : (a b : ℕ) → a ≤ b → b < n → f a ≡ true → f b ≡ true) where
  below_miss : (h : ℕ) → h < n → f h ≡ false → (m : ℕ) → m < h + 1 → f m ≡ false
  below_miss h in_range miss m lt = elim (Bool-cases (f m)) [
    | inl hit ↦ let e : f h ≡ true = mono m h (omega arith) in_range hit in cc
    | inr e ↦ e
  ]

  search_loop-Boundary :
      (fuel i j : ℕ)
      → i ≤ j
      → j ≤ n
      → j ≤ i + fuel
      → ((m : ℕ) → m < i → f m ≡ false)
      → (j < n → f j ≡ true)
      → Boundary n f (search_loop fuel i j f)
  unfolding search_loop
  search_loop-Boundary zero i j le top fits low high =
      let e : i ≡ j = omega arith in (omega arith, low, rw e high)
  search_loop-Boundary (suc fuel) i j le top fits low high = elim (Bool-cases (ltb i j)) [
    | inl go ↦
        let lt : i < j = ltb→lt i j go in
        elim (Bool-cases (f ((i + j) / 2))) [
          | inl hit ↦
              rw (go, hit)
                (search_loop-Boundary fuel i ((i + j) / 2) (omega arith) (omega arith) (omega arith)
                  low (λ _. hit))
          | inr miss ↦
              rw (go, miss)
                (search_loop-Boundary fuel ((i + j) / 2 + 1) j (omega arith) (omega arith)
                  (omega arith) (below_miss ((i + j) / 2) (omega arith) miss) high)
        ]
    | inr stop ↦ let e : i ≡ j = ground arith in rw stop (omega arith, low, rw e high)
  ]

  pub sort_search-Boundary : Boundary n f (sort_search n f)
  unfolding sort_search
  sort_search-Boundary =
      search_loop-Boundary n 0 n (omega arith) (omega arith) (omega arith) (λ m h. elim h [ ])
        (λ h. absurd (omega arith))

get_or_mono :
    (P : ℕ → Type 0) (lo hi : ℕ) (l : Postings) (a b : ℕ)
    → Sorted P lo hi l
    → a ≤ b
    → b < length l
    → (lo ≤ get_or l a 0) × (get_or l a 0 ≤ get_or l b 0)
get_or_mono P lo hi [] a b s le h = absurd (omega arith)
get_or_mono P lo hi (x ∷ l) zero zero s le h = (s.0, omega arith)
get_or_mono P lo hi (x ∷ l) (suc a) zero s le h = absurd (omega arith)
get_or_mono P lo hi (x ∷ l) zero (suc b) s le h =
    let later = get_or_mono P (suc x) hi l b b s.3 (omega arith) (omega arith) in
    let first = s.0 in (first, omega arith)
get_or_mono P lo hi (x ∷ l) (suc a) (suc b) s le h =
    let later = get_or_mono P (suc x) hi l a b s.3 (omega arith) (omega arith) in
    let first = s.0 in (omega arith, later.1)

Holds→get_or : (j : ℕ) (l : Postings) → Holds j l → (i : ℕ) × (i < length l) × (get_or l i 0 ≡ j)
Holds→get_or j [] h = absurd h
Holds→get_or j (x ∷ l) (inl e) = (0, omega arith, cc)
Holds→get_or j (x ∷ l) (inr h) = let (i, lt, e) = Holds→get_or j l h in (suc i, omega arith, e)

get_or-Holds : (i : ℕ) (l : Postings) → i < length l → Holds (get_or l i 0) l
get_or-Holds i [] h = absurd (omega arith)
get_or-Holds zero (x ∷ l) h = inl refl
get_or-Holds (suc i) (x ∷ l) h = inr (get_or-Holds i l (omega arith))

-- The least member of `S` from `x` on, if there is one.
abbrev pub Least : (ℕ → Type 0) → ℕ → Option ℕ → Type 0
Least S x none = (w : ℕ) → S w → w < x
Least S x (some v) = S v × (x ≤ v) × ((w : ℕ) → S w → x ≤ w → v ≤ w)

module _ (P : ℕ → Type 0) (n : ℕ) (l : Postings) (x : ℕ) (s : Sorted P 0 n l) where
  boundary :
      Boundary
        (length l)
        (λ i. leb x (get_or l i 0))
        (sort_search (length l) (λ i. leb x (get_or l i 0)))
  boundary =
      sort_search-Boundary (length l) (λ i. leb x (get_or l i 0))
        λ a b le lt hit. let later = get_or_mono P 0 n l a b s le lt in ground arith

  first_ge-Least : Least (λ w. Holds w l) x (first_ge l x)
  unfolding first_ge
  first_ge-Least =
      elim (Bool-cases (ltb (sort_search (length l) (λ i. leb x (get_or l i 0))) (length l))) [
        | inl go ↦ rw go (
          get_or-Holds k l (ltb→lt _ _ go),
          leb→le _ _ (boundary.2 (ltb→lt _ _ go)),
          λ w h le.
              let (i, lt, e) = Holds→get_or w l h in
              elim (Bool-cases (ltb i k)) [
                | inl before ↦ let miss = boundary.1 i (ltb→lt _ _ before) in absurd (ground arith)
                | inr from ↦ let later = get_or_mono P 0 n l k i s (ground arith) lt in omega arith
              ],
        )
        | inr stop ↦ rw stop λ w h.
            let (i, lt, e) = Holds→get_or w l h in
            let top = boundary.0 in let miss = boundary.1 i (ground arith) in ground arith
      ]
    where
      k : ℕ
      k = sort_search (length l) (λ i. leb x (get_or l i 0))

Least-iff :
    (S T : ℕ → Type 0) (x : ℕ) (r : Option ℕ)
    → ((w : ℕ) → S w → T w)
    → ((w : ℕ) → T w → S w)
    → Least S x r
    → Least T x r
Least-iff S T x none to from h = λ w t. h w (from w t)
Least-iff S T x (some v) to from h = (to v h.0, h.1, λ w t. h.2 w (from w t))

better-Least :
    (S T : ℕ → Type 0) (x : ℕ) (a b : Option ℕ)
    → Least S x a
    → Least T x b
    → Least (λ w. S w ⊎ T w) x (better a b)
unfolding better
better-Least S T x none none p q = λ w. elim [ inl s ↦ p w s | inr t ↦ q w t ]
better-Least S T x none (some b) p q =
    (inr q.0, q.1, λ w. elim [ inl s ↦ λ le. absurd (not_both w le (p w s)) | inr t ↦ q.2 w t ])
  where
    not_both : (w : ℕ) → x ≤ w → w < x → ⊥
    not_both w le lt = omega arith
better-Least S T x (some a) none p q =
    (inl p.0, p.1, λ w. elim [ inl s ↦ p.2 w s | inr t ↦ λ le. absurd (not_both w le (q w t)) ])
  where
    not_both : (w : ℕ) → x ≤ w → w < x → ⊥
    not_both w le lt = omega arith
better-Least S T x (some a) (some b) p q = elim (Bool-cases (ltb a b)) [
  | inl e ↦ rw e (
    inl p.0,
    p.1,
    λ w. elim [ inl s ↦ p.2 w s | inr t ↦ λ le. let far = q.2 w t le in ground arith ],
  )
  | inr e ↦ rw e (
    inr q.0,
    q.1,
    λ w. elim [ inl s ↦ λ le. let far = p.2 w s le in ground arith | inr t ↦ q.2 w t ],
  )
]

seek_from-Least :
    (P : ℕ → Type 0) (n x : ℕ) (S : ℕ → Type 0) (best : Option ℕ) (lists : List Postings)
    → SortedDim P n lists
    → Least S x best
    → Least (λ w. S w ⊎ InDim w lists) x (seek_from best lists x)
unfolding seek_from
seek_from-Least P n x S best [] s h =
    Least-iff S _ x best (λ w. inl) (λ w. elim [ inl k ↦ k | inr k ↦ absurd k ]) h
seek_from-Least P n x S best (l ∷ lists) s h =
    Least-iff _ _ x _
      (λ w. elim [ inl k ↦ elim k [ inl i ↦ inr (inl i) | inr i ↦ inl i ] | inr k ↦ inr (inr k) ])
      (λ w. elim [ inl k ↦ inl (inr k) | inr k ↦ elim k [ inl i ↦ inl (inl i) | inr i ↦ inr i ] ])
      (seek_from-Least P n x (λ w. Holds w l ⊎ S w) (better (first_ge l x) best) lists s.1
        (better-Least (λ w. Holds w l) S x (first_ge l x) best (first_ge-Least P n l x s.0) h))

-- Over ascending lists `seekDim` returns the least posting from the floor on, or finds that there is
-- none.
pub seek_dim-Least :
    (P : ℕ → Type 0) (n x : ℕ) (lists : List Postings)
    → SortedDim P n lists
    → Least (λ w. InDim w lists) x (seek_dim lists x)
unfolding seek_dim
seek_dim-Least P n x lists s =
    Least-iff _ _ x _ (λ w. elim [ inl k ↦ absurd k | inr k ↦ k ]) (λ w. inr)
      (seek_from-Least P n x (λ w. ⊥) none lists s (λ w k. absurd k))
