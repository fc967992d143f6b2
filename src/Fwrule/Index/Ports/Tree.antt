-- ===== src/Fwrule/Index/Ports/Tree.antt =====
-- The segment tree: a port of an inserted range has a node with the position on its way to the root.
use native.Mathlib.Nat.{pow-suc}
use rulehawk.Fwrule.Index.Ports.Levels.{
  lower_end, upper_end, upper_end-le, level_cases, last_level, next_room,
}
use rulehawk.Common.{
  ℕ, ◌^◌, suc, Bool, Holds, ◌≤◌, ◌<◌, ◌⊎◌, ◌≡◌, Bool-cases, inl, ◌+◌, ◌==◌, ltb, true, inr, ◌/◌,
  ◌-◌, zero, false, arith, subst, sym, ltb→lt, [], ◌∙◌, refl,
}
use rulehawk.Fwrule.Index.Table.{Table, put_at-Sorted, Holds-put_at_old, Holds-put_at_new, put_at}
use rulehawk.Fwrule.Index.Ports.{put_if, insert_loop, odd, tree_lists}
use rulehawk.Fwrule.Postings.Sorted.{
  Sorted, InDim, keep_list-InDim, SortedDim, keep_list-SortedDim, InDim-keep_list,
}

-- The position stands at one of `fuel` nodes from a node upwards.
abbrev pub InTree : ℕ → Table ℕ → ℕ → ℕ → Type 0
InTree j tree zero node = ⊥
InTree j tree (suc fuel) node = Holds j (tree node) ⊎ InTree j tree fuel (node / 2)

two_pow-suc : (f : ℕ) → 2 ^ suc f ≡ 2 ^ f + 2 ^ f
two_pow-suc f = omega (arith, pow-suc 2 f)

two_pow-pos : (f : ℕ) → 0 < 2 ^ f
two_pow-pos zero = omega arith
two_pow-pos (suc f) = omega (arith, two_pow-suc f, two_pow-pos f)

put_if-Sorted :
    (P : ℕ → Type 0) (n : ℕ) (b : Bool) (tree : Table ℕ) (node : ℕ)
    → P n
    → ((k : ℕ) → Sorted P 0 (suc n) (tree k))
    → (k : ℕ) → Sorted P 0 (suc n) (put_if b tree node n k)
unfolding put_if
put_if-Sorted P n true tree node p s = put_at-Sorted ◌==◌ P n tree node p s
put_if-Sorted P n false tree node p s = s

pub insert_loop-Sorted :
    (P : ℕ → Type 0) (n fuel : ℕ) (tree : Table ℕ) (lo hi : ℕ)
    → P n
    → ((k : ℕ) → Sorted P 0 (suc n) (tree k))
    → (k : ℕ) → Sorted P 0 (suc n) (insert_loop fuel tree n lo hi k)
unfolding insert_loop
insert_loop-Sorted P n zero tree lo hi p s = s
insert_loop-Sorted P n (suc fuel) tree lo hi p s = elim (Bool-cases (ltb lo hi)) [
  | inl e ↦ rw e (
      insert_loop-Sorted P n fuel _ _ _ p
        (put_if-Sorted P n (odd hi) _ (hi - 1) p (put_if-Sorted P n (odd lo) tree lo p s)))
  | inr e ↦ rw e s
]

Holds-put_if :
    (j n : ℕ) (b : Bool) (tree : Table ℕ) (node k : ℕ)
    → Holds j (tree k)
    → Holds j (put_if b tree node n k)
unfolding put_if
Holds-put_if j n true tree node k h = Holds-put_at_old ◌==◌ j n tree node k h
Holds-put_if j n false tree node k h = h

-- Insertion takes no position away.
pub Holds-insert_loop :
    (j n fuel : ℕ) (tree : Table ℕ) (lo hi k : ℕ)
    → Holds j (tree k)
    → Holds j (insert_loop fuel tree n lo hi k)
unfolding insert_loop
Holds-insert_loop j n zero tree lo hi k h = h
Holds-insert_loop j n (suc fuel) tree lo hi k h = elim (Bool-cases (ltb lo hi)) [
  | inl e ↦ rw e (
      Holds-insert_loop j n fuel _ _ _ k
        (Holds-put_if j n (odd hi) _ (hi - 1) k (Holds-put_if j n (odd lo) tree lo k h)))
  | inr e ↦ rw e h
]

Holds-put_if_new :
    (n : ℕ) (b : Bool) (tree : Table ℕ) (node : ℕ) → b ≡ true → Holds n (put_if b tree node n node)
unfolding put_if
Holds-put_if_new n true tree node e = Holds-put_at_new ◌==◌ n tree node (ground arith)
Holds-put_if_new n false tree node e = cc

pub InTree-mono :
    (j fuel : ℕ) (t u : Table ℕ) (node : ℕ)
    → ((k : ℕ) → Holds j (t k) → Holds j (u k))
    → InTree j t fuel node
    → InTree j u fuel node
InTree-mono j zero t u node f h = h
InTree-mono j (suc fuel) t u node f (inl h) = inl (f node h)
InTree-mono j (suc fuel) t u node f (inr h) = inr (InTree-mono j fuel t u (node / 2) f h)

module _ (n fuel : ℕ) (tree : Table ℕ) (lo hi : ℕ) (room : lo < hi) where
  abbrev marked : Table ℕ
  marked = put_if (odd hi) (put_if (odd lo) tree lo n) (hi - 1) n

  insert_loop_step :
      insert_loop (suc fuel) tree n lo hi ≡ insert_loop fuel marked n (lower_end lo) (upper_end hi)
  unfolding insert_loop
  insert_loop_step = let e : ltb lo hi ≡ true = ground arith in rw e

  marked-Holds : (k : ℕ) → Holds n (marked k) → Holds n (insert_loop (suc fuel) tree n lo hi k)
  marked-Holds k h = rw insert_loop_step (Holds-insert_loop n n fuel marked _ _ k h)

  marked_lower : (q : ℕ) → odd lo ≡ true → lo ≡ q → Holds n (marked q)
  marked_lower q o e =
      Holds-put_if n n (odd hi) (put_if (odd lo) tree lo n) (hi - 1) q (
        subst (λ k. Holds n (put_if (odd lo) tree lo n k)) e
          (Holds-put_if_new n (odd lo) tree lo o))

  marked_upper : (q : ℕ) → odd hi ≡ true → hi - 1 ≡ q → Holds n (marked q)
  marked_upper q o e =
      subst (λ k. Holds n (marked k)) e
        (Holds-put_if_new n (odd hi) (put_if (odd lo) tree lo n) (hi - 1) o)

-- With room for fewer than 2 ^ (fuel + 1) nodes, every node of the range is found on its way up.
pub insert_loop-InTree :
    (n fuel : ℕ) (tree : Table ℕ) (lo hi q : ℕ)
    → hi < lo + 2 ^ suc fuel
    → lo ≤ q
    → q < hi
    → InTree n (insert_loop (suc fuel) tree n lo hi) (suc fuel) q
insert_loop-InTree n zero tree lo hi q small p r = elim (level_cases lo hi q p r) [
  | inl (o, e) ↦ inl (
      marked-Holds n 0 tree lo hi (omega arith) q (marked_lower n 0 tree lo hi (omega arith) q o e))
  | inr later ↦ elim later [
    | inl (o, e) ↦ inl (
        marked-Holds n 0 tree lo hi (omega arith) q
          (marked_upper n 0 tree lo hi (omega arith) q o e))
    | inr (low, high) ↦ absurd (last_level lo hi q small low high)
  ]
]
insert_loop-InTree n (suc fuel) tree lo hi q small p r = elim (level_cases lo hi q p r) [
  | inl (o, e) ↦ inl (
      marked-Holds n (suc fuel) tree lo hi (omega arith) q
        (marked_lower n (suc fuel) tree lo hi (omega arith) q o e))
  | inr later ↦ elim later [
    | inl (o, e) ↦ inl (
        marked-Holds n (suc fuel) tree lo hi (omega arith) q
          (marked_upper n (suc fuel) tree lo hi (omega arith) q o e))
    | inr (low, high) ↦ inr (
        subst (λ t. InTree n t (suc fuel) (q / 2))
          (sym (insert_loop_step n (suc fuel) tree lo hi (omega arith)))
          (insert_loop-InTree n fuel (marked n (suc fuel) tree lo hi (omega arith)) (lower_end lo)
            (upper_end hi) (q / 2)
            (next_room lo hi (2 ^ suc fuel) (omega (arith, two_pow-suc (suc fuel))) (omega arith))
            low high))
  ]
]

-- The query loop goes through the same nodes, and none of them is 0.
pub tree_lists-InDim :
    (j fuel : ℕ) (tree : Table ℕ) (node : ℕ)
    → 2 ^ fuel ≤ node
    → InTree j tree (suc fuel) node
    → InDim j (tree_lists tree (suc fuel) node)
unfolding tree_lists
tree_lists-InDim j zero tree node big h = elim (Bool-cases (node == 0)) [
  | inl e ↦ absurd (ground arith)
  | inr e ↦ rw e (elim h [ inl k ↦ keep_list-InDim j (tree node) [] k | inr k ↦ absurd k ])
]
tree_lists-InDim j (suc fuel) tree node big h = elim (Bool-cases (node == 0)) [
  | inl e ↦ absurd (ground (arith, two_pow-suc fuel, two_pow-pos fuel))
  | inr e ↦ rw e (elim h [
    | inl k ↦ keep_list-InDim j (tree node) _ k
    | inr k ↦
        InDim-keep_list j (tree node) _
          (tree_lists-InDim j fuel tree (node / 2) (omega (arith, two_pow-suc fuel)) k)
  ])
]

pub tree_lists-SortedDim :
    (P : ℕ → Type 0) (n fuel : ℕ) (tree : Table ℕ) (node : ℕ)
    → ((k : ℕ) → Sorted P 0 n (tree k))
    → SortedDim P n (tree_lists tree fuel node)
unfolding tree_lists
tree_lists-SortedDim P n zero tree node s = tt
tree_lists-SortedDim P n (suc fuel) tree node s = elim (Bool-cases (node == 0)) [
  | inl e ↦ rw e tt
  | inr e ↦ rw e (
      keep_list-SortedDim P n (tree node) _ (s node)
        (tree_lists-SortedDim P n fuel tree (node / 2) s))
]

put_if_outside :
    (n : ℕ) (b : Bool) (tree : Table ℕ) (node k : ℕ) → node < k → put_if b tree node n k ≡ tree k
unfolding put_if put_at
put_if_outside n true tree node k lt = ground arith
put_if_outside n false tree node k lt = refl

-- An insertion writes no node from its upper end on.
pub insert_loop_outside :
    (n fuel : ℕ) (tree : Table ℕ) (lo hi k : ℕ) → hi ≤ k → insert_loop fuel tree n lo hi k ≡ tree k
unfolding insert_loop
insert_loop_outside n zero tree lo hi k top = refl
insert_loop_outside n (suc fuel) tree lo hi k top = elim (Bool-cases (ltb lo hi)) [
  | inl e ↦
      let lt : lo < hi = ltb→lt lo hi e in
      rw e (
        insert_loop_outside n fuel _ _ _ k (upper_end-le hi k top)
        ∙ put_if_outside n (odd hi) _ (hi - 1) k (omega arith)
        ∙ put_if_outside n (odd lo) tree lo k (omega arith))
  | inr e ↦ rw e
]
