-- ===== src/Fwrule/Index/Ports/Query.antt =====
-- A query of the port dimension returns every list that a covering rule may stand in.
use rulehawk.Common.{
  ℕ, any, ◌≡◌, Option, List, true, all, none, some, false, All, Option-cases, Bool-cases, subst,
  Holds, inl, some_inj, [], ◌∙◌, ◌∷◌, Any, sym, inr, ◌&&◌, or-eq-true, and-eq-true, any→Any, ◌≤◌,
  arith, ◌+◌,
}
use rulehawk.Fwrule.Index.Ports.{
  point_lists, query_range, query_first, query_ports, first_range, PortDim, is_weird, port_space,
  levels,
}
use rulehawk.Fwrule.Rule.{
  range_contains, contains_string, range_covered_by, to_ranges, PortRange, ports_cover, to_range,
  any_port, norm, port_covered,
}
use rulehawk.Common.Text.{Text, text_eq, text_eq→eq}
use rulehawk.Fwrule.Index.Ports.Laws.{IsSorted, HasRange, HasPort, Has}
use rulehawk.Fwrule.Postings.{Postings, keep_list}
use rulehawk.Fwrule.Postings.Sorted.{
  SortedDim, InDim, pair-SortedDim, pair-InDim, InDim-keep_list, keep_list-SortedDim,
  keep_list-InDim,
}
use rulehawk.Common.Int.{ltb_ℤ, leb_ℤ, pos, pos_part}
use rulehawk.Fwrule.Rule.Parsed.{
  to_ranges-none, to_ranges-some, port_covered-none, port_covered-some,
}
use rulehawk.Fwrule.Index.Ports.Tree.{tree_lists-SortedDim, InTree, tree_lists-InDim}

point_lists-SortedDim :
    (P : ℕ → Type 0) (n : ℕ) (d : PortDim) (r : PortRange)
    → IsSorted P n d
    → SortedDim P n (point_lists d r)
unfolding point_lists
point_lists-SortedDim P n d r s =
    elim (Bool-cases (leb_ℤ (pos 0) r.lo && ltb_ℤ r.lo (pos port_space))) [
      | inl e ↦
          rw e (tree_lists-SortedDim P n levels d.tree (port_space + pos_part r.lo) s.tree_sorted)
      | inr e ↦ rw e tt
    ]

query_range-SortedDim :
    (P : ℕ → Type 0) (n : ℕ) (d : PortDim) (be : Text) (o : Option PortRange)
    (lists : List Postings)
    → IsSorted P n d
    → query_range d be o ≡ some lists
    → SortedDim P n lists
unfolding query_range
query_range-SortedDim P n d be none lists s e =
    subst (SortedDim P n) (some_inj e)
      (pair-SortedDim P n d.any_list (d.str (norm be)) s.any_sorted (s.str_sorted (norm be)))
query_range-SortedDim P n d be (some r) lists s e = elim (Bool-cases (ltb_ℤ r.hi r.lo)) [
  | inl w ↦ let e' = rw w at e in cc
  | inr w ↦ subst (SortedDim P n) (some_inj (rw w at e)) (
      keep_list-SortedDim P n d.any_list _ s.any_sorted
        (keep_list-SortedDim P n d.weird _ s.weird_sorted (point_lists-SortedDim P n d r s)))
]

query_first-SortedDim :
    (P : ℕ → Type 0) (n : ℕ) (d : PortDim) (g : List Text) (lists : List Postings)
    → IsSorted P n d
    → query_first d g ≡ some lists
    → SortedDim P n lists
unfolding query_first
query_first-SortedDim P n d [] lists s e = subst (SortedDim P n) (some_inj e) tt
query_first-SortedDim P n d (be ∷ rest) lists s e =
    query_range-SortedDim P n d be (first_range be) lists s e

pub query_ports-SortedDim :
    (P : ℕ → Type 0) (n : ℕ) (d : PortDim) (g : List Text) (lists : List Postings)
    → IsSorted P n d
    → query_ports d g ≡ some lists
    → SortedDim P n lists
unfolding query_ports
query_ports-SortedDim P n d g lists s e = elim (Bool-cases (any_port g)) [
  | inl w ↦
      subst (SortedDim P n) (some_inj (rw w at e))
        (pair-SortedDim P n d.any_list [] s.any_sorted tt)
  | inr w ↦ query_first-SortedDim P n d g lists s (rw w at e)
]

first_range-none : (a : Text) → to_range a ≡ none → first_range a ≡ none
unfolding first_range to_ranges
first_range-none a e = rw (to_ranges-none a [] e, first_range)

first_range-some : (a : Text) (r : PortRange) → to_range a ≡ some r → first_range a ≡ some r
unfolding first_range
first_range-some a r e = rw (to_ranges-some a [] e, first_range)

-- A rule for any port stands in the first list of every query that prunes.
query_range-any :
    (d : PortDim) (j : ℕ) (be : Text) (o : Option PortRange) (lists : List Postings)
    → Holds j d.any_list
    → query_range d be o ≡ some lists
    → InDim j lists
unfolding query_range
query_range-any d j be none lists h e =
    subst (InDim j) (some_inj e) (pair-InDim j d.any_list (d.str (norm be)) (inl h))
query_range-any d j be (some r) lists h e = elim (Bool-cases (ltb_ℤ r.hi r.lo)) [
  | inl w ↦ let e' = rw w at e in cc
  | inr w ↦ subst (InDim j) (some_inj (rw w at e)) (keep_list-InDim j d.any_list _ h)
]

-- A port of the asked range is a port of the covering one.
first_port :
    (s r : PortRange)
    → range_contains s r ≡ true
    → is_weird s ≡ false
    → ltb_ℤ r.hi r.lo ≡ false
    → ((leb_ℤ (pos 0) r.lo && ltb_ℤ r.lo (pos port_space)) ≡ true)
      × (pos_part s.lo ≤ pos_part r.lo)
      × (pos_part r.lo ≤ pos_part s.hi)
unfolding range_contains is_weird
first_port s r c w o = ground arith

-- A covering range is weird, or has the first port of the asked one below one of its nodes.
covering_range :
    (d : PortDim) (j : ℕ) (s r : PortRange)
    → range_contains s r ≡ true
    → HasRange d j (some s)
    → ltb_ℤ r.hi r.lo ≡ false
    → InDim j (keep_list d.any_list (keep_list d.weird (point_lists d r)))
unfolding point_lists
covering_range d j s r c h o = InDim-keep_list j d.any_list _ (elim (Bool-cases (is_weird s)) [
  | inl w ↦ keep_list-InDim j d.weird _ (rw w at h)
  | inr w ↦
      let h' : (p : ℕ)
          → pos_part s.lo ≤ p
          → p ≤ pos_part s.hi
          → InTree j d.tree levels (port_space + p) =
        rw w at h in
      let (inside, low, high) = first_port s r c w o in
      InDim-keep_list j d.weird _ (
        rw inside (
          tree_lists-InDim j 16 d.tree (port_space + pos_part r.lo) (omega arith)
            (h' (pos_part r.lo) low high)))
])

-- An unparsed first element that is covered has the same text as an element of the cover.
string_found :
    (d : PortDim) (j : ℕ) (f : List Text) (be : Text)
    → All (HasPort d j) f
    → contains_string f be ≡ true
    → Holds j (d.str (norm be))
unfolding contains_string
string_found d j f be h e = find f h (any→Any _ f e)
  where
    find :
        (f : List Text)
        → All (HasPort d j) f
        → Any (λ s. text_eq (norm s) (norm be) ≡ true) f
        → Holds j (d.str (norm be))
    find [] h a = absurd a
    find (s ∷ f) h (inl e) = subst (λ k. Holds j (d.str k)) (text_eq→eq (norm s) (norm be) e) h.0.0
    find (s ∷ f) h (inr a) = find f h.1 a

range_found :
    (d : PortDim) (j : ℕ) (r : PortRange) (f : List Text)
    → All (HasPort d j) f
    → range_covered_by r (to_ranges f) ≡ true
    → ltb_ℤ r.hi r.lo ≡ false
    → InDim j (keep_list d.any_list (keep_list d.weird (point_lists d r)))
unfolding range_covered_by any
range_found d j r [] h c o = unfold to_ranges in cc
range_found d j r (a ∷ f) h c o = elim (Option-cases (to_range a)) [
  | inl e ↦ range_found d j r f h.1 (rw (to_ranges-none a f e) at c) o
  | inr (s, e) ↦ elim (or-eq-true (range_contains s r) _ (rw (to_ranges-some a f e) at c)) [
    | inl inside ↦ covering_range d j s r inside (rw (first_range-some a s e) at h.0.1) o
    | inr later ↦ range_found d j r f h.1 later o
  ]
]

query_range_found :
    (d : PortDim) (j : ℕ) (f : List Text) (be : Text) (o : Option PortRange) (lists : List Postings)
    → to_range be ≡ o
    → All (HasPort d j) f
    → port_covered f be ≡ true
    → query_range d be o ≡ some lists
    → InDim j lists
unfolding query_range
query_range_found d j f be none lists t h c e = subst (InDim j) (some_inj e) (
    pair-InDim j d.any_list (d.str (norm be))
      (inr (string_found d j f be h (rw (port_covered-none be f t) at c))))
query_range_found d j f be (some r) lists t h c e = elim (Bool-cases (ltb_ℤ r.hi r.lo)) [
  | inl w ↦ let e' = rw w at e in cc
  | inr w ↦
      subst (InDim j) (some_inj (rw w at e))
        (range_found d j r f h (rw (port_covered-some be f t) at c) w)
]

first_range-eq : (a : Text) → first_range a ≡ to_range a
first_range-eq a = elim (Option-cases (to_range a)) [
  | inl e ↦ first_range-none a e ∙ sym e
  | inr (r, e) ↦ first_range-some a r e ∙ sym e
]

-- Every rule whose ports cover the asked ones stands in a list of the query, if it prunes at all.
pub query_ports_complete :
    (d : PortDim) (j : ℕ) (f g : List Text) (lists : List Postings)
    → Has d j f
    → ports_cover f g ≡ true
    → query_ports d g ≡ some lists
    → InDim j lists
unfolding query_ports query_first ports_cover all
query_ports_complete d j f [] lists h c e = elim (Bool-cases (any_port f)) [
  | inl y ↦
      unfold any_port in subst (InDim j) (some_inj e) (pair-InDim j d.any_list [] (inl (rw y at h)))
  | inr y ↦ unfold any_port in let c' = rw y at c in cc
]
query_ports_complete d j f (be ∷ rest) lists h c e = elim (Bool-cases (any_port f)) [
  | inl y ↦ elim (Bool-cases (any_port (be ∷ rest))) [
    | inl w ↦ subst (InDim j) (some_inj (rw w at e)) (pair-InDim j d.any_list [] (inl (rw y at h)))
    | inr w ↦ query_range-any d j be (first_range be) lists (rw y at h) (rw w at e)
  ]
  | inr y ↦ elim (Bool-cases (any_port (be ∷ rest))) [
    | inl w ↦ let c' = rw (y, w) at c in cc
    | inr w ↦
        query_range_found d j f be (first_range be) lists (sym (first_range-eq be)) (rw y at h)
          (and-eq-true _ _ (rw (y, w) at c)).0 (rw w at e)
  ]
]
