-- ===== src/Fwrule/Index/Addrs/Query.antt =====
-- A query of the address dimension returns every list that a covering rule may stand in.
use rulehawk.Fwrule.Index.Addrs.Parsing.{
  canon_of-none, canon_of-some, to_net-IsNet, is_plain-unmapped,
}
use rulehawk.Common.{
  ℕ, List, ◌≡◌, any, all, Holds, ◌≤◌, Option, none, some, true, All, ◌∷◌, ◌<◌, inl, inr, suc,
  Option-cases, Bool-cases, ◌+◌, [], arith, Any, or-eq-true, subst, and-eq-true, ◌==◌, zero, ==_iff,
  any→Any, refl,
}
use rulehawk.Fwrule.Index.Addrs.{
  prefix_lists, query_first, query_addrs, canon_of, AddrDim, Canon, cidr_key,
}
use rulehawk.Fwrule.Rule.{
  to_net, contains_string, any_net_contains, addr_covered, to_nets, addrs_cover, norm, any_addr,
  net_contains,
}
use rulehawk.Fwrule.Index.Addrs.Laws.{is_plain, IsSorted, IsClean, HasAddr, Has, HasCanon}
use rulehawk.Fwrule.Postings.{pair, keep_list}
use rulehawk.Common.Text.{Text, text_eq, text_eq→eq}
use rulehawk.Net.{IpNet}
use rulehawk.Fwrule.Postings.Sorted.{
  InDim, SortedDim, pair-SortedDim, pair-InDim, keep_list-InDim, keep_list-SortedDim,
  InDim-keep_list,
}
use rulehawk.Fwrule.Index.Addrs.Nets.{Listed, net_contains-Listed}
use rulehawk.Fwrule.Rule.Parsed.{to_nets-none, to_nets-some, addr_covered-none, addr_covered-some}

-- The loop visits every length from `l` on.
prefix_lists-InDim :
    (d : AddrDim) (c : Canon) (j count l k : ℕ)
    → l ≤ k
    → k < l + count
    → d.lens c.fam k ≡ true
    → Holds j (d.net (cidr_key c.addr k c.fam))
    → InDim j (prefix_lists d c count l)
unfolding prefix_lists
prefix_lists-InDim d c j zero l k le lt e h = absurd (omega arith)
prefix_lists-InDim d c j (suc count) l k le lt e h = elim (Bool-cases (l == k)) [
  | inl here ↦
      let same : l ≡ k = (==_iff l k).0 here in
      rw (same, e) (keep_list-InDim j (d.net (cidr_key c.addr k c.fam)) _ h)
  | inr later ↦
      let rest = prefix_lists-InDim d c j count (l + 1) k (ground arith) (omega arith) e h in
      elim (Bool-cases (d.lens c.fam l)) [
        | inl on ↦ rw on (InDim-keep_list j (d.net (cidr_key c.addr l c.fam)) _ rest)
        | inr off ↦ rw off rest
      ]
]

prefix_lists-SortedDim :
    (P : ℕ → Type 0) (n : ℕ) (d : AddrDim) (c : Canon) (count l : ℕ)
    → IsSorted P n d
    → SortedDim P n (prefix_lists d c count l)
unfolding prefix_lists
prefix_lists-SortedDim P n d c zero l s = tt
prefix_lists-SortedDim P n d c (suc count) l s =
    let rest = prefix_lists-SortedDim P n d c count (l + 1) s in
    elim (Bool-cases (d.lens c.fam l)) [
      | inl on ↦ rw on (keep_list-SortedDim P n _ _ (s.net_sorted (cidr_key c.addr l c.fam)) rest)
      | inr off ↦ rw off rest
    ]

module _ (d : AddrDim) (be : Text) (rest : List Text) where
  query_first-none :
      canon_of be ≡ none → query_first d (be ∷ rest) ≡ pair d.any_list (d.str (norm be))
  unfolding query_first
  query_first-none e = rw (e, query_first)

  query_first-some :
      {c : Canon}
      → canon_of be ≡ some c
      → query_first d (be ∷ rest) ≡ keep_list d.any_list (prefix_lists d c (suc c.ones) 0)
  unfolding query_first
  query_first-some e = rw (e, query_first)

query_first-SortedDim :
    (P : ℕ → Type 0) (n : ℕ) (d : AddrDim) (g : List Text)
    → IsSorted P n d
    → SortedDim P n (query_first d g)
unfolding query_first
query_first-SortedDim P n d [] s = tt
query_first-SortedDim P n d (be ∷ rest) s = elim (Option-cases (canon_of be)) [
  | inl e ↦
      rw (query_first-none d be rest e)
        (pair-SortedDim P n d.any_list (d.str (norm be)) s.any_sorted (s.str_sorted (norm be)))
  | inr (c, e) ↦ rw (query_first-some d be rest e) (
      keep_list-SortedDim P n d.any_list _ s.any_sorted
        (prefix_lists-SortedDim P n d c (suc c.ones) 0 s))
]

pub query_addrs-SortedDim :
    (P : ℕ → Type 0) (n : ℕ) (d : AddrDim) (g : List Text)
    → IsSorted P n d
    → SortedDim P n (query_addrs d g)
unfolding query_addrs
query_addrs-SortedDim P n d g s = elim (Bool-cases (any_addr g)) [
  | inl e ↦ rw e (pair-SortedDim P n d.any_list [] s.any_sorted tt)
  | inr e ↦ rw e (query_first-SortedDim P n d g s)
]

-- A rule for any address stands in the first list of every query.
query_first-any :
    (d : AddrDim) (j : ℕ) (be : Text) (rest : List Text)
    → Holds j d.any_list
    → InDim j (query_first d (be ∷ rest))
unfolding query_first
query_first-any d j be rest h = elim (Option-cases (canon_of be)) [
  | inl e ↦ rw (query_first-none d be rest e) (pair-InDim j d.any_list (d.str (norm be)) (inl h))
  | inr (c, e) ↦ rw (query_first-some d be rest e) (keep_list-InDim j d.any_list _ h)
]

-- A listed network under a prefix of the first element is found.
HasCanon→InDim :
    (d : AddrDim) (j : ℕ) (be : Text) (rest : List Text) (o s : Option Canon)
    → canon_of be ≡ s
    → Listed o s
    → HasCanon d j o
    → InDim j (query_first d (be ∷ rest))
unfolding query_first
HasCanon→InDim d j be rest (some o) (some s) e l h = rw (query_first-some d be rest e) (
    InDim-keep_list j d.any_list _ (
      prefix_lists-InDim d s j (suc s.ones) 0 o.ones (omega arith) (omega arith)
        (subst (λ f. d.lens f o.ones ≡ true) l.0 h.1) (subst (λ k. Holds j (d.net k)) l.2 h.0)))
HasCanon→InDim d j be rest none s e l h = absurd l
HasCanon→InDim d j be rest (some o) none e l h = absurd l

-- An unparsed first element that is covered has the same text as an element of the cover.
string_found :
    (d : AddrDim) (j : ℕ) (f : List Text) (be : Text)
    → All (HasAddr d j) f
    → contains_string f be ≡ true
    → Holds j (d.str (norm be))
unfolding contains_string
string_found d j f be h e = find f h (any→Any _ f e)
  where
    find :
        (f : List Text)
        → All (HasAddr d j) f
        → Any (λ s. text_eq (norm s) (norm be) ≡ true) f
        → Holds j (d.str (norm be))
    find [] h a = absurd a
    find (s ∷ f) h (inl e) = subst (λ k. Holds j (d.str k)) (text_eq→eq (norm s) (norm be) e) h.0.0
    find (s ∷ f) h (inr a) = find f h.1 a

-- A covered network has a listed cover.
net_found :
    (d : AddrDim) (j : ℕ) (be : Text) (rest : List Text) (sub : IpNet)
    → to_net be ≡ some sub
    → is_plain be ≡ true
    → (f : List Text) → IsClean f
    → All (HasAddr d j) f
    → any_net_contains (to_nets f) sub ≡ true
    → InDim j (query_first d (be ∷ rest))
unfolding any_net_contains any
net_found d j be rest sub e plain [] clean h c = unfold to_nets in cc
net_found d j be rest sub e plain (a ∷ f) clean h c = elim (Option-cases (to_net a)) [
  | inl none_here ↦
      net_found d j be rest sub e plain f clean.1 h.1 (rw (to_nets-none a f none_here) at c)
  | inr (n, some_here) ↦
      elim (or-eq-true (net_contains n sub) _ (rw (to_nets-some a f some_here) at c)) [
        | inl inside ↦
            HasCanon→InDim d j be rest (canon_of a) (canon_of be) refl
              (rw (canon_of-some a n some_here, canon_of-some be sub e)
                (net_contains-Listed n sub (to_net-IsNet a n some_here) (to_net-IsNet be sub e)
                  (is_plain-unmapped a n clean.0 some_here) (is_plain-unmapped be sub plain e)
                  inside))
              h.0.1
        | inr later ↦ net_found d j be rest sub e plain f clean.1 h.1 later
      ]
]

first_found :
    (d : AddrDim) (j : ℕ) (f : List Text) (be : Text) (rest : List Text)
    → IsClean f
    → is_plain be ≡ true
    → All (HasAddr d j) f
    → addr_covered f be ≡ true
    → InDim j (query_first d (be ∷ rest))
first_found d j f be rest clean plain h c = elim (Option-cases (to_net be)) [
  | inl e ↦
      unfold query_first in
      rw (query_first-none d be rest (canon_of-none be e)) (
        pair-InDim j d.any_list (d.str (norm be))
          (inr (string_found d j f be h (rw (addr_covered-none be f e) at c))))
  | inr (sub, e) ↦ net_found d j be rest sub e plain f clean h (rw (addr_covered-some be f e) at c)
]

-- Every rule whose addresses cover the asked ones stands in a list of the query.
pub query_addrs_complete :
    (d : AddrDim) (j : ℕ) (f g : List Text)
    → IsClean f
    → IsClean g
    → Has d j f
    → addrs_cover f g ≡ true
    → InDim j (query_addrs d g)
unfolding query_addrs addrs_cover all
query_addrs_complete d j f [] cf cg h c = elim (Bool-cases (any_addr f)) [
  | inl e ↦ unfold any_addr in pair-InDim j d.any_list [] (inl (rw e at h))
  | inr e ↦ unfold any_addr in let c' = rw e at c in cc
]
query_addrs_complete d j f (be ∷ rest) cf cg h c = elim (Bool-cases (any_addr f)) [
  | inl e ↦ elim (Bool-cases (any_addr (be ∷ rest))) [
    | inl w ↦ rw w (pair-InDim j d.any_list [] (inl (rw e at h)))
    | inr w ↦ rw w (query_first-any d j be rest (rw e at h))
  ]
  | inr e ↦ elim (Bool-cases (any_addr (be ∷ rest))) [
    | inl w ↦ let c' = rw (e, w) at c in cc
    | inr w ↦
        rw w (first_found d j f be rest cf cg.0 (rw e at h) (and-eq-true _ _ (rw (e, w) at c)).0)
  ]
]
