-- ===== src/Fwrule/Index/Words.antt =====
-- The interface and the protocol of the index: a list of wildcards, and a bucket for each word.
use rulehawk.Common.{
  ℕ, [], Bool, List, ◌≡◌, if◌then◌else◌, suc, Bool-cases, true, Holds, inl, ◌⊎◌, arith, inr, subst,
  some, All, Any, ◌∷◌, sym, any→Any, any, ◌∙◌, ap, refl, some_inj,
}
use rulehawk.Fwrule.Postings.{Postings, pair, push}
use rulehawk.Common.Text.{
  Text, text_eq, text_eq_refl, text_eq→eq, trim, lower, drop_spaces, trim-lower, is_space,
}
use rulehawk.Fwrule.Postings.Sorted.{
  Sorted, InDim, push-Sorted, Holds-push_new, Holds-push_old, pair-InDim, Sorted-suc, SortedDim,
  pair-SortedDim,
}
use rulehawk.Fwrule.Rule.{iface_covers, proto_covers, one_of, iface_words, proto_words, norm}
use rulehawk.Fwrule.Index.Table.{
  Table, push_at, Holds-push_at_new, Holds-push_at_old, push_at-Sorted,
}
use rulehawk.Fwrule.Index.Dimension.{Dimension}

-- `ifaceWild` with `ifaceEq`, or `protoWild` with `protoEq`.
pub record WordDim : Type 0 where
  pub wild : Postings
  pub eq : Table Text

abbrev pub no_words : WordDim
no_words = record { wild = []; eq = λ k. [] }

unfoldable pub iface_wildcard : Text → Bool
iface_wildcard a = one_of iface_words (norm a)

unfoldable pub proto_wildcard : Text → Bool
proto_wildcard p = one_of proto_words (norm p)

-- The first two tests of `add`.
unfoldable pub add_word : (Text → Bool) → WordDim → ℕ → Text → WordDim
add_word wildcard d idx a =
    if wildcard a
    then record d { wild = push d.wild idx }
    else record d { eq = push_at text_eq d.eq (norm a) idx }

unfoldable pub query_word : WordDim → Text → List Postings
query_word d a = pair d.wild (d.eq (norm a))

pub record IsSorted (P : ℕ → Type 0) (n : ℕ) (d : WordDim) : Type 0 where
  pub wild_sorted : Sorted P 0 n d.wild
  pub eq_sorted : (k : Text) → Sorted P 0 n (d.eq k)

module _ (wildcard : Text → Bool) where
  abbrev pub Has : WordDim → ℕ → Text → Type 0
  Has d j a = if wildcard a then Holds j d.wild else Holds j (d.eq (norm a))

  pub add_word-IsSorted :
      (P : ℕ → Type 0) (n : ℕ) (d : WordDim) (a : Text)
      → P n
      → IsSorted P n d
      → IsSorted P (suc n) (add_word wildcard d n a)
  unfolding add_word
  add_word-IsSorted P n d a p s = elim (Bool-cases (wildcard a)) [
    | inl e ↦ rw e (record {
      wild_sorted = push-Sorted P 0 n d.wild (omega arith) p s.wild_sorted;
      eq_sorted = λ k. Sorted-suc P 0 n (d.eq k) (s.eq_sorted k);
    })
    | inr e ↦ rw e (record {
      wild_sorted = Sorted-suc P 0 n d.wild s.wild_sorted;
      eq_sorted = push_at-Sorted text_eq P n d.eq (norm a) p s.eq_sorted;
    })
  ]

  pub add_word-Has_new : (d : WordDim) (n : ℕ) (a : Text) → Has (add_word wildcard d n a) n a
  unfolding add_word
  add_word-Has_new d n a = elim (Bool-cases (wildcard a)) [
    | inl e ↦ rw e (Holds-push_new n d.wild)
    | inr e ↦ rw e (Holds-push_at_new text_eq n d.eq (norm a) (text_eq_refl (norm a)))
  ]

  pub add_word-Has_old :
      (d : WordDim) (j n : ℕ) (a b : Text) → Has d j b → Has (add_word wildcard d n a) j b
  unfolding add_word
  add_word-Has_old d j n a b h = elim (Bool-cases (wildcard a)) [
    | inl e ↦ elim (Bool-cases (wildcard b)) [
      | inl w ↦ rw (e, w) (Holds-push_old j n d.wild (rw w at h))
      | inr w ↦ rw (e, w) (rw w at h)
    ]
    | inr e ↦ elim (Bool-cases (wildcard b)) [
      | inl w ↦ rw (e, w) (rw w at h)
      | inr w ↦ rw (e, w) (Holds-push_at_old text_eq j n d.eq (norm a) (norm b) (rw w at h))
    ]
  ]

  pub query_word-SortedDim :
      (P : ℕ → Type 0) (n : ℕ) (d : WordDim) (a : Text) (lists : List Postings)
      → IsSorted P n d
      → some (query_word d a) ≡ some lists
      → SortedDim P n lists
  unfolding query_word
  query_word-SortedDim P n d a lists s e =
      subst (SortedDim P n) (some_inj e)
        (pair-SortedDim P n d.wild (d.eq (norm a)) s.wild_sorted (s.eq_sorted (norm a)))

  -- A word that covers another is a wildcard or the same word.
  abbrev pub Covering : (Text → Text → Bool) → Type 0
  Covering covers = (a b : Text) → covers a b ≡ true → (wildcard a ≡ true) ⊎ (norm a ≡ norm b)

  pub query_word_complete :
      (covers : Text → Text → Bool) (d : WordDim) (j : ℕ) (a b : Text)
      → Covering covers
      → Has d j a
      → covers a b ≡ true
      → InDim j (query_word d b)
  unfolding query_word
  query_word_complete covers d j a b c h e = elim (Bool-cases (wildcard a)) [
    | inl w ↦ pair-InDim j d.wild (d.eq (norm b)) (inl (rw w at h))
    | inr w ↦ elim (c a b e) [
      | inl w' ↦ cc
      | inr same ↦
          pair-InDim j d.wild (d.eq (norm b)) (inr (subst (λ k. Holds j (d.eq k)) same (rw w at h)))
    ]
  ]

  abbrev pub word_dimension : (covers : Text → Text → Bool) → Covering covers → Dimension Text
  word_dimension covers c = record {
    Dim = WordDim;
    add = add_word wildcard;
    query = λ d a. some (query_word d a);
    covers = covers;
    IsClean = λ a. Unit;
    IsSorted = IsSorted;
    Has = Has;
    skip-IsSorted = λ P n d s. record {
      wild_sorted = Sorted-suc P 0 n d.wild s.wild_sorted;
      eq_sorted = λ k. Sorted-suc P 0 n (d.eq k) (s.eq_sorted k);
    };
    add-IsSorted = add_word-IsSorted;
    add-Has_new = add_word-Has_new;
    add-Has_old = add_word-Has_old;
    query-SortedDim = query_word-SortedDim;
    query_complete = λ d j f g lists _ _ h c' e.
        subst (InDim j) (some_inj e) (query_word_complete covers d j f g c h c');
  }

pub iface_Covering :
    (a b : Text) → iface_covers a b ≡ true → (iface_wildcard a ≡ true) ⊎ (norm a ≡ norm b)
unfolding iface_covers iface_wildcard
iface_Covering a b h = elim (Bool-cases (one_of iface_words (norm a))) [
  | inl e ↦ inl e
  | inr e ↦ inr (text_eq→eq (norm a) (norm b) (rw e at h))
]

-- What holds of each word holds of a text that is one of them.
one_of_elim :
    (P : Text → Type 0) (words : List Text) (s : Text) → All P words → one_of words s ≡ true → P s
unfolding one_of
one_of_elim P words s h e = find words h (any→Any (text_eq s) words e)
  where
    find : (ws : List Text) → All P ws → Any (λ w. text_eq s w ≡ true) ws → P s
    find [] h a = absurd a
    find (w ∷ ws) h (inl a) = rw (text_eq→eq s w a) h.0
    find (w ∷ ws) h (inr a) = find ws h.1 a

one_of_trimmed : (s : Text) → one_of proto_words s ≡ true → one_of proto_words (trim s) ≡ true
unfolding one_of trim drop_spaces is_space text_eq any
one_of_trimmed s =
    one_of_elim (λ w. one_of proto_words (trim w) ≡ true) proto_words s
      (refl, (refl, (refl, (refl, (refl, tt)))))

pub proto_Covering :
    (a b : Text) → proto_covers a b ≡ true → (proto_wildcard a ≡ true) ⊎ (norm a ≡ norm b)
unfolding proto_covers proto_wildcard
proto_Covering a b h = elim (Bool-cases (one_of proto_words (lower a))) [
  | inl e ↦ inl (unfold norm in rw (← trim-lower a) (one_of_trimmed (lower a) e))
  | inr e ↦
      let same : lower a ≡ lower b = text_eq→eq (lower a) (lower b) (rw e at h) in
      unfold norm in inr (sym (trim-lower a) ∙ ap trim same ∙ trim-lower b)
]
