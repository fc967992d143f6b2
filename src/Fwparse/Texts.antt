-- ===== src/Fwparse/Texts.antt =====
-- What is left of a list of texts when empty ones and repetitions are dropped and it is sorted.
use rulehawk.Common.{
  List, ◌∷◌, ◌≡◌, true, ◌⊎◌, [], inr, inl, refl, arith, Holds, any, ◌≢◌, false, ◌||◌, Bool-cases,
  ◌↔◌, false≢true, subst, or-eq-true, sym, ◌∙◌,
}
use rulehawk.Common.Text.{Text, text_lt, insert_text, sort_texts, text_eq, text_eq→eq, text_eq_iff}
use rulehawk.Fwrule.Rule.{one_of}
use rulehawk.Fwparse.Base.{is_blank, first_seen, dedupe_strings}

-- The texts stand in strictly ascending order.
abbrev pub Ascends : List Text → Type 0
Ascends [] = Unit
Ascends (s ∷ []) = Unit
Ascends (s ∷ t ∷ ts) = (text_lt s t ≡ true) × Ascends (t ∷ ts)

-- The order of texts is total, and no text is below itself.
text_lt-total : (s t : Text) → (text_lt s t ≡ true) ⊎ (text_lt t s ≡ true) ⊎ (s ≡ t)
unfolding text_lt
text_lt-total [] [] = inr (inr refl)
text_lt-total [] (b ∷ t) = inl refl
text_lt-total (a ∷ s) [] = inr (inl refl)
text_lt-total (a ∷ s) (b ∷ t) = ground (arith, text_lt-total s t)

-- No text of the list stands in it twice.
abbrev pub NoRepeat : List Text → Type 0
NoRepeat [] = Unit
NoRepeat (s ∷ ss) = (¬ Holds s ss) × NoRepeat ss

pub one_of-Holds : (ss : List Text) (s : Text) → (one_of ss s ≡ true) ↔ Holds s ss
unfolding one_of any
one_of-Holds [] s = (λ h. absurd (false≢true h), λ h. absurd h)
one_of-Holds (t ∷ ss) s = (
  λ h. elim (or-eq-true (text_eq s t) (one_of ss s) h) [
    | inl e ↦ inl (text_eq→eq s t e)
    | inr e ↦ inr ((one_of-Holds ss s).0 e)
  ],
  elim [
    | inl e ↦ let e' = (text_eq_iff s t).1 e in ground arith
    | inr e ↦ let e' = (one_of-Holds ss s).1 e in ground arith
  ],
)

-- A text is kept if it is not empty and has not been seen.
abbrev Kept : List Text → List Text → Text → Type 0
Kept seen ss x = Holds x ss × (x ≢ []) × (¬ Holds x seen)

pub is_blank-eq : (s : Text) → is_blank s ≡ true → s ≡ []
unfolding is_blank
is_blank-eq [] h = refl
is_blank-eq (c ∷ s) h = cc

is_blank-ne : (s : Text) → is_blank s ≡ false → s ≢ []
unfolding is_blank
is_blank-ne [] h e = cc
is_blank-ne (c ∷ s) h e = cc

module _ (s : Text) (seen ss : List Text) where
  first_seen-skip :
      (is_blank s || one_of seen s) ≡ true → first_seen seen (s ∷ ss) ≡ first_seen seen ss
  unfolding first_seen
  first_seen-skip e = rw (e, first_seen) refl

  first_seen-keep :
      (is_blank s || one_of seen s) ≡ false
      → first_seen seen (s ∷ ss) ≡ s ∷ first_seen (s ∷ seen) ss
  unfolding first_seen
  first_seen-keep e = rw (e, first_seen) refl

Kept-first_seen : (seen ss : List Text) (x : Text) → Holds x (first_seen seen ss) → Kept seen ss x
unfolding first_seen
Kept-first_seen seen [] x h = absurd h
Kept-first_seen seen (s ∷ ss) x h = elim (Bool-cases (is_blank s || one_of seen s)) [
  | inl e ↦
      let k = Kept-first_seen seen ss x (subst (Holds x) (first_seen-skip s seen ss e) h) in
      (inr k.0, k.1, k.2)
  | inr e ↦ elim (subst (Holds x) (first_seen-keep s seen ss e) h) [
    | inl same ↦ (
      inl same,
      λ empty. is_blank-ne s (ground arith) (sym same ∙ empty),
      λ old.
          let found = (one_of-Holds seen s).1 (subst (λ z. Holds z seen) same old) in
          false≢true (let f : one_of seen s ≡ false = ground arith in sym f ∙ found),
    )
    | inr later ↦
        let k = Kept-first_seen (s ∷ seen) ss x later in (inr k.0, k.1, λ old. k.2 (inr old))
  ]
]

first_seen-Kept : (seen ss : List Text) (x : Text) → Kept seen ss x → Holds x (first_seen seen ss)
unfolding first_seen
first_seen-Kept seen [] x k = absurd k.0
first_seen-Kept seen (s ∷ ss) x k = elim (Bool-cases (is_blank s || one_of seen s)) [
  | inl e ↦ subst (Holds x) (sym (first_seen-skip s seen ss e)) (elim k.0 [
    | inl same ↦ absurd (elim (or-eq-true (is_blank s) (one_of seen s) e) [
      | inl b ↦ k.1 (same ∙ is_blank-eq s b)
      | inr o ↦ k.2 (subst (λ z. Holds z seen) (sym same) ((one_of-Holds seen s).0 o))
    ])
    | inr later ↦ first_seen-Kept seen ss x (later, k.1, k.2)
  ])
  | inr e ↦ subst (Holds x) (sym (first_seen-keep s seen ss e)) (elim (Bool-cases (text_eq x s)) [
    | inl y ↦ inl (text_eq→eq x s y)
    | inr n ↦ elim k.0 [
      | inl same ↦ inl same
      | inr later ↦ inr (
          first_seen-Kept (s ∷ seen) ss x (
            later,
            k.1,
            elim [ inl same ↦ false≢true (sym n ∙ (text_eq_iff x s).1 same) | inr old ↦ k.2 old ],
          ))
    ]
  ])
]

first_seen-NoRepeat : (seen ss : List Text) → NoRepeat (first_seen seen ss)
unfolding first_seen
first_seen-NoRepeat seen [] = tt
first_seen-NoRepeat seen (s ∷ ss) = elim (Bool-cases (is_blank s || one_of seen s)) [
  | inl e ↦ subst NoRepeat (sym (first_seen-skip s seen ss e)) (first_seen-NoRepeat seen ss)
  | inr e ↦
      subst NoRepeat (sym (first_seen-keep s seen ss e))
        (λ h. (Kept-first_seen (s ∷ seen) ss s h).2 (inl refl), first_seen-NoRepeat (s ∷ seen) ss)
]

Holds-insert_text :
    (s : Text) (ts : List Text) (x : Text) → Holds x (insert_text s ts) ↔ ((x ≡ s) ⊎ Holds x ts)
unfolding insert_text
Holds-insert_text s [] x = (λ h. h, λ h. h)
Holds-insert_text s (t ∷ ts) x = elim (Bool-cases (text_lt t s)) [
  | inl e ↦
      rw (e, insert_text)
        (
          elim [
            | inl a ↦ inr (inl a)
            | inr h ↦ elim ((Holds-insert_text s ts x).0 h) [ inl a ↦ inl a | inr b ↦ inr (inr b) ]
          ],
          elim [
            | inl a ↦ inr ((Holds-insert_text s ts x).1 (inl a))
            | inr h ↦ elim h [ inl b ↦ inl b | inr c ↦ inr ((Holds-insert_text s ts x).1 (inr c)) ]
          ],
        )
  | inr e ↦ rw (e, insert_text) (λ h. h, λ h. h)
]

pub Holds-sort_texts : (ts : List Text) (x : Text) → Holds x (sort_texts ts) ↔ Holds x ts
unfolding sort_texts
Holds-sort_texts [] x = (λ h. h, λ h. h)
Holds-sort_texts (s ∷ ts) x = (
  λ h. elim ((Holds-insert_text s (sort_texts ts) x).0 h) [
    | inl a ↦ inl a
    | inr b ↦ inr ((Holds-sort_texts ts x).0 b)
  ],
  λ h.
      (Holds-insert_text s (sort_texts ts) x).1
        (elim h [ inl a ↦ inl a | inr b ↦ inr ((Holds-sort_texts ts x).1 b) ]),
)

-- A text that is below the first of an insertion.
Ascends-insert_below :
    (r s : Text) (ts : List Text)
    → text_lt r s ≡ true
    → Ascends (r ∷ ts)
    → Ascends (insert_text s ts)
    → Ascends (r ∷ insert_text s ts)
unfolding insert_text
Ascends-insert_below r s [] lt a b = (lt, tt)
Ascends-insert_below r s (t ∷ ts) lt a b = elim (Bool-cases (text_lt t s)) [
  | inl e ↦ rw (e, insert_text) (a.0, rw (e, insert_text) at b)
  | inr e ↦ rw (e, insert_text) (lt, rw (e, insert_text) at b)
]

Ascends-tail : (s : Text) (ts : List Text) → Ascends (s ∷ ts) → Ascends ts
Ascends-tail s [] a = tt
Ascends-tail s (t ∷ ts) a = a.1

insert_text-Ascends :
    (s : Text) (ts : List Text) → ¬ Holds s ts → Ascends ts → Ascends (insert_text s ts)
unfolding insert_text
insert_text-Ascends s [] n a = tt
insert_text-Ascends s (t ∷ ts) n a = elim (Bool-cases (text_lt t s)) [
  | inl e ↦
      rw (e, insert_text)
        (Ascends-insert_below t s ts e a
          (insert_text-Ascends s ts (λ h. n (inr h)) (Ascends-tail t ts a)))
  | inr e ↦ elim (text_lt-total s t) [
    | inl lt ↦ rw (e, insert_text) (lt, a)
    | inr other ↦ elim other [
      | inl gt ↦ absurd (false≢true (sym e ∙ gt))
      | inr same ↦ absurd (n (inl same))
    ]
  ]
]

sort_texts-Ascends : (ts : List Text) → NoRepeat ts → Ascends (sort_texts ts)
unfolding sort_texts
sort_texts-Ascends [] n = tt
sort_texts-Ascends (s ∷ ts) n =
    insert_text-Ascends s (sort_texts ts) (λ h. n.0 ((Holds-sort_texts ts s).0 h))
      (sort_texts-Ascends ts n.1)

-- `dedupeStrings` returns the texts in strictly ascending order, so none twice, and exactly those of
-- the list that are not empty.
pub dedupe_strings-Ascends :
    (ss : List Text)
    → Ascends (dedupe_strings ss)
      × ((x : Text) → Holds x (dedupe_strings ss) ↔ (Holds x ss × (x ≢ [])))
unfolding dedupe_strings
dedupe_strings-Ascends ss = (
  sort_texts-Ascends (first_seen [] ss) (first_seen-NoRepeat [] ss),
  λ x. (
    λ h.
        let k = Kept-first_seen [] ss x ((Holds-sort_texts (first_seen [] ss) x).0 h) in (k.0, k.1),
    λ h.
        (Holds-sort_texts (first_seen [] ss) x).1
          (first_seen-Kept [] ss x (h.0, h.1, λ old. absurd old)),
  ),
)
