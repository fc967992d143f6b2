-- ===== src/Store/Keyed.antt =====
-- The records of the store in memory stand under their own keys, each key once.
use rulehawk.Common.{
  List, Bool, ◌≡◌, ◌≢◌, All, [], ◌∷◌, some, true, false, Bool-cases, inl, inr, refl, sym, ◌∙◌, ap,
  subst, if_keeps, false≢true, some_inj, none_ne_some, if_true, if_other, if◌then◌else◌, ◌⊎◌,
}
use rulehawk.Common.Text.{Text, text_eq, text_eq→eq, text_eq_iff}
use rulehawk.Store.{Record}
use rulehawk.Store.Memory.{MemStore, set_entry, get_entry, mem_key, records_where, upsert}
use rulehawk.Store.Keeps.{get_entry-set_entry}

abbrev pub key_of : Record → Text
key_of r = mem_key r.finding.module_id r.finding.fingerprint

-- The key is not among those of the entries.
abbrev pub IsAbsent : Text → List (Text × Record) → Type 0
IsAbsent k xs = All (λ (y : Text × Record). y.0 ≢ k) xs

abbrev pub IsKeyed : List (Text × Record) → Type 0
IsKeyed [] = Unit
IsKeyed (x ∷ xs) = (x.0 ≡ key_of x.1) × IsAbsent x.0 xs × IsKeyed xs

text_eq-false : (a b : Text) → a ≢ b → text_eq a b ≡ false
text_eq-false a b h = elim (Bool-cases (text_eq a b)) [
  | inl y ↦ absurd (h (text_eq→eq a b y))
  | inr n ↦ n
]

IsAbsent-set_entry :
    (k l : Text) (r : Record) (xs : List (Text × Record))
    → k ≢ l
    → IsAbsent l xs
    → IsAbsent l (set_entry xs k r)
unfolding set_entry
IsAbsent-set_entry k l r [] ne h = (ne, tt)
IsAbsent-set_entry k l r (x ∷ xs) ne h =
    if_keeps (IsAbsent l) (text_eq x.0 k) _ _ (ne, h.1) (h.0, IsAbsent-set_entry k l r xs ne h.1)

pub IsKeyed-set_entry :
    (r : Record) (xs : List (Text × Record)) → IsKeyed xs → IsKeyed (set_entry xs (key_of r) r)
unfolding set_entry
IsKeyed-set_entry r [] h = (refl, tt, tt)
IsKeyed-set_entry r (x ∷ xs) h = elim (Bool-cases (text_eq x.0 (key_of r))) [
  | inl y ↦
      if_true IsKeyed (text_eq x.0 (key_of r)) _ _ y
        (refl, subst (λ k. IsAbsent k xs) (text_eq→eq x.0 (key_of r) y) h.1, h.2)
  | inr n ↦ if_other IsKeyed (text_eq x.0 (key_of r)) _ _ n (
    h.0,
    IsAbsent-set_entry (key_of r) x.0 r xs
        (λ e. false≢true (sym n ∙ (text_eq_iff x.0 (key_of r)).1 (sym e))) h.1,
    IsKeyed-set_entry r xs h.2,
  )
]

-- An update keeps what the other keys stand for.
pub get_entry-upsert_other :
    (m : MemStore) (r : Record) (k : Text)
    → key_of r ≢ k
    → get_entry (upsert m r).recs k ≡ get_entry m.recs k
unfolding upsert
get_entry-upsert_other m r k ne =
    get_entry-set_entry m.recs (key_of r) k r
    ∙ ap (λ (b : Bool). if b then some r else get_entry m.recs k) (text_eq-false (key_of r) k ne)

pub get_entry-upsert_same :
    (m : MemStore) (r : Record) → get_entry (upsert m r).recs (key_of r) ≡ some r
unfolding upsert
get_entry-upsert_same m r =
    get_entry-set_entry m.recs (key_of r) (key_of r) r
    ∙ ap (λ (b : Bool). if b then some r else get_entry m.recs (key_of r))
        ((text_eq_iff (key_of r) (key_of r)).1 refl)

-- The record stands once in the list, and no other one there has its key.
abbrev pub IsOnce : Record → List Record → Type 0
IsOnce r [] = ⊥
IsOnce r (q ∷ qs) =
    ((q ≡ r) × All (λ (z : Record). key_of z ≢ key_of r) qs) ⊎ ((key_of q ≢ key_of r) × IsOnce r qs)

module _ (test : Record → Bool) where
  records_where-absent :
      (k : Text) (xs : List (Text × Record))
      → IsKeyed xs
      → IsAbsent k xs
      → All (λ (z : Record). key_of z ≢ k) (records_where test xs)
  unfolding records_where
  records_where-absent k [] h a = tt
  records_where-absent k (x ∷ xs) h a =
      let rest = records_where-absent k xs h.2 a.1 in
      if_keeps (All (λ (z : Record). key_of z ≢ k)) (test x.1) _ _ ((λ e. a.0 (h.0 ∙ e)), rest) rest

  pub records_where-IsOnce :
      (r : Record) (xs : List (Text × Record))
      → IsKeyed xs
      → get_entry xs (key_of r) ≡ some r
      → test r ≡ true
      → IsOnce r (records_where test xs)
  unfolding records_where get_entry
  records_where-IsOnce r [] h g t = absurd (none_ne_some g)
  records_where-IsOnce r (x ∷ xs) h g t = elim (Bool-cases (text_eq x.0 (key_of r))) [
    | inl y ↦
        let same : x.1 ≡ r = some_inj (rw y at g) in
        let key = text_eq→eq x.0 (key_of r) y in
        if_true (IsOnce r) (test x.1) _ _ (ap test same ∙ t)
          (inl (same, records_where-absent (key_of r) xs h.2 (subst (λ k. IsAbsent k xs) key h.1)))
    | inr n ↦
        let rest = records_where-IsOnce r xs h.2 (rw n at g) t in
        if_keeps (IsOnce r) (test x.1) _ _
          (inr ((λ e. false≢true (sym n ∙ (text_eq_iff x.0 (key_of r)).1 (h.0 ∙ e))), rest)) rest
  ]

  pub records_where-All :
      (xs : List (Text × Record)) → All (λ (z : Record). test z ≡ true) (records_where test xs)
  unfolding records_where
  records_where-All [] = tt
  records_where-All (x ∷ xs) = elim (Bool-cases (test x.1)) [
    | inl y ↦
        if_true (All (λ (z : Record). test z ≡ true)) (test x.1) _ _ y (y, records_where-All xs)
    | inr n ↦ if_other (All (λ (z : Record). test z ≡ true)) (test x.1) _ _ n (records_where-All xs)
  ]
