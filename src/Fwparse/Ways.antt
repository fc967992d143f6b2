-- ===== src/Fwparse/Ways.antt =====
-- What a reference to an object or group stands for: the ways through the definitions.
use rulehawk.Common.{
  List, ◌≢◌, ◌≡◌, [], false, true, Any, Holds, ◌∷◌, ◌⊎◌, inl, false≢true, Bool-cases, sym, inr, ◌∙◌,
  subst,
}
use rulehawk.Fwparse.Members.{Defs, Member, members, members_of, is_defined}
use rulehawk.Common.Text.{Text, text_eq, text_eq_iff, text_eq→eq}
use rulehawk.Fwparse.Base.{is_blank}

module _ (table : Defs) where
  abbrev pub members_in : Text → List Member
  members_in name = members (members_of table name)

  -- The member is a literal, or a name that is not defined.
  abbrev pub IsText : Text → Member → Type 0
  IsText x m =
      ((is_blank m.ref ≡ true) × (x ≡ m.literal))
      ⊎ ((is_blank m.ref ≡ false) × (is_defined table m.ref ≡ false) × (x ≡ m.ref))

  -- The member refers to a defined name.
  abbrev pub RefersTo : Text → Member → Type 0
  RefersTo r m = (is_blank m.ref ≡ false) × (m.ref ≡ r) × (is_defined table r ≡ true)

  -- A way from a name to a text that is not empty; the names behind the first are not among `seen`.
  pub data Way (seen : List Text) (x : Text) : Text → Type 0 where
    here : {name : Text} → x ≢ [] → Any (IsText x) (members_in name) → Way seen x name
    step :
        {name : Text} (r : Text)
        → Any (RefersTo r) (members_in name)
        → ¬ Holds r seen
        → Way seen x r
        → Way seen x name

  not_among :
      (r name : Text) (seen : List Text)
      → text_eq r name ≡ false
      → ¬ Holds r seen
      → ¬ Holds r (name ∷ seen)
  not_among r name seen ne out h = elim h [
    | inl e ↦ false≢true (sym ne ∙ (text_eq_iff r name).1 e)
    | inr k ↦ out k
  ]

  -- A way avoids a name, or a later part of it starts there and does not come back.
  avoid :
      (seen : List Text) (x name : Text) {from : Text}
      → Way seen x from
      → Way (name ∷ seen) x from ⊎ Way (name ∷ seen) x name
  avoid seen x name (here p a) = inl (here p a)
  avoid seen x name (step r a out w) = elim (avoid seen x name w) [
    | inr w' ↦ inr w'
    | inl w' ↦ elim (Bool-cases (text_eq r name)) [
      | inl y ↦ inr (subst (Way (name ∷ seen) x) (text_eq→eq r name y) w')
      | inr n ↦ inl (step r a (not_among r name seen n out) w')
    ]
  ]

  -- No way has to come back to the name that it starts from.
  pub Way_once : (seen : List Text) (x name : Text) → Way seen x name → Way (name ∷ seen) x name
  Way_once seen x name w = elim (avoid seen x name w) [ inl w' ↦ w' | inr w' ↦ w' ]

  -- A way that avoids more names is one that avoids fewer.
  pub Way_weaken :
      (seen : List Text) (x name : Text) {from : Text} → Way (name ∷ seen) x from → Way seen x from
  Way_weaken seen x name (here p a) = here p a
  Way_weaken seen x name (step r a out w) = step r a (λ h. out (inr h)) (Way_weaken seen x name w)

  pub Way_not_empty : (seen : List Text) (x : Text) {from : Text} → Way seen x from → x ≢ []
  Way_not_empty seen x (here p a) = p
  Way_not_empty seen x (step r a out w) = Way_not_empty seen x w
