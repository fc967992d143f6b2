-- ===== src/Notify/Pending.antt =====
-- notify/notify.go: the pending events, by module.
use rulehawk.Notify.{Pending, Event, put_event, total}
use rulehawk.Common.{
  List, Any, ◌↔◌, ◌≡◌, ◌≢◌, ◌⊎◌, length, suc, [], ◌++◌, ◌∷◌, inl, ap, if_keeps, inr, refl, arith,
  cons_not_empty,
}
use rulehawk.Common.Text.{Text, text_eq}

module _ (P : Event → Type 0) where
  -- Some pending event is such.
  abbrev pub AnyPending : Pending → Type 0
  AnyPending pending = Any (λ (m : Text × List Event). Any P m.1) pending

  Any-snoc : (events : List Event) (e : Event) → Any P (events ++ e ∷ []) ↔ (P e ⊎ Any P events)
  Any-snoc [] e =
      (elim [ inl p ↦ inl p | inr bad ↦ absurd bad ], elim [ inl p ↦ inl p | inr bad ↦ absurd bad ])
  Any-snoc (f ∷ events) e = (
    elim [
      | inl p ↦ inr (inl p)
      | inr k ↦ elim ((Any-snoc events e).0 k) [ inl p ↦ inl p | inr q ↦ inr (inr q) ]
    ],
    elim [
      | inl p ↦ inr ((Any-snoc events e).1 (inl p))
      | inr h ↦ elim h [ inl p ↦ inl p | inr q ↦ inr ((Any-snoc events e).1 (inr q)) ]
    ],
  )

  pub AnyPending-put_event :
      (e : Event) (pending : Pending)
      → AnyPending (put_event e pending) ↔ (P e ⊎ AnyPending pending)
  unfolding put_event
  AnyPending-put_event e [] = (
    elim [ inl h ↦ elim h [ inl p ↦ inl p | inr bad ↦ absurd bad ] | inr bad ↦ absurd bad ],
    elim [ inl p ↦ inl (inl p) | inr bad ↦ absurd bad ],
  )
  AnyPending-put_event e (m ∷ pending) =
      if_keeps (λ q. AnyPending q ↔ (P e ⊎ AnyPending (m ∷ pending))) (text_eq m.0 e.module_id) _ _
        (
          elim [
            | inl h ↦ elim ((Any-snoc m.1 e).0 h) [ inl p ↦ inl p | inr q ↦ inr (inl q) ]
            | inr k ↦ inr (inr k)
          ],
          elim [
            | inl p ↦ inl ((Any-snoc m.1 e).1 (inl p))
            | inr h ↦ elim h [ inl q ↦ inl ((Any-snoc m.1 e).1 (inr q)) | inr k ↦ inr k ]
          ],
        )
        (
          elim [
            | inl q ↦ inr (inl q)
            | inr k ↦ elim ((AnyPending-put_event e pending).0 k) [
              | inl p ↦ inl p
              | inr r ↦ inr (inr r)
            ]
          ],
          elim [
            | inl p ↦ inr ((AnyPending-put_event e pending).1 (inl p))
            | inr h ↦ elim h [
              | inl q ↦ inl q
              | inr k ↦ inr ((AnyPending-put_event e pending).1 (inr k))
            ]
          ],
        )

length-snoc : (events : List Event) (e : Event) → length (events ++ e ∷ []) ≡ suc (length events)
length-snoc [] e = refl
length-snoc (f ∷ events) e = ap suc (length-snoc events e)

pub total-put_event :
    (e : Event) (pending : Pending) → total (put_event e pending) ≡ suc (total pending)
unfolding put_event total
total-put_event e [] = refl
total-put_event e (m ∷ pending) =
    if_keeps (λ q. total q ≡ suc (total (m ∷ pending))) (text_eq m.0 e.module_id) _ _
      (omega (arith, length-snoc m.1 e)) (omega (arith, total-put_event e pending))

pub put_event-not_empty : (e : Event) (pending : Pending) → put_event e pending ≢ []
unfolding put_event
put_event-not_empty e [] = cons_not_empty
put_event-not_empty e (m ∷ pending) =
    if_keeps (λ q. q ≢ []) (text_eq m.0 e.module_id) _ _ cons_not_empty cons_not_empty
