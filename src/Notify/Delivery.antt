-- ===== src/Notify/Delivery.antt =====
-- notify/notify.go: no event that the dispatcher lets in is lost.
use rulehawk.Common.{
  List, Bool, ℕ, Holds, ◌≡◌, Any, ◌⊎◌, inl, ◌∷◌, false, true, ◌++◌, if_keeps, inr, sym, map, [],
  ltb, ap, arith, if_other, refl, ◌∙◌, false≢true,
}
use rulehawk.Notify.Ranks.{sink, unwind, sort_from, severity_rank, sort_by_severity}
use rulehawk.Core.{Finding}
use rulehawk.Notify.{
  Event, EventKind, opened_of, resolved_of, digest_of, Digest, Pending, to_all, empty, sends,
  kind_unknown, is_none, kind_opened, kind_resolved,
}
use rulehawk.Common.Text.{Text}

sink-Holds :
    (x f : Finding) (before : List Finding) → Holds x (f ∷ before) → Holds x (sink f before)
unfolding sink
sink-Holds x f [] h = h
sink-Holds x f (g ∷ before) h =
    if_keeps (Holds x) (ltb (severity_rank g.severity) (severity_rank f.severity)) _ _
      (elim h [
        | inl e ↦ inr (sink-Holds x f before (inl e))
        | inr k ↦ elim k [ inl e ↦ inl e | inr r ↦ inr (sink-Holds x f before (inr r)) ]
      ])
      h

unwind-Holds :
    (x : Finding) (before out : List Finding)
    → Holds x before ⊎ Holds x out
    → Holds x (unwind before out)
unfolding unwind
unwind-Holds x [] out h = elim h [ inl bad ↦ absurd bad | inr k ↦ k ]
unwind-Holds x (g ∷ before) out h =
    unwind-Holds x before (g ∷ out)
      (elim h [ inl k ↦ elim k [ inl e ↦ inr (inl e) | inr r ↦ inl r ] | inr k ↦ inr (inr k) ])

sort_from-Holds :
    (x : Finding) (before fs : List Finding)
    → Holds x before ⊎ Holds x fs
    → Holds x (sort_from before fs)
unfolding sort_from
sort_from-Holds x before [] h = unwind-Holds x before [] h
sort_from-Holds x before (f ∷ fs) h = sort_from-Holds x (sink f before) fs (elim h [
  | inl k ↦ inl (sink-Holds x f before (inr k))
  | inr k ↦ elim k [ inl e ↦ inl (sink-Holds x f before (inl e)) | inr r ↦ inr r ]
])

-- The finding stands in the digest among those of the event's kind.
unfoldable pub IsIn : Finding → EventKind → Digest → Type 0
IsIn f kind_opened dg = Holds f dg.opened
IsIn f kind_resolved dg = Holds f dg.resolved
IsIn f (kind_unknown s) dg = ⊥

-- The digest is of the event's module and has its finding, as its kind.
abbrev pub Carries : Event → Digest → Type 0
Carries e dg = (dg.module_id ≡ e.module_id) × IsIn e.finding e.kind dg

-- The kind is one of the two that the package declares.
unfoldable pub is_known : EventKind → Bool
is_known (kind_unknown s) = false
is_known _ = true

kinds_differ : kind_resolved ≡ kind_opened → ⊥
kinds_differ h = cc

unknown_is_other : {s : Text} → kind_unknown s ≡ kind_opened → ⊥
unknown_is_other h = cc

unknown_is_no_resolved : {s : Text} → kind_unknown s ≡ kind_resolved → ⊥
unknown_is_no_resolved h = cc

opened_step :
    (k : EventKind) (f g : Finding) (rest : List Finding)
    → ((g ≡ f) × (k ≡ kind_opened)) ⊎ Holds f rest
    → Holds f (elim k [ kind_opened ↦ g ∷ rest | kind_resolved ↦ rest | kind_unknown s ↦ rest ])
opened_step kind_opened f g rest h = elim h [ inl p ↦ inl (sym p.0) | inr r ↦ inr r ]
opened_step kind_resolved f g rest h = elim h [ inl p ↦ absurd (kinds_differ p.1) | inr r ↦ r ]
opened_step (kind_unknown s) f g rest h = elim h [
  | inl p ↦ absurd (unknown_is_other p.1)
  | inr r ↦ r
]

opened_of-Holds :
    (f : Finding) (events : List Event)
    → Any (λ (e : Event). (e.finding ≡ f) × (e.kind ≡ kind_opened)) events
    → Holds f (opened_of events)
unfolding opened_of
opened_of-Holds f [] h = absurd h
opened_of-Holds f (e ∷ events) h =
    opened_step e.kind f e.finding (opened_of events)
      (elim h [ inl p ↦ inl p | inr r ↦ inr (opened_of-Holds f events r) ])

resolved_step :
    (k : EventKind) (f g : Finding) (rest : List Finding)
    → ((g ≡ f) × (k ≡ kind_resolved)) ⊎ Holds f rest
    → Holds f (elim k [ kind_opened ↦ rest | kind_resolved ↦ g ∷ rest | kind_unknown s ↦ rest ])
resolved_step kind_opened f g rest h = elim h [
  | inl p ↦ absurd (kinds_differ (sym p.1))
  | inr r ↦ r
]
resolved_step kind_resolved f g rest h = elim h [ inl p ↦ inl (sym p.0) | inr r ↦ inr r ]
resolved_step (kind_unknown s) f g rest h = elim h [
  | inl p ↦ absurd (unknown_is_no_resolved p.1)
  | inr r ↦ r
]

resolved_of-Holds :
    (f : Finding) (events : List Event)
    → Any (λ (e : Event). (e.finding ≡ f) × (e.kind ≡ kind_resolved)) events
    → Holds f (resolved_of events)
unfolding resolved_of
resolved_of-Holds f [] h = absurd h
resolved_of-Holds f (e ∷ events) h =
    resolved_step e.kind f e.finding (resolved_of events)
      (elim h [ inl p ↦ inl p | inr r ↦ inr (resolved_of-Holds f events r) ])

-- The event is pending, as one of its module.
abbrev pub IsPending : Event → Pending → Type 0
IsPending e pending = Any (λ (m : Text × List Event). (m.0 ≡ e.module_id) × Holds e m.1) pending

of_kind :
    (e : Event) (k : EventKind) (events : List Event)
    → e.kind ≡ k
    → Holds e events
    → Any (λ (v : Event). (v.finding ≡ e.finding) × (v.kind ≡ k)) events
of_kind e k [] same h = absurd h
of_kind e k (v ∷ events) same h = elim h [
  | inl p ↦ inl (ap (λ (z : Event). z.finding) (sym p), ap (λ (z : Event). z.kind) (sym p) ∙ same)
  | inr r ↦ inr (of_kind e k events same r)
]

digest_of-IsIn :
    (k : EventKind) (now : ℕ) (e : Event) (m : Text × List Event)
    → e.kind ≡ k
    → is_known k ≡ true
    → Holds e m.1
    → IsIn e.finding k (digest_of now m)
unfolding digest_of IsIn is_known sort_by_severity
digest_of-IsIn kind_opened now e m same known h =
    sort_from-Holds e.finding [] (opened_of m.1)
      (inr (opened_of-Holds e.finding m.1 (of_kind e kind_opened m.1 same h)))
digest_of-IsIn kind_resolved now e m same known h =
    resolved_of-Holds e.finding m.1 (of_kind e kind_resolved m.1 same h)
digest_of-IsIn (kind_unknown s) now e m same known h = absurd (false≢true known)

digest_of-Carries :
    (now : ℕ) (e : Event) (m : Text × List Event)
    → is_known e.kind ≡ true
    → m.0 ≡ e.module_id
    → Holds e m.1
    → Carries e (digest_of now m)
unfolding digest_of
digest_of-Carries now e m k same h = (same, digest_of-IsIn e.kind now e m refl k h)

is_none-Holds : (f : Finding) (fs : List Finding) → Holds f fs → is_none fs ≡ false
unfolding is_none
is_none-Holds f [] h = absurd h
is_none-Holds f (g ∷ fs) h = refl

module _ {Ch : Type 0} (ch : Ch) (e : Event) where
  -- The event goes out over the channel.
  abbrev pub IsSentOver : List (Ch × Digest) → Type 0
  IsSentOver sent = Any (λ (s : Ch × Digest). (s.0 ≡ ch) × Carries e s.1) sent

  pub IsSentOver-append :
      (xs ys : List (Ch × Digest)) → IsSentOver xs ⊎ IsSentOver ys → IsSentOver (xs ++ ys)
  IsSentOver-append [] ys h = elim h [ inl bad ↦ absurd bad | inr k ↦ k ]
  IsSentOver-append (x ∷ xs) ys h = elim h [
    | inl k ↦ elim k [ inl p ↦ inl p | inr r ↦ inr (IsSentOver-append xs ys (inl r)) ]
    | inr k ↦ inr (IsSentOver-append xs ys (inr k))
  ]

  to_all-IsSentOver :
      (channels : List Ch) (dg : Digest)
      → Holds ch channels
      → Carries e dg
      → IsSentOver (to_all channels dg)
  unfolding to_all
  to_all-IsSentOver [] dg h c = absurd h
  to_all-IsSentOver (x ∷ channels) dg h c = elim h [
    | inl same ↦ inl (sym same, c)
    | inr k ↦ inr (to_all-IsSentOver channels dg k c)
  ]

  Carries-not_empty : (k : EventKind) (dg : Digest) → IsIn e.finding k dg → empty dg ≡ false
  unfolding IsIn empty is_none
  Carries-not_empty kind_opened dg h = ground (arith, is_none-Holds e.finding dg.opened h)
  Carries-not_empty kind_resolved dg h = ground (arith, is_none-Holds e.finding dg.resolved h)
  Carries-not_empty (kind_unknown s) dg h = absurd h

  pub sends-IsSentOver :
      (now : ℕ) (channels : List Ch) (pending : Pending)
      → Holds ch channels
      → is_known e.kind ≡ true
      → IsPending e pending
      → IsSentOver (sends channels (map (digest_of now) pending))
  unfolding sends
  sends-IsSentOver now channels [] h k p = absurd p
  sends-IsSentOver now channels (m ∷ pending) h k p =
      let dg = digest_of now m in
      let rest = sends channels (map (digest_of now) pending) in
      elim p [
        | inl q ↦
            let c = digest_of-Carries now e m k q.0 q.1 in
            if_other IsSentOver (empty dg) _ _ (Carries-not_empty e.kind dg c.1) (
              IsSentOver-append (to_all channels dg) rest (inl (to_all-IsSentOver channels dg h c)))
        | inr r ↦
            let later = sends-IsSentOver now channels pending h k r in
            if_keeps IsSentOver (empty dg) _ _ later
              (IsSentOver-append (to_all channels dg) rest (inr later))
      ]
