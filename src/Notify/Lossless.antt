-- ===== src/Notify/Lossless.antt =====
-- notify/notify.go: an event that the dispatcher lets in goes out over every channel.
use rulehawk.Notify.Window.{Call, enqueues, flushes, closes, call}
use rulehawk.Notify.Delivery.{IsPending, IsSentOver, IsSentOver-append, sends-IsSentOver, is_known}
use rulehawk.Notify.{
  Event, put_event, Pending, Dispatcher, Digest, flush, settle, enqueue, close, let_in, total,
  event_key,
}
use rulehawk.Common.{
  List, ◌≡◌, ◌⊎◌, inl, ◌∷◌, true, Holds, Bool-cases, if_keeps, ℕ, ◌++◌, [], List-keeps, inr,
  if_true, subst, not, false, ◌||◌, if_other, arith, refl,
}
use rulehawk.Common.Text.{text_eq, text_eq→eq}
use rulehawk.Common.Int.{leb_ℤ, pos}
use rulehawk.Fwrule.Rule.{one_of}

Holds-snoc :
    (v e : Event) (events : List Event) → (v ≡ e) ⊎ Holds v events → Holds v (events ++ e ∷ [])
Holds-snoc v e [] h = elim h [ inl p ↦ inl p | inr bad ↦ absurd bad ]
Holds-snoc v e (x ∷ events) h = elim h [
  | inl p ↦ inr (Holds-snoc v e events (inl p))
  | inr k ↦ elim k [ inl p ↦ inl p | inr r ↦ inr (Holds-snoc v e events (inr r)) ]
]

put_event-IsPending : (e : Event) (pending : Pending) → IsPending e (put_event e pending)
unfolding put_event
put_event-IsPending e [] = inl (refl, inl refl)
put_event-IsPending e (m ∷ pending) = elim (Bool-cases (text_eq m.0 e.module_id)) [
  | inl y ↦
      if_true (IsPending e) (text_eq m.0 e.module_id) _ _ y
        (inl (text_eq→eq m.0 e.module_id y, Holds-snoc e e m.1 (inl refl)))
  | inr n ↦
      if_other (IsPending e) (text_eq m.0 e.module_id) _ _ n (inr (put_event-IsPending e pending))
]

put_event-keeps :
    (v e : Event) (pending : Pending) → IsPending v pending → IsPending v (put_event e pending)
unfolding put_event
put_event-keeps v e [] p = absurd p
put_event-keeps v e (m ∷ pending) p =
    if_keeps (IsPending v) (text_eq m.0 e.module_id) _ _
      (elim p [ inl q ↦ inl (q.0, Holds-snoc v e m.1 (inr q.1)) | inr r ↦ inr r ])
      (elim p [ inl q ↦ inl q | inr r ↦ inr (put_event-keeps v e pending r) ])

module _ {Ch : Type 0} where
  -- All that some calls send, in their order.
  unfoldable pub sent_in : List Call → Dispatcher Ch → List (Ch × Digest)
  sent_in [] d = []
  sent_in (c ∷ cs) d = let done = call c d in done.1 ++ sent_in cs done.0

module _ {Ch : Type 0} (ch : Ch) (v : Event) (known : is_known v.kind ≡ true) where
  -- The event has gone out over the channel, or is pending where the channel is.
  abbrev IsSafe : Dispatcher Ch × List (Ch × Digest) → Type 0
  IsSafe r = Holds ch r.0.channels × (IsSentOver ch v r.1 ⊎ IsPending v r.0.pending)

  flush-sends :
      (now : ℕ) (d : Dispatcher Ch)
      → Holds ch d.channels
      → IsPending v d.pending
      → Holds ch (flush now d).0.channels × IsSentOver ch v (flush now d).1
  unfolding flush
  flush-sends now d h p =
      List-keeps
        (λ (r : Dispatcher Ch × List (Ch × Digest)). Holds ch r.0.channels × IsSentOver ch v r.1)
        d.pending _ _ (λ e. absurd (subst (IsPending v) e p))
        (λ m pending e.
          (h, sends-IsSentOver ch v now d.channels (m ∷ pending) h known (subst (IsPending v) e p)))

  settle-IsSafe :
      (now : ℕ) (d : Dispatcher Ch)
      → Holds ch d.channels
      → IsPending v d.pending
      → IsSafe (settle now d)
  unfolding settle
  settle-IsSafe now d h p =
      let (there, out) = flush-sends now d h p in
      if_keeps IsSafe (leb_ℤ d.cfg.max_batch (pos (total d.pending))) _ _ (there, inl out)
        (h, inr p)

  call-IsSafe :
      (c : Call) (d : Dispatcher Ch)
      → Holds ch d.channels
      → IsPending v d.pending
      → IsSafe (call c d)
  unfolding call enqueue close
  call-IsSafe (flushes now) d h p = let (there, out) = flush-sends now d h p in (there, inl out)
  call-IsSafe (closes now) d h p = let (there, out) = flush-sends now d h p in (there, inl out)
  call-IsSafe (enqueues now e) d h p =
      if_keeps IsSafe (not (let_in d.cfg e) || (d.closed || one_of d.seen (event_key e))) _ _
        (h, inr p)
        (settle-IsSafe now
          (record d { seen = event_key e ∷ d.seen; pending = put_event e d.pending }) h
          (put_event-keeps v e d.pending p))

  -- An event that is pending goes out by the time of the next flush.
  sent_in-sends :
      (cs : List Call) (later : ℕ) (d : Dispatcher Ch)
      → Holds ch d.channels
      → IsPending v d.pending
      → IsSentOver ch v (sent_in (cs ++ flushes later ∷ []) d)
  unfolding sent_in call
  sent_in-sends [] later d h p =
      IsSentOver-append ch v (flush later d).1 [] (inl (flush-sends later d h p).1)
  sent_in-sends (c ∷ cs) later d h p =
      let done = call c d in
      let (there, safe) = call-IsSafe c d h p in
      IsSentOver-append ch v done.1 (sent_in (cs ++ flushes later ∷ []) done.0) (elim safe [
        | inl out ↦ inl out
        | inr still ↦ inr (sent_in-sends cs later done.0 there still)
      ])

  -- An event of one of the two kinds that passes the severity threshold, and whose key was not seen in
  -- the window of an open dispatcher, goes out over each channel, in a digest of its module and among
  -- the findings of its kind, by the end of the next flush, whatever is called in between.
  pub enqueue-delivers :
      (now later : ℕ) (cs : List Call) (d : Dispatcher Ch)
      → Holds ch d.channels
      → let_in d.cfg v ≡ true
      → d.closed ≡ false
      → one_of d.seen (event_key v) ≡ false
      → IsSentOver ch v (sent_in (enqueues now v ∷ (cs ++ flushes later ∷ [])) d)
  unfolding sent_in call enqueue
  enqueue-delivers now later cs d h ok not_closed new =
      let d' : Dispatcher Ch = record d {
        seen = event_key v ∷ d.seen;
        pending = put_event v d.pending;
      } in
      let (there, safe) =
        if_other IsSafe (not (let_in d.cfg v) || (d.closed || one_of d.seen (event_key v))) _ _
          (ground arith) (settle-IsSafe now d' h (put_event-IsPending v d.pending)) in
      let done = enqueue now v d in
      IsSentOver-append ch v done.1 (sent_in (cs ++ flushes later ∷ []) done.0) (elim safe [
        | inl out ↦ inl out
        | inr still ↦ inr (sent_in-sends cs later done.0 there still)
      ])
