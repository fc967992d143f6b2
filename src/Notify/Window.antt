-- ===== src/Notify/Window.antt =====
-- notify/notify.go: what the state of a dispatcher keeps to, whatever is called in whatever order.
use rulehawk.Notify.Pending.{AnyPending, AnyPending-put_event, total-put_event, put_event-not_empty}
use rulehawk.Fwparse.Texts.{NoRepeat, one_of-Holds}
use rulehawk.Common.{
  ℕ, List, ◌∷◌, ◌≢◌, [], ◌≡◌, true, false, length, Holds, ◌↔◌, subst, List-keeps, Bool-cases, sym,
  not, refl, ap, ◌∙◌, ◌||◌, inl, if_eq, inr, if_false, arith, suc, false≢true, if_true, if_other,
}
use rulehawk.Notify.{
  Dispatcher, new_dispatcher, Event, Digest, flush, close, with_defaults, enqueue, or_default,
  Config, total, event_key, settle, put_event, let_in,
}
use rulehawk.Common.Int.{leb_ℤ, pos, ℤ}
use rulehawk.Common.Text.{Text}
use rulehawk.Fwrule.Rule.{one_of}

-- The calls: the timer calls `Flush`. Each holds the dispatcher's lock, so they follow one another.
pub data Call : Type 0 where
  enqueues : ℕ → Event → Call
  flushes closes : ℕ → Call

pub or_default-positive :
    (n default : ℤ) → leb_ℤ default (pos 0) ≡ false → leb_ℤ (or_default n default) (pos 0) ≡ false
unfolding or_default
or_default-positive n default h = elim (Bool-cases (leb_ℤ n (pos 0))) [
  | inl y ↦ if_true (λ z. leb_ℤ z (pos 0) ≡ false) (leb_ℤ n (pos 0)) _ _ y h
  | inr no_more ↦ if_other (λ z. leb_ℤ z (pos 0) ≡ false) (leb_ℤ n (pos 0)) _ _ no_more no_more
]

module _ {Ch : Type 0} where
  unfoldable pub call : Call → Dispatcher Ch → Dispatcher Ch × List (Ch × Digest)
  call (enqueues now e) d = enqueue now e d
  call (flushes now) d = flush now d
  call (closes now) d = close now d

  -- The dispatcher after some calls.
  unfoldable pub calls : List Call → Dispatcher Ch → Dispatcher Ch
  calls [] d = d
  calls (c ∷ cs) d = calls cs (call c d).0

  -- What holds of a dispatcher between two calls.
  pub record IsWindow (d : Dispatcher Ch) : Type 0 where
    pub set : d.pending ≢ [] → d.timer ≡ true
    pub unset : d.pending ≡ [] → (d.timer ≡ false) × (d.seen ≡ [])
    pub positive : leb_ℤ d.cfg.max_batch (pos 0) ≡ false
    pub below : leb_ℤ d.cfg.max_batch (pos (total d.pending)) ≡ false
    pub counted : length d.seen ≡ total d.pending
    pub once : NoRepeat d.seen
    pub keys : (k : Text) → Holds k d.seen ↔ AnyPending (λ (e : Event). event_key e ≡ k) d.pending
    pub at_end : d.closed ≡ true → d.pending ≡ []

  -- Nothing is pending.
  IsWindow-nothing :
      (d : Dispatcher Ch)
      → leb_ℤ d.cfg.max_batch (pos 0) ≡ false
      → d.pending ≡ []
      → d.seen ≡ []
      → d.timer ≡ false
      → IsWindow d
  unfolding total
  IsWindow-nothing d p e s t = record {
    set = λ ne. absurd (ne e);
    unset = λ e'. (t, s);
    positive = p;
    below = subst (λ q. leb_ℤ d.cfg.max_batch (pos (total q)) ≡ false) (sym e) p;
    counted = ap length s ∙ ap total (sym e);
    once = subst NoRepeat (sym s) tt;
    keys = λ k. (
      λ h. absurd (subst (Holds k) s h),
      λ h. absurd (subst (AnyPending (λ (v : Event). event_key v ≡ k)) e h),
    );
    at_end = λ c. e;
  }

  flush-IsWindow_any :
      (now : ℕ) (d : Dispatcher Ch)
      → leb_ℤ d.cfg.max_batch (pos 0) ≡ false
      → (d.pending ≡ [] → d.seen ≡ [])
      → IsWindow (flush now d).0
  unfolding flush
  flush-IsWindow_any now d p u =
      List-keeps (λ (r : Dispatcher Ch × List (Ch × Digest)). IsWindow r.0) d.pending _ _
        (λ e. IsWindow-nothing (record d { timer = false }) p e (u e) refl)
        (λ m pending e.
          IsWindow-nothing (record d { timer = false; pending = []; seen = [] }) p refl refl refl)

  flush-IsWindow : (now : ℕ) (d : Dispatcher Ch) → IsWindow d → IsWindow (flush now d).0
  flush-IsWindow now d w = flush-IsWindow_any now d w.positive (λ e. (w.unset e).1)

  -- Nothing is pending behind a flush.
  pub flush_nothing : (now : ℕ) (d : Dispatcher Ch) → (flush now d).0.pending ≡ []
  unfolding flush
  flush_nothing now d =
      List-keeps (λ (r : Dispatcher Ch × List (Ch × Digest)). r.0.pending ≡ []) d.pending _ _
        (λ e. e) (λ m pending e. refl)

  close-IsWindow : (now : ℕ) (d : Dispatcher Ch) → IsWindow d → IsWindow (close now d).0
  unfolding close
  close-IsWindow now d w =
      let done = flush now d in
      let v = flush-IsWindow now d w in
      let nothing = flush_nothing now d in
      IsWindow-nothing (record done.0 { closed = true }) v.positive nothing (v.unset nothing).1
        (v.unset nothing).0

  added-IsWindow :
      (e : Event) (d : Dispatcher Ch)
      → IsWindow d
      → d.closed ≡ false
      → one_of d.seen (event_key e) ≡ false
      → leb_ℤ d.cfg.max_batch (pos (total (put_event e d.pending))) ≡ false
      → IsWindow
          (record d { seen = event_key e ∷ d.seen; pending = put_event e d.pending; timer = true })
  added-IsWindow e d w c new room = record {
    set = λ ne. refl;
    unset = λ h. absurd (put_event-not_empty e d.pending h);
    positive = w.positive;
    below = room;
    counted = ap suc w.counted ∙ sym (total-put_event e d.pending);
    once = (λ h. false≢true (sym new ∙ (one_of-Holds d.seen (event_key e)).1 h), w.once);
    keys = λ k.
        let put = AnyPending-put_event (λ (v : Event). event_key v ≡ k) e d.pending in
        (
          elim [ inl h ↦ put.1 (inl (sym h)) | inr h ↦ put.1 (inr ((w.keys k).0 h)) ],
          λ a. elim (put.0 a) [ inl h ↦ inl (sym h) | inr h ↦ inr ((w.keys k).1 h) ],
        );
    at_end = λ h. absurd (false≢true (sym c ∙ h));
  }

  settle-IsWindow :
      (now : ℕ) (e : Event) (d : Dispatcher Ch)
      → IsWindow d
      → d.closed ≡ false
      → one_of d.seen (event_key e) ≡ false
      → IsWindow
          (settle now (record d { seen = event_key e ∷ d.seen; pending = put_event e d.pending })).0
  unfolding settle
  settle-IsWindow now e d w c new =
      let d' : Dispatcher Ch = record d {
        seen = event_key e ∷ d.seen;
        pending = put_event e d.pending;
      } in
      elim (Bool-cases (leb_ℤ d.cfg.max_batch (pos (total (put_event e d.pending))))) [
        | inl full ↦
            subst (λ (r : Dispatcher Ch × List (Ch × Digest)). IsWindow r.0)
              (sym (if_eq (leb_ℤ d.cfg.max_batch (pos (total (put_event e d.pending)))) _ _ full))
              (flush-IsWindow_any now d' w.positive
                (λ h. absurd (put_event-not_empty e d.pending h)))
        | inr room ↦
            subst (λ (r : Dispatcher Ch × List (Ch × Digest)). IsWindow r.0)
              (sym
                (if_false (leb_ℤ d.cfg.max_batch (pos (total (put_event e d.pending)))) _ _ room))
              (added-IsWindow e d w c new room)
      ]

  enqueue-IsWindow :
      (now : ℕ) (e : Event) (d : Dispatcher Ch) → IsWindow d → IsWindow (enqueue now e d).0
  unfolding enqueue
  enqueue-IsWindow now e d w =
      elim (Bool-cases (not (let_in d.cfg e) || (d.closed || one_of d.seen (event_key e)))) [
        | inl out ↦
            subst (λ (r : Dispatcher Ch × List (Ch × Digest)). IsWindow r.0)
              (sym
                (if_eq (not (let_in d.cfg e) || (d.closed || one_of d.seen (event_key e))) _ _ out))
              w
        | inr n ↦
            subst (λ (r : Dispatcher Ch × List (Ch × Digest)). IsWindow r.0)
              (sym (
                if_false (not (let_in d.cfg e) || (d.closed || one_of d.seen (event_key e))) _ _ n))
              (settle-IsWindow now e d w (ground arith) (ground arith))
      ]

  new_dispatcher-IsWindow :
      (cfg : Config) (channels : List Ch) → IsWindow (new_dispatcher cfg channels)
  unfolding new_dispatcher with_defaults or_default
  new_dispatcher-IsWindow cfg channels =
      IsWindow-nothing (new_dispatcher cfg channels)
        (or_default-positive cfg.max_batch (pos 100) refl) refl refl refl

  call-IsWindow : (c : Call) (d : Dispatcher Ch) → IsWindow d → IsWindow (call c d).0
  unfolding call
  call-IsWindow (enqueues now e) d w = enqueue-IsWindow now e d w
  call-IsWindow (flushes now) d w = flush-IsWindow now d w
  call-IsWindow (closes now) d w = close-IsWindow now d w

  calls-IsWindow : (cs : List Call) (d : Dispatcher Ch) → IsWindow d → IsWindow (calls cs d)
  unfolding calls
  calls-IsWindow [] d w = w
  calls-IsWindow (c ∷ cs) d w = calls-IsWindow cs (call c d).0 (call-IsWindow c d w)

  -- Whatever is called on a new dispatcher, in whatever order, between two calls the timer is set exactly
  -- when an event is pending, fewer events are pending than the batch's limit, no two pending events
  -- have the same key, the keys that count as seen are those of the pending events, and nothing is
  -- pending in a closed dispatcher.
  pub new_dispatcher-calls-IsWindow :
      (cfg : Config) (channels : List Ch) (cs : List Call)
      → IsWindow (calls cs (new_dispatcher cfg channels))
  new_dispatcher-calls-IsWindow cfg channels cs =
      calls-IsWindow cs (new_dispatcher cfg channels) (new_dispatcher-IsWindow cfg channels)
