-- ===== src/Notify.antt =====
-- notify/notify.go: the dispatcher of notifications. Durations are `int64` counts, the clock is an
-- argument, and `Ch` is the type of the channels. Go's map of pending events is a list of modules with
-- their events; its order, which Go leaves open, is the order of the modules' first events.
pub mod Ranks
pub mod Retry
pub mod Sorting
pub mod Pending
pub mod Window
pub mod Delivery
pub mod Lossless
pub mod Tests
use rulehawk.Notify.Ranks.{sort_by_severity, severity_rank}
use rulehawk.Common.Text.{Text, codes, text_eq}
use rulehawk.Common.{
  List, Bool, ℕ, ◌∷◌, ◌&&◌, if◌then◌else◌, ◌*◌, [], true, not, ◌++◌, length, false, leb, ◌+◌, ◌||◌,
  map,
}
use rulehawk.Common.Int.{ℤ, pos, leb_ℤ}
use rulehawk.Core.{Severity, Finding, severity_unknown}
use rulehawk.Fwrule.Rule.{one_of}

-- `EventKind`
pub data EventKind : Type 0 where
  kind_opened kind_resolved : EventKind
  kind_unknown : Text → EventKind

unfoldable pub kind_text : EventKind → Text
kind_text kind_opened = codes "opened"
kind_text kind_resolved = codes "resolved"
kind_text (kind_unknown s) = s

-- `Event`
pub record Event : Type 0 where
  pub kind : EventKind
  pub module_id : Text
  pub finding : Finding

-- `Digest`
pub record Digest : Type 0 where
  pub module_id : Text
  pub opened : List Finding
  pub resolved : List Finding
  pub at : ℕ

unfoldable pub is_none : List Finding → Bool
is_none [] = true
is_none (f ∷ fs) = false

-- `Empty`
unfoldable pub empty : Digest → Bool
empty d = is_none d.opened && is_none d.resolved

-- `Config`
pub record Config : Type 0 where
  pub flush_interval : ℤ
  pub max_batch : ℤ
  pub min_severity : Severity
  pub retries : ℤ
  pub retry_delay : ℤ

unfoldable pub or_default : ℤ → ℤ → ℤ
or_default n default = if leb_ℤ n (pos 0) then default else n

abbrev pub second : ℕ
second = 1000000000

-- `withDefaults`
unfoldable pub with_defaults : Config → Config
with_defaults c = record c {
  flush_interval = or_default c.flush_interval (pos (30 * second));
  max_batch = or_default c.max_batch (pos 100);
  retries = or_default c.retries (pos 3);
  retry_delay = or_default c.retry_delay (pos (5 * second));
}

abbrev pub Pending : Type 0
Pending = List (Text × List Event)

-- `Dispatcher`; `timer` is whether the timer is set.
pub record Dispatcher (Ch : Type 0) : Type 0 where
  pub cfg : Config
  pub channels : List Ch
  pub pending : Pending
  pub seen : List Text
  pub timer : Bool
  pub closed : Bool

-- `NewDispatcher`
unfoldable pub new_dispatcher : {Ch : Type 0} → Config → List Ch → Dispatcher Ch
new_dispatcher cfg channels = record {
  cfg = with_defaults cfg;
  channels = channels;
  pending = [];
  seen = [];
  timer = false;
  closed = false;
}

-- `s == ""`
unfoldable pub is_unset : Severity → Bool
is_unset (severity_unknown []) = true
is_unset _ = false

-- `passesSeverity`
unfoldable pub passes_severity : Config → Severity → Bool
passes_severity cfg s =
    if is_unset cfg.min_severity
    then true
    else leb (severity_rank cfg.min_severity) (severity_rank s)

unfoldable pub is_opened : EventKind → Bool
is_opened kind_opened = true
is_opened _ = false

-- The event is not one that `Enqueue` drops at the door.
unfoldable pub let_in : Config → Event → Bool
let_in cfg e = not (is_opened e.kind && not (passes_severity cfg e.finding.severity))

-- The key by which events of one window are the same.
unfoldable pub event_key : Event → Text
event_key e =
    kind_text e.kind ++ (codes "|" ++ (e.module_id ++ (codes "|" ++ e.finding.fingerprint)))

-- `d.pending[e.Module] = append(d.pending[e.Module], e)`
unfoldable pub put_event : Event → Pending → Pending
put_event e [] = (e.module_id, e ∷ []) ∷ []
put_event e (m ∷ pending) =
    let rest = put_event e pending in
    if text_eq m.0 e.module_id then (m.0, m.1 ++ e ∷ []) ∷ pending else m ∷ rest

-- The number of pending events.
unfoldable pub total : Pending → ℕ
total [] = 0
total (m ∷ pending) = length m.1 + total pending

-- The findings of the events of a kind.
unfoldable pub opened_of : List Event → List Finding
opened_of [] = []
opened_of (e ∷ events) =
    let rest = opened_of events in
    elim e.kind [ kind_opened ↦ e.finding ∷ rest | kind_resolved ↦ rest | kind_unknown s ↦ rest ]

unfoldable pub resolved_of : List Event → List Finding
resolved_of [] = []
resolved_of (e ∷ events) =
    let rest = resolved_of events in
    elim e.kind [ kind_opened ↦ rest | kind_resolved ↦ e.finding ∷ rest | kind_unknown s ↦ rest ]

unfoldable pub digest_of : ℕ → Text × List Event → Digest
digest_of now m = record {
  module_id = m.0;
  opened = sort_by_severity (opened_of m.1);
  resolved = resolved_of m.1;
  at = now;
}

-- One send to each channel.
unfoldable pub to_all : {Ch : Type 0} → List Ch → Digest → List (Ch × Digest)
to_all [] dg = []
to_all (ch ∷ channels) dg = (ch, dg) ∷ to_all channels dg

-- The sends that a flush starts.
unfoldable pub sends : {Ch : Type 0} → List Ch → List Digest → List (Ch × Digest)
sends channels [] = []
sends channels (dg ∷ digests) =
    let rest = sends channels digests in if empty dg then rest else to_all channels dg ++ rest

-- `flushLocked`, which `Flush` calls: the dispatcher behind it, and the sends that it starts.
unfoldable pub flush : {Ch : Type 0} → ℕ → Dispatcher Ch → Dispatcher Ch × List (Ch × Digest)
flush now d = elim d.pending [
  | [] ↦ (record d { timer = false }, [])
  | m ∷ pending ↦ (
    record d { timer = false; pending = []; seen = [] },
    sends d.channels (map (digest_of now) (m ∷ pending)),
  )
]

-- The test of `total` and what follows it.
unfoldable pub settle : {Ch : Type 0} → ℕ → Dispatcher Ch → Dispatcher Ch × List (Ch × Digest)
settle now d =
    if leb_ℤ d.cfg.max_batch (pos (total d.pending))
    then flush now d
    else (record d { timer = true }, [])

-- `Enqueue`
unfoldable pub enqueue :
    {Ch : Type 0} → ℕ → Event → Dispatcher Ch → Dispatcher Ch × List (Ch × Digest)
enqueue now e d =
    if not (let_in d.cfg e) || (d.closed || one_of d.seen (event_key e))
    then (d, [])
    else settle now (record d { seen = event_key e ∷ d.seen; pending = put_event e d.pending })

-- `Close`, without the wait for the sends.
unfoldable pub close : {Ch : Type 0} → ℕ → Dispatcher Ch → Dispatcher Ch × List (Ch × Digest)
close now d = let done = flush now d in (record done.0 { closed = true }, done.1)
