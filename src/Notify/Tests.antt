-- ===== src/Notify/Tests.antt =====
-- The dispatcher on small inputs.
use rulehawk.Notify.Sorting.{Descends, with_rank, sort_by_severity-Descends}
use rulehawk.Notify.Window.{
  IsWindow, calls, enqueues, flushes, closes, new_dispatcher-calls-IsWindow,
}
use rulehawk.Notify.Retry.{IsSent, send_with_retry, send_with_retry-IsSent}
use rulehawk.Notify.Lossless.{sent_in, enqueue-delivers}
use rulehawk.Notify.Delivery.{IsSentOver, is_known}
use rulehawk.Notify.Ranks.{sort_by_severity, sort_from, sink, unwind, severity_rank}
use rulehawk.Core.{Finding, severity_low, severity_high, severity_medium, status_open}
use rulehawk.Common.{
  List, ◌≡◌, ℕ, ◌∷◌, [], true, false, Holds, Option, none, any, inr, some, refl, inl, suc, zero,
}
use rulehawk.Notify.{
  is_opened, passes_severity, is_unset, Config, Event, Dispatcher, let_in, new_dispatcher,
  kind_opened, kind_resolved, with_defaults, event_key,
}
use rulehawk.Common.Text.{codes, Text}
use rulehawk.Common.Int.{pos_part, pos}
use rulehawk.Fwrule.Rule.{one_of}

abbrev pub low_finding : Finding
low_finding = record {
  fingerprint = codes "a1";
  target = codes "fw1";
  check = codes "rule.nolog";
  title = codes "Rule 1 does not log";
  severity = severity_low;
  remediation = codes "Log it";
  evidence = none;
  id = [];
  module_id = codes "rulehawk";
  status = status_open;
  group_id = none;
  first_seen = 1;
  last_seen = 1;
  resolved_at = none;
}

abbrev pub high_finding : Finding
high_finding = record low_finding { fingerprint = codes "b2"; severity = severity_high }

abbrev pub mixed : List Finding
mixed = low_finding ∷ high_finding ∷ low_finding ∷ []

sorted_example : sort_by_severity mixed ≡ high_finding ∷ low_finding ∷ low_finding ∷ []
unfolding sort_by_severity sort_from sink unwind severity_rank
sorted_example = refl

sort_by_severity-Descends_example :
    Descends (sort_by_severity mixed)
    × ((k : ℕ) → with_rank k (sort_by_severity mixed) ≡ with_rank k mixed)
sort_by_severity-Descends_example = sort_by_severity-Descends mixed

-- Every setting is left to its default but the batch, which holds two events.
abbrev pub small_batches : Config
small_batches = record {
  flush_interval = pos 0;
  max_batch = pos 2;
  min_severity = severity_medium;
  retries = pos 0;
  retry_delay = pos 0;
}

abbrev pub high_event : Event
high_event = record { kind = kind_opened; module_id = codes "rulehawk"; finding = high_finding }

abbrev pub closed_event : Event
closed_event = record high_event { kind = kind_resolved; finding = low_finding }

abbrev pub two_channels : List Text
two_channels = codes "mail" ∷ codes "chat" ∷ []

abbrev pub fresh : Dispatcher Text
fresh = new_dispatcher small_batches two_channels

new_dispatcher-calls-IsWindow_example :
    IsWindow (calls (enqueues 1 high_event ∷ flushes 2 ∷ closes 3 ∷ []) fresh)
new_dispatcher-calls-IsWindow_example =
    new_dispatcher-calls-IsWindow small_batches two_channels
      (enqueues 1 high_event ∷ flushes 2 ∷ closes 3 ∷ [])

high_passes : let_in fresh.cfg high_event ≡ true
unfolding let_in new_dispatcher is_opened passes_severity is_unset with_defaults severity_rank
high_passes = refl

is_not_closed : fresh.closed ≡ false
unfolding new_dispatcher
is_not_closed = refl

is_new : one_of fresh.seen (event_key high_event) ≡ false
unfolding new_dispatcher one_of any
is_new = refl

chat_is_there : Holds (codes "chat") fresh.channels
unfolding new_dispatcher
chat_is_there = inr (inl refl)

is_known_kind : is_known high_event.kind ≡ true
unfolding is_known
is_known_kind = refl

enqueue-delivers_example :
    IsSentOver
      (codes "chat")
      high_event
      (sent_in (enqueues 1 high_event ∷ enqueues 2 closed_event ∷ flushes 3 ∷ []) fresh)
enqueue-delivers_example =
    enqueue-delivers (codes "chat") high_event is_known_kind 1 3 (enqueues 2 closed_event ∷ [])
      fresh chat_is_there high_passes is_not_closed is_new

-- A channel that fails twice.
abbrev pub fails_twice : ℕ → Option Text
fails_twice zero = some (codes "timeout")
fails_twice (suc zero) = some (codes "timeout")
fails_twice (suc (suc n)) = none

send_with_retry-IsSent_example :
    IsSent fails_twice
      (pos_part (with_defaults small_batches).retries)
      (send_with_retry fails_twice (with_defaults small_batches))
send_with_retry-IsSent_example = send_with_retry-IsSent fails_twice small_batches
