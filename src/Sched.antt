-- ===== src/Sched.antt =====
-- sched/scheduler.go: the targets of the modules, the scan of one target, and the gate that holds back
-- a target that fails. Durations are `int64` counts. The jitter is a float and is not modelled.
pub mod Backoff
pub mod Holding
pub mod Targets
pub mod Tests
use rulehawk.Notify.{or_default, second}
use rulehawk.Common.{
  none, some, ℕ, List, [], Bool, ◌*◌, if◌then◌else◌, ◌-◌, ◌∷◌, ◌+◌, true, suc, Option, false, map,
  not, ltb, zero,
}
use rulehawk.Common.Int.{ℤ, pos, wrap, negsuc, ltb_ℤ, leb_ℤ}
use rulehawk.Core.{ModuleInfo, Finding, blank}
use rulehawk.Common.Text.{Text, text_eq}
use rulehawk.Store.{Store, Engine, ReconcileResult}
use rulehawk.Fwparse.Base.{is_blank}
use rulehawk.Store.Reconcile.{Progress, reconcile}

-- `Config`, without the jitter.
pub record Config : Type 0 where
  pub workers : ℤ
  pub scan_timeout : ℤ
  pub retry_base : ℤ
  pub retry_max : ℤ
  pub interval_override : ℤ

-- `withDefaults`; the durations are 30 seconds, 30 seconds and 15 minutes.
unfoldable pub with_defaults : Config → Config
with_defaults c = record c {
  workers = or_default c.workers (pos 8);
  scan_timeout = or_default c.scan_timeout (pos (30 * second));
  retry_base = or_default c.retry_base (pos (30 * second));
  retry_max = or_default c.retry_max (pos (15 * 60 * second));
}

-- `d *= 2`
unfoldable pub double : ℤ → ℤ
double (pos n) = wrap (pos (n + n))
double (negsuc n) = wrap (negsuc (suc (n + n)))

-- The loop of `backoffFor`, with the rounds that are left.
unfoldable pub backoff_from : ℕ → ℤ → ℤ → ℤ
backoff_from zero most d = if ltb_ℤ most d then most else d
backoff_from (suc left) most d =
    let rest = backoff_from left most (double d) in if leb_ℤ most (double d) then most else rest

-- `backoffFor`
unfoldable pub backoff_for : Config → ℕ → ℤ
backoff_for cfg consecutive = backoff_from (consecutive - 1) cfg.retry_max cfg.retry_base

-- How often `moduleLoop` sweeps.
unfoldable pub interval_of : Config → ModuleInfo → ℤ
interval_of cfg info =
    let interval =
      if ltb_ℤ (pos 0) cfg.interval_override
      then cfg.interval_override
      else info.default_interval in
    or_default interval (pos (60 * 60 * second))

-- A key's value in a map, where a missing key reads as `default`.
unfoldable pub look_up : {A : Type 0} → A → List (Text × A) → Text → A
look_up default [] key = default
look_up default (e ∷ table) key = if text_eq e.0 key then e.1 else look_up default table key

unfoldable pub put_key : {A : Type 0} → Text → A → List (Text × A) → List (Text × A)
put_key key a [] = (key, a) ∷ []
put_key key a (e ∷ table) =
    let rest = put_key key a table in if text_eq e.0 key then (key, a) ∷ table else e ∷ rest

unfoldable pub remove : {A : Type 0} → Text → List (Text × A) → List (Text × A)
remove key [] = []
remove key (e ∷ table) = let rest = remove key table in if text_eq e.0 key then rest else e ∷ rest

-- `failures` and `nextOK`; a zero time is `none`.
pub record Gates : Type 0 where
  pub failures : List (Text × ℕ)
  pub next_ok : List (Text × Option ℕ)

abbrev pub no_gates : Gates
no_gates = record { failures = []; next_ok = [] }

-- What `scanOne` returned.
pub data ScanOutcome : Type 0 where
  succeeded failed cancelled : ScanOutcome

-- `now.Add(d)`, where times start at zero.
unfoldable pub later : ℕ → ℤ → ℕ
later now (pos d) = now + d
later now (negsuc d) = now - suc d

-- The target is not held back.
unfoldable pub is_due : ℕ → Gates → Text → Bool
is_due now g canonical = elim (look_up none g.next_ok canonical) [
  | none ↦ true
  | some gate ↦ not (ltb now gate)
]

-- What the goroutine of a scan does with its outcome.
unfoldable pub note_outcome : Config → ℕ → Text → ScanOutcome → Gates → Gates
note_outcome cfg now canonical succeeded g = record {
  failures = put_key canonical 0 g.failures;
  next_ok = put_key canonical none g.next_ok;
}
note_outcome cfg now canonical cancelled g = record {
  failures = put_key canonical 0 g.failures;
  next_ok = put_key canonical none g.next_ok;
}
note_outcome cfg now canonical failed g =
    let n = suc (look_up 0 g.failures canonical) in
    record {
      failures = put_key canonical n g.failures;
      next_ok = put_key canonical (some (later now (backoff_for cfg n))) g.next_ok;
    }

-- `core.Target`, as far as the scheduler reads it.
pub record Target : Type 0 where
  pub raw : Text
  pub canonical : Text

-- `core.Collector`; an error is `none`.
pub record Collector : Type 0 where
  pub describe : ModuleInfo
  pub validate_target : Text → Option Target
  pub collect : Target → Option (List Finding)

pub record Registration : Type 0 where
  pub collector : Collector
  pub info : ModuleInfo
  pub targets : List (Text × Target)

-- `Scheduler`, without the callbacks and the pool of workers.
pub record Scheduler : Type 0 where
  pub cfg : Config
  pub modules : List (Text × Option Registration)
  pub started : Bool

-- `New`
unfoldable pub new_scheduler : Config → Scheduler
new_scheduler cfg = record { cfg = with_defaults cfg; modules = []; started = false }

-- `s.modules[id]`
unfoldable pub module_of : Scheduler → Text → Option Registration
module_of s id = look_up none s.modules id

-- `Register`; whether it went well.
unfoldable pub register : Collector → Scheduler → Scheduler × Bool
register c s = if is_blank c.describe.id then (s, false) else elim (module_of s c.describe.id) [
  | some dup ↦ (s, false)
  | none ↦ (
    record s {
      modules =
          put_key c.describe.id (some (record { collector = c; info = c.describe; targets = [] }))
            s.modules;
    },
    true,
  )
]

unfoldable pub with_target : Text → Registration → Target → Scheduler → Scheduler
with_target id reg t s = record s {
  modules =
      put_key id (some (record reg { targets = put_key t.canonical t reg.targets })) s.modules;
}

-- `AddTarget`, without the scan at once: the target, or an error.
unfoldable pub add_target : Text → Text → Scheduler → Scheduler × Option Target
add_target id raw s = elim (module_of s id) [
  | none ↦ (s, none)
  | some reg ↦ elim (reg.collector.validate_target raw) [
    | none ↦ (s, none)
    | some t ↦ (with_target id reg t s, some t)
  ]
]

-- `RemoveTarget`
unfoldable pub remove_target : Text → Text → Scheduler → Scheduler
remove_target id canonical s = elim (module_of s id) [
  | none ↦ s
  | some reg ↦ record s {
    modules = put_key id (some (record reg { targets = remove canonical reg.targets })) s.modules;
  }
]

unfoldable pub snapshot_targets : Registration → List Target
snapshot_targets reg = map (λ (e : Text × Target). e.1) reg.targets

-- `ListTargets`
unfoldable pub list_targets : Text → Scheduler → List Target
list_targets id s = elim (module_of s id) [ none ↦ [] | some reg ↦ snapshot_targets reg ]

-- `Start`; whether it went well.
unfoldable pub start : Scheduler → Scheduler × Bool
start s = if s.started then (s, false) else (record s { started = true }, true)

-- `scanOne` with a worker at hand: the state of the store, the result to report, and the outcome.
module _ {S : Type 0} (ops : Store S) (eng : Engine) where
  unfoldable pub scanned : Progress S → S × Option ReconcileResult × ScanOutcome
  scanned p = if p.failed then (p.store, none, failed) else (p.store, some p.result, succeeded)

  unfoldable pub scan_one : Registration → Target → S → S × Option ReconcileResult × ScanOutcome
  scan_one reg t s = elim (reg.collector.collect t) [
    | none ↦ (s, none, failed)
    | some findings ↦ scanned (reconcile ops eng reg.info t.canonical findings s)
  ]
