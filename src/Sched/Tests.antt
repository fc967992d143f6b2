-- ===== src/Sched/Tests.antt =====
-- A scheduler with one module.
use rulehawk.Sched.Backoff.{doubled, least, backoff_for-least}
use rulehawk.Sched.Holding.{fail_at, state_of, fail_at-state_of}
use rulehawk.Sched.Targets.{IsHeld, add_target-IsHeld}
use rulehawk.Common.{some, ℕ, ◌≡◌, [], ◌∷◌, arith, refl, false, Holds}
use rulehawk.Sched.{
  Config, with_defaults, backoff_for, Collector, Scheduler, register, add_target, note_outcome,
  new_scheduler, succeeded, no_gates, later, Target, module_of, list_targets, look_up, put_key,
}
use rulehawk.Common.Text.{codes, Text, text_eq}
use rulehawk.Common.Int.{pos}
use rulehawk.Notify.{or_default}
use rulehawk.Fwparse.Base.{is_blank}

abbrev pub all_defaults : Config
all_defaults = record {
  workers = pos 0;
  scan_timeout = pos 0;
  retry_base = pos 0;
  retry_max = pos 0;
  interval_override = pos 0;
}

abbrev pub half_minute : ℕ
half_minute = 30000000000

abbrev pub quarter_hour : ℕ
quarter_hour = 900000000000

default_base : (with_defaults all_defaults).retry_base ≡ pos half_minute
unfolding with_defaults or_default
default_base = refl

default_max : (with_defaults all_defaults).retry_max ≡ pos quarter_hour
unfolding with_defaults or_default
default_max = refl

backoff_for-least_example :
    backoff_for (with_defaults all_defaults) 4 ≡ pos (least quarter_hour (doubled 3 half_minute))
backoff_for-least_example =
    backoff_for-least (with_defaults all_defaults) half_minute quarter_hour 3 default_base
      default_max (omega arith) (omega arith)

fail_at-state_of_example :
    let cfg = with_defaults all_defaults in
    let held =
      fail_at cfg
        (codes "fw1")
        (2 ∷ 3 ∷ [])
        (note_outcome cfg 1 (codes "fw1") succeeded no_gates) in
    (state_of cfg (codes "fw1") held (codes "fw1") ≡ (2, some (later 3 (backoff_for cfg 2))))
    × ((other : Text)
        → text_eq (codes "fw1") other ≡ false
        → state_of cfg (codes "fw1") held other ≡ state_of cfg (codes "fw1") no_gates other)
fail_at-state_of_example =
    fail_at-state_of (with_defaults all_defaults) (codes "fw1") (2 ∷ []) 1 3 no_gates

abbrev pub echo : Collector
echo = record {
  describe = record {
    id = codes "rulehawk";
    name = codes "RuleHawk";
    version = [];
    target_kind = [];
    default_interval = pos 0;
    resolve_after = pos 1;
  };
  validate_target = λ raw. some (record { raw = raw; canonical = raw });
  collect = λ t. some [];
}

abbrev pub registered : Scheduler
registered = (register echo (new_scheduler all_defaults)).0

abbrev pub fw1 : Target
fw1 = record { raw = codes "fw1"; canonical = codes "fw1" }

fw1_is_added : (add_target (codes "rulehawk") (codes "fw1") registered).1 ≡ some fw1
unfolding add_target register module_of new_scheduler look_up is_blank put_key text_eq
fw1_is_added = refl

add_target-IsHeld_example :
    Holds fw1
      (list_targets (codes "rulehawk") (add_target (codes "rulehawk") (codes "fw1") registered).0)
    × ((other : Text)
        → text_eq (codes "rulehawk") other ≡ false
        → list_targets other (add_target (codes "rulehawk") (codes "fw1") registered).0
          ≡ list_targets other registered)
    × IsHeld
        (codes "rulehawk")
        registered
        fw1
        (add_target (codes "rulehawk") (codes "fw1") registered).0
add_target-IsHeld_example =
    add_target-IsHeld (codes "rulehawk") registered (codes "fw1") fw1 fw1_is_added
