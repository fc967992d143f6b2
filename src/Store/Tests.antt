-- ===== src/Store/Tests.antt =====
-- A reconciliation with the store in memory.
use rulehawk.Common.{
  All, some, [], ◌∷◌, none, ◌≡◌, ap, refl, any, length, false, if◌then◌else◌, true, none_ne_some,
  sym, leb, ◌&&◌, ◌≢◌, false≢true, ◌∙◌,
}
use rulehawk.Core.{
  Finding, ModuleInfo, severity_high, status_open, status_unknown, validate_for_ingest, blank,
  valid, rank, resolve_after_or_default,
}
use rulehawk.Store.{Record, Engine}
use rulehawk.Store.Memory.{
  upsert, list_by_target, set_entry, records_where, MemStore, new_mem_store, mem_key, mem_ops, get,
  targets_of, save_target, get_entry,
}
use rulehawk.Store.Reconcile.{
  reconcile, ingest_all, ingest, refresh, open_new, put_record, age_all, age, add_open,
  add_resolved, by_fingerprint, cap_evidence, opened, absent_once, resolves, absence_counts,
  is_resolved,
}
use rulehawk.Common.Text.{codes, text_eq, Text, text_eq_iff}
use rulehawk.Store.Notices.{Notified, reconcile-Notified}
use rulehawk.Store.Resolutions.{ResolvedNow, reconcile-ResolvedNow}
use rulehawk.Common.Int.{pos}
use rulehawk.Store.Rejections.{rejects, reconcile-rejects}
use rulehawk.Store.Keeps.{get-upsert, save_target-save_target}
use rulehawk.Common.Separated.{any-Lacks}
use rulehawk.Store.Scans.{Scan, IsSilent, run_scans, IsStored}
use rulehawk.Store.Absences.{silent_scans-resolve}
use rulehawk.Store.Keyed.{key_of}

abbrev pub fresh_finding : Finding
fresh_finding = record {
  fingerprint = codes "a1";
  target = codes "fw1";
  check = codes "rule.shadowed";
  title = codes "Rule 2 is shadowed";
  severity = severity_high;
  remediation = codes "Remove rule 2";
  evidence = none;
  id = [];
  module_id = [];
  status = status_unknown [];
  group_id = none;
  first_seen = 0;
  last_seen = 0;
  resolved_at = none;
}

-- A record that the scan of `fresh_finding` does not report.
abbrev pub old_record : Record
old_record = record {
  finding = record fresh_finding {
    fingerprint = codes "b2";
    module_id = codes "rulehawk";
    status = status_open;
    first_seen = 1;
    last_seen = 1;
  };
  absent_streak = 0;
}

abbrev pub rule_module : ModuleInfo
rule_module = record {
  id = codes "rulehawk";
  name = codes "RuleHawk";
  version = [];
  target_kind = [];
  default_interval = pos 0;
  resolve_after = pos 1;
}

abbrev pub test_engine : Engine
test_engine = record { now = 7; new_id = λ n. some (codes "id") }

abbrev pub one_record : MemStore
unfolding upsert set_entry
one_record = upsert new_mem_store old_record

old_is_listed : list_by_target one_record (codes "rulehawk") (codes "fw1") ≡ old_record ∷ []
unfolding list_by_target records_where upsert set_entry text_eq mem_key
old_is_listed = refl

reconcile-Notified_example :
    All
      (Notified (old_record ∷ []) (fresh_finding ∷ []))
      (reconcile mem_ops test_engine rule_module
        (codes "fw1")
        (fresh_finding ∷ [])
        one_record).result.newly_open
reconcile-Notified_example =
    reconcile-Notified mem_ops test_engine rule_module (codes "fw1") (old_record ∷ [])
      (fresh_finding ∷ []) one_record (ap some old_is_listed)

reconcile-ResolvedNow_example :
    All
      (ResolvedNow rule_module 7 (old_record ∷ []) (fresh_finding ∷ []))
      (reconcile mem_ops test_engine rule_module
        (codes "fw1")
        (fresh_finding ∷ [])
        one_record).result.resolved
reconcile-ResolvedNow_example =
    reconcile-ResolvedNow mem_ops test_engine rule_module (codes "fw1") (old_record ∷ [])
      (fresh_finding ∷ []) one_record (ap some old_is_listed)

-- The scan opens the one finding and resolves the other.
scan_result :
    (length
        (reconcile mem_ops test_engine rule_module
          (codes "fw1")
          (fresh_finding ∷ [])
          one_record).result.newly_open
      ≡ 1)
    × (length
          (reconcile mem_ops test_engine rule_module
            (codes "fw1")
            (fresh_finding ∷ [])
            one_record).result.resolved
        ≡ 1)
unfolding reconcile ingest_all ingest refresh open_new put_record age_all age add_open add_resolved
    list_by_target records_where upsert set_entry text_eq mem_key by_fingerprint validate_for_ingest
    blank valid rank cap_evidence opened absent_once resolves resolve_after_or_default
    absence_counts any
scan_result = (refl, refl)

-- A finding without a title.
abbrev pub untitled_finding : Finding
untitled_finding = record fresh_finding { fingerprint = codes "c3"; title = [] }

reconcile-rejects_example :
    ((reconcile mem_ops test_engine rule_module
        (codes "fw1")
        (fresh_finding ∷ untitled_finding ∷ [])
        one_record).failed
      ≡ false)
    × ((reconcile mem_ops test_engine rule_module
          (codes "fw1")
          (fresh_finding ∷ untitled_finding ∷ [])
          one_record).result.rejected
        ≡ rejects (fresh_finding ∷ untitled_finding ∷ []))
reconcile-rejects_example =
    reconcile-rejects mem_ops test_engine rule_module (λ s r e. none_ne_some (sym e))
      (λ n e. none_ne_some (sym e)) (codes "fw1") (old_record ∷ [])
      (fresh_finding ∷ untitled_finding ∷ []) one_record (ap some old_is_listed)

get-upsert_example : get (upsert one_record old_record) (codes "certhawk") (codes "b2") ≡ (
    if text_eq (codes "rulehawk") (codes "certhawk") && text_eq (codes "b2") (codes "b2")
    then some old_record
    else get one_record (codes "certhawk") (codes "b2"))
unfolding any
get-upsert_example =
    get-upsert one_record old_record (codes "certhawk") (codes "b2")
      (any-Lacks 0 (codes "rulehawk") refl) (any-Lacks 0 (codes "certhawk") refl)

save_target-save_target_example :
    (any
        (λ t. text_eq t.canonical (codes "fw1"))
        (targets_of
          (save_target one_record (codes "rulehawk") (codes "FW1") (codes "fw1"))
          (codes "rulehawk"))
      ≡ true)
    × (save_target
          (save_target one_record (codes "rulehawk") (codes "FW1") (codes "fw1"))
          (codes "rulehawk")
          (codes "fw1")
          (codes "fw1")
        ≡ save_target one_record (codes "rulehawk") (codes "FW1") (codes "fw1"))
save_target-save_target_example =
    save_target-save_target one_record (codes "rulehawk") (codes "FW1") (codes "fw1") (codes "fw1")

old_counts : absence_counts old_record.finding.status ≡ true
unfolding absence_counts
old_counts = refl

-- A store with the record, and another one that the same scan does not report.
abbrev pub other_record : Record
other_record = record old_record {
  finding = record old_record.finding { fingerprint = codes "d4" };
}

abbrev pub two_records : MemStore
unfolding upsert set_entry
two_records = upsert one_record other_record

abbrev pub one_scan : Scan
one_scan = record { eng = test_engine; fresh = fresh_finding ∷ [] }

differ : (a b : Text) → text_eq a b ≡ false → a ≢ b
differ a b n e = false≢true (sym n ∙ (text_eq_iff a b).1 e)

old-IsStored : IsStored two_records other_record
unfolding upsert set_entry text_eq mem_key get get_entry
old-IsStored = record {
  keyed = (refl, (differ (key_of other_record) (key_of old_record) refl, tt), (refl, tt, tt));
  found = refl;
}

not_reported : IsSilent (codes "d4") one_scan
unfolding text_eq
not_reported = record {
  unreported = (differ (codes "a1") (codes "d4") refl, tt);
  generates = λ n e. none_ne_some (sym e);
}

silent_scans-resolve_example :
    (q : Record) × (get
        (run_scans rule_module (codes "fw1") (one_scan ∷ []) two_records)
        (codes "rulehawk")
        (codes "d4")
      ≡ some q)
    × (is_resolved q.finding.status ≡ leb (resolve_after_or_default rule_module) 1)
silent_scans-resolve_example =
    silent_scans-resolve (one_scan ∷ []) rule_module two_records other_record (not_reported, tt)
      refl old_counts refl old-IsStored
