-- ===== src/Store/Reconcile.antt =====
-- store/reconcile.go: `Reconcile` and `capEvidence`.
use rulehawk.Common.{
  List, ℕ, Option, some, Bool, if◌then◌else◌, ltb, true, false, leb, none, ◌++◌, ◌+◌, ◌∷◌, length,
  [], any, ◌||◌, not,
}
use rulehawk.Core.{
  Evidence, FindingStatus, encodes, Finding, status_open, status_resolved, ModuleInfo,
  max_evidence_bytes, validate_for_ingest, resolve_after_or_default, status_suppressed,
  unserialisable,
}
use rulehawk.Store.{Record, ReconcileResult, Store, Engine, no_result}
use rulehawk.Common.Text.{Text, codes, itoa, text_eq}

-- `json.Marshal` of the two markers.
abbrev pub error_marker : Evidence
error_marker = encodes (codes "{\"_error\":\"evidence not serialisable; dropped\"}")

abbrev pub truncated_marker : ℕ → Evidence
truncated_marker n = encodes (
    codes "{\"_note\":\"evidence exceeded MaxEvidenceBytes and was dropped\",\"_original_bytes\":"
    ++ (itoa n ++ codes ",\"_truncated\":true}"))

-- `capEvidence`
unfoldable pub cap_evidence : Option Evidence → Option Evidence
cap_evidence none = none
cap_evidence (some unserialisable) = some error_marker
cap_evidence (some (encodes b)) =
    if ltb max_evidence_bytes (length b)
    then some (truncated_marker (length b))
    else some (encodes b)

-- The record of a finding that the target has not shown before.
unfoldable pub opened : ℕ → Text → Text → Finding → Record
opened now module_id id f = record {
  finding = record f {
    id = id;
    module_id = module_id;
    status = status_open;
    first_seen = now;
    last_seen = now;
  };
  absent_streak = 0;
}

unfoldable pub is_resolved : FindingStatus → Bool
is_resolved status_resolved = true
is_resolved _ = false

-- The record of a finding that the target has shown before.
unfoldable pub merged : ℕ → Record → Finding → Record
merged now prev f = record {
  finding = record prev.finding {
    title = f.title;
    severity = f.severity;
    remediation = f.remediation;
    evidence = f.evidence;
    last_seen = now;
    status = if is_resolved prev.finding.status then status_open else prev.finding.status;
    resolved_at = if is_resolved prev.finding.status then none else prev.finding.resolved_at;
  };
  absent_streak = 0;
}

-- Whether the absence of a finding counts: a resolved one stays resolved, and a suppressed one is the
-- user's call.
unfoldable pub absence_counts : FindingStatus → Bool
absence_counts status_resolved = false
absence_counts status_suppressed = false
absence_counts _ = true

-- The streak of an absent finding has reached the threshold.
unfoldable pub resolves : ℕ → Record → Bool
resolves threshold r = leb threshold (r.absent_streak + 1)

-- The record of a finding that one more scan did not report.
unfoldable pub absent_once : ℕ → ℕ → Record → Record
absent_once now threshold r =
    if resolves threshold r
    then record {
      finding = record r.finding { status = status_resolved; resolved_at = some now };
      absent_streak = r.absent_streak + 1;
    }
    else record r { absent_streak = r.absent_streak + 1 }

-- The map from fingerprints to records, of which a later one replaces an earlier one.
unfoldable pub by_fingerprint : List Record → Text → Option Record
by_fingerprint [] fp = none
by_fingerprint (r ∷ records) fp = elim (by_fingerprint records fp) [
  | some later ↦ some later
  | none ↦ if text_eq r.finding.fingerprint fp then some r else none
]

-- The store, the result, the calls of the generator and the fingerprints seen so far; `failed` is a
-- reconciliation that has returned an error, with the changes it has made.
pub record Progress (S : Type 0) : Type 0 where
  pub store : S
  pub result : ReconcileResult
  pub calls : ℕ
  pub seen : List Text
  pub failed : Bool

-- `Upsert`, whose error ends the reconciliation.
unfoldable pub put_record :
    {S : Type 0} → Store S → Progress S → Record → (ReconcileResult → ReconcileResult) → Progress S
put_record ops p r update = elim (ops.upsert p.store r) [
  | none ↦ record p { failed = true }
  | some s ↦ record p { store = s; result = update p.result }
]

unfoldable pub add_open : Bool → Finding → ReconcileResult → ReconcileResult
add_open b f res = if b then record res { newly_open = res.newly_open ++ f ∷ [] } else res

unfoldable pub add_resolved : Bool → Finding → ReconcileResult → ReconcileResult
add_resolved b f res = if b then record res { resolved = res.resolved ++ f ∷ [] } else res

module _ {S : Type 0} (ops : Store S) (eng : Engine) (mod_info : ModuleInfo) where
  -- The branch of a finding that is not in the map.
  unfoldable pub open_new : Progress S → Finding → Progress S
  open_new p f = elim (eng.new_id p.calls) [
    | none ↦ record p { calls = p.calls + 1; failed = true }
    | some id ↦
        let r = opened eng.now mod_info.id id f in
        put_record ops (record p { calls = p.calls + 1 }) r (add_open true r.finding)
  ]

  unfoldable pub refresh : Progress S → Finding → Option Record → Progress S
  refresh p f none = open_new p f
  refresh p f (some prev) =
      let r = merged eng.now prev f in
      put_record ops p r (add_open (is_resolved prev.finding.status) r.finding)

  -- One round of the loop over the fresh findings.
  unfoldable pub ingest : List Record → Progress S → Finding → Progress S
  ingest existing p f = elim (validate_for_ingest f) [
    | some err ↦ record p {
      result = record p.result {
        rejected = p.result.rejected ++ record { finding = f; err = err } ∷ [];
      };
    }
    | none ↦
        refresh (record p { seen = f.fingerprint ∷ p.seen })
          (record f { evidence = cap_evidence f.evidence }) (by_fingerprint existing f.fingerprint)
  ]

  unfoldable pub ingest_all : List Record → Progress S → List Finding → Progress S
  ingest_all existing p [] = p
  ingest_all existing p (f ∷ fresh) =
      let rest = ingest_all existing (ingest existing p f) fresh in
      if (ingest existing p f).failed then ingest existing p f else rest

  -- One round of the loop over the findings that the target had. The result names a finding as
  -- resolved before the store has it.
  unfoldable pub age : Progress S → Record → Progress S
  age p r =
      let threshold = resolve_after_or_default mod_info in
      let aged = absent_once eng.now threshold r in
      if any (text_eq r.finding.fingerprint) p.seen || not (absence_counts r.finding.status)
      then p
      else put_record ops
          (record p { result = add_resolved (resolves threshold r) aged.finding p.result }) aged
          (λ res. res)

  unfoldable pub age_all : Progress S → List Record → Progress S
  age_all p [] = p
  age_all p (r ∷ records) =
      let rest = age_all (age p r) records in if (age p r).failed then age p r else rest

  -- `Reconcile`
  unfoldable pub reconcile : Text → List Finding → S → Progress S
  reconcile target fresh s = elim (ops.list_by_target s mod_info.id target) [
    | none ↦ record { store = s; result = no_result; calls = 0; seen = []; failed = true }
    | some existing ↦
        let p =
          ingest_all existing
            (record { store = s; result = no_result; calls = 0; seen = []; failed = false })
            fresh in
        if p.failed then p else age_all p existing
  ]
