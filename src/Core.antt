-- ===== src/Core.antt =====
-- core/finding.go and core/collector.go: findings, their severities and states, and the metadata of a
-- module. Every function is the Go function of that name. A `string` type with named constants is a
-- data type with one more constructor for every other string. Times are numbers.
use rulehawk.Common.{Bool, ℕ, Option, ◌*◌, true, if◌then◌else◌, ◌∷◌, some, false, not, none, []}
use rulehawk.Common.Text.{Text}
use rulehawk.Common.Int.{ℤ, pos, leb_ℤ, negsuc, ltb_ℤ, pos_part}

pub data Severity : Type 0 where
  severity_critical severity_high severity_medium severity_low severity_info : Severity
  severity_unknown : Text → Severity

unfoldable pub rank : Severity → ℤ
rank severity_critical = pos 4
rank severity_high = pos 3
rank severity_medium = pos 2
rank severity_low = pos 1
rank severity_info = pos 0
rank (severity_unknown s) = negsuc 0

unfoldable pub valid : Severity → Bool
valid s = leb_ℤ (pos 0) (rank s)

pub data FindingStatus : Type 0 where
  status_open status_resolved status_acknowledged status_suppressed : FindingStatus
  status_unknown : Text → FindingStatus

-- A map of evidence, as far as `json.Marshal` sees it: the bytes that it encodes to, or a map that
-- cannot be encoded.
pub data Evidence : Type 0 where
  encodes : Text → Evidence
  unserialisable : Evidence

abbrev pub max_evidence_bytes : ℕ
max_evidence_bytes = 64 * 1024

pub record Finding : Type 0 where
  pub fingerprint : Text
  pub target : Text
  pub check : Text
  pub title : Text
  pub severity : Severity
  pub remediation : Text
  pub evidence : Option Evidence
  pub id : Text
  pub module_id : Text
  pub status : FindingStatus
  pub group_id : Option Text
  pub first_seen : ℕ
  pub last_seen : ℕ
  pub resolved_at : Option ℕ

-- The field of the `IngestError`.
pub data IngestError : Type 0 where
  empty_fingerprint empty_target empty_check empty_title empty_remediation : IngestError
  unknown_severity : Severity → IngestError

unfoldable pub blank : Text → Bool
blank [] = true
blank (c ∷ s) = false

-- `nil` is `none`.
unfoldable pub validate_for_ingest : Finding → Option IngestError
validate_for_ingest f =
    if blank f.fingerprint
    then some empty_fingerprint
    else if blank f.target
    then some empty_target
    else if blank f.check
    then some empty_check
    else if blank f.title
    then some empty_title
    else if blank f.remediation
    then some empty_remediation
    else if not (valid f.severity)
    then some (unknown_severity f.severity)
    else none

pub record ModuleInfo : Type 0 where
  pub id : Text
  pub name : Text
  pub version : Text
  pub target_kind : Text
  pub default_interval : ℤ
  pub resolve_after : ℤ

unfoldable pub resolve_after_or_default : ModuleInfo → ℕ
resolve_after_or_default m = if ltb_ℤ m.resolve_after (pos 1) then 1 else pos_part m.resolve_after
