-- ===== src/Audit.antt =====
-- rulehawk/rulehawk.go and rulehawk/memstore.go: the collector, which parses a stored configuration and
-- turns the issues of the analysers into findings, and the store of configurations in memory.
-- `Fingerprint` of core/finding.go is there with them.
pub mod Texts
pub mod Valid
pub mod Whole
pub mod Tests
use rulehawk.Common.{
  none, some, List, ℕ, Option, Bool, if◌then◌else◌, ◌++◌, [], map, not, true, suc, ◌∷◌, false,
  length, ◌*◌, zero,
}
use rulehawk.Common.Text.{Text, codes, text_eq, itoa, trim}
use rulehawk.Core.{
  Severity, Finding, ModuleInfo, Evidence, valid, severity_unknown, severity_critical, severity_low,
  status_unknown, severity_high, severity_medium, severity_info,
}
use rulehawk.Fwrule.Analyze.{Issue}
use rulehawk.Fwparse.Base.{Parsed, no_rule, is_blank}
use rulehawk.Fwrule.Postings.{put}
use rulehawk.Fwparse.Pfsense.{PfRule}
use rulehawk.Fwparse.{parse, vendor_label}
use rulehawk.Sched.{look_up, remove, put_key, Collector}
use rulehawk.Fwrule.Checks.{analyze, drift}
use rulehawk.Common.Int.{pos}

-- What the collector calls of Go's libraries: the decoder of XML, the first half of SHA-256 in
-- hexadecimal, and JSON of the two kinds of evidence.
pub record Libraries : Type 0 where
  pub unmarshal : Text → Option (List PfRule)
  pub hash : Text → Text
  pub issue_evidence : Text → ℕ → Text → Evidence
  pub sample_evidence : ℕ → List Text → Text → Evidence

abbrev pub audit_id : Text
audit_id = codes "rulehawk"

-- `Config`
pub record Config : Type 0 where
  pub name : Text
  pub vendor : Text
  pub current : Text
  pub baseline : Text
  pub has_base : Bool
  pub updated_at : ℕ

-- `core.Severity(s)`
unfoldable pub severity_of : Text → Severity
severity_of s =
    if text_eq s (codes "critical")
    then severity_critical
    else if text_eq s (codes "high")
    then severity_high
    else if text_eq s (codes "medium")
    then severity_medium
    else if text_eq s (codes "low")
    then severity_low
    else if text_eq s (codes "info")
    then severity_info
    else severity_unknown s

unfoldable pub or_low : Severity → Severity
or_low s = if valid s then s else severity_low

unfoldable pub or_review : Text → Text
or_review fix = if is_blank (trim fix) then codes "Review this rule." else fix

-- The text that `Fingerprint` hashes.
unfoldable pub fingerprint_text : Text → Text → Text → Text → Text
fingerprint_text module_id target check discriminator =
    module_id ++ (codes "|" ++ (target ++ (codes "|" ++ (check ++ (codes "|" ++ discriminator)))))

-- The fields that a collector leaves to the core.
abbrev pub new_finding : Finding
new_finding = record {
  fingerprint = [];
  target = [];
  check = [];
  title = [];
  severity = severity_unknown [];
  remediation = [];
  evidence = none;
  id = [];
  module_id = [];
  status = status_unknown [];
  group_id = none;
  first_seen = 0;
  last_seen = 0;
  resolved_at = none;
}

unfoldable pub is_nothing : List Text → Bool
is_nothing [] = true
is_nothing (s ∷ ss) = false

-- The first texts, at most so many.
unfoldable pub at_most : ℕ → List Text → List Text
at_most zero ss = []
at_most (suc n) [] = []
at_most (suc n) (s ∷ ss) = s ∷ at_most n ss

module _ (lib : Libraries) where
  -- `Fingerprint`
  unfoldable pub fingerprint : Text → Text → Text → Text → Text
  fingerprint module_id target check discriminator =
      lib.hash (fingerprint_text module_id target check discriminator)

  -- `issueFinding`
  unfoldable pub issue_finding : Config → Issue → Finding
  issue_finding cfg iss = record new_finding {
    fingerprint = fingerprint audit_id cfg.name iss.check iss.key;
    target = cfg.name;
    check = iss.check;
    title = iss.title;
    severity = or_low (severity_of iss.severity);
    remediation = or_review iss.fix;
    evidence = some (lib.issue_evidence iss.detail iss.rule_index cfg.vendor);
  }

  -- The finding of the lines that the parser did not understand.
  unfoldable pub unparsed_finding : Config → List Text → Finding
  unparsed_finding cfg unparsed = record new_finding {
    fingerprint = fingerprint audit_id cfg.name (codes "config.unparsed") [];
    target = cfg.name;
    check = codes "config.unparsed";
    title =
        itoa (length unparsed)
        ++ (codes " config line(s) could not be parsed for " ++ vendor_label cfg.vendor);
    severity = severity_low;
    remediation =
        codes
          "Review these lines — RuleHawk skipped them, so any rules they contain were not audited.";
    evidence = some (lib.sample_evidence (length unparsed) (at_most 8 unparsed) cfg.vendor);
  }

  unfoldable pub unparsed_findings : Config → List Text → List Finding
  unparsed_findings cfg unparsed =
      if is_nothing unparsed then [] else unparsed_finding cfg unparsed ∷ []

  -- The issues of the drift from the baseline, if there is one that parses.
  unfoldable pub drift_issues : Config → Parsed → List Issue
  drift_issues cfg parsed =
      if is_blank (trim cfg.baseline)
      then []
      else elim (parse lib.unmarshal cfg.vendor cfg.baseline) [
        | none ↦ []
        | some base ↦ drift base.rules parsed.rules
      ]

  unfoldable pub findings_of : Config → Parsed → List Issue → List Finding
  findings_of cfg parsed issues =
      map (issue_finding cfg) (issues ++ drift_issues cfg parsed)
      ++ unparsed_findings cfg parsed.unparsed

  -- The configuration was found.
  unfoldable pub audit : Config → Option (List Finding)
  audit cfg = elim (parse lib.unmarshal cfg.vendor cfg.current) [
    | none ↦ none
    | some parsed ↦ elim (analyze parsed.rules) [
      | none ↦ none
      | some issues ↦ some (findings_of cfg parsed issues)
    ]
  ]

  -- `Collect`, on what `GetConfig` returned; an error is `none`, and so is a panic of the analysers.
  unfoldable pub collect : Option (Option Config) → Option (List Finding)
  collect none = none
  collect (some none) = some []
  collect (some (some cfg)) = audit cfg

-- `Describe`
abbrev pub describe : ModuleInfo
describe = record {
  id = audit_id;
  name = codes "RuleHawk";
  version = codes "0.1.3";
  target_kind = codes "config";
  default_interval = pos (24 * 60 * 60 * 1000000000);
  resolve_after = pos 1;
}

-- `ValidateTarget`: the canonical name, or an error.
unfoldable pub validate_target : Text → Option Text
validate_target raw = if is_blank (trim raw) then none else some (trim raw)

-- `MemStore` of configurations: its map.
abbrev pub Configs : Type 0
Configs = List (Text × Option Config)

-- `PutConfig`
unfoldable pub put_config : Config → Configs → Configs
put_config c configs =
    put_key c.name (some (record c { has_base = not (is_blank (trim c.baseline)) })) configs

-- `GetConfig`, which has no error here.
unfoldable pub get_config : Configs → Text → Option (Option Config)
get_config configs name = some (look_up none configs name)

-- `DeleteConfig`
unfoldable pub delete_config : Text → Configs → Configs
delete_config name configs = remove name configs

-- `Collector`, over a store of configurations.
unfoldable pub collector_of : Libraries → Configs → Collector
collector_of lib configs = record {
  describe = describe;
  validate_target = λ raw. elim (validate_target raw) [
    | none ↦ none
    | some name ↦ some (record { raw = raw; canonical = name })
  ];
  collect = λ t. collect lib (get_config configs t.canonical);
}
