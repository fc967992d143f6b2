-- ===== src/Audit/Tests.antt =====
-- A scan of one small configuration into an empty store.
use rulehawk.Common.{none, some, All, ◌≡◌, List, false, [], ◌∷◌, refl, none_ne_some, sym}
use rulehawk.Audit.Valid.{IsTaken, collect-IsTaken}
use rulehawk.Audit.Whole.{scan_one-succeeds, audit_succeeds}
use rulehawk.Fwparse.Tests.{no_xml, sample_config, sample_parsed, sample_parses, sample-IsPlain}
use rulehawk.Audit.{Libraries, Config, collect, Configs, collector_of, describe, audit_id}
use rulehawk.Core.{blank, encodes, Finding}
use rulehawk.Sched.{look_up, Registration, Target, scan_one, succeeded}
use rulehawk.Store.Memory.{list_by_target, new_mem_store, records_where, mem_ops}
use rulehawk.Store.{ReconcileResult}
use rulehawk.Common.Text.{codes, Text, text_eq}
use rulehawk.Store.Tests.{test_engine}

abbrev test_libraries : Libraries
test_libraries = record {
  unmarshal = no_xml;
  hash = λ s. codes "00";
  issue_evidence = λ detail index vendor. encodes detail;
  sample_evidence = λ count sample vendor. encodes vendor;
}

hashes_are_not_blank : (s : Text) → blank (test_libraries.hash s) ≡ false
unfolding blank
hashes_are_not_blank s = refl

abbrev edge_config : Config
edge_config = record {
  name = codes "edge";
  vendor = codes "iptables";
  current = sample_config;
  baseline = [];
  has_base = false;
  updated_at = 1;
}

edge_has_name : blank edge_config.name ≡ false
unfolding blank
edge_has_name = refl

edge_findings :
    (found : List Finding) × (collect test_libraries (some (some edge_config)) ≡ some found)
unfolding collect
edge_findings =
    audit_succeeds test_libraries hashes_are_not_blank edge_config edge_has_name sample_parsed
      sample_parses sample-IsPlain

collect-IsTaken_example : All IsTaken edge_findings.0
collect-IsTaken_example =
    collect-IsTaken test_libraries hashes_are_not_blank edge_config edge_has_name edge_findings.0
      edge_findings.1

abbrev edge_configs : Configs
edge_configs = (codes "edge", some edge_config) ∷ []

edge_is_stored : look_up none edge_configs (codes "edge") ≡ some edge_config
unfolding look_up text_eq
edge_is_stored = refl

abbrev edge_registration : Registration
edge_registration = record {
  collector = collector_of test_libraries edge_configs;
  info = describe;
  targets = [];
}

abbrev edge_target : Target
edge_target = record { raw = codes "edge"; canonical = codes "edge" }

nothing_stored : mem_ops.list_by_target new_mem_store audit_id (codes "edge") ≡ some []
unfolding list_by_target records_where
nothing_stored = refl

scan_one-succeeds_example :
    (result : ReconcileResult) × (((scan_one mem_ops test_engine edge_registration edge_target
          new_mem_store).1
        ≡ some result)
      × ((scan_one mem_ops test_engine edge_registration edge_target new_mem_store).2 ≡ succeeded)
      × (result.rejected ≡ []))
scan_one-succeeds_example =
    scan_one-succeeds test_libraries hashes_are_not_blank edge_config edge_has_name sample_parsed
      sample_parses sample-IsPlain mem_ops test_engine (λ s r e. none_ne_some (sym e))
      (λ n e. none_ne_some (sym e)) edge_registration edge_configs edge_target [] new_mem_store refl
      edge_is_stored nothing_stored
