-- ===== src/Fwrule/Checks.antt =====
-- fwrule/analyze.go: the checks of permissive rules, of hygiene and of drift, and `Analyze`.
pub mod Open
pub mod Breadth
pub mod Drifting
use rulehawk.Common.{
  none, some, List, Bool, Option, map, ◌++◌, ltb, any, if◌then◌else◌, ◌∷◌, true, ◌||◌, ◌&&◌, not,
  false, [],
}
use rulehawk.Fwrule.Rule.{
  Rule, PortRange, any_addr, match_key, summary, to_ranges, action_eq, one_of, any_port, allow,
  deny, loopback,
}
use rulehawk.Common.Text.{Text, codes, itoa, trim}
use rulehawk.Fwrule.Analyze.{Issue, shadow_and_duplicate}
use rulehawk.Common.Int.{ltb_ℤ, pos, wrap, ◌-ℤ◌}

-- The text of an issue about one rule: `title` is put together by the caller.
unfoldable pub issue_of : Rule → Text → Text → Text → Text → Text → Issue
issue_of r check severity prefix title fix = record {
  check = check;
  severity = severity;
  key = prefix ++ match_key r;
  rule_index = r.index;
  title = title;
  detail = summary r;
  fix = fix;
}

unfoldable pub any_any_issue : Rule → Issue
any_any_issue r =
    issue_of r (codes "rule.permissive") (codes "high") (codes "permit-anyany|")
      (codes "Rule " ++ (itoa r.index ++ codes " allows any → any on all ports"))
      (codes "Restrict source, destination, and ports to what actually needs to communicate.")

unfoldable pub any_source_issue : Rule → Issue
any_source_issue r =
    issue_of r (codes "rule.permissive") (codes "medium") (codes "permit-anysrc|")
      (codes "Rule " ++ (itoa r.index ++ codes " allows any source (0.0.0.0/0)"))
      (codes "Scope the source to the specific networks that need this access.")

unfoldable pub wide_port_issue : Rule → Issue
wide_port_issue r =
    issue_of r (codes "rule.permissive") (codes "medium") (codes "permit-wideport|")
      (codes "Rule " ++ (itoa r.index ++ codes " allows a wide destination port range"))
      (codes "Narrow the destination ports to the services actually in use.")

-- `pr.hi-pr.lo > 1024`, with the difference of two `int`s wrapped round.
unfoldable pub is_wide : PortRange → Bool
is_wide pr = ltb_ℤ (pos 1024) (wrap (pr.hi -ℤ pr.lo))

unfoldable pub wide_port_span : List Text → Bool
wide_port_span ports = any is_wide (to_ranges ports)

unfoldable pub is_permissive : Rule → Bool
is_permissive r = any_addr r.src_addrs || (any_addr r.dst_addrs && any_port r.dst_ports)

-- The cases of the switch in `permissive`.
unfoldable pub breadth_issue : Rule → List Issue
breadth_issue r =
    if any_addr r.src_addrs && (any_addr r.dst_addrs && any_port r.dst_ports)
    then any_any_issue r ∷ []
    else if any_addr r.src_addrs
    then any_source_issue r ∷ []
    else if wide_port_span r.dst_ports
    then wide_port_issue r ∷ []
    else []

-- One round of the loop of `permissive`.
unfoldable pub permissive_at : Rule → List Issue
permissive_at r =
    if not r.enabled || not (action_eq r.action allow)
    then []
    else if r.conditional || loopback r
    then []
    else breadth_issue r

unfoldable pub permissive : List Rule → List Issue
permissive [] = []
permissive (r ∷ rules) = permissive_at r ++ permissive rules

unfoldable pub disabled_issue : Rule → Issue
disabled_issue r =
    issue_of r (codes "rule.hygiene") (codes "low") (codes "disabled|")
      (codes "Rule " ++ (itoa r.index ++ codes " is disabled (dead weight)"))
      (codes "Remove it if it is no longer needed; disabled rules accumulate and confuse audits.")

unfoldable pub no_desc_issue : Rule → Issue
no_desc_issue r =
    issue_of r (codes "rule.hygiene") (codes "low") (codes "nodesc|")
      (codes "Rule " ++ (itoa r.index ++ codes " (allow) has no description"))
      (codes "Add a description recording who added it, why, and when it can be removed.")

unfoldable pub no_log_issue : Rule → Issue
no_log_issue r =
    issue_of r (codes "rule.hygiene") (codes "medium") (codes "nolog|")
      (codes "Rule " ++ (itoa r.index ++ codes " is a broad allow with logging off"))
      (codes "Enable logging on broad allow rules so this traffic is auditable.")

unfoldable pub is_empty_text : Text → Bool
is_empty_text [] = true
is_empty_text (c ∷ s) = false

-- One round of the loop of `hygiene`.
unfoldable pub hygiene_at : Rule → List Issue
hygiene_at r =
    if not r.enabled
    then disabled_issue r ∷ []
    else (if action_eq r.action allow && is_empty_text (trim r.desc)
        then no_desc_issue r ∷ []
        else [])
      ++ (if action_eq r.action allow
            && (not r.conditional && (not (loopback r) && (is_permissive r && not r.log)))
          then no_log_issue r ∷ []
          else [])

unfoldable pub hygiene : List Rule → List Issue
hygiene [] = []
hygiene (r ∷ rules) = hygiene_at r ++ hygiene rules

-- `Analyze`
unfoldable pub analyze : List Rule → Option (List Issue)
analyze rules = elim (shadow_and_duplicate rules) [
  | none ↦ none
  | some issues ↦ some (issues ++ (permissive rules ++ hygiene rules))
]

-- The map of the match keys of a rule base, as the list of its keys.
unfoldable pub keys_of : List Rule → List Text
keys_of rules = map match_key rules

unfoldable pub added_issue : Rule → Issue
added_issue r = record {
  check = codes "rule.drift";
  severity =
      if action_eq r.action allow
      then (if is_permissive r then codes "high" else codes "medium")
      else codes "low";
  key = codes "added|" ++ match_key r;
  rule_index = r.index;
  title =
      codes "Drift: rule added — "
      ++ (summary r
          ++ (if action_eq r.action allow && is_permissive r
              then codes " (widens access)"
              else []));
  detail = codes "Not present in the baseline.";
  fix = codes "Confirm this addition was intended and change-controlled.";
}

unfoldable pub removed_issue : Rule → Issue
removed_issue r = record {
  check = codes "rule.drift";
  severity = if action_eq r.action deny then codes "medium" else codes "low";
  key = codes "removed|" ++ match_key r;
  rule_index = r.index;
  title =
      codes "Drift: rule removed — "
      ++ (summary r
          ++ (if action_eq r.action deny then codes " (removing a deny widens access)" else []));
  detail = codes "Present in the baseline, gone from the current config.";
  fix = codes "Confirm this removal was intended and change-controlled.";
}

-- A loop of `Drift`, which passes the rules over whose match key the other rule base has.
unfoldable pub drift_loop : (Rule → Issue) → List Text → List Rule → List Issue
drift_loop issue keys [] = []
drift_loop issue keys (r ∷ rules) =
    let rest = drift_loop issue keys rules in
    if one_of keys (match_key r) then rest else issue r ∷ rest

unfoldable pub drift : List Rule → List Rule → List Issue
drift baseline current =
    drift_loop added_issue (keys_of baseline) current
    ++ drift_loop removed_issue (keys_of current) baseline
