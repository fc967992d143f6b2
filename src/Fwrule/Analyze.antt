-- ===== src/Fwrule/Analyze.antt =====
-- fwrule/analyze.go: the analysers.
pub mod Reference
pub mod Reports
pub mod Severity
use rulehawk.Common.{
  ℕ, List, Option, if◌then◌else◌, Bool, ◌∷◌, some, ◌++◌, not, [], ◌&&◌, get_elem?, none, suc, ◌||◌,
  zero,
}
use rulehawk.Common.Text.{Text, codes, itoa}
use rulehawk.Fwrule.Rule.{
  Rule, same_match, match_key, action_eq, summary, deny, other, allow, covers,
}
use rulehawk.Fwrule.Index.{
  Outcome, CoverIndex, new_cover_index, found, first_coverer, may_cover, absent, add, out_of_range,
  out_of_fuel,
}

pub record Issue : Type 0 where
  pub check : Text
  pub severity : Text
  pub key : Text
  pub rule_index : ℕ
  pub title : Text
  pub detail : Text
  pub fix : Text

-- `coverIssue`, whose texts the quadratic version repeats.
unfoldable pub duplicate_issue : Rule → Rule → Issue
duplicate_issue rj ri = record {
  check = codes "rule.duplicate";
  severity = codes "low";
  key = codes "dup|" ++ match_key ri;
  rule_index = ri.index;
  title = codes "Rule " ++ (itoa ri.index ++ (codes " is a duplicate of rule " ++ itoa rj.index));
  detail = summary ri ++ (codes "  (identical to rule " ++ (itoa rj.index ++ codes ")"));
  fix =
      codes "Remove rule "
      ++ (itoa ri.index ++ (codes " — it is identical to rule " ++ (itoa rj.index ++ codes ".")));
}

unfoldable pub dead_deny_issue : Rule → Rule → Issue
dead_deny_issue rj ri = record {
  check = codes "rule.shadowed";
  severity = codes "high";
  key = codes "shadow|" ++ match_key ri;
  rule_index = ri.index;
  title =
      codes "Deny rule "
      ++ (itoa ri.index ++ (codes " never applies — shadowed by allow rule " ++ itoa rj.index));
  detail =
      summary ri
      ++ (codes "  is covered by earlier "
          ++ (summary rj
              ++ (codes " (rule "
                  ++ (itoa rj.index
                      ++ codes
                          "), so the deny never fires — traffic you meant to block is allowed."))));
  fix =
      codes "Move deny rule "
      ++ (itoa ri.index
          ++ (codes " above rule "
              ++ (itoa rj.index ++ (codes ", or narrow rule " ++ (itoa rj.index ++ codes ".")))));
}

unfoldable pub shadowed_issue : Rule → Rule → Issue
shadowed_issue rj ri = record {
  check = codes "rule.shadowed";
  severity = codes "medium";
  key = codes "shadow|" ++ match_key ri;
  rule_index = ri.index;
  title =
      codes "Rule "
      ++ (itoa ri.index
          ++ (codes " is shadowed by rule " ++ (itoa rj.index ++ codes " and can never match")));
  detail =
      summary ri
      ++ (codes "  is covered by earlier "
          ++ (summary rj ++ (codes " (rule " ++ (itoa rj.index ++ codes ")."))));
  fix =
      codes "Remove rule "
      ++ (itoa ri.index ++ codes " (dead), or reorder if it was meant to take precedence.");
}

unfoldable pub cover_issue : Rule → Rule → Issue
unfolding duplicate_issue dead_deny_issue shadowed_issue
cover_issue rj ri =
    if same_match rj ri && action_eq rj.action ri.action
    then duplicate_issue rj ri
    else if action_eq ri.action deny && action_eq rj.action allow
    then dead_deny_issue rj ri
    else shadowed_issue rj ri

-- The issue for what the index found. A panic, or an index that did not end, is `none`.
unfoldable pub issue_at : List Rule → Rule → Outcome → Option (List Issue)
issue_at rules ri (found j) = elim (get_elem? rules j) [
  | none ↦ none
  | some rj ↦ some (cover_issue rj ri ∷ [])
]
issue_at rules ri absent = some []
issue_at rules ri out_of_range = none
issue_at rules ri out_of_fuel = none

unfoldable pub append_issues : Option (List Issue) → Option (List Issue) → Option (List Issue)
append_issues (some a) (some b) = some (a ++ b)
append_issues _ _ = none

-- The loop of `shadowAndDuplicate` over the rules from position `i` on.
unfoldable pub shadow_loop : List Rule → List Rule → ℕ → CoverIndex → Option (List Issue)
shadow_loop rules [] i ix = some []
shadow_loop rules (ri ∷ rest) i ix =
    append_issues (if ri.enabled then issue_at rules ri (first_coverer ix rules ri) else some [])
      (shadow_loop rules rest (suc i) (if may_cover ri then add ix i ri else ix))

unfoldable pub shadow_and_duplicate : List Rule → Option (List Issue)
shadow_and_duplicate rules = shadow_loop rules rules 0 new_cover_index

-- The test that passes a rule over in the inner loop of `shadowAndDuplicateQuadratic`.
unfoldable pub passed_over : Rule → Rule → Bool
passed_over rj ri = not rj.enabled || (action_eq rj.action other || not (covers rj ri))

-- The inner loop, over the first `count` rules.
unfoldable pub scan : List Rule → ℕ → Rule → List Issue
scan [] count ri = []
scan (rj ∷ rules) zero ri = []
scan (rj ∷ rules) (suc count) ri =
    if passed_over rj ri then scan rules count ri else cover_issue rj ri ∷ []

unfoldable pub quadratic_loop : List Rule → List Rule → ℕ → List Issue
quadratic_loop rules [] i = []
quadratic_loop rules (ri ∷ rest) i =
    (if ri.enabled then scan rules i ri else []) ++ quadratic_loop rules rest (suc i)

-- `shadowAndDuplicateQuadratic`
unfoldable pub shadow_and_duplicate_quadratic : List Rule → List Issue
shadow_and_duplicate_quadratic rules = quadratic_loop rules rules 0
