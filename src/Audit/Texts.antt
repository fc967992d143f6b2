-- ===== src/Audit/Texts.antt =====
-- fwrule/analyze.go: every issue names its check and has a title.
use rulehawk.Common.{
  none, some, List, Option, All, ◌++◌, ◌≡◌, ◌∷◌, ℕ, false, if_keeps, [], Option-keeps, refl, ◌&&◌,
  get_elem?, not, ◌||◌, Option-cases, suc, if◌then◌else◌, inl, none_ne_some, inr, subst, some_inj,
}
use rulehawk.Fwrule.Analyze.{
  Issue, cover_issue, issue_at, append_issues, shadow_loop, duplicate_issue, shadow_and_duplicate,
  dead_deny_issue, shadowed_issue,
}
use rulehawk.Fwrule.Checks.{
  permissive, hygiene, drift_loop, drift, analyze, permissive_at, hygiene_at, added_issue,
  breadth_issue, disabled_issue, removed_issue, any_any_issue, no_desc_issue, keys_of,
  any_source_issue, no_log_issue, wide_port_issue, issue_of, is_empty_text, is_permissive,
  wide_port_span,
}
use rulehawk.Core.{blank}
use rulehawk.Fwrule.Rule.{
  Rule, same_match, one_of, match_key, action_eq, deny, allow, loopback, any_addr, any_port,
}
use rulehawk.Fwrule.Index.{
  Outcome, found, CoverIndex, absent, out_of_range, first_coverer, new_cover_index, may_cover, add,
}
use rulehawk.Common.Text.{Text, trim}

abbrev pub IsTitled : Issue → Type 0
IsTitled iss = (blank iss.check ≡ false) × (blank iss.title ≡ false)

abbrev pub AllTitled : List Issue → Type 0
AllTitled issues = All IsTitled issues

pub AllTitled-append : (xs ys : List Issue) → AllTitled xs → AllTitled ys → AllTitled (xs ++ ys)
AllTitled-append [] ys hx hy = hy
AllTitled-append (x ∷ xs) ys hx hy = (hx.0, AllTitled-append xs ys hx.1 hy)

-- The issues of a pass that did not panic.
abbrev IsTitledPass : Option (List Issue) → Type 0
IsTitledPass o = elim o [ none ↦ Unit | some issues ↦ AllTitled issues ]

cover_issue-IsTitled : (rj ri : Rule) → IsTitled (cover_issue rj ri)
unfolding cover_issue duplicate_issue dead_deny_issue shadowed_issue blank
cover_issue-IsTitled rj ri =
    if_keeps IsTitled (same_match rj ri && action_eq rj.action ri.action) _ _ (refl, refl)
      (if_keeps IsTitled (action_eq ri.action deny && action_eq rj.action allow) _ _ (refl, refl)
        (refl, refl))

issue_at-IsTitledPass :
    (rules : List Rule) (ri : Rule) (o : Outcome) → IsTitledPass (issue_at rules ri o)
unfolding issue_at
issue_at-IsTitledPass rules ri (found j) =
    Option-keeps IsTitledPass (get_elem? rules j) _ _ (λ e. tt)
      (λ rj e. (cover_issue-IsTitled rj ri, tt))
issue_at-IsTitledPass rules ri absent = tt
issue_at-IsTitledPass rules ri out_of_range = tt
issue_at-IsTitledPass rules ri Outcome.out_of_fuel = tt

append_issues-IsTitledPass :
    (a b : Option (List Issue)) → IsTitledPass a → IsTitledPass b → IsTitledPass (append_issues a b)
unfolding append_issues
append_issues-IsTitledPass none b ha hb = tt
append_issues-IsTitledPass (some a) none ha hb = tt
append_issues-IsTitledPass (some a) (some b) ha hb = AllTitled-append a b ha hb

shadow_loop-IsTitledPass :
    (rules rest : List Rule) (i : ℕ) (ix : CoverIndex) → IsTitledPass (shadow_loop rules rest i ix)
unfolding shadow_loop
shadow_loop-IsTitledPass rules [] i ix = tt
shadow_loop-IsTitledPass rules (ri ∷ rest) i ix =
    append_issues-IsTitledPass _ _
      (if_keeps IsTitledPass ri.enabled _ _
        (issue_at-IsTitledPass rules ri (first_coverer ix rules ri)) tt)
      (shadow_loop-IsTitledPass rules rest (suc i) (if may_cover ri then add ix i ri else ix))

permissive-AllTitled : (rules : List Rule) → AllTitled (permissive rules)
unfolding permissive permissive_at breadth_issue any_any_issue any_source_issue wide_port_issue
    issue_of blank
permissive-AllTitled [] = tt
permissive-AllTitled (r ∷ rules) =
    AllTitled-append (permissive_at r) (permissive rules)
      (if_keeps AllTitled (not r.enabled || not (action_eq r.action allow)) _ _ tt (
        if_keeps AllTitled (r.conditional || loopback r) _ _ tt (
          if_keeps AllTitled
            (any_addr r.src_addrs && (any_addr r.dst_addrs && any_port r.dst_ports)) _ _
            ((refl, refl), tt)
            (if_keeps AllTitled (any_addr r.src_addrs) _ _ ((refl, refl), tt)
              (if_keeps AllTitled (wide_port_span r.dst_ports) _ _ ((refl, refl), tt) tt)))))
      (permissive-AllTitled rules)

hygiene-AllTitled : (rules : List Rule) → AllTitled (hygiene rules)
unfolding hygiene hygiene_at disabled_issue no_desc_issue no_log_issue issue_of blank
hygiene-AllTitled [] = tt
hygiene-AllTitled (r ∷ rules) =
    AllTitled-append (hygiene_at r) (hygiene rules)
      (if_keeps AllTitled (not r.enabled) _ _ ((refl, refl), tt)
        (AllTitled-append _ _
          (if_keeps AllTitled (action_eq r.action allow && is_empty_text (trim r.desc)) _ _
            ((refl, refl), tt) tt)
          (if_keeps AllTitled
            (action_eq r.action allow
              && (not r.conditional && (not (loopback r) && (is_permissive r && not r.log))))
            _ _ ((refl, refl), tt) tt)))
      (hygiene-AllTitled rules)

drift_loop-AllTitled :
    (issue : Rule → Issue) (keys : List Text) (rules : List Rule)
    → ((r : Rule) → IsTitled (issue r))
    → AllTitled (drift_loop issue keys rules)
unfolding drift_loop
drift_loop-AllTitled issue keys [] h = tt
drift_loop-AllTitled issue keys (r ∷ rules) h =
    let rest = drift_loop-AllTitled issue keys rules h in
    if_keeps AllTitled (one_of keys (match_key r)) _ _ rest (h r, rest)

pub drift-AllTitled : (baseline current : List Rule) → AllTitled (drift baseline current)
unfolding drift added_issue removed_issue blank
drift-AllTitled baseline current =
    AllTitled-append _ _
      (drift_loop-AllTitled added_issue (keys_of baseline) current (λ r. (refl, refl)))
      (drift_loop-AllTitled removed_issue (keys_of current) baseline (λ r. (refl, refl)))

pub analyze-AllTitled :
    (rules : List Rule) (issues : List Issue) → analyze rules ≡ some issues → AllTitled issues
unfolding analyze shadow_and_duplicate
analyze-AllTitled rules issues e = elim (Option-cases (shadow_loop rules rules 0 new_cover_index)) [
  | inl bad ↦ absurd (none_ne_some (rw (bad, analyze, shadow_and_duplicate) at e))
  | inr pair ↦
      let pass =
        subst IsTitledPass pair.1 (shadow_loop-IsTitledPass rules rules 0 new_cover_index) in
      subst AllTitled (some_inj (rw (pair.1, analyze, shadow_and_duplicate) at e)) (
        AllTitled-append pair.0 (permissive rules ++ hygiene rules) pass (
          AllTitled-append (permissive rules) (hygiene rules) (permissive-AllTitled rules)
            (hygiene-AllTitled rules)))
]
