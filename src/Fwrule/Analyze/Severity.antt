-- ===== src/Fwrule/Analyze/Severity.antt =====
-- Which issues of the pass for shadowed and duplicate rules are high.
use rulehawk.Common.{
  List, Bool, ◌≢◌, ℕ, ◌≡◌, All, if◌then◌else◌, get_elem?, true, some, ◌+◌, false, ◌<◌, Holds, ◌&&◌,
  refl, ◌∷◌, ap, [], Holds-append, arith, inl, suc, subst, inr, sym, some_inj, ◌∙◌, and-eq-true,
}
use rulehawk.Fwrule.Rule.{Rule, action_eq, Action, deny, allow, other, same_match}
use rulehawk.Common.Text.{codes}
use rulehawk.Fwrule.Analyze.{
  cover_issue, shadow_and_duplicate_quadratic, Issue, duplicate_issue, dead_deny_issue,
  shadowed_issue, quadratic_loop, shadow_and_duplicate, scan,
}
use rulehawk.Fwrule.Index.First.{IsPlain}
use rulehawk.Fwrule.Index.Leapfrog.{Hit}
use rulehawk.Fwrule.Analyze.Reports.{scan_cases}
use rulehawk.Fwrule.Analyze.Reference.{shadow_and_duplicate-eq-quadratic}

-- The issue of a deny at the position, which an earlier allow covers.
abbrev pub DeadDeny : List Rule → Issue → ℕ → Type 0
DeadDeny rules s k =
    (ri : Rule) × (get_elem? rules k ≡ some ri)
    × (ri.action ≡ deny)
    × (j : ℕ) × (j < k)
    × (h : Hit rules ri j) × (h.0.action ≡ allow)
    × (s ≡ dead_deny_issue h.0 ri)

low_not_high : codes "low" ≢ codes "high"
low_not_high h = cc

medium_not_high : codes "medium" ≢ codes "high"
medium_not_high h = cc

action_eq→eq : (a b : Action) → action_eq a b ≡ true → a ≡ b
unfolding action_eq
action_eq→eq allow allow h = refl
action_eq→eq deny deny h = refl
action_eq→eq other other h = refl
action_eq→eq allow deny h = cc
action_eq→eq allow other h = cc
action_eq→eq deny allow h = cc
action_eq→eq deny other h = cc
action_eq→eq other allow h = cc
action_eq→eq other deny h = cc

-- Of the three issues only one is high.
high_case :
    (a b : Bool) (x y z : Issue)
    → x.severity ≢ codes "high"
    → z.severity ≢ codes "high"
    → (if a then x else if b then y else z).severity ≡ codes "high"
    → (b ≡ true) × ((if a then x else if b then y else z) ≡ y)
high_case true b x y z p q h = absurd (p h)
high_case false true x y z p q h = (refl, refl)
high_case false false x y z p q h = absurd (q h)

high-cover_issue :
    (rj ri : Rule)
    → (cover_issue rj ri).severity ≡ codes "high"
    → ((action_eq ri.action deny && action_eq rj.action allow) ≡ true)
      × (cover_issue rj ri ≡ dead_deny_issue rj ri)
unfolding cover_issue duplicate_issue dead_deny_issue shadowed_issue
high-cover_issue rj ri h =
    high_case (same_match rj ri && action_eq rj.action ri.action)
      (action_eq ri.action deny && action_eq rj.action allow) (duplicate_issue rj ri)
      (dead_deny_issue rj ri) (shadowed_issue rj ri) low_not_high medium_not_high h

module _ (rules : List Rule) (s : Issue) (high : s.severity ≡ codes "high") where
  scan-DeadDeny :
      (k : ℕ) (ri : Rule)
      → get_elem? rules k ≡ some ri
      → Holds s (scan rules k ri)
      → DeadDeny rules s k
  scan-DeadDeny k ri e h = elim (scan_cases rules k ri) [
    | inl empty ↦ absurd (subst (Holds s) empty h)
    | inr (j, lt, hit, one) ↦ elim (subst (Holds s) one h) [
      | inl same ↦
          let (acts, dead) =
            high-cover_issue hit.0 ri (ap (λ (q : Issue). q.severity) (sym same) ∙ high) in
          let both = and-eq-true (action_eq ri.action deny) (action_eq hit.0.action allow) acts in
          (
            ri,
            e,
            action_eq→eq ri.action deny both.0,
            j,
            lt,
            hit,
            action_eq→eq hit.0.action allow both.1,
            same ∙ dead,
          )
      | inr no_more ↦ absurd no_more
    ]
  ]

  head-DeadDeny :
      (b : Bool) (k : ℕ) (ri : Rule)
      → get_elem? rules k ≡ some ri
      → Holds s (if b then scan rules k ri else [])
      → DeadDeny rules s k
  head-DeadDeny true k ri e h = scan-DeadDeny k ri e h
  head-DeadDeny false k ri e h = absurd h

  loop-DeadDeny :
      (rest : List Rule) (i : ℕ)
      → ((m : ℕ) → get_elem? rest m ≡ get_elem? rules (m + i))
      → Holds s (quadratic_loop rules rest i)
      → (k : ℕ) × DeadDeny rules s k
  unfolding quadratic_loop
  loop-DeadDeny [] i at h = absurd h
  loop-DeadDeny (ri ∷ rest) i at h =
      elim (Holds-append s (if ri.enabled then scan rules i ri else [])
        (quadratic_loop rules rest (suc i)) h) [
          | inl now ↦ (
            i,
            head-DeadDeny ri.enabled i ri (sym (at 0 ∙ ap (get_elem? rules) (omega arith))) now,
          )
          | inr later ↦
              loop-DeadDeny rest (suc i) (λ m. at (suc m) ∙ ap (get_elem? rules) (omega arith))
                later
        ]

-- A high issue of the pass for shadowed and duplicate rules is the one of a deny that an earlier
-- enabled, unconditional allow covers; where no address of the rules parses to a network of IPv4
-- addresses mapped into IPv6.
pub high-DeadDeny :
    (rules : List Rule) (issues : List Issue) (s : Issue)
    → All IsPlain rules
    → shadow_and_duplicate rules ≡ some issues
    → Holds s issues
    → s.severity ≡ codes "high"
    → (k : ℕ) × DeadDeny rules s k
unfolding shadow_and_duplicate_quadratic
high-DeadDeny rules issues s plain e h high =
    loop-DeadDeny rules s high rules 0 (λ m. ap (get_elem? rules) (omega arith))
      (subst (Holds s) (some_inj (sym e ∙ shadow_and_duplicate-eq-quadratic rules plain)) h)
