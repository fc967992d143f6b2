-- ===== src/Fwrule/Checks/Breadth.antt =====
-- What the check of permissive rules calls open to everything.
use rulehawk.Fwrule.Checks.Open.{
  any_addr-IsOpenList, any_port-IsOpenList, IsOpenAddr, IsOpenPort, IsOpenList,
}
use rulehawk.Common.{
  List, ◌≡◌, ◌≢◌, true, Holds, false, Bool-cases, Any, ◌&&◌, not, ◌∷◌, refl, inl, Holds-append,
  ◌||◌, inr, sym, arith, [], ap, ◌∙◌,
}
use rulehawk.Fwrule.Rule.{Rule, action_eq, Action, allow, any_addr, deny, loopback, any_port, other}
use rulehawk.Common.Text.{codes}
use rulehawk.Fwrule.Checks.{
  breadth_issue, permissive_at, permissive, any_any_issue, any_source_issue, wide_port_issue,
  issue_of, wide_port_span,
}
use rulehawk.Fwrule.Analyze.{Issue}

-- The rule acts on its own, outside the loopback, and lets through every source and destination on
-- every destination port.
pub record OpenToAll (r : Rule) : Type 0 where
  pub enabled : r.enabled ≡ true
  pub allows : r.action ≡ allow
  pub unconditional : r.conditional ≡ false
  pub not_local : loopback r ≡ false
  pub any_source : IsOpenList IsOpenAddr r.src_addrs
  pub any_destination : IsOpenList IsOpenAddr r.dst_addrs
  pub any_dst_port : IsOpenList IsOpenPort r.dst_ports

action_eq-allow : (a : Action) → action_eq a allow ≡ true → a ≡ allow
unfolding action_eq
action_eq-allow allow h = refl
action_eq-allow deny h = cc
action_eq-allow other h = cc

medium_not_high : codes "medium" ≢ codes "high"
medium_not_high h = cc

high_breadth :
    (r : Rule) (s : Issue)
    → Holds s (breadth_issue r)
    → s.severity ≡ codes "high"
    → (s ≡ any_any_issue r)
      × ((any_addr r.src_addrs && (any_addr r.dst_addrs && any_port r.dst_ports)) ≡ true)
unfolding breadth_issue any_any_issue any_source_issue wide_port_issue issue_of
high_breadth r s h high =
    elim (Bool-cases (any_addr r.src_addrs && (any_addr r.dst_addrs && any_port r.dst_ports))) [
      | inl e ↦ elim (rw e at h) [ inl same ↦ (same, e) | inr no_more ↦ absurd no_more ]
      | inr e ↦ elim (Bool-cases (any_addr r.src_addrs)) [
        | inl src ↦ elim (rw (e, src) at h) [
          | inl same ↦ absurd (medium_not_high (sym (ap (λ (q : Issue). q.severity) same) ∙ high))
          | inr no_more ↦ absurd no_more
        ]
        | inr src ↦ elim (Bool-cases (wide_port_span r.dst_ports)) [
          | inl wide ↦ elim (rw (e, src, wide) at h) [
            | inl same ↦ absurd (medium_not_high (sym (ap (λ (q : Issue). q.severity) same) ∙ high))
            | inr no_more ↦ absurd no_more
          ]
          | inr wide ↦ absurd (rw (e, src, wide) at h)
        ]
      ]
    ]

high_at :
    (r : Rule) (s : Issue)
    → Holds s (permissive_at r)
    → s.severity ≡ codes "high"
    → (s ≡ any_any_issue r) × OpenToAll r
unfolding permissive_at
high_at r s h high = elim (Bool-cases (not r.enabled || not (action_eq r.action allow))) [
  | inl e ↦ absurd (rw e at h)
  | inr e ↦ elim (Bool-cases (r.conditional || loopback r)) [
    | inl c ↦ absurd (rw (e, c) at h)
    | inr c ↦
        let (same, all_any) = high_breadth r s (rw (e, c) at h) high in
        (
          same,
          record {
            enabled = ground arith;
            allows = action_eq-allow r.action (ground arith);
            unconditional = ground arith;
            not_local = ground arith;
            any_source = any_addr-IsOpenList r.src_addrs (ground arith);
            any_destination = any_addr-IsOpenList r.dst_addrs (ground arith);
            any_dst_port = any_port-IsOpenList r.dst_ports (ground arith);
          },
        )
  ]
]

-- A high issue of the check of permissive rules is the one of a rule of the rule base that is
-- enabled, allows, is not conditional and is not on the loopback, and each of whose lists of source
-- addresses, destination addresses and destination ports is empty or has, up to case and white space,
-- a word for everything, a network of every IPv4 or of every IPv6 address, or a range of every port.
pub high_is_open :
    (rules : List Rule) (s : Issue)
    → Holds s (permissive rules)
    → s.severity ≡ codes "high"
    → Any (λ r. (s ≡ any_any_issue r) × OpenToAll r) rules
unfolding permissive
high_is_open [] s h high = h
high_is_open (r ∷ rules) s h high = elim (Holds-append s (permissive_at r) (permissive rules) h) [
  | inl now ↦ inl (high_at r s now high)
  | inr later ↦ inr (high_is_open rules s later high)
]
