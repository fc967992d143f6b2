-- ===== src/Fwrule/Tests.antt =====
-- The analysers of fwrule on a small rule base.
use rulehawk.Common.{List, [], ◌∷◌, ◌≡◌, some, ◌↔◌, refl, Any, arith, ◌+◌, ℕ, ◌*◌, ◌≤◌}
use rulehawk.Fwrule.Index.First.{first_coverer-FirstHit, add-Indexes, new-Indexes}
use rulehawk.Fwrule.Analyze.Reports.{Reports, Covered, Reports-iff_Covered}
use rulehawk.Fwrule.Analyze.{
  shadow_and_duplicate, Issue, shadow_and_duplicate_quadratic, dead_deny_issue,
}
use rulehawk.Fwrule.Analyze.Reference.{shadow_and_duplicate-eq-quadratic}
use rulehawk.Fwrule.Index.{first_coverer, add, new_cover_index}
use rulehawk.Fwrule.Packet.{Matches}
use rulehawk.Fwrule.Postings.Sorted.{InDim}
use rulehawk.Fwrule.Checks.{any_any_issue}
use rulehawk.Fwrule.Packet.Order.{Decides, reported_never-Decides}
use rulehawk.Fwrule.Index.Leapfrog.{FirstHit}
use rulehawk.Fwrule.Postings.Seek.{Least, seek_dim-Least}
use rulehawk.Fwrule.Postings.{seek_dim}
use rulehawk.Fwrule.Packet.Covers.{covers_sound}
use rulehawk.Fwrule.Index.Ports.{tree_lists, insert_range, no_ports, levels, port_space}
use rulehawk.Fwrule.Index.Addrs.{query_addrs, add_addrs, no_addrs}
use rulehawk.Fwrule.Checks.Breadth.{OpenToAll, high_is_open}
use rulehawk.Fwrule.Index.Lookup.{
  addrs_later, add_ports-query, add_addrs-query, insert_range-tree_lists,
}
use rulehawk.Fwrule.Samples.{
  web_rules, no_names, sorted_lists, allow_all, web_rules-IsPlain, web_packet, allow_web, deny_host,
  web_rules-IsNumbered, web-IsPlain, web_may_cover, dst_port_covered, in_permissive,
  deny_is_Covered, deny-IsPlain, deny_ports_found, any_any_is_high, web_covers_deny, src_covered,
  packet-Matches_deny, dead_deny_reported, dead_deny_is_high,
}
use rulehawk.Fwrule.Analyze.Severity.{DeadDeny, high-DeadDeny}

indexed_eq_example :
    shadow_and_duplicate web_rules ≡ some (shadow_and_duplicate_quadratic web_rules)
indexed_eq_example = shadow_and_duplicate-eq-quadratic web_rules web_rules-IsPlain

Reports-iff_Covered_example :
    (issues : List Issue) × (shadow_and_duplicate web_rules ≡ some issues)
    × (Reports 1 issues ↔ Covered web_rules 1)
Reports-iff_Covered_example = Reports-iff_Covered web_rules 1 web_rules-IsPlain web_rules-IsNumbered

-- What the pass answers for the rule base.
web_answer :
    (issues : List Issue) × (shadow_and_duplicate web_rules ≡ some issues)
    × (Reports 1 issues ↔ Covered web_rules 1)
web_answer = Reports-iff_Covered web_rules 1 web_rules-IsPlain web_rules-IsNumbered

reported_never-Decides_example : ¬ Decides no_names (λ k p. ⊥) web_rules web_packet 1
reported_never-Decides_example =
    reported_never-Decides no_names (λ k p. ⊥) web_rules web_packet 1 web_answer.0 web_rules-IsPlain
      web_rules-IsNumbered web_answer.1 (web_answer.2.1 deny_is_Covered)

covers_sound_example : Matches no_names allow_web web_packet
covers_sound_example =
    covers_sound no_names allow_web deny_host web_packet web-IsPlain deny-IsPlain web_covers_deny
      packet-Matches_deny

first_coverer_example :
    FirstHit web_rules deny_host 1
      (first_coverer (add new_cover_index 0 allow_web) web_rules deny_host)
first_coverer_example =
    first_coverer-FirstHit web_rules 1 (add new_cover_index 0 allow_web)
      (add-Indexes web_rules 0 new_cover_index allow_web refl web_may_cover (new-Indexes web_rules))
      deny_host web_rules-IsPlain deny-IsPlain (omega arith)

seek_dim_example :
    Least
      (λ w. InDim w ((1 ∷ 4 ∷ []) ∷ (3 ∷ []) ∷ []))
      2
      (seek_dim ((1 ∷ 4 ∷ []) ∷ (3 ∷ []) ∷ []) 2)
seek_dim_example = seek_dim-Least (λ w. Unit) 5 2 ((1 ∷ 4 ∷ []) ∷ (3 ∷ []) ∷ []) sorted_lists

add_ports_example : InDim 0 ((0 ∷ []) ∷ [])
add_ports_example =
    add_ports-query no_ports 0 allow_web.dst_ports deny_host.dst_ports [] ((0 ∷ []) ∷ [])
      dst_port_covered deny_ports_found

add_addrs_example : InDim 0 (
    query_addrs
      (addrs_later (add_addrs no_addrs 0 allow_web.src_addrs) ((1, deny_host.src_addrs) ∷ []))
      deny_host.src_addrs)
add_addrs_example =
    add_addrs-query no_addrs 0 allow_web.src_addrs deny_host.src_addrs
      ((1, deny_host.src_addrs) ∷ []) web-IsPlain.0 deny-IsPlain.0 src_covered

insert_range_example :
    InDim 7 (tree_lists (insert_range no_ports 7 80 443).tree levels (port_space + 443))
    × ((node : ℕ)
        → 2 * port_space ≤ node
        → (insert_range no_ports 7 80 443).tree node ≡ no_ports.tree node)
insert_range_example =
    insert_range-tree_lists no_ports 7 80 443 443 (omega arith) (omega arith) (omega arith)

high_is_open_example :
    Any
      (λ r. (any_any_issue allow_all ≡ any_any_issue r) × OpenToAll r)
      (allow_web ∷ allow_all ∷ [])
high_is_open_example =
    high_is_open (allow_web ∷ allow_all ∷ []) (any_any_issue allow_all) in_permissive
      any_any_is_high

high-DeadDeny_example : (k : ℕ) × DeadDeny web_rules (dead_deny_issue allow_web deny_host) k
high-DeadDeny_example =
    high-DeadDeny web_rules (shadow_and_duplicate_quadratic web_rules)
      (dead_deny_issue allow_web deny_host) web_rules-IsPlain
      (shadow_and_duplicate-eq-quadratic web_rules web_rules-IsPlain) dead_deny_reported
      dead_deny_is_high
