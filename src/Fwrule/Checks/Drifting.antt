-- ===== src/Fwrule/Checks/Drifting.antt =====
-- When two rule bases show no drift.
use rulehawk.Common.{List, All, ◌≡◌, Any}
use rulehawk.Fwrule.Rule.{Rule, match_key, norm, join_norm}
use rulehawk.Common.Text.{Text}
use rulehawk.Common.Separated.{Lacks}

-- The parts that a match key puts together are free of the bar that separates them.
pub record IsBarFree (r : Rule) : Type 0 where
  pub proto_free : Lacks b'|' (norm r.proto)
  pub src_free : Lacks b'|' (join_norm r.src_addrs)
  pub src_ports_free : Lacks b'|' (join_norm r.src_ports)
  pub dst_free : Lacks b'|' (join_norm r.dst_addrs)

-- Two rules have the same action and, up to case and white space, the same protocol, addresses and
-- ports.
pub record SameFields (r b : Rule) : Type 0 where
  pub same_action : r.action ≡ b.action
  pub same_proto : norm r.proto ≡ norm b.proto
  pub same_src : join_norm r.src_addrs ≡ join_norm b.src_addrs
  pub same_src_ports : join_norm r.src_ports ≡ join_norm b.src_ports
  pub same_dst : join_norm r.dst_addrs ≡ join_norm b.dst_addrs
  pub same_dst_ports : join_norm r.dst_ports ≡ join_norm b.dst_ports

-- Every rule of the second list has the fields of a rule of the first.
abbrev pub FieldsWithin : List Rule → List Rule → Type 0
FieldsWithin baseline current = All (λ (r : Rule). Any (SameFields r) baseline) current

-- Every rule of the second list has the match key of a rule of the first.
abbrev pub KeysWithin : List Rule → List Rule → Type 0
KeysWithin baseline current =
    All (λ (r : Rule). Any (λ (b : Rule). match_key r ≡ match_key b) baseline) current
