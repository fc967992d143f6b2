-- ===== src/Fwparse/Spelled.antt =====
-- The rules of a parsed configuration name their addresses: a list that is left empty would be taken
-- for every address.
pub mod Base
pub mod Forti
pub mod Asa
pub mod Scanned
pub mod Lists
use rulehawk.Fwparse.Vendors.{parse_keeps, of_pfsense}
use rulehawk.Fwparse.Spelled.Base.{IsSpelled, or_any-not_empty, reindex-IsSpelled, NotEmpty}
use rulehawk.Fwparse.Iptables.{
  fill_any, rule_or_not, read_lines, parse_iptables, collect, read_line, parse_iptables_rule,
  is_skipped,
}
use rulehawk.Fwparse.Pfsense.{pf_addr, pf_port, pf_rule, PfEndpoint, PfRule}
use rulehawk.Fwrule.Rule.{Rule}
use rulehawk.Common.{
  List, Bool, ◌≢◌, Option, All, [], ◌∷◌, if_keeps, map, true, ◌≡◌, false, some, not, ◌&&◌,
  cons_not_empty,
}
use rulehawk.Common.Text.{Text, trim, split_on, has_prefix, text_eq, codes, lower}
use rulehawk.Fwparse.Base.{Parsed, is_blank}
use rulehawk.Fwparse.{parse}
use rulehawk.Fwparse.Spelled.Lists.{parse_cisco_asa-IsSpelled}
use rulehawk.Fwparse.Spelled.Forti.{parse_fortinet-IsSpelled}

fill_any-IsSpelled : (r : Rule) → IsSpelled (fill_any r)
unfolding fill_any
fill_any-IsSpelled r =
    (or_any-not_empty r.src_addrs, or_any-not_empty r.dst_addrs, or_any-not_empty r.dst_ports)

collect-IsSpelled :
    (line : Text) (got : Rule × Bool) (rest : List Rule × List Text)
    → IsSpelled got.0
    → All IsSpelled rest.0
    → All IsSpelled (collect (rule_or_not line got) rest).0
unfolding rule_or_not collect
collect-IsSpelled line (r, true) (rules, unparsed) h all = (h, all)
collect-IsSpelled line (r, false) (rules, unparsed) h all = all

read_lines-IsSpelled : (lines : List Text) → All IsSpelled (read_lines lines).0
unfolding read_lines read_line parse_iptables_rule collect
read_lines-IsSpelled [] = tt
read_lines-IsSpelled (raw ∷ lines) =
    if_keeps (λ l. All IsSpelled (collect l (read_lines lines)).0) (is_skipped (trim raw)) _ _
      (read_lines-IsSpelled lines)
      (if_keeps (λ l. All IsSpelled (collect l (read_lines lines)).0)
        (not (has_prefix (trim raw) (codes "-A ")) && not (has_prefix (trim raw) (codes "-I "))) _ _
        (read_lines-IsSpelled lines)
        (collect-IsSpelled (trim raw) (parse_iptables_rule (trim raw)) (read_lines lines)
          (fill_any-IsSpelled _) (read_lines-IsSpelled lines)))

-- pfSense
pf_addr-not_empty : (e : PfEndpoint) → pf_addr e ≢ []
unfolding pf_addr
pf_addr-not_empty e = if_keeps NotEmpty e.has_any _ _ cons_not_empty (
    if_keeps NotEmpty (not (is_blank e.address)) _ _ cons_not_empty (
      if_keeps NotEmpty (not (is_blank e.network)) _ _
        (if_keeps NotEmpty (text_eq (lower e.network) (codes "any")) _ _ cons_not_empty
          cons_not_empty)
        cons_not_empty))

pf_port-not_empty : (e : PfEndpoint) → pf_port e ≢ []
unfolding pf_port
pf_port-not_empty e = if_keeps NotEmpty (is_blank (trim e.port)) _ _ cons_not_empty cons_not_empty

pf_rules-IsSpelled : (rules : List PfRule) → All IsSpelled (map pf_rule rules)
unfolding pf_rule
pf_rules-IsSpelled [] = tt
pf_rules-IsSpelled (pr ∷ rules) = (
  (pf_addr-not_empty pr.source, pf_addr-not_empty pr.destination, pf_port-not_empty pr.destination),
  pf_rules-IsSpelled rules,
)

-- Whatever the vendor and the configuration, each rule that `Parse` returns has a source address, a
-- destination address and a destination port: no list is left empty, which would be every address.
pub parse-IsSpelled :
    (unmarshal : Text → Option (List PfRule)) (vendor config : Text) (p : Parsed)
    → parse unmarshal vendor config ≡ some p
    → All IsSpelled p.rules
unfolding parse_iptables
parse-IsSpelled unmarshal vendor config p e =
    parse_keeps (λ (q : Parsed). All IsSpelled q.rules) unmarshal vendor config p
      (reindex-IsSpelled _ (read_lines-IsSpelled (split_on b'\n' config)))
      (parse_cisco_asa-IsSpelled config) (λ rules. reindex-IsSpelled _ (pf_rules-IsSpelled rules))
      (parse_fortinet-IsSpelled config) e
