-- ===== src/Fwparse/Numbering.antt =====
-- The rules of a parsed configuration are numbered from 1 on, as the analysers take them.
use rulehawk.Common.{
  List, ℕ, Option, get_elem?, ◌≡◌, ◌∙◌, some, arith, ◌+◌, none_ne_some, ◌∷◌, some_inj, ap, sym, suc,
  [], zero,
}
use rulehawk.Fwparse.Base.{number_from, reindex, Parsed}
use rulehawk.Fwparse.Pfsense.{PfRule}
use rulehawk.Fwparse.{parse}
use rulehawk.Common.Text.{Text}
use rulehawk.Fwparse.Iptables.{parse_iptables}
use rulehawk.Fwrule.Rule.{Rule}
use rulehawk.Fwparse.CiscoAsa.{parse_cisco_asa}
use rulehawk.Fwrule.Analyze.Reports.{IsNumbered}
use rulehawk.Fwparse.Fortinet.{parse_fortinet}
use rulehawk.Fwparse.Vendors.{parse_keeps}

get_elem?-number_from :
    (n k : ℕ) (rules : List Rule) (r : Rule)
    → get_elem? (number_from n rules) k ≡ some r
    → r.index ≡ n + k
unfolding number_from
get_elem?-number_from n k [] r e = absurd (none_ne_some e)
get_elem?-number_from n zero (q ∷ rules) r e =
    ap (λ (z : Rule). z.index) (sym (some_inj e)) ∙ omega arith
get_elem?-number_from n (suc k) (q ∷ rules) r e =
    get_elem?-number_from (suc n) k rules r e ∙ omega arith

pub reindex-IsNumbered : (rules : List Rule) → IsNumbered (reindex rules)
unfolding reindex
reindex-IsNumbered rules k r e = get_elem?-number_from 1 k rules r e ∙ omega arith

-- Whatever the vendor and the configuration, the rules that `Parse` returns are numbered from 1 on.
pub parse-IsNumbered :
    (unmarshal : Text → Option (List PfRule)) (vendor config : Text) (p : Parsed)
    → parse unmarshal vendor config ≡ some p
    → IsNumbered p.rules
unfolding parse_iptables parse_cisco_asa parse_fortinet
parse-IsNumbered unmarshal vendor config p e =
    parse_keeps (λ (q : Parsed). IsNumbered q.rules) unmarshal vendor config p
      (reindex-IsNumbered _) (reindex-IsNumbered _) (λ rules. reindex-IsNumbered _)
      (reindex-IsNumbered _) e
