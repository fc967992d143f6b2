-- ===== src/Fwparse/Spelled/Lists.antt =====
-- What a line of an access list turns into names its addresses, and so do all the rules of an ASA.
use rulehawk.Fwparse.Spelled.Base.{IsSpelled, reindex-IsSpelled, All-append, or_any-not_empty}
use rulehawk.Fwparse.Spelled.Asa.{IsGood, IsAddr, asa_addr-IsAddr, IsPort, asa_port-IsPort}
use rulehawk.Fwparse.CiscoAsa.{
  RuleSpec, read_flags, finish_rule, read_destination, read_source, read_protocol, read_action,
  AsaState, put_rule, parse_asa_rule, read_acl, read_other, read_asa_words, read_asa,
  parse_cisco_asa, read_asa_line, action_of,
}
use rulehawk.Fwparse.AsaSpecs.{PortSpec, asa_addr}
use rulehawk.Fwrule.Rule.{Rule}
use rulehawk.Common.{
  ◌≢◌, List, All, [], ◌∷◌, Option, if_keeps, Bool, some, none, ◌||◌, subst, Option-keeps,
}
use rulehawk.Common.Text.{Text, split_on, text_eq, has_prefix, codes, trim, fields}
use rulehawk.Fwparse.Members.{Objects}
use rulehawk.Fwparse.Scan.{is_remark, scan_objects}
use rulehawk.Fwparse.Spelled.Scanned.{scan_objects-IsGood}

-- What a line has turned into.
abbrev IsRead : RuleSpec → Type 0
IsRead both = (elim both.0 [ none ↦ Unit | some r ↦ IsSpelled r ]) × IsGood both.1

-- The rule has the addresses so far.
abbrev HasAddrs : Rule → Type 0
HasAddrs r = (r.src_addrs ≢ []) × (r.dst_addrs ≢ [])

read_flags-HasAddrs : (toks : List Text) (r : Rule) → HasAddrs r → HasAddrs (read_flags toks r)
unfolding read_flags
read_flags-HasAddrs [] r h = h
read_flags-HasAddrs (t ∷ toks) r h = read_flags-HasAddrs toks _ (
    if_keeps HasAddrs (text_eq t (codes "log")) _ _ h
      (if_keeps HasAddrs (text_eq t (codes "inactive")) _ _ h h))

finish_rule-IsRead :
    (r : Rule) (dst : PortSpec) → HasAddrs r → IsPort dst → IsRead (finish_rule r dst)
unfolding finish_rule
finish_rule-IsRead r dst h p =
    let flagged = read_flags-HasAddrs dst.rest (record r { dst_ports = dst.ports }) h in
    ((flagged.0, flagged.1, or_any-not_empty _), p)

read_destination-IsRead :
    (r : Rule) (src : PortSpec) → r.src_addrs ≢ [] → IsPort src → IsRead (read_destination r src)
unfolding read_destination
read_destination-IsRead r src ne p =
    Option-keeps IsRead (asa_addr src.rest src.objs) _ _ (λ e. (tt, p))
      (λ dst e.
        let (full, good) = subst IsAddr e (asa_addr-IsAddr src.rest src.objs p) in
        finish_rule-IsRead _ _ (ne, full) (asa_port-IsPort dst.rest dst.objs good))

read_source-IsRead :
    (r : Rule) (toks : List Text) (o : Objects) → IsGood o → IsRead (read_source r toks o)
unfolding read_source
read_source-IsRead r toks o p =
    Option-keeps IsRead (asa_addr toks o) _ _ (λ e. (tt, p))
      (λ src e.
        let (full, good) = subst IsAddr e (asa_addr-IsAddr toks o p) in
        read_destination-IsRead _ _ full (asa_port-IsPort src.rest src.objs good))

read_protocol-IsRead :
    (r : Rule) (toks : List Text) (o : Objects) → IsGood o → IsRead (read_protocol r toks o)
unfolding read_protocol
read_protocol-IsRead r [] o p = (tt, p)
read_protocol-IsRead r (t ∷ toks) o p = read_source-IsRead _ toks o p

read_action-IsRead :
    (r : Rule) (toks : List Text) (o : Objects) → IsGood o → IsRead (read_action r toks o)
unfolding read_action
read_action-IsRead r [] o p = (tt, p)
read_action-IsRead r (t ∷ toks) o p =
    Option-keeps IsRead (action_of t) _ _ (λ e. (tt, p)) (λ a e. read_protocol-IsRead _ toks o p)

-- The state of the loop holds such rules.
abbrev IsSpelledAsa : AsaState → Type 0
IsSpelledAsa s = IsGood s.objs × All IsSpelled s.rules

put_rule-IsSpelledAsa :
    (acl line : Text) (o : Option Rule) (objs : Objects) (s : AsaState)
    → IsRead (o, objs)
    → IsSpelledAsa s
    → IsSpelledAsa (put_rule acl line (o, objs) s)
unfolding put_rule
put_rule-IsSpelledAsa acl line none objs s r h = (r.1, h.1)
put_rule-IsSpelledAsa acl line (some q) objs s r h = (r.1, All-append s.rules _ h.1 (r.0, tt))

parsed-IsSpelledAsa :
    (acl line : Text) (toks : List Text) (s : AsaState)
    → IsSpelledAsa s
    → IsSpelledAsa (put_rule acl line (parse_asa_rule acl toks line s.objs) s)
unfolding parse_asa_rule
parsed-IsSpelledAsa acl line toks s h =
    put_rule-IsSpelledAsa acl line _ _ s (read_action-IsRead _ _ s.objs h.0) h

read_acl-IsSpelledAsa :
    (acl line : Text) (toks : List Text) (s : AsaState)
    → IsSpelledAsa s
    → IsSpelledAsa (read_acl acl line toks s)
unfolding read_acl
read_acl-IsSpelledAsa acl line [] s h = parsed-IsSpelledAsa acl line [] s h
read_acl-IsSpelledAsa acl line (t ∷ toks) s h =
    if_keeps IsSpelledAsa (text_eq t (codes "remark")) _ _ h
      (parsed-IsSpelledAsa acl line (t ∷ toks) s h)

read_other-IsSpelledAsa :
    (line : Text) (s : AsaState) → IsSpelledAsa s → IsSpelledAsa (read_other line s)
unfolding read_other
read_other-IsSpelledAsa line s h =
    if_keeps IsSpelledAsa (has_prefix line (codes "access-group")) _ _ h h

read_asa_words-IsSpelledAsa :
    (line : Text) (toks : List Text) (s : AsaState)
    → IsSpelledAsa s
    → IsSpelledAsa (read_asa_words line toks s)
unfolding read_asa_words
read_asa_words-IsSpelledAsa line [] s h = read_other-IsSpelledAsa line s h
read_asa_words-IsSpelledAsa line (t ∷ []) s h = read_other-IsSpelledAsa line s h
read_asa_words-IsSpelledAsa line (t ∷ acl ∷ toks) s h =
    if_keeps IsSpelledAsa (text_eq t (codes "access-list")) _ _
      (read_acl-IsSpelledAsa acl line toks s h) (read_other-IsSpelledAsa line s h)

read_asa-IsSpelledAsa :
    (lines : List Text) (consumed : List Bool) (s : AsaState)
    → IsSpelledAsa s
    → IsSpelledAsa (read_asa lines consumed s)
unfolding read_asa read_asa_line
read_asa-IsSpelledAsa [] consumed s h = h
read_asa-IsSpelledAsa (raw ∷ lines) [] s h = h
read_asa-IsSpelledAsa (raw ∷ lines) (c ∷ more) s h = read_asa-IsSpelledAsa lines more _ (
    if_keeps IsSpelledAsa (is_remark (trim raw) || c) _ _ h
      (read_asa_words-IsSpelledAsa (trim raw) (fields (trim raw)) s h))

pub parse_cisco_asa-IsSpelled : (config : Text) → All IsSpelled (parse_cisco_asa config).rules
unfolding parse_cisco_asa
parse_cisco_asa-IsSpelled config =
    let lines = split_on b'\n' config in
    let found = scan_objects lines in
    reindex-IsSpelled _
      (read_asa-IsSpelledAsa lines found.1
        (record { objs = found.0; remarks = []; rules = []; unparsed = [] })
        (scan_objects-IsGood lines, tt)).1
