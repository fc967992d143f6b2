-- ===== src/Fwparse/CiscoAsa.antt =====
-- fwparse/ciscoasa.go: the parser for ASA access lists, on the tokens of a line.
use rulehawk.Fwparse.AsaSpecs.{PortSpec, asa_addr, asa_port}
use rulehawk.Common.{
  List, Option, if◌then◌else◌, none, ◌∷◌, some, ◌++◌, Bool, [], true, false, ◌||◌,
}
use rulehawk.Common.Text.{
  Text, codes, text_eq, lower, has_prefix, trim, split_on, drop, join, fields,
}
use rulehawk.Fwrule.Rule.{Rule, Action, one_of, allow, deny}
use rulehawk.Fwparse.Members.{Objects}
use rulehawk.Fwparse.Base.{no_rule, Parsed, or_any, reindex, dedupe_strings}
use rulehawk.Fwparse.Scan.{is_remark, scan_objects}

-- The loop over the trailing flags.
unfoldable pub read_flags : List Text → Rule → Rule
read_flags [] r = r
read_flags (t ∷ toks) r = read_flags toks (
    if text_eq t (codes "log")
    then record r { log = true }
    else if text_eq t (codes "inactive")
    then record r { enabled = false }
    else r)

-- The token behind `extended` or `standard`.
unfoldable pub skip_kind : List Text → List Text
skip_kind [] = []
skip_kind (t ∷ toks) =
    if one_of (codes "extended" ∷ codes "standard" ∷ []) t then toks else t ∷ toks

-- The token behind `line N`.
unfoldable pub skip_line : List Text → List Text
skip_line [] = []
skip_line (t ∷ toks) = if text_eq t (codes "line") then drop 1 toks else t ∷ toks

unfoldable pub action_of : Text → Option Action
action_of t =
    if text_eq t (codes "permit")
    then some allow
    else if text_eq t (codes "deny")
    then some deny
    else none

-- A rule, if the line is one, and the objects.
abbrev pub RuleSpec : Type 0
RuleSpec = Option Rule × Objects

-- The flags and the ports that the line leaves out.
unfoldable pub finish_rule : Rule → PortSpec → RuleSpec
finish_rule r dst =
    let flagged = read_flags dst.rest (record r { dst_ports = dst.ports }) in
    (
      some (record flagged {
        src_ports = or_any flagged.src_ports;
        dst_ports = or_any flagged.dst_ports;
      }),
      dst.objs,
    )

unfoldable pub read_destination : Rule → PortSpec → RuleSpec
read_destination r src = elim (asa_addr src.rest src.objs) [
  | none ↦ (none, src.objs)
  | some dst ↦
      finish_rule (record r { src_ports = src.ports; dst_addrs = dst.addrs })
        (asa_port dst.rest dst.objs)
]

-- Behind the protocol.
unfoldable pub read_source : Rule → List Text → Objects → RuleSpec
read_source r toks o = elim (asa_addr toks o) [
  | none ↦ (none, o)
  | some src ↦ read_destination (record r { src_addrs = src.addrs }) (asa_port src.rest src.objs)
]

unfoldable pub read_protocol : Rule → List Text → Objects → RuleSpec
read_protocol r [] o = (none, o)
read_protocol r (t ∷ toks) o = read_source (record r { proto = lower t }) toks o

unfoldable pub read_action : Rule → List Text → Objects → RuleSpec
read_action r [] o = (none, o)
read_action r (t ∷ toks) o = elim (action_of t) [
  | none ↦ (none, o)
  | some a ↦ read_protocol (record r { action = a }) toks o
]

-- `parseASARule`, on the name of the list and the tokens behind it.
unfoldable pub parse_asa_rule : Text → List Text → Text → Objects → RuleSpec
parse_asa_rule acl toks raw o =
    read_action (record no_rule { enabled = true; raw = raw; name = acl })
      (skip_line (skip_kind toks)) o

-- The remark last seen for an access list; none reads as the empty text.
unfoldable pub remark_of : List (Text × Text) → Text → Text
remark_of [] acl = []
remark_of (r ∷ remarks) acl = if text_eq r.0 acl then r.1 else remark_of remarks acl

-- What the loop over the lines has come to; the rules and lines are held in their order.
pub record AsaState : Type 0 where
  pub objs : Objects
  pub remarks : List (Text × Text)
  pub rules : List Rule
  pub unparsed : List Text

unfoldable pub put_rule : Text → Text → RuleSpec → AsaState → AsaState
put_rule acl line (none, o) s = record s { objs = o; unparsed = s.unparsed ++ line ∷ [] }
put_rule acl line (some r, o) s = record s {
  objs = o;
  rules = s.rules ++ record r { desc = remark_of s.remarks acl } ∷ [];
}

-- A line of an access list, behind its name.
unfoldable pub read_acl : Text → Text → List Text → AsaState → AsaState
read_acl acl line [] s = put_rule acl line (parse_asa_rule acl [] line s.objs) s
read_acl acl line (t ∷ toks) s =
    if text_eq t (codes "remark")
    then record s { remarks = (acl, trim (join toks (codes " "))) ∷ s.remarks }
    else put_rule acl line (parse_asa_rule acl (t ∷ toks) line s.objs) s

-- A line that is no access list: a binding is passed over.
unfoldable pub read_other : Text → AsaState → AsaState
read_other line s =
    if has_prefix line (codes "access-group")
    then s
    else record s { unparsed = s.unparsed ++ line ∷ [] }

unfoldable pub read_asa_words : Text → List Text → AsaState → AsaState
read_asa_words line (t ∷ acl ∷ toks) s =
    if text_eq t (codes "access-list") then read_acl acl line toks s else read_other line s
read_asa_words line _ s = read_other line s

-- One round of the loop, on the trimmed line.
unfoldable pub read_asa_line : Text → Bool → AsaState → AsaState
read_asa_line line consumed s =
    if is_remark line || consumed then s else read_asa_words line (fields line) s

unfoldable pub read_asa : List Text → List Bool → AsaState → AsaState
read_asa (raw ∷ lines) (consumed ∷ more) s =
    read_asa lines more (read_asa_line (trim raw) consumed s)
read_asa _ _ s = s

-- `parseCiscoASA`
unfoldable pub parse_cisco_asa : Text → Parsed
parse_cisco_asa config =
    let lines = split_on b'\n' config in
    let found = scan_objects lines in
    let last =
      read_asa lines found.1 (record { objs = found.0; remarks = []; rules = []; unparsed = [] }) in
    record {
      vendor = codes "cisco-asa";
      rules = reindex last.rules;
      unparsed = dedupe_strings last.unparsed;
    }
