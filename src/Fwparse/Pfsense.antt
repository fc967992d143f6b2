-- ===== src/Fwparse/Pfsense.antt =====
-- fwparse/pfsense.go: the parser for a pfSense or OPNsense export. `xml.Unmarshal` is a parameter: it
-- returns the rules of the document, or an error.
use rulehawk.Common.{
  none, some, List, Bool, ℕ, if◌then◌else◌, map, Option, ◌==◌, not, ◌++◌, ◌∷◌, [],
}
use rulehawk.Common.Text.{Text, text_eq, codes, trim, lower}
use rulehawk.Fwrule.Rule.{Rule, Action, allow, one_of, deny, other}
use rulehawk.Fwparse.Base.{no_rule, any_word, is_blank, Parsed, reindex}

pub record PfEndpoint : Type 0 where
  pub has_any : Bool
  pub network : Text
  pub address : Text
  pub port : Text

-- A pointer to an empty element is whether the element is there.
pub record PfRule : Type 0 where
  pub kind : Text
  pub interface : Text
  pub protocol : Text
  pub descr : Text
  pub disabled : Bool
  pub log : Bool
  pub source : PfEndpoint
  pub destination : PfEndpoint

-- `pfAddr`
unfoldable pub pf_addr : PfEndpoint → List Text
pf_addr e =
    if e.has_any
    then any_word
    else if not (is_blank e.address)
    then e.address ∷ []
    else if not (is_blank e.network)
    then (if text_eq (lower e.network) (codes "any") then any_word else e.network ∷ [])
    else any_word

-- `strings.ReplaceAll` of one character by another.
unfoldable pub replace_char : ℕ → ℕ → Text → Text
replace_char a b s = map (λ c. if c == a then b else c) s

-- `pfPort`
unfoldable pub pf_port : PfEndpoint → List Text
pf_port e = if is_blank (trim e.port) then any_word else replace_char b':' b'-' e.port ∷ []

-- `protoOrAny`
unfoldable pub proto_or_any : Text → Text
proto_or_any p = if is_blank (lower (trim p)) then codes "any" else lower (trim p)

unfoldable pub pf_action : Text → Action
pf_action t =
    if text_eq t (codes "pass")
    then allow
    else if one_of (codes "block" ∷ codes "reject" ∷ []) t
    then deny
    else other

unfoldable pub pf_rule : PfRule → Rule
pf_rule pr = record no_rule {
  raw = codes "pf rule: " ++ pr.descr;
  name = pr.descr;
  desc = pr.descr;
  iface = pr.interface;
  enabled = not pr.disabled;
  log = pr.log;
  proto = proto_or_any pr.protocol;
  src_addrs = pf_addr pr.source;
  dst_addrs = pf_addr pr.destination;
  src_ports = pf_port pr.source;
  dst_ports = pf_port pr.destination;
  action = pf_action (lower pr.kind);
}

-- `parsePfSense`; an error of the decoder is `none`.
unfoldable pub parse_pfsense : (Text → Option (List PfRule)) → Text → Option Parsed
parse_pfsense unmarshal config = elim (unmarshal config) [
  | none ↦ none
  | some rules ↦
      some (record { vendor = codes "pfsense"; rules = reindex (map pf_rule rules); unparsed = [] })
]
