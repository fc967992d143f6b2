-- ===== src/Fwparse/Accounts/Raw.antt =====
-- fwparse/ciscoasa.go: the rule of a line keeps the text of the line.
use rulehawk.Common.{none, some, List, ◌≡◌, ◌∷◌, Option-keeps, ◌∙◌, if_keeps, [], refl}
use rulehawk.Common.Text.{Text, lower, text_eq, codes}
use rulehawk.Fwparse.CiscoAsa.{
  read_flags, read_destination, read_source, read_protocol, read_action, parse_asa_rule, RuleSpec,
  finish_rule, action_of,
}
use rulehawk.Fwparse.AsaSpecs.{PortSpec, asa_addr, asa_port}
use rulehawk.Fwrule.Rule.{Rule}
use rulehawk.Fwparse.Members.{Objects}

-- What a line has turned into has its text.
abbrev pub HasRaw : Text → RuleSpec → Type 0
HasRaw line both = elim both.0 [ none ↦ Unit | some r ↦ r.raw ≡ line ]

read_flags-raw : (toks : List Text) (r : Rule) → (read_flags toks r).raw ≡ r.raw
unfolding read_flags
read_flags-raw [] r = refl
read_flags-raw (t ∷ toks) r =
    read_flags-raw toks _
    ∙ if_keeps (λ (q : Rule). q.raw ≡ r.raw) (text_eq t (codes "log")) _ _ refl
        (if_keeps (λ (q : Rule). q.raw ≡ r.raw) (text_eq t (codes "inactive")) _ _ refl refl)

read_destination-HasRaw : (r : Rule) (src : PortSpec) → HasRaw r.raw (read_destination r src)
unfolding read_destination finish_rule
read_destination-HasRaw r src =
    Option-keeps (HasRaw r.raw) (asa_addr src.rest src.objs) _ _ (λ e. tt)
      (λ dst e. read_flags-raw (asa_port dst.rest dst.objs).rest _)

read_source-HasRaw :
    (r : Rule) (toks : List Text) (o : Objects) → HasRaw r.raw (read_source r toks o)
unfolding read_source
read_source-HasRaw r toks o =
    Option-keeps (HasRaw r.raw) (asa_addr toks o) _ _ (λ e. tt)
      (λ src e.
        read_destination-HasRaw (record r { src_addrs = src.addrs }) (asa_port src.rest src.objs))

read_protocol-HasRaw :
    (r : Rule) (toks : List Text) (o : Objects) → HasRaw r.raw (read_protocol r toks o)
unfolding read_protocol
read_protocol-HasRaw r [] o = tt
read_protocol-HasRaw r (t ∷ toks) o = read_source-HasRaw (record r { proto = lower t }) toks o

read_action-HasRaw :
    (r : Rule) (toks : List Text) (o : Objects) → HasRaw r.raw (read_action r toks o)
unfolding read_action
read_action-HasRaw r [] o = tt
read_action-HasRaw r (t ∷ toks) o =
    Option-keeps (HasRaw r.raw) (action_of t) _ _ (λ e. tt)
      (λ a e. read_protocol-HasRaw (record r { action = a }) toks o)

pub parse_asa_rule-HasRaw :
    (acl : Text) (toks : List Text) (line : Text) (o : Objects)
    → HasRaw line (parse_asa_rule acl toks line o)
unfolding parse_asa_rule
parse_asa_rule-HasRaw acl toks line o = read_action-HasRaw _ _ o
