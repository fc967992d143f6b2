-- ===== src/Fwparse/Fortinet.antt =====
-- fwparse/fortinet.go: the parser for a FortiGate policy section.
use rulehawk.Common.{
  List, Bool, Option, none, false, if◌then◌else◌, map, ◌∷◌, some, true, [], any, ◌++◌, ◌&&◌,
}
use rulehawk.Common.Text.{
  Text, lower, text_eq, trim_char, codes, has_prefix, drop, trim, split_on, equal_fold, join,
}
use rulehawk.Fwrule.Rule.{Rule, one_of, Action}
use rulehawk.Fwparse.Base.{any_word, no_rule, Parsed, reindex}
use rulehawk.Fwparse.Words.{fields_respecting_quotes}
use rulehawk.Fwparse.Services.{port_name}

-- The keys of `set` lines.
pub data Key : Type 0 where
  name srcaddr dstaddr srcintf service action status logtraffic comments : Key

unfoldable pub key_of : Text → Option Key
key_of s =
    if text_eq s (codes "name")
    then some name
    else if text_eq s (codes "srcaddr")
    then some srcaddr
    else if text_eq s (codes "dstaddr")
    then some dstaddr
    else if text_eq s (codes "srcintf")
    then some srcintf
    else if text_eq s (codes "service")
    then some service
    else if text_eq s (codes "action")
    then some action
    else if text_eq s (codes "status")
    then some status
    else if text_eq s (codes "logtraffic")
    then some logtraffic
    else if one_of (codes "comments" ∷ codes "comment" ∷ []) s
    then some comments
    else none

unfoldable pub unquote_all : List Text → List Text
unquote_all ss = map (trim_char b'"') ss

-- `fortiAddrs`
unfoldable pub forti_addrs : List Text → List Text
forti_addrs [] = any_word
forti_addrs (v ∷ vals) =
    if any (λ x. equal_fold x (codes "all")) (v ∷ vals) then any_word else v ∷ vals

-- `fortiServices`
unfoldable pub forti_services : List Text → List Text
forti_services [] = any_word
forti_services (v ∷ vals) =
    if any (λ x. equal_fold x (codes "all")) (v ∷ vals) then any_word else map port_name (v ∷ vals)

unfoldable pub set_action : Text → Rule → Rule
set_action s r =
    if one_of (codes "accept" ∷ codes "allow" ∷ []) s
    then record r { action = Action.allow }
    else if one_of (codes "deny" ∷ codes "drop" ∷ codes "block" ∷ []) s
    then record r { action = Action.deny }
    else r

-- The cases of the switch, on the unquoted values.
unfoldable pub apply_key : Key → List Text → Rule → Rule
apply_key name [] r = r
apply_key name (v ∷ vals) r = record r { name = v }
apply_key srcaddr vals r = record r { src_addrs = forti_addrs vals }
apply_key dstaddr vals r = record r { dst_addrs = forti_addrs vals }
apply_key srcintf [] r = r
apply_key srcintf (v ∷ vals) r = record r { iface = v }
apply_key service vals r = record r { dst_ports = forti_services vals }
apply_key action [] r = r
apply_key action (v ∷ vals) r = set_action (lower v) r
apply_key status [] r = r
apply_key status (v ∷ vals) r =
    if text_eq (lower v) (codes "disable") then record r { enabled = false } else r
apply_key logtraffic [] r = r
apply_key logtraffic (v ∷ vals) r =
    if text_eq (lower v) (codes "disable") then r else record r { log = true }
apply_key comments [] r = r
apply_key comments (v ∷ vals) r = record r { desc = join (v ∷ vals) (codes " ") }

unfoldable pub apply_words : List Text → Rule → Rule
apply_words [] r = r
apply_words (t ∷ toks) r = elim (key_of (lower t)) [
  | none ↦ r
  | some k ↦ apply_key k (unquote_all toks) r
]

-- `applyFortiSet`
unfoldable pub apply_forti_set : Rule → Text → Rule
apply_forti_set r kv = apply_words (fields_respecting_quotes kv) r

-- `inPolicy`, `cur` and the rules so far.
pub record State : Type 0 where
  pub in_policy : Bool
  pub cur : Option Rule
  pub done : List Rule

unfoldable pub flushed : Option Rule → List Rule → List Rule
flushed none done = done
flushed (some r) done = done ++ r ∷ []

-- `flush`
unfoldable pub flush : State → State
unfolding flushed
flush s = record s { cur = none; done = flushed s.cur s.done }

-- The policy that an `edit` line opens.
unfoldable pub new_policy : Text → Rule
new_policy line = record no_rule {
  enabled = true;
  proto = codes "any";
  src_addrs = any_word;
  dst_addrs = any_word;
  src_ports = any_word;
  dst_ports = any_word;
  name = trim (drop 5 line);
  raw = line;
}

unfoldable pub set_cur : Option Rule → Text → Option Rule
set_cur none kv = none
set_cur (some r) kv = some (apply_forti_set r kv)

-- What a line is for the loop, by its text in lower case.
pub data Kind : Type 0 where
  opens_section closes_section opens_policy closes_policy sets nothing : Kind

unfoldable pub kind_of : Bool → Text → Kind
kind_of in_policy low =
    if has_prefix low (codes "config firewall policy")
    then opens_section
    else if in_policy && text_eq low (codes "end")
    then closes_section
    else if in_policy && has_prefix low (codes "edit ")
    then opens_policy
    else if in_policy && text_eq low (codes "next")
    then closes_policy
    else if in_policy && has_prefix low (codes "set ")
    then sets
    else nothing

unfoldable pub on_kind : Kind → Text → State → State
on_kind opens_section line s = record s { in_policy = true }
on_kind closes_section line s = record (flush s) { in_policy = false }
on_kind opens_policy line s = record (flush s) { cur = some (new_policy line) }
on_kind closes_policy line s = flush s
on_kind sets line s = record s { cur = set_cur s.cur (drop 4 line) }
on_kind nothing line s = s

-- One round of the loop, on the trimmed line.
unfoldable pub step : State → Text → State
step s line = on_kind (kind_of s.in_policy (lower line)) line s

unfoldable pub run : State → List Text → State
run s [] = s
run s (raw ∷ lines) = run (step s (trim raw)) lines

abbrev pub start : State
start = record { in_policy = false; cur = none; done = [] }

-- `parseFortinet`
unfoldable pub parse_fortinet : Text → Parsed
parse_fortinet config =
    let last = flush (run start (split_on b'\n' config)) in
    record { vendor = codes "fortinet"; rules = reindex last.done; unparsed = [] }
