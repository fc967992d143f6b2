-- ===== src/Fwparse/Tests.antt =====
-- The parsers on small configurations.
use rulehawk.Fwparse.Numbering.{parse-IsNumbered}
use rulehawk.Fwparse.Texts.{dedupe_strings-Ascends, Ascends}
use rulehawk.Fwparse.Resolving.{resolve-Way}
use rulehawk.Fwparse.Ending.{resolve-enough}
use rulehawk.Fwparse.Caching.{IsCache, uncached, expand_in-uncached}
use rulehawk.Fwparse.Spelled.{parse-IsSpelled}
use rulehawk.Fwparse.Accounts.Asa.{IsOwed, owes, parse_cisco_asa-accounts, starts_remark}
use rulehawk.Fwparse.Accounts.Foreign.{is_foreign}
use rulehawk.Fwparse.Scan.{
  in_block, scan_objects, scan_from, scan_line, scan_words, is_remark, scan_header, scan_member,
  member_in, define, append_member,
}
use rulehawk.Fwparse.Policies.{inside, run-policy, Begins}
use rulehawk.Fwparse.Accounts.Iptables.{IsAccounted, IsLine, parse_iptables-accounts}
use rulehawk.Fwrule.Samples.{any_is_plain}
use rulehawk.Common.Text.{
  fields, drop_spaces, is_space, lower_char, upper_char, sort_texts, insert_text, text_lt, split_on,
  cons_first, has_prefix, trim, text_eq, lower, upper, Text, codes, end_word,
}
use rulehawk.Fwrule.Rule.{Rule, allow, one_of, covers}
use rulehawk.Fwparse.Base.{
  Parsed, no_rule, any_word, reindex, number_from, dedupe_strings, first_seen, is_blank, or_any,
}
use rulehawk.Fwparse.{parse}
use rulehawk.Common.{
  Option, List, ◌∷◌, [], ◌≡◌, none, true, some, refl, any, All, ◌↔◌, Holds, length, ◌≢◌, ◌≤◌,
  none_ne_some, ◌++◌, inr, inl, false,
}
use rulehawk.Fwparse.Iptables.{
  parse_iptables, read_lines, read_line, collect, is_skipped, rule_or_not, parse_iptables_rule,
  fill_any, read_tokens, set_option, set_target, mark, narrows, opt_of, split_ports, norm_addr,
}
use rulehawk.Fwparse.Pfsense.{PfRule}
use rulehawk.Fwparse.Words.{fields_respecting_quotes, words_from, is_blank_char}
use rulehawk.Fwrule.Analyze.Reports.{IsNumbered}
use rulehawk.Fwparse.Members.{
  members, members_of, is_defined, add_member, capped, with_sub, Defs, resolve, cached, expand_in,
  add_members, enough, resolved, max_expand, out_of_fuel, append_members,
}
use rulehawk.Fwrule.Index.First.{IsPlain}
use rulehawk.Fwparse.Spelled.Base.{IsSpelled}
use rulehawk.Fwparse.MemberLines.{lit, ref_to, asa_net_member, host_member}
use rulehawk.Fwparse.Ways.{Way}
use rulehawk.Fwparse.Fortinet.{run, flushed}
use rulehawk.Fwparse.CiscoAsa.{parse_cisco_asa}
use rulehawk.Fwparse.Settings.{HasSettings}
use rulehawk.Fwparse.Negations.{IsNarrowed, parse_iptables-IsNarrowed}

abbrev pub no_xml : Text → Option (List PfRule)
no_xml config = none

abbrev pub sample_config : Text
sample_config = codes "*filter\n-A INPUT -p tcp --dport 22 -j ACCEPT\nfoo\n"

abbrev pub sample_rule : Rule
sample_rule = record no_rule {
  index = 1;
  name = codes "INPUT";
  action = allow;
  src_addrs = any_word;
  dst_addrs = any_word;
  proto = codes "tcp";
  dst_ports = codes "22" ∷ [];
  enabled = true;
  raw = codes "-A INPUT -p tcp --dport 22 -j ACCEPT";
}

abbrev pub sample_parsed : Parsed
sample_parsed = record {
  vendor = codes "iptables";
  rules = sample_rule ∷ [];
  unparsed = codes "foo" ∷ [];
}

pub sample_parses : parse no_xml (codes "iptables") sample_config ≡ some sample_parsed
unfolding parse parse_iptables read_lines read_line collect is_skipped rule_or_not
    parse_iptables_rule fill_any read_tokens set_option set_target mark narrows opt_of split_ports
    reindex number_from dedupe_strings first_seen is_blank or_any split_on cons_first has_prefix
    text_eq trim drop_spaces is_space sort_texts insert_text text_lt fields_respecting_quotes
    words_from is_blank_char lower upper lower_char upper_char one_of any end_word
sample_parses = refl

parse-IsNumbered_example : IsNumbered (sample_rule ∷ [])
parse-IsNumbered_example =
    parse-IsNumbered no_xml (codes "iptables") sample_config sample_parsed sample_parses

pub sample-IsPlain : All IsPlain (sample_rule ∷ [])
sample-IsPlain = (((any_is_plain, tt), (any_is_plain, tt)), tt)

parse-IsSpelled_example : All IsSpelled (sample_rule ∷ [])
parse-IsSpelled_example =
    parse-IsSpelled no_xml (codes "iptables") sample_config sample_parsed sample_parses

parse_iptables-accounts_example :
    IsAccounted
      (codes "foo")
      (parse_iptables (codes "iptables") sample_config).rules
      (parse_iptables (codes "iptables") sample_config).unparsed
    ↔ IsLine (codes "foo") (split_on b'\n' sample_config)
parse_iptables-accounts_example =
    parse_iptables-accounts (codes "iptables") sample_config (codes "foo")

abbrev pub repeated : List Text
repeated = codes "b" ∷ [] ∷ codes "a" ∷ codes "b" ∷ []

dedupe_strings-Ascends_example :
    Ascends (dedupe_strings repeated)
    × ((x : Text) → Holds x (dedupe_strings repeated) ↔ (Holds x repeated × (x ≢ [])))
dedupe_strings-Ascends_example = dedupe_strings-Ascends repeated

-- Two groups that refer to each other.
abbrev pub sample_groups : Defs
sample_groups =
    (codes "WEB", lit (codes "10.0.0.2") ∷ ref_to (codes "DB") ∷ [])
    ∷ (codes "DB", lit (codes "10.0.0.1") ∷ ref_to (codes "WEB") ∷ ref_to (codes "FAR") ∷ [])
    ∷ []

abbrev pub sample_members : List Text
sample_members = codes "10.0.0.1" ∷ codes "10.0.0.2" ∷ codes "FAR" ∷ []

sample_resolves :
    resolve (enough sample_groups) sample_groups [] (codes "WEB") ≡ resolved sample_members
unfolding resolve add_members one_of any members members_of text_eq is_blank is_defined
    dedupe_strings sort_texts first_seen text_lt add_member capped with_sub insert_text
sample_resolves = refl

resolve-Way_example :
    (length sample_members ≤ max_expand)
    × ((x : Text) → Holds x sample_members ↔ Way sample_groups [] x (codes "WEB"))
resolve-Way_example =
    resolve-Way sample_groups (enough sample_groups) (codes "WEB") sample_members sample_resolves

resolve-enough_example : resolve (enough sample_groups) sample_groups [] (codes "WEB") ≢ out_of_fuel
resolve-enough_example = resolve-enough sample_groups (codes "WEB")

no-IsCache : IsCache sample_groups []
unfolding cached
no-IsCache name got e = absurd (none_ne_some e)

expand_in-uncached_example :
    ((expand_in sample_groups [] (codes "WEB")).0 ≡ uncached sample_groups (codes "WEB"))
    × IsCache sample_groups (expand_in sample_groups [] (codes "WEB")).1
expand_in-uncached_example = expand_in-uncached sample_groups [] (codes "WEB") no-IsCache

abbrev pub set_lines : List Text
set_lines = codes "set srcaddr \"LAN\"" ∷ codes "  set action accept" ∷ []

edit_opens : Begins (codes "edit ") (codes "edit 7")
unfolding lower lower_char trim drop_spaces is_space has_prefix
edit_opens = refl

they_set : All (Begins (codes "set ")) set_lines
unfolding lower lower_char trim drop_spaces is_space has_prefix
they_set = (refl, (refl, tt))

next_closes : lower (trim (codes "next")) ≡ codes "next"
unfolding lower lower_char trim drop_spaces is_space
next_closes = refl

run-policy_example :
    (r : Rule) × (run
        (inside none [])
        (codes "edit 7" ∷ (set_lines ++ codes "next" ∷ codes "end" ∷ []))
      ≡ run (inside none (flushed none [] ++ r ∷ [])) (codes "end" ∷ []))
    × HasSettings set_lines r
run-policy_example =
    run-policy (codes "edit 7") (codes "next") set_lines (codes "end" ∷ []) none [] edit_opens
      they_set next_closes

abbrev pub asa_config : Text
asa_config =
    codes "object-group network G\n host 10.1.1.10\naccess-list X extended permit ip any any"

abbrev pub acl_line : Text
acl_line = codes "access-list X extended permit ip any any"

acl_line-IsOwed :
    IsOwed acl_line (split_on b'\n' asa_config) (scan_objects (split_on b'\n' asa_config)).1
unfolding split_on cons_first scan_objects scan_from scan_line scan_words is_remark is_blank
    has_prefix trim drop_spaces is_space fields owes text_eq one_of any in_block end_word is_foreign
    starts_remark scan_header scan_member member_in asa_net_member host_member define append_member
    append_members
acl_line-IsOwed = inr (inr (inl (refl, inl refl, refl, refl)))

parse_cisco_asa-accounts_example :
    IsAccounted acl_line (parse_cisco_asa asa_config).rules (parse_cisco_asa asa_config).unparsed
parse_cisco_asa-accounts_example = parse_cisco_asa-accounts asa_config acl_line acl_line-IsOwed

abbrev pub negated_config : Text
negated_config = codes "-A INPUT ! -s 10.0.0.0/8 -j ACCEPT"

abbrev pub negated_rule : Rule
negated_rule = record no_rule {
  index = 1;
  name = codes "INPUT";
  action = allow;
  src_addrs = codes "10.0.0.0/8" ∷ [];
  dst_addrs = any_word;
  dst_ports = any_word;
  proto = codes "any";
  enabled = true;
  raw = negated_config;
  conditional = true;
}

negated_is_read : Holds negated_rule (parse_iptables (codes "iptables") negated_config).rules
unfolding parse_iptables reindex number_from read_lines read_line split_on cons_first collect
    is_skipped is_blank has_prefix trim drop_spaces is_space rule_or_not parse_iptables_rule
    read_tokens mark narrows set_option opt_of one_of any text_eq set_target fill_any or_any
    norm_addr upper fields_respecting_quotes words_from is_blank_char end_word
negated_is_read = inl refl

-- The line of the rule demands more than the model has.
negated-IsNarrowed : IsNarrowed (fields_respecting_quotes negated_rule.raw)
unfolding fields_respecting_quotes opt_of one_of any text_eq words_from is_blank_char end_word
negated-IsNarrowed = inr (inl (refl, inl refl))

parse_iptables-IsNarrowed_example :
    (negated_rule.conditional ≡ true) × ((i : Rule) → covers negated_rule i ≡ false)
parse_iptables-IsNarrowed_example =
    parse_iptables-IsNarrowed (codes "iptables") negated_config negated_rule negated_is_read
      negated-IsNarrowed
