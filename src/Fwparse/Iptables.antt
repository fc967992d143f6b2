-- ===== src/Fwparse/Iptables.antt =====
-- fwparse/iptables.go: the parser for `iptables-save` lines.
use rulehawk.Common.{
  List, Option, if◌then◌else◌, map, Bool, ◌∷◌, [], ◌||◌, true, not, some, false, none, ◌&&◌,
}
use rulehawk.Common.Text.{Text, codes, text_eq, trim, split_on, has_prefix, upper, lower, trim_char}
use rulehawk.Fwrule.Rule.{Rule, one_of, allow, deny, other}
use rulehawk.Fwparse.Base.{or_any, no_rule, Parsed, is_blank, reindex, dedupe_strings}
use rulehawk.Fwparse.Words.{fields_respecting_quotes}

-- The options that take a value.
pub data Opt : Type 0 where
  chain source destination protocol dport sport interface jump comment : Opt

-- The cases of the switch.
unfoldable pub opt_of : Text → Option Opt
opt_of t =
    if one_of (codes "-A" ∷ codes "-I" ∷ []) t
    then some chain
    else if one_of (codes "-s" ∷ codes "--source" ∷ []) t
    then some source
    else if one_of (codes "-d" ∷ codes "--destination" ∷ []) t
    then some destination
    else if one_of (codes "-p" ∷ codes "--protocol" ∷ []) t
    then some protocol
    else if one_of (codes "--dport" ∷ codes "--dports" ∷ []) t
    then some dport
    else if one_of (codes "--sport" ∷ codes "--sports" ∷ []) t
    then some sport
    else if one_of (codes "-i" ∷ codes "--in-interface" ∷ codes "-o" ∷ codes "--out-interface" ∷ [])
        t
    then some interface
    else if one_of (codes "-j" ∷ codes "--jump" ∷ []) t
    then some jump
    else if text_eq t (codes "--comment")
    then some comment
    else none

-- `modelledOption` and `modelledModule`
abbrev pub modelled_option : List Text
modelled_option =
    codes "--source"
    ∷ codes "--destination"
    ∷ codes "--protocol"
    ∷ codes "--dport"
    ∷ codes "--dports"
    ∷ codes "--sport"
    ∷ codes "--sports"
    ∷ codes "--in-interface"
    ∷ codes "--out-interface"
    ∷ codes "--jump"
    ∷ codes "--comment"
    ∷ []

abbrev pub modelled_module : List Text
modelled_module = codes "tcp" ∷ codes "udp" ∷ codes "multiport" ∷ codes "comment" ∷ []

-- `normCIDR` of the parsers
unfoldable pub norm_addr : Text → Text
norm_addr a =
    if text_eq (trim a) (codes "0.0.0.0/0") || is_blank (trim a) then codes "any" else trim a

unfoldable pub split_ports : Text → List Text
split_ports s = map trim (split_on b',' s)

-- The token, with the one behind it, is something that the model of rules does not have.
unfoldable pub narrows : Text → List Text → Bool
narrows t [] =
    text_eq t (codes "!") || (has_prefix t (codes "--") && not (one_of modelled_option t))
narrows t (u ∷ rest) =
    (text_eq t (codes "!") || (has_prefix t (codes "--") && not (one_of modelled_option t)))
    || (text_eq t (codes "-m") && not (one_of modelled_module (lower u)))

-- The rule with the target of a jump.
unfoldable pub set_target : Text → Rule → Rule
set_target u r =
    if text_eq (upper u) (codes "ACCEPT")
    then record r { action = allow }
    else if one_of (codes "DROP" ∷ codes "REJECT" ∷ []) (upper u)
    then record r { action = deny }
    else if text_eq (upper u) (codes "LOG")
    then record r { log = true; action = other }
    else r

-- The rule, and `haveTarget`.
unfoldable pub set_option : Opt → Text → Rule × Bool → Rule × Bool
set_option chain u (r, target) = (record r { iface = []; name = u }, target)
set_option source u (r, target) = (record r { src_addrs = norm_addr u ∷ [] }, target)
set_option destination u (r, target) = (record r { dst_addrs = norm_addr u ∷ [] }, target)
set_option protocol u (r, target) = (record r { proto = lower u }, target)
set_option dport u (r, target) = (record r { dst_ports = split_ports u }, target)
set_option sport u (r, target) = (record r { src_ports = split_ports u }, target)
set_option interface u (r, target) = (record r { iface = u }, target)
set_option jump u (r, target) = (set_target u r, true)
set_option comment u (r, target) = (record r { desc = trim_char b'"' u }, target)

unfoldable pub mark : Text → List Text → Rule × Bool → Rule × Bool
mark t rest (r, target) = (record r { conditional = r.conditional || narrows t rest }, target)

-- The loop over the tokens; an option with a value takes two of them.
unfoldable pub read_tokens : List Text → Rule × Bool → Rule × Bool
read_tokens [] st = st
read_tokens (t ∷ []) st = mark t [] st
read_tokens (t ∷ u ∷ rest) st = elim (opt_of t) [
  | none ↦ read_tokens (u ∷ rest) (mark t (u ∷ rest) st)
  | some o ↦ read_tokens rest (set_option o u (mark t (u ∷ rest) st))
]

-- The addresses and ports that the line leaves out.
unfoldable pub fill_any : Rule → Rule
fill_any r = record r {
  src_addrs = or_any r.src_addrs;
  dst_addrs = or_any r.dst_addrs;
  dst_ports = or_any r.dst_ports;
}

abbrev pub blank_rule : Text → Rule
blank_rule line = record no_rule { enabled = true; raw = line; proto = codes "any" }

-- `parseIptablesRule`
unfoldable pub parse_iptables_rule : Text → Rule × Bool
parse_iptables_rule line =
    let st = read_tokens (fields_respecting_quotes line) (blank_rule line, false) in
    (fill_any st.0, st.1)

-- What a line turns into.
pub data Line : Type 0 where
  skipped : Line
  not_understood : Text → Line
  is_rule : Rule → Line

unfoldable pub rule_or_not : Text → Rule × Bool → Line
rule_or_not line (r, true) = is_rule r
rule_or_not line (r, false) = not_understood line

unfoldable pub is_skipped : Text → Bool
is_skipped line =
    is_blank line
    || (has_prefix line (codes "#")
        || (has_prefix line (codes "*")
            || (has_prefix line (codes ":") || text_eq line (codes "COMMIT"))))

-- One round of the loop over the lines, on the trimmed line.
unfoldable pub read_line : Text → Line
read_line line =
    if is_skipped line
    then skipped
    else if not (has_prefix line (codes "-A ")) && not (has_prefix line (codes "-I "))
    then not_understood line
    else rule_or_not line (parse_iptables_rule line)

-- What a line adds to the rules and to the lines not understood.
unfoldable pub collect : Line → List Rule × List Text → List Rule × List Text
collect skipped (rules, unparsed) = (rules, unparsed)
collect (not_understood line) (rules, unparsed) = (rules, line ∷ unparsed)
collect (is_rule r) (rules, unparsed) = (r ∷ rules, unparsed)

unfoldable pub read_lines : List Text → List Rule × List Text
read_lines [] = ([], [])
read_lines (raw ∷ lines) = collect (read_line (trim raw)) (read_lines lines)

-- `parseIptables`
unfoldable pub parse_iptables : Text → Text → Parsed
parse_iptables vendor config =
    let both = read_lines (split_on b'\n' config) in
    record { vendor = vendor; rules = reindex both.0; unparsed = dedupe_strings both.1 }
