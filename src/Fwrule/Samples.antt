-- ===== src/Fwrule/Samples.antt =====
-- A small rule base, and what its rules and addresses meet.
use rulehawk.Common.{
  List, [], ◌∷◌, ap, ◌≡◌, sym, some, true, some_inj, false, suc, none_ne_some, zero, refl, All,
  arith, any, all, Holds, inl, Bool, ◌&&◌,
}
use rulehawk.Fwrule.Rule.{
  Rule, to_net, allow, deny, with_length, addrs_cover, ports_cover, covers, iface_covers, action_eq,
  any_addr, any_port, proto_covers, one_of, port_covered, norm, to_ranges, to_range, range_of,
  loopback, any_net_contains, net_contains, to_nets, range_covered_by, range_contains, addr_covered,
  same_match,
}
use rulehawk.Fwrule.Index.Addrs.Laws.{is_plain}
use rulehawk.Fwrule.Index.First.{IsPlain}
use rulehawk.Fwrule.Analyze.Reports.{IsNumbered, Covered}
use rulehawk.Common.Text.{
  codes, trim, drop_spaces, is_space, contains_char, cut_where, lower, atoi, lower_char,
  read_number, text_eq, read_digits, is_digit,
}
use rulehawk.Net.Parse.{parse_cidr, cidr_at, cidr_of, net_of, parse_ip}
use rulehawk.Net.Prefix.{is_mapped}
use rulehawk.Net.{mask_bits, to4, v4, contains, contains_short, shorten, same_prefix}
use rulehawk.Fwrule.Index.{may_cover}
use rulehawk.Fwrule.Packet.{
  Names, Packet, Matches, in_addrs, in_addr, in_net, in_ports, in_port, in_range,
}
use rulehawk.Fwrule.Postings.Sorted.{SortedDim}
use rulehawk.Fwrule.Checks.{
  permissive, any_any_issue, permissive_at, issue_of, breadth_issue, wide_port_span, is_wide,
}
use rulehawk.Fwrule.Postings.{keep_list, push, put, dedup_tail}
use rulehawk.Fwrule.Index.Ports.{
  query_first, add_each, query_ports, tree_lists, insert_range, add_ports, no_ports, query_range,
  point_lists, add_port, add_range, insert_loop, is_weird, first_range, put_if, odd,
}
use rulehawk.Fwrule.Index.Lookup.{ports_later}
use rulehawk.Common.Int.{wrap, from_word, ◌-ℤ◌}
use rulehawk.Fwrule.Index.Table.{put_at}
use rulehawk.Fwrule.Analyze.{
  dead_deny_issue, passed_over, cover_issue, shadow_and_duplicate_quadratic, quadratic_loop, scan,
}

-- An allow of the web ports from a private network.
abbrev pub allow_web : Rule
allow_web = record {
  index = 1;
  name = codes "web";
  action = allow;
  src_addrs = codes "10.0.0.0/8" ∷ [];
  dst_addrs = codes "any" ∷ [];
  proto = codes "tcp";
  src_ports = [];
  dst_ports = codes "80-443" ∷ [];
  iface = codes "eth0";
  direction = codes "in";
  enabled = true;
  log = false;
  desc = codes "web";
  raw = [];
  conditional = false;
}

-- A deny of a host of that network at one of the ports, which never fires behind the allow.
abbrev pub deny_host : Rule
deny_host = record {
  index = 2;
  name = [];
  action = deny;
  src_addrs = codes "10.1.2.3" ∷ [];
  dst_addrs = codes "any" ∷ [];
  proto = codes "TCP";
  src_ports = [];
  dst_ports = codes "443" ∷ [];
  iface = codes "eth0";
  direction = codes "in";
  enabled = true;
  log = true;
  desc = [];
  raw = [];
  conditional = false;
}

-- An allow of everything.
abbrev pub allow_all : Rule
allow_all = record {
  index = 3;
  name = [];
  action = allow;
  src_addrs = codes "any" ∷ [];
  dst_addrs = codes "any" ∷ [];
  proto = [];
  src_ports = [];
  dst_ports = [];
  iface = [];
  direction = [];
  enabled = true;
  log = false;
  desc = [];
  raw = [];
  conditional = false;
}

abbrev pub web_rules : List Rule
web_rules = allow_web ∷ deny_host ∷ []

pub net_is_plain : is_plain (codes "10.0.0.0/8") ≡ true
unfolding is_plain to_net with_length trim drop_spaces is_space parse_cidr cidr_at cidr_of net_of
    parse_ip is_mapped contains_char mask_bits
net_is_plain = refl

pub host_is_plain : is_plain (codes "10.1.2.3") ≡ true
unfolding is_plain to_net with_length trim drop_spaces is_space parse_cidr cidr_at cidr_of net_of
    parse_ip is_mapped contains_char mask_bits to4
host_is_plain = refl

pub any_is_plain : is_plain (codes "any") ≡ true
unfolding is_plain to_net with_length trim drop_spaces is_space parse_cidr cidr_at cidr_of net_of
    parse_ip is_mapped contains_char mask_bits to4
any_is_plain = refl

pub web-IsPlain : IsPlain allow_web
web-IsPlain = ((net_is_plain, tt), (any_is_plain, tt))

pub deny-IsPlain : IsPlain deny_host
deny-IsPlain = ((host_is_plain, tt), (any_is_plain, tt))

pub web_rules-IsPlain : All IsPlain web_rules
web_rules-IsPlain = (web-IsPlain, (deny-IsPlain, tt))

pub web_may_cover : may_cover allow_web ≡ true
unfolding may_cover action_eq
web_may_cover = refl

pub src_covered : addrs_cover allow_web.src_addrs deny_host.src_addrs ≡ true
unfolding addrs_cover any_addr one_of norm any all any_net_contains net_contains to_nets to_net
    with_length trim drop_spaces is_space parse_cidr cidr_at cidr_of net_of parse_ip contains_char
    mask_bits to4 contains contains_short shorten same_prefix lower lower_char text_eq addr_covered
src_covered = refl

pub dst_port_covered : ports_cover allow_web.dst_ports deny_host.dst_ports ≡ true
unfolding ports_cover any_port port_covered to_ranges to_range range_of cut_where atoi read_number
    read_digits is_digit range_covered_by range_contains any all one_of norm trim drop_spaces
    is_space lower lower_char text_eq wrap from_word
dst_port_covered = refl

pub web_covers_deny : covers allow_web deny_host ≡ true
unfolding covers iface_covers proto_covers addrs_cover any_addr one_of norm any all any_net_contains
    net_contains to_nets to_net with_length trim drop_spaces is_space parse_cidr cidr_at cidr_of
    net_of parse_ip contains_char mask_bits to4 contains contains_short shorten same_prefix lower
    lower_char text_eq addr_covered ports_cover any_port port_covered to_ranges to_range range_of
    cut_where atoi read_number read_digits is_digit range_covered_by range_contains
web_covers_deny = refl

-- Names that stand for nothing.
abbrev pub no_names : Names
no_names = record {
  hosts = λ a ip. false;
  services = λ p port. false;
  net_is_no_name = λ a n ip e. refl;
  range_is_no_name = λ p r port e. refl;
}

-- A packet from 10.1.2.3 to port 443.
abbrev pub web_packet : Packet
web_packet = record {
  iface = codes "eth0";
  proto = codes "tcp";
  src = v4 167838211;
  dst = v4 134744072;
  src_port = 50000;
  dst_port = 443;
}

pub packet-Matches_deny : Matches no_names deny_host web_packet
unfolding iface_covers proto_covers in_addrs in_addr in_net in_ports in_port in_range any_addr
    one_of norm any all to_nets to_net with_length trim drop_spaces is_space parse_cidr cidr_at
    cidr_of net_of parse_ip contains_char mask_bits to4 contains contains_short shorten same_prefix
    lower lower_char text_eq any_port to_ranges to_range range_of cut_where atoi read_number
    read_digits is_digit
packet-Matches_deny = record {
  iface_ok = refl;
  proto_ok = refl;
  src_ok = refl;
  dst_ok = refl;
  src_port_ok = refl;
  dst_port_ok = refl;
}

pub sorted_lists : SortedDim (λ w. Unit) 5 ((1 ∷ 4 ∷ []) ∷ (3 ∷ []) ∷ [])
sorted_lists = (
  (omega arith, omega arith, tt, (omega arith, omega arith, tt, tt)),
  ((omega arith, omega arith, tt, tt), tt),
)

pub in_permissive : Holds (any_any_issue allow_all) (permissive (allow_web ∷ allow_all ∷ []))
unfolding permissive permissive_at breadth_issue any_addr any_port one_of norm any loopback
    action_eq trim drop_spaces is_space lower lower_char text_eq wide_port_span is_wide to_ranges
    to_range range_of cut_where atoi read_number read_digits is_digit wrap from_word ◌-ℤ◌
in_permissive = inl refl

pub any_any_is_high : (any_any_issue allow_all).severity ≡ codes "high"
unfolding any_any_issue issue_of
any_any_is_high = refl

pub web_rules-IsNumbered : IsNumbered web_rules
web_rules-IsNumbered zero r e = ap (λ (q : Rule). q.index) (sym (some_inj e))
web_rules-IsNumbered (suc zero) r e = ap (λ (q : Rule). q.index) (sym (some_inj e))
web_rules-IsNumbered (suc (suc k)) r e = absurd (none_ne_some e)

pub deny_is_Covered : Covered web_rules 1
deny_is_Covered =
    (deny_host, refl, refl, 0, omega arith, (allow_web, refl, web_may_cover, web_covers_deny))

pub deny_ports_found :
    query_ports (ports_later (add_ports no_ports 0 allow_web.dst_ports) []) deny_host.dst_ports
    ≡ some ((0 ∷ []) ∷ [])
unfolding query_ports query_first query_range point_lists tree_lists keep_list add_ports add_each
    add_port add_range insert_range insert_loop is_weird first_range put_if odd push put dedup_tail
    any_port any one_of norm to_ranges to_range range_of cut_where atoi read_number read_digits
    is_digit trim drop_spaces is_space lower lower_char text_eq put_at
deny_ports_found = refl

pub dead_deny_is_high : (dead_deny_issue allow_web deny_host).severity ≡ codes "high"
unfolding dead_deny_issue
dead_deny_is_high = refl

pub passed_over_web : passed_over allow_web deny_host ≡ false
unfolding passed_over action_eq
passed_over_web = rw web_covers_deny refl

and-false : (b : Bool) → (b && false) ≡ false
and-false true = refl
and-false false = refl

pub cover_web : cover_issue allow_web deny_host ≡ dead_deny_issue allow_web deny_host
unfolding cover_issue action_eq
cover_web = rw (and-false (same_match allow_web deny_host), cover_issue) refl

pub dead_deny_reported :
    Holds (dead_deny_issue allow_web deny_host) (shadow_and_duplicate_quadratic web_rules)
unfolding shadow_and_duplicate_quadratic quadratic_loop scan
dead_deny_reported = rw (passed_over_web, scan) (inl (sym cover_web))
