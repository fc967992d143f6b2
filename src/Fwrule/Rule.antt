-- ===== src/Fwrule/Rule.antt =====
-- fwrule/rule.go: the rule and the tests on its fields. Every function is the Go function of that name.
pub mod Parsed
use rulehawk.Common.{
  ℕ, Bool, true, false, ◌&&◌, ◌||◌, Option, none, some, List, [], ◌∷◌, ◌++◌, map, any, all, ltb,
  ◌==◌, if◌then◌else◌,
}
use rulehawk.Common.Int.{ℤ, leb_ℤ}
use rulehawk.Common.Text.{Text, codes, text_eq, lower, trim, contains_char, cut_where, atoi, join}
use rulehawk.Net.{IpNet, to4, contains}
use rulehawk.Net.Parse.{parse_ip, parse_cidr}

pub data Action : Type 0 where
  allow deny other : Action

pub record Rule : Type 0 where
  pub index : ℕ
  pub name : Text
  pub action : Action
  pub src_addrs : List Text
  pub dst_addrs : List Text
  pub proto : Text
  pub src_ports : List Text
  pub dst_ports : List Text
  pub iface : Text
  pub direction : Text
  pub enabled : Bool
  pub log : Bool
  pub desc : Text
  pub raw : Text
  pub conditional : Bool

abbrev pub action_text : Action → Text
action_text allow = codes "allow"
action_text deny = codes "deny"
action_text other = codes "other"

unfoldable pub action_eq : Action → Action → Bool
action_eq allow allow = true
action_eq deny deny = true
action_eq other other = true
action_eq _ _ = false

unfoldable pub norm : Text → Text
norm s = lower (trim s)

-- The text is one of the words.
unfoldable pub one_of : List Text → Text → Bool
one_of words s = any (text_eq s) words

unfoldable pub loopback : Rule → Bool
loopback r = one_of (codes "lo" ∷ codes "lo0" ∷ codes "loopback" ∷ []) (norm r.iface)

abbrev pub any_addr_words : List Text
any_addr_words = codes "any" ∷ codes "0.0.0.0/0" ∷ codes "::/0" ∷ codes "*" ∷ codes "all" ∷ []

unfoldable pub any_addr : List Text → Bool
any_addr [] = true
any_addr (a ∷ addrs) = any (λ s. one_of any_addr_words (norm s)) (a ∷ addrs)

abbrev pub any_port_words : List Text
any_port_words = codes "any" ∷ codes "*" ∷ codes "0-65535" ∷ codes "all" ∷ []

unfoldable pub any_port : List Text → Bool
any_port [] = true
any_port (p ∷ ports) = any (λ s. one_of any_port_words (norm s)) (p ∷ ports)

abbrev pub proto_words : List Text
proto_words = codes "" ∷ codes "any" ∷ codes "ip" ∷ codes "ip4" ∷ codes "ipv4" ∷ []

-- The protocol is lower-cased and, unlike the interface, not trimmed.
unfoldable pub proto_covers : Text → Text → Bool
proto_covers a b = if one_of proto_words (lower a) then true else text_eq (lower a) (lower b)

abbrev pub iface_words : List Text
iface_words = codes "" ∷ codes "any" ∷ codes "all" ∷ codes "*" ∷ []

unfoldable pub iface_covers : Text → Text → Bool
iface_covers a b = if one_of iface_words (norm a) then true else text_eq (norm a) (norm b)

unfoldable pub contains_string : List Text → Text → Bool
contains_string set v = any (λ s. text_eq (norm s) (norm v)) set

-- A bare host gets its full prefix length.
unfoldable pub with_length : Text → Text
with_length a = if contains_char b'/' a then a else elim (parse_ip a) [
  | none ↦ a
  | some ip ↦ elim (to4 ip) [ none ↦ a ++ codes "/128" | some b ↦ a ++ codes "/32" ]
]

-- One round of the loop of `toNets`.
unfoldable pub to_net : Text → Option IpNet
to_net s = elim (trim s) [ [] ↦ none | c ∷ a ↦ parse_cidr (with_length (c ∷ a)) ]

unfoldable pub to_nets : List Text → List IpNet
to_nets [] = []
to_nets (a ∷ addrs) =
    let rest = to_nets addrs in elim (to_net a) [ none ↦ rest | some n ↦ n ∷ rest ]

unfoldable pub net_contains : IpNet → IpNet → Bool
net_contains outer sub =
    if contains outer sub.ip then (if ltb sub.ones outer.ones then false else true) else false

unfoldable pub any_net_contains : List IpNet → IpNet → Bool
any_net_contains nets sub = any (λ n. net_contains n sub) nets

-- One round of the loop of `addrsCover`.
unfoldable pub addr_covered : List Text → Text → Bool
addr_covered a be = elim (to_nets (be ∷ [])) [
  | [] ↦ contains_string a be
  | bn ∷ rest ↦ any_net_contains (to_nets a) bn
]

unfoldable pub addrs_cover : List Text → List Text → Bool
addrs_cover a b = if any_addr a then true else if any_addr b then false else all (addr_covered a) b

pub record PortRange : Type 0 where
  pub lo : ℤ
  pub hi : ℤ

-- Both ends of a range, if both are numbers.
unfoldable pub range_of : Option ℤ → Option ℤ → Option PortRange
range_of (some lo) (some hi) = some (record { lo = lo; hi = hi })
range_of _ _ = none

-- One round of the loop of `toRanges`; `:` and `-` both stand between the ends.
unfoldable pub to_range : Text → Option PortRange
to_range s = elim (cut_where (λ c. (c == b'-') || (c == b':')) (trim s)) [
  | none ↦ range_of (atoi (trim s)) (atoi (trim s))
  | some (a, b) ↦ range_of (atoi (trim a)) (atoi (trim b))
]

unfoldable pub to_ranges : List Text → List PortRange
to_ranges [] = []
to_ranges (p ∷ ports) =
    let rest = to_ranges ports in elim (to_range p) [ none ↦ rest | some r ↦ r ∷ rest ]

unfoldable pub range_contains : PortRange → PortRange → Bool
range_contains s r = leb_ℤ s.lo r.lo && leb_ℤ r.hi s.hi

unfoldable pub range_covered_by : PortRange → List PortRange → Bool
range_covered_by r set = any (λ s. range_contains s r) set

-- One round of the loop of `portsCover`.
unfoldable pub port_covered : List Text → Text → Bool
port_covered a be = elim (to_ranges (be ∷ [])) [
  | [] ↦ contains_string a be
  | br ∷ rest ↦ range_covered_by br (to_ranges a)
]

unfoldable pub ports_cover : List Text → List Text → Bool
ports_cover a b = if any_port a then true else if any_port b then false else all (port_covered a) b

-- `j.Covers(i)`
unfoldable pub covers : Rule → Rule → Bool
covers j i =
    if j.conditional
    then false
    else iface_covers j.iface i.iface
      && (proto_covers j.proto i.proto
          && (addrs_cover j.src_addrs i.src_addrs
              && (addrs_cover j.dst_addrs i.dst_addrs
                  && (ports_cover j.src_ports i.src_ports && ports_cover j.dst_ports i.dst_ports))))

unfoldable pub same_match : Rule → Rule → Bool
same_match j i = covers j i && covers i j

unfoldable pub join_norm : List Text → Text
join_norm ss = join (map norm ss) (codes ",")

unfoldable pub match_key : Rule → Text
match_key r =
    join
      (action_text r.action
        ∷ norm r.proto
        ∷ join_norm r.src_addrs
        ∷ join_norm r.src_ports
        ∷ join_norm r.dst_addrs
        ∷ join_norm r.dst_ports
        ∷ [])
      (codes "|")

unfoldable pub any_or_join : Bool → List Text → Text
any_or_join true ss = codes "any"
any_or_join false ss = join ss (codes ",")

unfoldable pub summary : Rule → Text
summary r =
    action_text r.action
    ++ (codes " "
        ++ (proto
            ++ (codes " "
                ++ (any_or_join (any_addr r.src_addrs) r.src_addrs
                    ++ (codes " → "
                        ++ (any_or_join (any_addr r.dst_addrs) r.dst_addrs
                            ++ (codes ":" ++ any_or_join (any_port r.dst_ports) r.dst_ports)))))))
  where
    proto : Text
    proto = elim r.proto [ [] ↦ codes "ip" | c ∷ s ↦ c ∷ s ]
