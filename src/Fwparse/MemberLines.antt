-- ===== src/Fwparse/MemberLines.antt =====
-- fwparse/ciscoasa_objects.go: the lines of the members of a definition; `isIP` and `ipMaskToCIDR`.
use rulehawk.Common.{
  List, ℕ, Option, Bool, suc, [], ◌∷◌, none, if◌then◌else◌, false, true, some, ◌^◌, ◌++◌, ◌-◌, ◌&&◌,
  ◌==◌, zero,
}
use rulehawk.Common.Text.{Text, codes, contains_char, text_eq, itoa}
use rulehawk.Fwparse.Members.{Member}
use rulehawk.Net.Parse.{parse_ip}
use rulehawk.Net.{IpAddr, to4}
use rulehawk.Fwrule.Rule.{one_of}
use rulehawk.Fwparse.Services.{port_name}

unfoldable pub is_ip : Text → Bool
is_ip s = elim (parse_ip s) [ none ↦ false | some ip ↦ true ]

-- `IPMask.Size` of a mask of four bytes: the leading ones of a canonical mask, and 0 of any other.
-- The lengths below `n` are tried.
unfoldable pub mask_length : ℕ → ℕ → ℕ
mask_length zero mask = 0
mask_length (suc n) mask =
    let shorter = mask_length n mask in if 2 ^ 32 - 2 ^ (32 - n) == mask then n else shorter

unfoldable pub mask_v4 : Option IpAddr → Option ℕ
mask_v4 none = none
mask_v4 (some ip) = to4 ip

-- `ipMaskToCIDR`
unfoldable pub ip_mask_to_cidr : Text → Text → Text
ip_mask_to_cidr ip mask = elim (mask_v4 (parse_ip mask)) [
  | none ↦ ip ++ codes "/32"
  | some m ↦ ip ++ (codes "/" ++ itoa (mask_length 33 m))
]

abbrev pub lit : Text → Member
lit s = record { literal = s; ref = [] }

abbrev pub ref_to : Text → Member
ref_to s = record { literal = []; ref = s }

unfoldable pub last_of : Text → List Text → Text
last_of t [] = t
last_of t (u ∷ rest) = last_of u rest

-- `subnet` lines, behind the word.
unfoldable pub subnet_member : List Text → Option Member
subnet_member [] = none
subnet_member (a ∷ []) = if contains_char b'/' a then some (lit a) else none
subnet_member (a ∷ b ∷ rest) =
    if is_ip a && is_ip b
    then some (lit (ip_mask_to_cidr a b))
    else if contains_char b'/' a
    then some (lit a)
    else none

-- The ends of the cases for `network-object`, which need one word.
unfoldable pub network_word : Text → Option Member
network_word a =
    if contains_char b'/' a
    then some (lit a)
    else if text_eq a (codes "any")
    then some (lit (codes "any"))
    else if is_ip a
    then some (lit (a ++ codes "/32"))
    else none

unfoldable pub network_object : List Text → Option Member
network_object [] = none
network_object (a ∷ []) = network_word a
network_object (a ∷ b ∷ rest) =
    if text_eq a (codes "object")
    then some (ref_to b)
    else if text_eq a (codes "host")
    then some (lit b)
    else if is_ip a && is_ip b
    then some (lit (ip_mask_to_cidr a b))
    else network_word a

unfoldable pub host_member : List Text → Option Member
host_member [] = none
host_member (a ∷ rest) = some (lit a)

unfoldable pub range_member : List Text → Option Member
range_member (a ∷ b ∷ rest) = some (lit (a ++ (codes "-" ++ b)))
range_member _ = none

unfoldable pub fqdn_member : List Text → Option Member
fqdn_member [] = none
fqdn_member (a ∷ rest) = some (lit (last_of a rest))

-- `asaNetMember`
unfoldable pub asa_net_member : Text → List Text → Option Member
asa_net_member t rest =
    if text_eq t (codes "host")
    then host_member rest
    else if text_eq t (codes "subnet")
    then subnet_member rest
    else if text_eq t (codes "range")
    then range_member rest
    else if text_eq t (codes "fqdn")
    then fqdn_member rest
    else if text_eq t (codes "network-object")
    then network_object rest
    else none

-- The loop for a port among the words; a line without one names no port.
unfoldable pub port_member : List Text → Member
port_member [] = lit []
port_member (t ∷ []) = lit []
port_member (t ∷ a ∷ []) =
    if text_eq t (codes "eq") then lit (port_name a) else port_member (a ∷ [])
port_member (t ∷ a ∷ b ∷ rest) =
    let later = port_member (a ∷ b ∷ rest) in
    if text_eq t (codes "eq")
    then lit (port_name a)
    else if text_eq t (codes "range")
    then lit (port_name a ++ (codes "-" ++ port_name b))
    else later

unfoldable pub service_object : List Text → Option Member
service_object [] = none
service_object (a ∷ []) = some (port_member (a ∷ []))
service_object (a ∷ b ∷ rest) =
    if text_eq a (codes "object") then some (ref_to b) else some (port_member (a ∷ b ∷ rest))

abbrev pub service_words : List Text
service_words =
    codes "port-object"
    ∷ codes "service-object"
    ∷ codes "service"
    ∷ codes "protocol-object"
    ∷ codes "icmp-object"
    ∷ []

-- `asaSvcMember`
unfoldable pub asa_svc_member : Text → List Text → Option Member
asa_svc_member t rest = if one_of service_words t then service_object rest else none
