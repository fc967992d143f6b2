-- ===== src/Fwparse/AsaSpecs.antt =====
-- fwparse/ciscoasa.go: the addresses and ports of an access list. An index into the tokens is the list
-- of the tokens from it on, and the objects go along for their caches.
use rulehawk.Common.{List, Option, if◌then◌else◌, none, ◌∷◌, some, ◌++◌, [], ◌&&◌, suc, not}
use rulehawk.Common.Int.{ℤ, pos, wrap, ◌-ℤ◌, negsuc}
use rulehawk.Common.Text.{Text, codes, itoa, atoi, text_eq}
use rulehawk.Fwrule.Rule.{one_of}
use rulehawk.Fwparse.Members.{Objects, expand_net, has_svc, has_net, expand_svc}
use rulehawk.Fwparse.Base.{any_word}
use rulehawk.Fwparse.MemberLines.{is_ip, ip_mask_to_cidr}
use rulehawk.Fwparse.Services.{port_name}

-- `fmt.Sprintf("%d", n)`
unfoldable pub itoa_ℤ : ℤ → Text
itoa_ℤ (pos n) = itoa n
itoa_ℤ (negsuc n) = codes "-" ++ itoa (suc n)

-- An address, the tokens behind it, and the objects.
pub record AddrSpec : Type 0 where
  pub addrs : List Text
  pub rest : List Text
  pub objs : Objects

-- The case of an address that begins with neither of the words.
unfoldable pub plain_addr : Text → List Text → Objects → Option AddrSpec
plain_addr t [] o =
    if is_ip t then some (record { addrs = (t ++ codes "/32") ∷ []; rest = []; objs = o }) else none
plain_addr t (u ∷ rest) o =
    if is_ip t && is_ip u
    then some (record { addrs = ip_mask_to_cidr t u ∷ []; rest = rest; objs = o })
    else if is_ip t
    then some (record { addrs = (t ++ codes "/32") ∷ []; rest = u ∷ rest; objs = o })
    else none

-- `host` and `interface`, behind the word.
unfoldable pub named_addr : List Text → Objects → Option AddrSpec
named_addr [] o = none
named_addr (u ∷ rest) o = some (record { addrs = u ∷ []; rest = rest; objs = o })

-- `object` and `object-group`, behind the word.
unfoldable pub object_addr : List Text → Objects → Option AddrSpec
object_addr [] o = none
object_addr (u ∷ rest) o =
    let both = expand_net o u in some (record { addrs = both.0; rest = rest; objs = both.1 })

abbrev pub object_words : List Text
object_words = codes "object" ∷ codes "object-group" ∷ []

-- `asaAddr`; its `false` is `none`.
unfoldable pub asa_addr : List Text → Objects → Option AddrSpec
asa_addr [] o = none
asa_addr (t ∷ rest) o =
    if one_of (codes "any" ∷ codes "any4" ∷ codes "any6" ∷ []) t
    then some (record { addrs = any_word; rest = rest; objs = o })
    else if text_eq t (codes "host")
    then named_addr rest o
    else if one_of object_words t
    then object_addr rest o
    else if text_eq t (codes "interface")
    then named_addr rest o
    else plain_addr t rest o

-- Ports, the tokens behind them, and the objects.
pub record PortSpec : Type 0 where
  pub ports : List Text
  pub rest : List Text
  pub objs : Objects

-- No port stands here.
abbrev pub any_ports : List Text → Objects → PortSpec
any_ports toks o = record { ports = any_word; rest = toks; objs = o }

-- An object in this place is a port only if it is a service and no network.
unfoldable pub object_ports : Text → List Text → Objects → PortSpec
object_ports t [] o = any_ports (t ∷ []) o
object_ports t (u ∷ rest) o =
    if has_svc o u && not (has_net o u)
    then (let both = expand_svc o u in record { ports = both.0; rest = rest; objs = both.1 })
    else any_ports (t ∷ u ∷ rest) o

unfoldable pub eq_port : Text → List Text → Objects → PortSpec
eq_port t [] o = any_ports (t ∷ []) o
eq_port t (u ∷ rest) o = record { ports = port_name u ∷ []; rest = rest; objs = o }

unfoldable pub range_ports : Text → List Text → Objects → PortSpec
range_ports t (u ∷ v ∷ rest) o = record {
  ports = (port_name u ++ (codes "-" ++ port_name v)) ∷ [];
  rest = rest;
  objs = o;
}
range_ports t toks o = any_ports (t ∷ toks) o

-- `gt` and `lt`; `bound` makes the range of the number.
unfoldable pub bound_ports : (ℤ → Text) → Text → List Text → Objects → PortSpec
bound_ports bound t [] o = any_ports (t ∷ []) o
bound_ports bound t (u ∷ rest) o = elim (atoi (port_name u)) [
  | none ↦ any_ports (t ∷ u ∷ rest) o
  | some p ↦ record { ports = bound p ∷ []; rest = rest; objs = o }
]

unfoldable pub above : ℤ → Text
above p = itoa_ℤ (wrap (p -ℤ negsuc 0)) ++ codes "-65535"

unfoldable pub below : ℤ → Text
below p = codes "1-" ++ itoa_ℤ (wrap (p -ℤ pos 1))

-- `asaPort`
unfoldable pub asa_port : List Text → Objects → PortSpec
asa_port [] o = any_ports [] o
asa_port (t ∷ rest) o =
    if one_of object_words t
    then object_ports t rest o
    else if text_eq t (codes "eq")
    then eq_port t rest o
    else if text_eq t (codes "range")
    then range_ports t rest o
    else if text_eq t (codes "gt")
    then bound_ports above t rest o
    else if text_eq t (codes "lt")
    then bound_ports below t rest o
    else any_ports (t ∷ rest) o
