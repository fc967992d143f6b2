-- ===== src/Fwrule/Packet.antt =====
-- What it means for a packet to match a rule of fwrule/rule.go: the independent reading against which
-- `Covers` is judged. A name that is no network or port range stands for a set that the model leaves
-- open; names that are equal up to case and white space stand for one set.
pub mod Addrs
pub mod Covers
pub mod Order
use rulehawk.Common.{ℕ, List, Bool, leb, ◌≡◌, ◌||◌, true, any, ◌&&◌, Option, some, false, none}
use rulehawk.Common.Text.{Text}
use rulehawk.Net.{IpAddr, IpNet, contains}
use rulehawk.Fwrule.Rule.{
  PortRange, Rule, iface_covers, to_net, any_addr, to_range, any_port, proto_covers, norm,
}
use rulehawk.Common.Int.{leb_ℤ, pos}

pub record Packet : Type 0 where
  pub iface : Text
  pub proto : Text
  pub src : IpAddr
  pub dst : IpAddr
  pub src_port : ℕ
  pub dst_port : ℕ

-- What the configuration's names stand for. A text that parses is no name.
pub record Names : Type 0 where
  pub hosts : Text → IpAddr → Bool
  pub services : Text → ℕ → Bool
  pub net_is_no_name :
      (a : Text) (n : IpNet) (ip : IpAddr) → to_net a ≡ some n → hosts (norm a) ip ≡ false
  pub range_is_no_name :
      (p : Text) (r : PortRange) (port : ℕ) → to_range p ≡ some r → services (norm p) port ≡ false

unfoldable pub in_net : IpAddr → Option IpNet → Bool
in_net ip none = false
in_net ip (some n) = contains n ip

unfoldable pub in_addr : Names → IpAddr → Text → Bool
in_addr names ip a = names.hosts (norm a) ip || in_net ip (to_net a)

unfoldable pub in_addrs : Names → IpAddr → List Text → Bool
in_addrs names ip addrs = any_addr addrs || any (in_addr names ip) addrs

unfoldable pub in_range : ℕ → Option PortRange → Bool
in_range port none = false
in_range port (some r) = leb_ℤ r.lo (pos port) && leb_ℤ (pos port) r.hi

unfoldable pub in_port : Names → ℕ → Text → Bool
in_port names port p = names.services (norm p) port || in_range port (to_range p)

unfoldable pub in_ports : Names → ℕ → List Text → Bool
in_ports names port ports = any_port ports || any (in_port names port) ports

-- The packet meets the addresses, ports, protocol and interface of the rule.
pub record Matches (names : Names) (r : Rule) (p : Packet) : Type 0 where
  pub iface_ok : iface_covers r.iface p.iface ≡ true
  pub proto_ok : proto_covers r.proto p.proto ≡ true
  pub src_ok : in_addrs names p.src r.src_addrs ≡ true
  pub dst_ok : in_addrs names p.dst r.dst_addrs ≡ true
  pub src_port_ok : in_ports names p.src_port r.src_ports ≡ true
  pub dst_port_ok : in_ports names p.dst_port r.dst_ports ≡ true
