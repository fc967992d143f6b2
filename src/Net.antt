-- ===== src/Net.antt =====
-- The part of Go's `net` that fwrule/rule.go and fwrule/coverindex.go rely on: addresses, networks with a
-- canonical mask, `IP.To4`, `IPNet.Contains` and `IP.Mask`.
pub mod Parse
pub mod Prefix
pub mod Sets
use rulehawk.Common.{
  ℕ, ◌-◌, ◌*◌, ◌/◌, ◌%◌, ◌^◌, Bool, true, false, Option, none, some, ◌==◌, if◌then◌else◌,
}

-- A `net.IP` of 4 or of 16 bytes, as the number that the bytes spell.
pub data IpAddr : Type 0 where
  v4 : ℕ → IpAddr
  v6 : ℕ → IpAddr

-- A `net.IPNet` whose mask is `CIDRMask(ones, bits)`; the mask's `Size` is (ones, bits).
pub record IpNet : Type 0 where
  pub ip : IpAddr
  pub ones : ℕ
  pub bits : ℕ

-- `IP.To4`: the four bytes of an IPv4 address, also of one that is mapped into IPv6.
unfoldable pub to4 : IpAddr → Option ℕ
to4 (v4 a) = some a
to4 (v6 a) = if a / 2 ^ 32 == 0xffff then some (a % 2 ^ 32) else none

-- The address, with a mapped one as its four bytes.
unfoldable pub shorten : IpAddr → IpAddr
shorten ip = elim (to4 ip) [ some a ↦ v4 a | none ↦ ip ]

-- The two addresses of `width` bits agree on the first `ones`.
unfoldable pub same_prefix : ℕ → ℕ → ℕ → ℕ → Bool
same_prefix width ones a b = a / 2 ^ (width - ones) == b / 2 ^ (width - ones)

-- The bytewise comparison of `IPNet.Contains`. A mask of 16 bytes on a mapped network number keeps
-- its last four; a mask of four bytes on 16 gives no network number.
unfoldable pub contains_short : IpAddr → ℕ → ℕ → IpAddr → Bool
contains_short (v4 a) ones bits (v4 b) =
    same_prefix 32 (if bits == 128 then ones - 96 else ones) a b
contains_short (v6 a) ones bits (v6 b) = if bits == 128 then same_prefix 128 ones a b else false
contains_short _ ones bits _ = false

-- `IPNet.Contains`
unfoldable pub contains : IpNet → IpAddr → Bool
contains n ip = contains_short (shorten n.ip) n.ones n.bits (shorten ip)

-- `IP.Mask` by `CIDRMask(ones, width)`, on the number.
unfoldable pub mask_bits : ℕ → ℕ → ℕ → ℕ
mask_bits width ones a = a / 2 ^ (width - ones) * 2 ^ (width - ones)
