-- ===== src/Fwrule/Index/Addrs/Parsing.antt =====
-- The network that an address of a rule stands for, and the canonical text it is listed under.
use rulehawk.Common.{◌≡◌, none, some, true, ◌∷◌, false, [], arith}
use rulehawk.Fwrule.Index.Addrs.{canon_of, norm_cidr}
use rulehawk.Fwrule.Rule.{to_net, to_nets, with_length}
use rulehawk.Fwrule.Index.Addrs.Laws.{is_plain}
use rulehawk.Common.Text.{Text, trim}
use rulehawk.Net.{IpNet}
use rulehawk.Net.Prefix.{IsNet, is_mapped, parse_cidr-IsNet}
use rulehawk.Net.Parse.{parse_cidr}
use rulehawk.Fwrule.Rule.Parsed.{to_nets-none, to_nets-some}

pub canon_of-none : (a : Text) → to_net a ≡ none → canon_of a ≡ none
unfolding canon_of to_nets
canon_of-none a e = rw (to_nets-none a [] e, canon_of)

pub canon_of-some : (a : Text) (n : IpNet) → to_net a ≡ some n → canon_of a ≡ norm_cidr n
unfolding canon_of
canon_of-some a n e = rw (to_nets-some a [] e, canon_of)

pub to_net-IsNet : (a : Text) (n : IpNet) → to_net a ≡ some n → IsNet n
unfolding to_net
to_net-IsNet a n e = go (trim a) e
  where
    go :
        (s : Text)
        → elim s [ [] ↦ none | c ∷ t ↦ parse_cidr (with_length (c ∷ t)) ] ≡ some n
        → IsNet n
    go [] e = cc
    go (c ∷ t) e = parse_cidr-IsNet (with_length (c ∷ t)) n e

pub is_plain-unmapped :
    (a : Text) (n : IpNet) → is_plain a ≡ true → to_net a ≡ some n → is_mapped n.ip ≡ false
unfolding is_plain
is_plain-unmapped a n h e = let h' = rw (e, is_plain) at h in ground arith
