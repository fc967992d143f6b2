-- ===== src/Fwrule/Checks/Open.antt =====
-- Addresses and ports that mean everything.
use rulehawk.Common.{
  List, ◌≡◌, true, Holds, Any, ◌∷◌, refl, inl, inr, sym, arith, [], ℕ, ◌⊎◌, ◌<◌, ◌^◌, some, none,
  any, any→Any, false≢true, or-eq-true, subst,
}
use rulehawk.Fwrule.Rule.{
  any_addr, any_port, PortRange, to_net, to_range, norm, range_of, one_of, any_addr_words,
  any_port_words, with_length,
}
use rulehawk.Common.Text.{
  codes, Text, trim, drop_spaces, cut_where, is_space, atoi, text_eq, read_number, text_eq→eq,
  read_digits, is_digit, contains_char,
}
use rulehawk.Fwrule.Packet.{in_range}
use rulehawk.Net.{
  IpNet, contains, contains_short, shorten, to4, v4, mask_bits, v6, same_prefix, IpAddr,
}
use rulehawk.Common.Int.{pos}
use rulehawk.Net.Parse.{parse_cidr, cidr_at, cidr_of, net_of, parse_ip}

-- The words that mean every address or every port.
abbrev pub every_words : List Text
every_words = codes "any" ∷ codes "*" ∷ codes "all" ∷ []

-- A network of every IPv4 address, or of every IPv6 address that does not stand for an IPv4 one.
abbrev pub IsEveryAddr : IpNet → Type 0
IsEveryAddr n =
    ((a : ℕ) → a < 2 ^ 32 → contains n (v4 a) ≡ true)
    ⊎ ((a : ℕ) → a < 2 ^ 128 → to4 (v6 a) ≡ none → contains n (v6 a) ≡ true)

-- A range of every port.
abbrev pub IsEveryPort : PortRange → Type 0
IsEveryPort r = (port : ℕ) → port < 2 ^ 16 → in_range port (some r) ≡ true

-- The text is such a word, or parses to such a network.
abbrev pub IsOpenAddr : Text → Type 0
IsOpenAddr w = Holds w every_words ⊎ ((n : IpNet) × (to_net w ≡ some n) × IsEveryAddr n)

-- The text is such a word, or parses to such a range.
abbrev pub IsOpenPort : Text → Type 0
IsOpenPort w = Holds w every_words ⊎ ((r : PortRange) × (to_range w ≡ some r) × IsEveryPort r)

-- The list is empty, or an element of it is open, up to case and white space.
abbrev pub IsOpenList : (Text → Type 0) → List Text → Type 0
IsOpenList P ss = (ss ≡ []) ⊎ Any (λ s. P (norm s)) ss

all_v4 : IsEveryAddr (record { ip = v4 0; ones = 0; bits = 32 })
unfolding contains contains_short shorten to4 same_prefix
all_v4 = inl (λ a lt. ground arith)

shorten-none : (ip : IpAddr) → to4 ip ≡ none → shorten ip ≡ ip
unfolding shorten
shorten-none ip e = rw (e, shorten) refl

all_v6 : IsEveryAddr (record { ip = v6 0; ones = 0; bits = 128 })
unfolding contains
all_v6 = inr (λ a lt not_v4.
    rw (shorten-none (v6 0) (unfold to4 in refl), shorten-none (v6 a) not_v4)
      (unfold contains_short same_prefix in ground arith))

zero_v4 : to_net (codes "0.0.0.0/0") ≡ some (record { ip = v4 0; ones = 0; bits = 32 })
unfolding trim drop_spaces is_space parse_cidr cidr_at cidr_of net_of parse_ip contains_char
    mask_bits to4 text_eq with_length to_net
zero_v4 = refl

zero_v6 : to_net (codes "::/0") ≡ some (record { ip = v6 0; ones = 0; bits = 128 })
unfolding trim drop_spaces is_space parse_cidr cidr_at cidr_of net_of parse_ip contains_char
    mask_bits to4 text_eq with_length to_net
zero_v6 = refl

every_port : to_range (codes "0-65535") ≡ some (record { lo = pos 0; hi = pos 65535 })
unfolding to_range range_of cut_where atoi read_number read_digits is_digit trim drop_spaces
    is_space
every_port = refl

all_ports : IsEveryPort (record { lo = pos 0; hi = pos 65535 })
unfolding in_range
all_ports = λ port lt. ground arith

word-IsOpenAddr : (w : Text) → one_of any_addr_words w ≡ true → IsOpenAddr w
unfolding one_of
word-IsOpenAddr w h = elim (any→Any (text_eq w) any_addr_words h) [
  | inl e ↦ inl (inl (text_eq→eq w _ e))
  | inr (inl e) ↦
      subst IsOpenAddr (sym (text_eq→eq w (codes "0.0.0.0/0") e)) (inr (_, zero_v4, all_v4))
  | inr (inr (inl e)) ↦
      subst IsOpenAddr (sym (text_eq→eq w (codes "::/0") e)) (inr (_, zero_v6, all_v6))
  | inr (inr (inr (inl e))) ↦ inl (inr (inl (text_eq→eq w _ e)))
  | inr (inr (inr (inr (inl e)))) ↦ inl (inr (inr (inl (text_eq→eq w _ e))))
  | inr (inr (inr (inr (inr no_more)))) ↦ absurd no_more
]

word-IsOpenPort : (w : Text) → one_of any_port_words w ≡ true → IsOpenPort w
unfolding one_of
word-IsOpenPort w h = elim (any→Any (text_eq w) any_port_words h) [
  | inl e ↦ inl (inl (text_eq→eq w _ e))
  | inr (inl e) ↦ inl (inr (inl (text_eq→eq w _ e)))
  | inr (inr (inl e)) ↦
      subst IsOpenPort (sym (text_eq→eq w (codes "0-65535") e)) (inr (_, every_port, all_ports))
  | inr (inr (inr (inl e))) ↦ inl (inr (inr (inl (text_eq→eq w _ e))))
  | inr (inr (inr (inr no_more))) ↦ absurd no_more
]

any-IsOpenList :
    (P : Text → Type 0) (words : List Text)
    → ((w : Text) → one_of words w ≡ true → P w)
    → (ss : List Text) → any (λ s. one_of words (norm s)) ss ≡ true
    → Any (λ s. P (norm s)) ss
unfolding any
any-IsOpenList P words f [] h = absurd (false≢true h)
any-IsOpenList P words f (s ∷ ss) h = elim (or-eq-true (one_of words (norm s)) _ h) [
  | inl now ↦ inl (f (norm s) now)
  | inr later ↦ inr (any-IsOpenList P words f ss later)
]

pub any_addr-IsOpenList : (ss : List Text) → any_addr ss ≡ true → IsOpenList IsOpenAddr ss
unfolding any_addr
any_addr-IsOpenList [] h = inl refl
any_addr-IsOpenList (s ∷ ss) h =
    inr (any-IsOpenList IsOpenAddr any_addr_words word-IsOpenAddr (s ∷ ss) h)

pub any_port-IsOpenList : (ss : List Text) → any_port ss ≡ true → IsOpenList IsOpenPort ss
unfolding any_port
any_port-IsOpenList [] h = inl refl
any_port-IsOpenList (s ∷ ss) h =
    inr (any-IsOpenList IsOpenPort any_port_words word-IsOpenPort (s ∷ ss) h)
