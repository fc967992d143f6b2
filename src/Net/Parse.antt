-- ===== src/Net/Parse.antt =====
-- `net.ParseIP` and `net.ParseCIDR` (through `netip.ParseAddr`). An error is `none`.
use rulehawk.Common.{
  ℕ, zero, suc, ◌+◌, ◌-◌, ◌*◌, ◌/◌, ◌%◌, Bool, true, false, ◌&&◌, ◌||◌, Option, none, some, List,
  [], ◌∷◌, ◌++◌, ltb, leb, ◌==◌, if◌then◌else◌, length,
}
use rulehawk.Common.Text.{Text, cut_where, read_number, contains_char}
use rulehawk.Net.{IpAddr, v4, v6, IpNet, mask_bits}

-- One octet: one to three digits, no leading zero, at most 255.
octet : Text → Option ℕ
octet [] = none
octet (c ∷ []) = read_number (c ∷ [])
octet (c ∷ d ∷ s) = elim (read_number (c ∷ d ∷ s)) [
  | none ↦ none
  | some n ↦ if c == b'0' then none else if leb n 255 then some n else none
]

dotted : ℕ → ℕ → Text → Option ℕ
dotted zero acc s = elim (octet s) [ none ↦ none | some n ↦ some (acc * 256 + n) ]
dotted (suc more) acc s = elim (cut_where (λ c. c == b'.') s) [
  | none ↦ none
  | some (a, rest) ↦ elim (octet a) [ none ↦ none | some n ↦ dotted more (acc * 256 + n) rest ]
]

-- Four octets between dots.
parse_v4 : Text → Option ℕ
unfolding dotted octet cut_where read_number
parse_v4 = dotted 3 0

hex_digit : ℕ → Option ℕ
hex_digit c =
    if leb b'0' c && leb c b'9'
    then some (c - 48)
    else if leb b'a' c && leb c b'f'
    then some (c - 87)
    else if leb b'A' c && leb c b'F'
    then some (c - 55)
    else none

-- The value and the length of the leading hex digits, and the rest.
hex_run : ℕ → ℕ → Text → ℕ × ℕ × Text
unfolding hex_digit
hex_run acc count [] = (acc, count, [])
hex_run acc count (c ∷ s) = elim (hex_digit c) [
  | none ↦ (acc, count, c ∷ s)
  | some d ↦ hex_run (acc * 16 + d) (count + 1) s
]

abbrev Groups : Type 0
Groups = List ℕ × Option ℕ

-- Behind a group and its colon: the place of the `::`, if this is one, and the text to go on with.
after_colon : ℕ → Option ℕ → Text → Option (Option ℕ × Text)
after_colon n ellipsis [] = none
after_colon n none (c ∷ s) = if c == b':' then some (some n, s) else some (none, c ∷ s)
after_colon n (some e) (c ∷ s) = if c == b':' then none else some (some e, c ∷ s)

-- The dotted end of an address, which takes the last two of the eight groups.
dotted_end : List ℕ → Option ℕ → Text → Option Groups
unfolding parse_v4
dotted_end gs ellipsis s = elim (parse_v4 s) [
  | none ↦ none
  | some a ↦
      if leb (length gs) 6
      then elim ellipsis [
        | none ↦ if length gs == 6 then some (gs ++ (a / 65536 ∷ a % 65536 ∷ []), none) else none
        | some e ↦ some (gs ++ (a / 65536 ∷ a % 65536 ∷ []), some e)
      ]
      else none
]

-- The loop over at most `room` more groups.
groups : ℕ → List ℕ → Option ℕ → Text → Option Groups
unfolding hex_run after_colon dotted_end
groups zero gs ellipsis [] = some (gs, ellipsis)
groups zero gs ellipsis (c ∷ s) = none
groups (suc room) gs ellipsis s =
    let (v, count, rest) = hex_run 0 0 s in
    if (count == 0) || ltb 4 count then none else elim rest [
      | [] ↦ some (gs ++ v ∷ [], ellipsis)
      | c ∷ t ↦
          let colon : Option (Option ℕ × Text) =
            if c == b':' then after_colon (length gs + 1) ellipsis t else none in
          if c == b'.' then dotted_end gs ellipsis s else elim colon [
            | none ↦ none
            | some (e, u) ↦ elim u [
              | [] ↦ some (gs ++ v ∷ [], e)
              | d ∷ w ↦ groups room (gs ++ v ∷ []) e (d ∷ w)
            ]
          ]
    ]

zeros : ℕ → List ℕ → List ℕ
zeros zero gs = gs
zeros (suc n) gs = 0 ∷ zeros n gs

-- The zeros that the `::` at a place stands for.
expand : ℕ → ℕ → List ℕ → List ℕ
unfolding zeros
expand zero n gs = zeros n gs
expand (suc e) n [] = zeros n []
expand (suc e) n (g ∷ gs) = g ∷ expand e n gs

spell : ℕ → List ℕ → ℕ
spell acc [] = acc
spell acc (g ∷ gs) = spell (acc * 65536 + g) gs

-- A `::` must stand for one group of zeros at least.
finish : Groups → Option ℕ
unfolding expand spell
finish (gs, none) = if length gs == 8 then some (spell 0 gs) else none
finish (gs, some e) =
    if ltb (length gs) 8 then some (spell 0 (expand e (8 - length gs) gs)) else none

parse_groups : Option Groups → Option ℕ
unfolding finish
parse_groups none = none
parse_groups (some gs) = finish gs

parse_v6 : Text → Option ℕ
unfolding parse_groups groups
parse_v6 (c ∷ d ∷ s) =
    if (c == b':') && (d == b':')
    then elim s [ [] ↦ some 0 | x ∷ t ↦ parse_groups (groups 8 [] (some 0) (x ∷ t)) ]
    else parse_groups (groups 8 [] none (c ∷ d ∷ s))
parse_v6 s = none

-- The first of `.`, `:` and `%` tells the family; a zone is refused.
parse_at : ℕ → Text → Option IpAddr
unfolding parse_v4 parse_v6
parse_at c s =
    if c == b'.'
    then elim (parse_v4 s) [ none ↦ none | some a ↦ some (v4 a) ]
    else if (c == b':') && not_zoned
    then elim (parse_v6 s) [ none ↦ none | some a ↦ some (v6 a) ]
    else none
  where
    not_zoned : Bool
    not_zoned = if contains_char b'%' s then false else true

first_mark : Text → Option ℕ
first_mark [] = none
first_mark (c ∷ s) = if (c == b'.') || (c == b':') || (c == b'%') then some c else first_mark s

-- `net.ParseIP`. A dotted address is of the `v4` form, which `To4` tells from the others.
unfoldable pub parse_ip : Text → Option IpAddr
unfolding parse_at first_mark
parse_ip s = elim (first_mark s) [ none ↦ none | some c ↦ parse_at c s ]

-- The network of an address, masked.
unfoldable pub net_of : IpAddr → ℕ → Option IpNet
unfolding mask_bits
net_of (v4 a) n =
    if leb n 32 then some (record { ip = v4 (mask_bits 32 n a); ones = n; bits = 32 }) else none
net_of (v6 a) n =
    if leb n 128 then some (record { ip = v6 (mask_bits 128 n a); ones = n; bits = 128 }) else none

unfoldable pub cidr_of : Option IpAddr → Option ℕ → Option IpNet
cidr_of (some ip) (some n) = net_of ip n
cidr_of _ _ = none

unfoldable pub cidr_at : Option (Text × Text) → Option IpNet
cidr_at none = none
cidr_at (some (a, m)) = cidr_of (parse_ip a) (read_number m)

-- `net.ParseCIDR`: the network, with its address masked.
unfoldable pub parse_cidr : Text → Option IpNet
parse_cidr s = cidr_at (cut_where (λ c. c == b'/') s)
