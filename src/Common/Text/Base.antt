-- ===== src/Common/Text/Base.antt =====
-- The functions of Go's `strings` and `strconv` packages on lists of code points.
use Prim.Native.Nat.{ℕ, zero, suc, ◌+◌, ◌*◌, ◌-◌, ◌/◌, ◌%◌, ◌^◌}
use Prim.Native.Char.{code}
use Prim.Native.String.{String}
use mathlib.Core.Bool.{Bool, true, false, ◌&&◌, ◌||◌}
use mathlib.Core.Option.{Option, none, some}
use mathlib.Core.List.{List, [], ◌∷◌, ◌++◌, map, reverse}
use rulehawk.Common.Tests.{ltb, leb, ◌==◌, if◌then◌else◌}
use rulehawk.Common.Int.{ℤ, pos, negsuc}

abbrev pub Text : Type 0
Text = List ℕ

-- The code points of a literal.
abbrev pub codes : String → Text
codes String.[] = []
codes (String.◌∷◌ c s) = code c ∷ codes s

-- `a == b`
unfoldable pub text_eq : Text → Text → Bool
text_eq [] [] = true
text_eq (a ∷ s) (b ∷ t) = (a == b) && text_eq s t
text_eq _ _ = false

-- `unicode.IsSpace`
unfoldable pub is_space : ℕ → Bool
is_space c =
    (leb 9 c && leb c 13)
    || (c == 32)
    || (c == 0x85)
    || (c == 0xa0)
    || (c == 0x1680)
    || (leb 0x2000 c && leb c 0x200a)
    || (c == 0x2028)
    || (c == 0x2029)
    || (c == 0x202f)
    || (c == 0x205f)
    || (c == 0x3000)

unfoldable pub lower_char : ℕ → ℕ
lower_char c = if leb b'A' c && leb c b'Z' then c + 32 else c

-- `strings.ToLower`
unfoldable pub lower : Text → Text
unfolding lower_char
lower = map lower_char

unfoldable pub drop_spaces : Text → Text
unfolding is_space
drop_spaces [] = []
drop_spaces (c ∷ s) = let rest = drop_spaces s in if is_space c then rest else c ∷ s

-- `strings.TrimSpace`
unfoldable pub trim : Text → Text
unfolding drop_spaces
trim s = reverse (drop_spaces (reverse (drop_spaces s)))

-- `strings.Join`
unfoldable pub join : List Text → Text → Text
join [] sep = []
join (s ∷ []) sep = s
join (s ∷ t ∷ rest) sep = s ++ (sep ++ join (t ∷ rest) sep)

-- `strings.Contains(s, string(c))`
unfoldable pub contains_char : ℕ → Text → Bool
contains_char c [] = false
contains_char c (d ∷ s) = (c == d) || contains_char c s

-- The texts before and after the first character that passes the test (`strings.IndexAny` and the two
-- slices round it, `strings.Cut`).
unfoldable pub cut_where : (ℕ → Bool) → Text → Option (Text × Text)
cut_where p [] = none
cut_where p (c ∷ s) =
    if p c
    then some ([], s)
    else elim (cut_where p s) [ none ↦ none | some (a, b) ↦ some (c ∷ a, b) ]

unfoldable pub is_digit : ℕ → Bool
is_digit c = leb b'0' c && leb c b'9'

unfoldable pub read_digits : ℕ → Text → Option ℕ
unfolding is_digit
read_digits n [] = some n
read_digits n (c ∷ s) =
    let rest = read_digits (n * 10 + (c - 48)) s in if is_digit c then rest else none

-- A non-empty run of decimal digits.
unfoldable pub read_number : Text → Option ℕ
unfolding read_digits
read_number [] = none
read_number (c ∷ s) = read_digits 0 (c ∷ s)

abbrev pub max_int : ℕ
max_int = 2 ^ 63 - 1

signed : Bool → Option ℕ → Option ℤ
signed minus none = none
signed false (some n) = if leb n max_int then some (pos n) else none
signed true (some zero) = some (pos 0)
signed true (some (suc n)) = if leb n max_int then some (negsuc n) else none

-- `strconv.Atoi` on a 64-bit machine; its error is `none`.
unfoldable pub atoi : Text → Option ℤ
unfolding read_number signed
atoi [] = none
atoi (c ∷ s) =
    if c == b'-'
    then signed true (read_number s)
    else if c == b'+'
    then signed false (read_number s)
    else signed false (read_number (c ∷ s))

-- The decimal digits of `n`, by at most `fuel` + 1 divisions.
unfoldable pub digits_of : ℕ → ℕ → Text
digits_of zero n = (48 + n % 10) ∷ []
digits_of (suc fuel) n =
    let front = digits_of fuel (n / 10) in
    if ltb n 10 then (48 + n) ∷ [] else front ++ (48 + n % 10) ∷ []

-- `strconv.Itoa` on a number that is not negative; `n` has at most `n` digits after the first.
unfoldable pub itoa : ℕ → Text
unfolding digits_of
itoa n = digits_of n n
