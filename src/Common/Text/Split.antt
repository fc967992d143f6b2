-- ===== src/Common/Text/Split.antt =====
-- How Go's `strings` package takes texts apart.
use Prim.Native.Nat.{ℕ, zero, suc}
use mathlib.Core.Bool.{Bool, true, false, ◌&&◌, ◌||◌}
use mathlib.Core.List.{List, [], ◌∷◌, map, reverse}
use rulehawk.Common.Tests.{ltb, leb, ◌==◌, if◌then◌else◌}
use rulehawk.Common.Text.Base.{Text, text_eq, is_space, lower}
use Prim.Native.Nat.{◌-◌}

-- The list with a character in front of its first text.
unfoldable pub cons_first : ℕ → List Text → List Text
cons_first c [] = (c ∷ []) ∷ []
cons_first c (s ∷ rest) = (c ∷ s) ∷ rest

-- `strings.Split(s, string(sep))`
unfoldable pub split_on : ℕ → Text → List Text
unfolding cons_first
split_on sep [] = [] ∷ []
split_on sep (c ∷ s) =
    let rest = split_on sep s in if c == sep then [] ∷ rest else cons_first c rest

-- `strings.HasPrefix(s, p)`
unfoldable pub has_prefix : Text → Text → Bool
has_prefix s [] = true
has_prefix [] (c ∷ p) = false
has_prefix (d ∷ s) (c ∷ p) = (d == c) && has_prefix s p

-- `s[n:]`, for an `n` that is not past the end.
unfoldable pub drop : {A : Type 0} → ℕ → List A → List A
drop zero s = s
drop (suc n) [] = []
drop (suc n) (c ∷ s) = drop n s

-- `s` without the leading copies of a character.
unfoldable pub drop_char : ℕ → Text → Text
drop_char q [] = []
drop_char q (c ∷ s) = let rest = drop_char q s in if c == q then rest else c ∷ s

-- `strings.Trim(s, string(q))`
unfoldable pub trim_char : ℕ → Text → Text
unfolding drop_char
trim_char q s = reverse (drop_char q (reverse (drop_char q s)))

unfoldable pub upper_char : ℕ → ℕ
upper_char c = if leb b'a' c && leb c b'z' then c - 32 else c

-- `strings.ToUpper`
unfoldable pub upper : Text → Text
unfolding upper_char
upper = map upper_char

-- `strings.EqualFold`
unfoldable pub equal_fold : Text → Text → Bool
equal_fold s t = text_eq (lower s) (lower t)

-- The word read so far, kept if it has a character. It is held backwards.
unfoldable pub end_word : Text → List Text → List Text
end_word [] rest = rest
end_word (c ∷ s) rest = reverse (c ∷ s) ∷ rest

-- `strings.Fields`, behind the characters of an unfinished word.
unfoldable pub fields_from : Text → Text → List Text
unfolding end_word
fields_from word [] = end_word word []
fields_from word (c ∷ s) =
    let next = end_word word (fields_from [] s) in
    let longer = fields_from (c ∷ word) s in if is_space c then next else longer

-- `strings.Fields`
unfoldable pub fields : Text → List Text
unfolding fields_from
fields s = fields_from [] s

-- `a < b` for texts.
unfoldable pub text_lt : Text → Text → Bool
text_lt [] [] = false
text_lt [] (b ∷ t) = true
text_lt (a ∷ s) [] = false
text_lt (a ∷ s) (b ∷ t) = ltb a b || ((a == b) && text_lt s t)

unfoldable pub insert_text : Text → List Text → List Text
insert_text s [] = s ∷ []
insert_text s (t ∷ ts) = let rest = insert_text s ts in if text_lt t s then t ∷ rest else s ∷ t ∷ ts

-- `sort.Strings`. Equal texts cannot be told apart, so every way of sorting gives this list.
unfoldable pub sort_texts : List Text → List Text
unfolding insert_text
sort_texts [] = []
sort_texts (s ∷ ts) = insert_text s (sort_texts ts)
