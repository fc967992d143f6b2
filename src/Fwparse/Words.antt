-- ===== src/Fwparse/Words.antt =====
-- fwparse/iptables.go: `fieldsRespectingQuotes`, which the parsers for iptables and FortiGate share.
use rulehawk.Common.{List, ℕ, Bool, ◌==◌, false, ◌||◌, ◌∷◌, [], not, if◌then◌else◌, ◌&&◌}
use rulehawk.Common.Text.{Text, end_word}

unfoldable pub is_blank_char : ℕ → Bool
is_blank_char c = (c == b' ') || (c == b'\t')

-- The loop, with whether it is inside quotes, and the word so far, held backwards.
unfoldable pub words_from : Bool → Text → Text → List Text
words_from quoted word [] = end_word word []
words_from quoted word (c ∷ s) =
    let toggled = words_from (not quoted) (c ∷ word) s in
    let next = end_word word (words_from quoted [] s) in
    let longer = words_from quoted (c ∷ word) s in
    if c == b'"' then toggled else if is_blank_char c && not quoted then next else longer

-- `fieldsRespectingQuotes`
unfoldable pub fields_respecting_quotes : Text → List Text
fields_respecting_quotes s = words_from false [] s
