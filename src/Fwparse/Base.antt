-- ===== src/Fwparse/Base.antt =====
-- fwparse/parse.go: what the parsers share.
use rulehawk.Common.{List, ℕ, ◌∷◌, Bool, [], suc, true, if◌then◌else◌, false, ◌||◌}
use rulehawk.Common.Text.{Text, sort_texts, codes}
use rulehawk.Fwrule.Rule.{Rule, other, one_of}

-- `Result`
pub record Parsed : Type 0 where
  pub vendor : Text
  pub rules : List Rule
  pub unparsed : List Text

-- The loop of `reindex`, with the number of the next rule.
unfoldable pub number_from : ℕ → List Rule → List Rule
number_from n [] = []
number_from n (r ∷ rules) = record r { index = n } ∷ number_from (suc n) rules

-- `reindex`
unfoldable pub reindex : List Rule → List Rule
reindex rules = number_from 1 rules

-- `s == ""`
unfoldable pub is_blank : Text → Bool
is_blank [] = true
is_blank (c ∷ s) = false

-- The loop of `dedupeStrings`, with the texts seen so far.
unfoldable pub first_seen : List Text → List Text → List Text
first_seen seen [] = []
first_seen seen (s ∷ ss) =
    let same = first_seen seen ss in
    let rest = first_seen (s ∷ seen) ss in if is_blank s || one_of seen s then same else s ∷ rest

-- `dedupeStrings`
unfoldable pub dedupe_strings : List Text → List Text
dedupe_strings ss = sort_texts (first_seen [] ss)

-- The rule with no field set.
abbrev pub no_rule : Rule
no_rule = record {
  index = 0;
  name = [];
  action = other;
  src_addrs = [];
  dst_addrs = [];
  proto = [];
  src_ports = [];
  dst_ports = [];
  iface = [];
  direction = [];
  enabled = false;
  log = false;
  desc = [];
  raw = [];
  conditional = false;
}

abbrev pub any_word : List Text
any_word = codes "any" ∷ []

unfoldable pub or_any : List Text → List Text
or_any [] = any_word
or_any (s ∷ ss) = s ∷ ss
