-- ===== src/Fwparse/Settings.antt =====
-- fwparse/fortinet.go: what the settings of a policy come to.
use rulehawk.Fwparse.Keys.{
  key_of-words, key_of-none, key-Follows, Follows, Reading, src_of, dst_of, ports_of, iface_of,
  action_of, enabled_of, or_else, Fields, fields_of,
}
use rulehawk.Common.{
  none, some, Option, List, ◌∷◌, true, ◌≡◌, [], refl, inl, sym, Option-cases, ◌∙◌, inr, ap,
}
use rulehawk.Fwparse.Fortinet.{key_of, unquote_all, apply_words, apply_forti_set, new_policy}
use rulehawk.Fwparse.Base.{any_word}
use rulehawk.Fwrule.Rule.{Rule, Action}
use rulehawk.Common.Text.{Text, lower, drop, trim}
use rulehawk.Fwparse.Words.{fields_respecting_quotes}

-- What the words of a `set` line give to a field, and what the last of some lines gives.
abbrev pub on_words : {A : Type 0} → Reading A → List Text → Option A
on_words read [] = none
on_words read (t ∷ toks) = read (lower t) (unquote_all toks)

abbrev pub set_words : Text → List Text
set_words raw = fields_respecting_quotes (drop 4 (trim raw))

abbrev pub last_set : {A : Type 0} → Reading A → List Text → Option A
last_set read [] = none
last_set read (raw ∷ lines) = elim (last_set read lines) [
  | some a ↦ some a
  | none ↦ on_words read (set_words raw)
]

-- The fields behind the words of one line.
abbrev behind : List Text → Fields → Fields
behind toks f = record {
  src = or_else (on_words src_of toks) f.src;
  dst = or_else (on_words dst_of toks) f.dst;
  ports = or_else (on_words ports_of toks) f.ports;
  iface = or_else (on_words iface_of toks) f.iface;
  act = or_else (on_words action_of toks) f.act;
  enabled = or_else (on_words enabled_of toks) f.enabled;
}

apply_words-fields :
    (toks : List Text) (r : Rule) → fields_of (apply_words toks r) ≡ behind toks (fields_of r)
unfolding apply_words
apply_words-fields [] r = refl
apply_words-fields (t ∷ toks) r = elim (Option-cases (key_of (lower t))) [
  | inl e ↦ rw (e, apply_words) (sym (key_of-none (lower t) (unquote_all toks) (fields_of r) e))
  | inr (k, e) ↦
      rw (e, apply_words)
        (unfold Follows in
          key-Follows k (lower t) (key_of-words (lower t) k e) (unquote_all toks) r)
]

-- The rule with the settings of some lines, one after another.
unfoldable pub folded : Rule → List Text → Rule
folded r [] = r
folded r (raw ∷ lines) = folded (apply_forti_set r (drop 4 (trim raw))) lines

-- A field that each line changes as a reading says is what the last line that gives it says.
folded-last :
    {A : Type 0} (field : Rule → A) (read : Reading A)
    → ((toks : List Text) (r : Rule)
        → field (apply_words toks r) ≡ or_else (on_words read toks) (field r))
    → (lines : List Text) (r : Rule)
    → field (folded r lines) ≡ or_else (last_set read lines) (field r)
unfolding folded apply_forti_set
folded-last field read each [] r = refl
folded-last field read each (raw ∷ lines) r =
    folded-last field read each lines (apply_words (set_words raw) r)
    ∙ elim (Option-cases (last_set read lines)) [
      | inl e ↦ rw e (each (set_words raw) r)
      | inr (a, e) ↦ rw e refl
    ]

-- The fields of a policy: for each, what the last line that gives it says, or a default.
pub record HasSettings (lines : List Text) (r : Rule) : Type 0 where
  pub sources : r.src_addrs ≡ or_else (last_set src_of lines) any_word
  pub destinations : r.dst_addrs ≡ or_else (last_set dst_of lines) any_word
  pub dst_ports : r.dst_ports ≡ or_else (last_set ports_of lines) any_word
  pub iface : r.iface ≡ or_else (last_set iface_of lines) []
  pub acts : r.action ≡ or_else (last_set action_of lines) Action.other
  pub enabled : r.enabled ≡ or_else (last_set enabled_of lines) true

-- The rule that an `edit` line opens has the settings of the lines behind it.
pub folded-HasSettings :
    (line : Text) (lines : List Text) → HasSettings lines (folded (new_policy line) lines)
unfolding new_policy
folded-HasSettings line lines =
    let r = new_policy line in
    let each = apply_words-fields in
    record {
      sources = folded-last (λ q. q.src_addrs) src_of (λ ts q. ap (λ f. f.src) (each ts q)) lines r;
      destinations =
          folded-last (λ q. q.dst_addrs) dst_of (λ ts q. ap (λ f. f.dst) (each ts q)) lines r;
      dst_ports =
          folded-last (λ q. q.dst_ports) ports_of (λ ts q. ap (λ f. f.ports) (each ts q)) lines r;
      iface = folded-last (λ q. q.iface) iface_of (λ ts q. ap (λ f. f.iface) (each ts q)) lines r;
      acts = folded-last (λ q. q.action) action_of (λ ts q. ap (λ f. f.act) (each ts q)) lines r;
      enabled =
          folded-last (λ q. q.enabled) enabled_of (λ ts q. ap (λ f. f.enabled) (each ts q)) lines r;
    }
