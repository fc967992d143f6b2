-- ===== src/Fwparse/Accounts/Iptables.antt =====
-- iptables: no line of a configuration is lost, and nothing else is reported.
use rulehawk.Common.{
  List, Any, ◌≡◌, ◌↔◌, ℕ, ◌⊎◌, if_keeps, Bool, false, true, inl, ◌∷◌, Holds, Option-keeps, if_other,
  if_eq, inr, refl, not, sym, suc, [], ◌∙◌, ◌&&◌, Bool-cases, subst, ◌≢◌, false≢true, ap,
}
use rulehawk.Fwparse.Iptables.{
  Line, skipped, not_understood, is_rule, read_line, read_lines, parse_iptables, collect,
  set_target, set_option, mark, read_tokens, rule_or_not, parse_iptables_rule, Opt, fill_any,
  is_skipped, chain, opt_of, source, destination, protocol, dport, blank_rule, sport, interface,
  jump, comment,
}
use rulehawk.Common.Text.{Text, trim, split_on, text_eq, upper, codes, has_prefix}
use rulehawk.Fwparse.Base.{number_from, reindex, is_blank}
use rulehawk.Fwrule.Rule.{Rule, one_of}
use rulehawk.Fwparse.Words.{fields_respecting_quotes}
use rulehawk.Fwparse.Texts.{dedupe_strings-Ascends}

-- The line is one of those that the configuration has and that are neither empty nor skipped.
abbrev pub IsLine : Text → List Text → Type 0
IsLine x lines = Any (λ raw. (trim raw ≡ x) × (is_skipped x ≡ false)) lines

-- The text is a line that was not understood, or that a rule was read from.
abbrev pub IsAccounted : Text → List Rule → List Text → Type 0
IsAccounted x rules unparsed = Any (λ (r : Rule). r.raw ≡ x) rules ⊎ Holds x unparsed

set_target-raw : (u : Text) (r : Rule) → (set_target u r).raw ≡ r.raw
unfolding set_target
set_target-raw u r =
    if_keeps (λ (q : Rule). q.raw ≡ r.raw) (text_eq (upper u) (codes "ACCEPT")) _ _ refl
      (if_keeps (λ (q : Rule). q.raw ≡ r.raw)
        (one_of (codes "DROP" ∷ codes "REJECT" ∷ []) (upper u)) _ _ refl
        (if_keeps (λ (q : Rule). q.raw ≡ r.raw) (text_eq (upper u) (codes "LOG")) _ _ refl refl))

set_option-raw : (o : Opt) (u : Text) (st : Rule × Bool) → (set_option o u st).0.raw ≡ st.0.raw
unfolding set_option
set_option-raw chain u (r, target) = refl
set_option-raw source u (r, target) = refl
set_option-raw destination u (r, target) = refl
set_option-raw protocol u (r, target) = refl
set_option-raw dport u (r, target) = refl
set_option-raw sport u (r, target) = refl
set_option-raw interface u (r, target) = refl
set_option-raw jump u (r, target) = set_target-raw u r
set_option-raw comment u (r, target) = refl

mark-raw : (t : Text) (rest : List Text) (st : Rule × Bool) → (mark t rest st).0.raw ≡ st.0.raw
unfolding mark
mark-raw t rest (r, target) = refl

pub read_tokens-raw : (toks : List Text) (st : Rule × Bool) → (read_tokens toks st).0.raw ≡ st.0.raw
unfolding read_tokens
read_tokens-raw [] st = refl
read_tokens-raw (t ∷ []) st = mark-raw t [] st
read_tokens-raw (t ∷ u ∷ rest) st =
    Option-keeps (λ (q : Rule × Bool). q.0.raw ≡ st.0.raw) (opt_of t) _ _
      (λ e. read_tokens-raw (u ∷ rest) (mark t (u ∷ rest) st) ∙ mark-raw t (u ∷ rest) st)
      (λ o e.
        read_tokens-raw rest (set_option o u (mark t (u ∷ rest) st))
        ∙ set_option-raw o u (mark t (u ∷ rest) st)
        ∙ mark-raw t (u ∷ rest) st)

-- What a line that is not skipped turns into is that line.
unfoldable IsOf : Text → Line → Type 0
IsOf line skipped = ⊥
IsOf line (not_understood x) = x ≡ line
IsOf line (is_rule r) = r.raw ≡ line

rule_or_not-IsOf :
    (line : Text) (got : Rule × Bool) → got.0.raw ≡ line → IsOf line (rule_or_not line got)
unfolding rule_or_not IsOf
rule_or_not-IsOf line (r, true) e = e
rule_or_not-IsOf line (r, false) e = refl

read_line-IsOf : (line : Text) → is_skipped line ≡ false → IsOf line (read_line line)
unfolding read_line parse_iptables_rule fill_any IsOf
read_line-IsOf line n = if_other (IsOf line) (is_skipped line) _ _ n (
    if_keeps (IsOf line)
      (not (has_prefix line (codes "-A ")) && not (has_prefix line (codes "-I "))) _ _ refl
      (rule_or_not-IsOf line (parse_iptables_rule line)
        (read_tokens-raw (fields_respecting_quotes line) (blank_rule line, false))))

read_line-skipped : (line : Text) → is_skipped line ≡ true → read_line line ≡ skipped
unfolding read_line
read_line-skipped line y = if_eq (is_skipped line) _ _ y

-- A line adds itself.
collect-accounts :
    (line : Text) (got : Line) (rest : List Rule × List Text) (x : Text)
    → IsOf line got
    → IsAccounted x (collect got rest).0 (collect got rest).1
      ↔ ((line ≡ x) ⊎ IsAccounted x rest.0 rest.1)
unfolding collect IsOf
collect-accounts line skipped (rules, unparsed) x of = absurd of
collect-accounts line (not_understood y) (rules, unparsed) x of = (
  elim [
    | inl r ↦ inr (inl r)
    | inr u ↦ elim u [ inl e ↦ inl (sym of ∙ sym e) | inr k ↦ inr (inr k) ]
  ],
  elim [
    | inl e ↦ inr (inl (sym e ∙ sym of))
    | inr h ↦ elim h [ inl r ↦ inl r | inr u ↦ inr (inr u) ]
  ],
)
collect-accounts line (is_rule r) (rules, unparsed) x of = (
  elim [ inl q ↦ elim q [ inl e ↦ inl (sym of ∙ e) | inr k ↦ inr (inl k) ] | inr u ↦ inr (inr u) ],
  elim [ inl e ↦ inl (inl (of ∙ e)) | inr h ↦ elim h [ inl q ↦ inl (inr q) | inr u ↦ inr u ] ],
)

read_lines-accounts :
    (lines : List Text) (x : Text)
    → IsAccounted x (read_lines lines).0 (read_lines lines).1 ↔ IsLine x lines
unfolding read_lines collect
read_lines-accounts [] x = (elim [ inl q ↦ q | inr u ↦ u ], λ h. absurd h)
read_lines-accounts (raw ∷ lines) x =
    let rec = read_lines-accounts lines x in
    let got = read_line (trim raw) in
    elim (Bool-cases (is_skipped (trim raw))) [
      | inl y ↦ (
        λ h. inr (
            rec.0 (
              subst
                (λ l.
                  IsAccounted x (collect l (read_lines lines)).0 (collect l (read_lines lines)).1)
                (read_line-skipped (trim raw) y) h)),
        elim [
          | inl l ↦ absurd (false≢true (sym l.1 ∙ ap is_skipped (sym l.0) ∙ y))
          | inr k ↦
              subst
                (λ l.
                  IsAccounted x (collect l (read_lines lines)).0 (collect l (read_lines lines)).1)
                (sym (read_line-skipped (trim raw) y)) (rec.1 k)
        ],
      )
      | inr n ↦
          let both =
            collect-accounts (trim raw) got (read_lines lines) x (read_line-IsOf (trim raw) n) in
          (
            λ h. elim (both.0 h) [
              | inl e ↦ inl (e, ap is_skipped (sym e) ∙ n)
              | inr k ↦ inr (rec.0 k)
            ],
            elim [ inl l ↦ both.1 (inl l.0) | inr k ↦ both.1 (inr (rec.1 k)) ],
          )
    ]

IsLine-not_empty : (lines : List Text) (x : Text) → IsLine x lines → x ≢ []
unfolding is_skipped is_blank
IsLine-not_empty [] x l e = absurd l
IsLine-not_empty (raw ∷ lines) x l e = elim l [
  | inl p ↦ let bad = rw e at p.1 in absurd (false≢true (sym bad))
  | inr k ↦ IsLine-not_empty lines x k e
]

pub reindex-raw :
    (n : ℕ) (rules : List Rule) (x : Text)
    → Any (λ (r : Rule). r.raw ≡ x) (number_from n rules) ↔ Any (λ (r : Rule). r.raw ≡ x) rules
unfolding number_from
reindex-raw n [] x = (λ h. h, λ h. h)
reindex-raw n (r ∷ rules) x = (
  elim [ inl e ↦ inl e | inr k ↦ inr ((reindex-raw (suc n) rules x).0 k) ],
  elim [ inl e ↦ inl e | inr k ↦ inr ((reindex-raw (suc n) rules x).1 k) ],
)

-- A text is a line of an iptables or nftables configuration, other than an empty line, a comment, a
-- table, a chain policy or COMMIT, exactly when it is the text of a rule that the parser
-- returns or stands among the lines that it reports as not understood.
pub parse_iptables-accounts :
    (vendor config x : Text)
    → let p = parse_iptables vendor config in
      IsAccounted x p.rules p.unparsed ↔ IsLine x (split_on b'\n' config)
unfolding parse_iptables reindex
parse_iptables-accounts vendor config x =
    let lines = split_on b'\n' config in
    let both = read_lines lines in
    let raws = reindex-raw 1 both.0 x in
    let kept = (dedupe_strings-Ascends both.1).1 x in
    let line = read_lines-accounts lines x in
    (
      elim [ inl q ↦ line.0 (inl (raws.0 q)) | inr u ↦ line.0 (inr (kept.0 u).0) ],
      λ l. elim (line.1 l) [
        | inl q ↦ inl (raws.1 q)
        | inr u ↦ inr (kept.1 (u, IsLine-not_empty lines x l))
      ],
    )
