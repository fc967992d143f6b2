-- ===== src/Fwparse/Negations.antt =====
-- fwparse/iptables.go: a line that demands more than the model of rules has makes no rule that covers.
use rulehawk.Common.{
  List, Bool, ◌≡◌, ◌⊎◌, ◌∷◌, [], true, false, none, inl, inr, refl, sym, ◌∙◌, if_keeps,
  Option-cases, arith, none_ne_some, any, All, if_eq, ℕ, suc, not, ◌&&◌, subst, Holds,
}
use rulehawk.Fwparse.Iptables.{
  set_target, set_option, mark, read_tokens, Opt, chain, opt_of, source, destination, protocol,
  dport, sport, interface, jump, comment, narrows, modelled_option, Line, rule_or_not, read_line,
  collect, read_lines, parse_iptables, not_understood, parse_iptables_rule, is_rule, fill_any,
  is_skipped, skipped, blank_rule,
}
use rulehawk.Common.Text.{Text, text_eq, text_eq_iff, upper, codes, has_prefix, trim, split_on}
use rulehawk.Fwrule.Rule.{Rule, one_of, covers}
use rulehawk.Fwparse.Words.{fields_respecting_quotes}
use rulehawk.Fwparse.Base.{number_from, reindex}
use rulehawk.Fwparse.Accounts.Iptables.{read_tokens-raw}

-- The word negates, or is a long option that the switch does not read.
abbrev pub Demands : Text → Type 0
Demands u = (u ≡ codes "!") ⊎ ((has_prefix u (codes "--") ≡ true) × (opt_of u ≡ none))

-- Such a word stands behind a word that is no option with a value.
abbrev pub IsNarrowed : List Text → Type 0
IsNarrowed [] = ⊥
IsNarrowed (t ∷ []) = ⊥
IsNarrowed (t ∷ u ∷ rest) = ((opt_of t ≡ none) × Demands u) ⊎ IsNarrowed (u ∷ rest)

opt_of-modelled : (u : Text) → opt_of u ≡ none → one_of modelled_option u ≡ false
unfolding opt_of one_of any
opt_of-modelled u e = ground arith

Demands-narrows : (u : Text) (rest : List Text) → Demands u → narrows u rest ≡ true
unfolding narrows
Demands-narrows u [] (inl e) = let y = (text_eq_iff u (codes "!")).1 e in ground arith
Demands-narrows u (v ∷ rest) (inl e) = let y = (text_eq_iff u (codes "!")).1 e in ground arith
Demands-narrows u [] (inr (p, e)) = let m = opt_of-modelled u e in ground arith
Demands-narrows u (v ∷ rest) (inr (p, e)) = let m = opt_of-modelled u e in ground arith

-- The rule of the state is conditional.
abbrev IsMarked : Rule × Bool → Type 0
IsMarked st = st.0.conditional ≡ true

set_target-conditional : (u : Text) (r : Rule) → (set_target u r).conditional ≡ r.conditional
unfolding set_target
set_target-conditional u r =
    if_keeps (λ (q : Rule). q.conditional ≡ r.conditional) (text_eq (upper u) (codes "ACCEPT")) _ _
      refl
      (if_keeps (λ (q : Rule). q.conditional ≡ r.conditional)
        (one_of (codes "DROP" ∷ codes "REJECT" ∷ []) (upper u)) _ _ refl
        (if_keeps (λ (q : Rule). q.conditional ≡ r.conditional) (text_eq (upper u) (codes "LOG")) _
          _ refl refl))

set_option-IsMarked :
    (o : Opt) (u : Text) (st : Rule × Bool) → IsMarked st → IsMarked (set_option o u st)
unfolding set_option
set_option-IsMarked chain u (r, target) h = h
set_option-IsMarked source u (r, target) h = h
set_option-IsMarked destination u (r, target) h = h
set_option-IsMarked protocol u (r, target) h = h
set_option-IsMarked dport u (r, target) h = h
set_option-IsMarked sport u (r, target) h = h
set_option-IsMarked interface u (r, target) h = h
set_option-IsMarked jump u (r, target) h = set_target-conditional u r ∙ h
set_option-IsMarked comment u (r, target) h = h

mark-IsMarked :
    (t : Text) (rest : List Text) (st : Rule × Bool) → IsMarked st → IsMarked (mark t rest st)
unfolding mark
mark-IsMarked t rest (r, target) h = ground arith

mark-narrows :
    (t : Text) (rest : List Text) (st : Rule × Bool)
    → narrows t rest ≡ true
    → IsMarked (mark t rest st)
unfolding mark
mark-narrows t rest (r, target) h = ground arith

read_tokens-IsMarked :
    (toks : List Text) (st : Rule × Bool) → IsMarked st → IsMarked (read_tokens toks st)
unfolding read_tokens
read_tokens-IsMarked [] st h = h
read_tokens-IsMarked (t ∷ []) st h = mark-IsMarked t [] st h
read_tokens-IsMarked (t ∷ u ∷ rest) st h =
    let m = mark-IsMarked t (u ∷ rest) st h in
    elim (Option-cases (opt_of t)) [
      | inl e ↦ rw (e, read_tokens) (read_tokens-IsMarked (u ∷ rest) (mark t (u ∷ rest) st) m)
      | inr (o, e) ↦
          rw (e, read_tokens)
            (read_tokens-IsMarked rest (set_option o u (mark t (u ∷ rest) st))
              (set_option-IsMarked o u (mark t (u ∷ rest) st) m))
    ]

read_tokens-first :
    (t : Text) (rest : List Text) (st : Rule × Bool)
    → Demands t
    → IsMarked (read_tokens (t ∷ rest) st)
unfolding read_tokens
read_tokens-first t [] st d = mark-narrows t [] st (Demands-narrows t [] d)
read_tokens-first t (u ∷ rest) st d =
    let m = mark-narrows t (u ∷ rest) st (Demands-narrows t (u ∷ rest) d) in
    elim (Option-cases (opt_of t)) [
      | inl e ↦ rw (e, read_tokens) (read_tokens-IsMarked (u ∷ rest) (mark t (u ∷ rest) st) m)
      | inr (o, e) ↦
          rw (e, read_tokens)
            (read_tokens-IsMarked rest (set_option o u (mark t (u ∷ rest) st))
              (set_option-IsMarked o u (mark t (u ∷ rest) st) m))
    ]

read_tokens-IsNarrowed :
    (toks : List Text) (st : Rule × Bool) → IsNarrowed toks → IsMarked (read_tokens toks st)
unfolding read_tokens
read_tokens-IsNarrowed [] st h = absurd h
read_tokens-IsNarrowed (t ∷ []) st h = absurd h
read_tokens-IsNarrowed (t ∷ u ∷ []) st h = elim (Option-cases (opt_of t)) [
  | inl e ↦ elim h [
    | inl (no_value, d) ↦ rw (e, read_tokens) (read_tokens-first u [] (mark t (u ∷ []) st) d)
    | inr k ↦ absurd k
  ]
  | inr (o, e) ↦ elim h [
    | inl (no_value, d) ↦ absurd (none_ne_some (sym no_value ∙ e))
    | inr k ↦ absurd k
  ]
]
read_tokens-IsNarrowed (t ∷ u ∷ v ∷ rest) st h = elim (Option-cases (opt_of t)) [
  | inl e ↦
      rw (e, read_tokens)
        (elim h [
          | inl (no_value, d) ↦ read_tokens-first u (v ∷ rest) (mark t (u ∷ v ∷ rest) st) d
          | inr k ↦ read_tokens-IsNarrowed (u ∷ v ∷ rest) (mark t (u ∷ v ∷ rest) st) k
        ])
  | inr (o, e) ↦
      rw (e, read_tokens)
        (elim h [
          | inl (no_value, d) ↦ absurd (none_ne_some (sym no_value ∙ e))
          | inr (inl (no_value, d)) ↦
              read_tokens-first v rest (set_option o u (mark t (u ∷ v ∷ rest) st)) d
          | inr (inr k) ↦
              read_tokens-IsNarrowed (v ∷ rest) (set_option o u (mark t (u ∷ v ∷ rest) st)) k
        ])
]

-- A rule of a line that demands more is conditional.
abbrev IsCautious : Rule → Type 0
IsCautious r = IsNarrowed (fields_respecting_quotes r.raw) → r.conditional ≡ true

abbrev AllCautious : Line → Type 0
AllCautious skipped = Unit
AllCautious (not_understood x) = Unit
AllCautious (is_rule r) = IsCautious r

rule_or_not-IsCautious :
    (line : Text) (got : Rule × Bool) → IsCautious got.0 → AllCautious (rule_or_not line got)
unfolding rule_or_not
rule_or_not-IsCautious line (r, true) h = h
rule_or_not-IsCautious line (r, false) h = tt

read_line-AllCautious : (line : Text) → AllCautious (read_line line)
unfolding read_line parse_iptables_rule fill_any
read_line-AllCautious line =
    let toks = fields_respecting_quotes line in
    if_keeps AllCautious (is_skipped line) _ _ tt (
      if_keeps AllCautious
        (not (has_prefix line (codes "-A ")) && not (has_prefix line (codes "-I "))) _ _ tt
        (rule_or_not-IsCautious line (parse_iptables_rule line) (λ narrowed.
          read_tokens-IsNarrowed toks (blank_rule line, false)
            (subst (λ z. IsNarrowed (fields_respecting_quotes z))
              (read_tokens-raw toks (blank_rule line, false)) narrowed))))

collect-IsCautious :
    (got : Line) (rest : List Rule × List Text)
    → AllCautious got
    → All IsCautious rest.0
    → All IsCautious (collect got rest).0
unfolding collect
collect-IsCautious skipped (rules, unparsed) h k = k
collect-IsCautious (not_understood x) (rules, unparsed) h k = k
collect-IsCautious (is_rule r) (rules, unparsed) h k = (h, k)

read_lines-IsCautious : (lines : List Text) → All IsCautious (read_lines lines).0
unfolding read_lines
read_lines-IsCautious [] = tt
read_lines-IsCautious (raw ∷ lines) =
    collect-IsCautious (read_line (trim raw)) (read_lines lines) (read_line-AllCautious (trim raw))
      (read_lines-IsCautious lines)

-- The rule, if its line demands more, is conditional and covers no rule.
abbrev CoversNothing : Rule → Type 0
CoversNothing r =
    IsNarrowed (fields_respecting_quotes r.raw)
    → (r.conditional ≡ true) × ((i : Rule) → covers r i ≡ false)

conditional-covers : (r i : Rule) → r.conditional ≡ true → covers r i ≡ false
unfolding covers
conditional-covers r i e = if_eq r.conditional _ _ e

number_from-CoversNothing :
    (n : ℕ) (rules : List Rule) → All IsCautious rules → All CoversNothing (number_from n rules)
unfolding number_from
number_from-CoversNothing n [] h = tt
number_from-CoversNothing n (r ∷ rules) h = (
  λ narrowed.
      let marked = h.0 narrowed in
      (marked, λ i. conditional-covers (record r { index = n }) i marked),
  number_from-CoversNothing (suc n) rules h.1,
)

parse_iptables-CoversNothing :
    (vendor config : Text) → All CoversNothing (parse_iptables vendor config).rules
unfolding parse_iptables reindex
parse_iptables-CoversNothing vendor config =
    number_from-CoversNothing 1 _ (read_lines-IsCautious (split_on b'\n' config))

All-Holds : (P : Rule → Type 0) (rules : List Rule) (r : Rule) → All P rules → Holds r rules → P r
All-Holds P [] r h k = absurd k
All-Holds P (q ∷ rules) r h k = elim k [
  | inl e ↦ subst P (sym e) h.0
  | inr later ↦ All-Holds P rules r h.1 later
]

-- A rule read from a line of an iptables or nftables configuration, in which a `!`, or a long option
-- that the parser does not read, stands behind a word that is no option with a value, is conditional,
-- and covers no rule, so that the analysers never report one because of it.
pub parse_iptables-IsNarrowed :
    (vendor config : Text) (r : Rule)
    → Holds r (parse_iptables vendor config).rules
    → IsNarrowed (fields_respecting_quotes r.raw)
    → (r.conditional ≡ true) × ((i : Rule) → covers r i ≡ false)
parse_iptables-IsNarrowed vendor config r stands narrowed =
    All-Holds CoversNothing (parse_iptables vendor config).rules r
      (parse_iptables-CoversNothing vendor config) stands narrowed
