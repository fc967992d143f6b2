-- ===== src/Fwparse/Accounts/Asa.antt =====
-- Cisco ASA: no line of a configuration is lost.
use rulehawk.Fwparse.Accounts.Foreign.{scan_words-foreign, is_foreign}
use rulehawk.Common.{
  none, some, List, Bool, Any, Option, false, ◌∷◌, ◌++◌, if_keeps, not, ◌≡◌, ◌≢◌, if◌then◌else◌,
  inl, [], true, inr, ◌||◌, if_other, Bool-cases, subst, false≢true, ◌⊎◌, arith, if_true, sym, refl,
  if_eq, ◌∙◌, if_false, ap,
}
use rulehawk.Fwparse.Accounts.Iptables.{IsAccounted, reindex-raw}
use rulehawk.Fwparse.Accounts.Raw.{HasRaw, parse_asa_rule-HasRaw}
use rulehawk.Common.Text.{Text, split_on, text_eq, trim, has_prefix, codes, fields}
use rulehawk.Fwparse.CiscoAsa.{
  put_rule, read_acl, read_other, read_asa_words, read_asa, parse_cisco_asa, AsaState,
  read_asa_line, remark_of,
}
use rulehawk.Fwparse.Scan.{is_remark, scan_objects, scan_from, no_block, Block, scan_line}
use rulehawk.Fwparse.Base.{is_blank, reindex}
use rulehawk.Fwrule.Rule.{Rule}
use rulehawk.Fwparse.Members.{Objects, no_objects}
use rulehawk.Fwparse.Texts.{dedupe_strings-Ascends}

-- The words behind the name of an access list are a remark.
unfoldable pub starts_remark : List Text → Bool
starts_remark [] = false
starts_remark (t ∷ toks) = text_eq t (codes "remark")

-- The line is neither a remark of an access list nor a binding.
unfoldable pub owes : Text → List Text → Bool
owes line (t ∷ acl ∷ toks) =
    if text_eq t (codes "access-list")
    then not (starts_remark toks)
    else not (has_prefix line (codes "access-group"))
owes line _ = not (has_prefix line (codes "access-group"))

-- The text is a line that is neither empty, a comment, a remark nor a binding, and that is foreign to
-- definitions or was not consumed.
abbrev pub IsOwed : Text → List Text → List Bool → Type 0
IsOwed x [] cs = ⊥
IsOwed x (raw ∷ lines) [] = ⊥
IsOwed x (raw ∷ lines) (c ∷ cs) =
    ((trim raw ≡ x)
      × ((is_foreign (fields x) ≡ true) ⊎ (c ≡ false))
      × (is_remark x ≡ false)
      × (owes x (fields x) ≡ true))
    ⊎ IsOwed x lines cs

-- The text is a line that neither the pass over the definitions consumed nor is empty, a comment, a
-- remark or a binding.
abbrev IsLeft : Text → List Text → List Bool → Type 0
IsLeft x [] cs = ⊥
IsLeft x (raw ∷ lines) [] = ⊥
IsLeft x (raw ∷ lines) (c ∷ cs) =
    ((trim raw ≡ x) × (c ≡ false) × (is_remark x ≡ false) × (owes x (fields x) ≡ true))
    ⊎ IsLeft x lines cs

-- The text is a rule's or a line's that was not understood.
abbrev IsKept : Text → AsaState → Type 0
IsKept x s = IsAccounted x s.rules s.unparsed

module _ {A : Type 0} (P : A → Type 0) where
  Any-left : (xs ys : List A) → Any P xs → Any P (xs ++ ys)
  Any-left [] ys h = absurd h
  Any-left (x ∷ xs) ys h = elim h [ inl p ↦ inl p | inr k ↦ inr (Any-left xs ys k) ]

  Any-last : (xs : List A) (y : A) → P y → Any P (xs ++ y ∷ [])
  Any-last [] y p = inl p
  Any-last (x ∷ xs) y p = inr (Any-last xs y p)

put_rule-keeps :
    (x acl line : Text) (o : Option Rule) (objs : Objects) (s : AsaState)
    → IsKept x s
    → IsKept x (put_rule acl line (o, objs) s)
unfolding put_rule
put_rule-keeps x acl line none objs s h = elim h [
  | inl r ↦ inl r
  | inr u ↦ inr (Any-left (λ z. x ≡ z) s.unparsed _ u)
]
put_rule-keeps x acl line (some q) objs s h = elim h [
  | inl r ↦ inl (Any-left (λ (z : Rule). z.raw ≡ x) s.rules _ r)
  | inr u ↦ inr u
]

put_rule-IsKept :
    (acl line : Text) (o : Option Rule) (objs : Objects) (s : AsaState)
    → HasRaw line (o, objs)
    → IsKept line (put_rule acl line (o, objs) s)
unfolding put_rule
put_rule-IsKept acl line none objs s h = inr (Any-last (λ z. line ≡ z) s.unparsed line refl)
put_rule-IsKept acl line (some q) objs s h =
    inl (
      Any-last (λ (z : Rule). z.raw ≡ line) s.rules (record q { desc = remark_of s.remarks acl }) h)

module _ (x : Text) where
  read_acl-keeps :
      (acl line : Text) (toks : List Text) (s : AsaState)
      → IsKept x s
      → IsKept x (read_acl acl line toks s)
  unfolding read_acl
  read_acl-keeps acl line [] s h = put_rule-keeps x acl line _ _ s h
  read_acl-keeps acl line (t ∷ toks) s h =
      if_keeps (IsKept x) (text_eq t (codes "remark")) _ _ h (put_rule-keeps x acl line _ _ s h)

  read_other-keeps : (line : Text) (s : AsaState) → IsKept x s → IsKept x (read_other line s)
  unfolding read_other
  read_other-keeps line s h =
      if_keeps (IsKept x) (has_prefix line (codes "access-group")) _ _ h
        (elim h [ inl r ↦ inl r | inr u ↦ inr (Any-left (λ z. x ≡ z) s.unparsed _ u) ])

  read_asa_words-keeps :
      (line : Text) (toks : List Text) (s : AsaState)
      → IsKept x s
      → IsKept x (read_asa_words line toks s)
  unfolding read_asa_words
  read_asa_words-keeps line [] s h = read_other-keeps line s h
  read_asa_words-keeps line (t ∷ []) s h = read_other-keeps line s h
  read_asa_words-keeps line (t ∷ acl ∷ toks) s h =
      if_keeps (IsKept x) (text_eq t (codes "access-list")) _ _ (read_acl-keeps acl line toks s h)
        (read_other-keeps line s h)

  read_asa-keeps :
      (lines : List Text) (cs : List Bool) (s : AsaState)
      → IsKept x s
      → IsKept x (read_asa lines cs s)
  unfolding read_asa read_asa_line
  read_asa-keeps [] cs s h = h
  read_asa-keeps (raw ∷ lines) [] s h = h
  read_asa-keeps (raw ∷ lines) (c ∷ cs) s h = read_asa-keeps lines cs _ (
      if_keeps (IsKept x) (is_remark (trim raw) || c) _ _ h
        (read_asa_words-keeps (trim raw) (fields (trim raw)) s h))

read_acl-IsKept :
    (acl line : Text) (toks : List Text) (s : AsaState)
    → not (starts_remark toks) ≡ true
    → IsKept line (read_acl acl line toks s)
unfolding read_acl starts_remark
read_acl-IsKept acl line [] s h =
    put_rule-IsKept acl line _ _ s (parse_asa_rule-HasRaw acl [] line s.objs)
read_acl-IsKept acl line (t ∷ toks) s h =
    if_other (IsKept line) (text_eq t (codes "remark")) _ _ (ground arith)
      (put_rule-IsKept acl line _ _ s (parse_asa_rule-HasRaw acl (t ∷ toks) line s.objs))

read_other-IsKept :
    (line : Text) (s : AsaState)
    → not (has_prefix line (codes "access-group")) ≡ true
    → IsKept line (read_other line s)
unfolding read_other
read_other-IsKept line s h =
    if_other (IsKept line) (has_prefix line (codes "access-group")) _ _ (ground arith)
      (inr (Any-last (λ z. line ≡ z) s.unparsed line refl))

read_asa_words-IsKept :
    (line : Text) (toks : List Text) (s : AsaState)
    → owes line toks ≡ true
    → IsKept line (read_asa_words line toks s)
unfolding read_asa_words owes
read_asa_words-IsKept line [] s h = read_other-IsKept line s h
read_asa_words-IsKept line (t ∷ []) s h = read_other-IsKept line s h
read_asa_words-IsKept line (t ∷ acl ∷ toks) s h =
    elim (Bool-cases (text_eq t (codes "access-list"))) [
      | inl y ↦ if_true (IsKept line) (text_eq t (codes "access-list")) _ _ y (
          read_acl-IsKept acl line toks s (sym (if_eq (text_eq t (codes "access-list")) _ _ y) ∙ h))
      | inr n ↦
          if_other (IsKept line) (text_eq t (codes "access-list")) _ _ n
            (read_other-IsKept line s (sym (if_false (text_eq t (codes "access-list")) _ _ n) ∙ h))
    ]

read_asa-IsKept :
    (x : Text) (lines : List Text) (cs : List Bool) (s : AsaState)
    → IsLeft x lines cs
    → IsKept x (read_asa lines cs s)
unfolding read_asa read_asa_line
read_asa-IsKept x [] cs s h = absurd h
read_asa-IsKept x (raw ∷ lines) [] s h = absurd h
read_asa-IsKept x (raw ∷ lines) (c ∷ cs) s h = elim h [
  | inr k ↦ read_asa-IsKept x lines cs _ k
  | inl o ↦ read_asa-keeps x lines cs _ (
      subst
        (λ line. IsKept x (if is_remark line || c then s else read_asa_words line (fields line) s))
        (sym o.0)
        (if_other (IsKept x) (is_remark x || c) _ _ (ground arith)
          (read_asa_words-IsKept x (fields x) s o.3)))
]

IsLeft-not_empty : (x : Text) (lines : List Text) (cs : List Bool) → IsLeft x lines cs → x ≢ []
unfolding is_remark is_blank
IsLeft-not_empty x [] cs h e = absurd h
IsLeft-not_empty x (raw ∷ lines) [] h e = absurd h
IsLeft-not_empty x (raw ∷ lines) (c ∷ cs) h e = elim h [
  | inl o ↦ absurd (false≢true (sym o.2 ∙ ap is_remark e))
  | inr k ↦ IsLeft-not_empty x lines cs k e
]

IsOwed-IsLeft :
    (x : Text) (lines : List Text) (b : Block) (o : Objects)
    → IsOwed x lines (scan_from lines b o).1
    → IsLeft x lines (scan_from lines b o).1
unfolding scan_from scan_line
IsOwed-IsLeft x [] b o h = h
IsOwed-IsLeft x (raw ∷ lines) b o h =
    let s = scan_line (trim raw) b o in
    elim h [
      | inr k ↦ inr (IsOwed-IsLeft x lines s.block s.objs k)
      | inl (same, either, plain, owed) ↦ inl (
        same,
        elim either [
          | inr c ↦ c
          | inl f ↦
              subst (λ z. (scan_line z b o).consumed ≡ false) (sym same)
                (rw plain (scan_words-foreign (fields x) b o f))
        ],
        plain,
        owed,
      )
    ]

-- Each line of an ASA configuration that is neither empty, a comment, a remark of an access list nor a
-- binding, and whose first word belongs to no definition of an object or a group, or which the pass
-- over the definitions did not consume, is the text of a rule that the parser returns or stands among
-- the lines that it reports as not understood; a line of an access list that follows a definition
-- without a line between them is such a line.
pub parse_cisco_asa-accounts :
    (config x : Text)
    → let lines = split_on b'\n' config in
      IsOwed x lines (scan_objects lines).1
      → IsAccounted x (parse_cisco_asa config).rules (parse_cisco_asa config).unparsed
unfolding parse_cisco_asa reindex scan_objects
parse_cisco_asa-accounts config x owed =
    let lines = split_on b'\n' config in
    let left = IsOwed-IsLeft x lines no_block no_objects owed in
    let found = scan_objects lines in
    let start : AsaState = record { objs = found.0; remarks = []; rules = []; unparsed = [] } in
    let last = read_asa lines found.1 start in
    elim (read_asa-IsKept x lines found.1 start left) [
      | inl r ↦ inl ((reindex-raw 1 last.rules x).1 r)
      | inr u ↦ inr (
          ((dedupe_strings-Ascends last.unparsed).1 x).1 (u, IsLeft-not_empty x lines found.1 left))
    ]
