-- ===== src/Fwparse/Policies.antt =====
-- fwparse/fortinet.go: what the block of a policy turns into.
use rulehawk.Common.{
  none, some, Option, List, ◌∷◌, true, ◌≡◌, All, ap, ◌++◌, [], ◌∙◌, refl, arith, subst, sym,
}
use rulehawk.Fwparse.Fortinet.{
  Kind, step, run, on_kind, kind_of, State, set_cur, flush, apply_forti_set, flushed, sets,
  opens_policy, closes_policy, new_policy,
}
use rulehawk.Fwrule.Rule.{Rule}
use rulehawk.Common.Text.{Text, trim, lower, drop, has_prefix, codes, text_eq}
use rulehawk.Fwparse.Settings.{folded, HasSettings, folded-HasSettings}

-- The line of a section is of this kind.
abbrev pub HasKind : Kind → Text → Type 0
HasKind k raw = kind_of true (lower (trim raw)) ≡ k

-- A line whose text in lower case begins like this.
abbrev pub Begins : Text → Text → Type 0
Begins word raw = has_prefix (lower (trim raw)) word ≡ true

edit_kind : (low : Text) → has_prefix low (codes "edit ") ≡ true → kind_of true low ≡ opens_policy
unfolding kind_of has_prefix text_eq
edit_kind [] h = cc
edit_kind (x ∷ []) h = ground arith
edit_kind (x ∷ y ∷ low) h = ground arith

set_kind : (low : Text) → has_prefix low (codes "set ") ≡ true → kind_of true low ≡ sets
unfolding kind_of has_prefix text_eq
set_kind [] h = cc
set_kind (x ∷ low) h = ground arith

next_kind : (low : Text) → low ≡ codes "next" → kind_of true low ≡ closes_policy
unfolding kind_of has_prefix text_eq
next_kind low h = subst (λ z. kind_of true z ≡ closes_policy) (sym h) refl

each_set : (body : List Text) → All (Begins (codes "set ")) body → All (HasKind sets) body
each_set [] h = tt
each_set (raw ∷ body) h = (set_kind (lower (trim raw)) h.0, each_set body h.1)

-- The state inside a section.
abbrev pub inside : Option Rule → List Rule → State
inside cur done = record { in_policy = true; cur = cur; done = done }

-- A line does what its kind says.
step-inside :
    (k : Kind) (cur : Option Rule) (done : List Rule) (raw : Text)
    → HasKind k raw
    → step (inside cur done) (trim raw) ≡ on_kind k (trim raw) (inside cur done)
unfolding step
step-inside k cur done raw e = ap (λ z. on_kind z (trim raw) (inside cur done)) e

run-sets :
    (body rest : List Text) (r : Rule) (done : List Rule)
    → All (HasKind sets) body
    → run (inside (some r) done) (body ++ rest) ≡ run (inside (some (folded r body)) done) rest
unfolding run folded on_kind set_cur
run-sets [] rest r done h = refl
run-sets (raw ∷ body) rest r done h =
    ap (λ s. run s (body ++ rest)) (step-inside sets (some r) done raw h.0)
    ∙ run-sets body rest (apply_forti_set r (drop 4 (trim raw))) done h.1

folded-run :
    (edit next : Text) (body rest : List Text) (cur : Option Rule) (done : List Rule)
    → HasKind opens_policy edit
    → All (HasKind sets) body
    → HasKind closes_policy next
    → run (inside cur done) (edit ∷ (body ++ next ∷ rest))
      ≡ run (inside none (flushed cur done ++ folded (new_policy (trim edit)) body ∷ [])) rest
unfolding run on_kind flush flushed
folded-run edit next body rest cur done opens h closes =
    let r = new_policy (trim edit) in
    let before = flushed cur done in
    ap (λ s. run s (body ++ next ∷ rest)) (step-inside opens_policy cur done edit opens)
    ∙ run-sets body (next ∷ rest) r before h
    ∙ ap (λ s. run s rest) (step-inside closes_policy (some (folded r body)) before next closes)

-- Inside a section, a line that begins with `edit`, lines that begin with `set` and a line `next` add
-- one rule behind those that are there, a policy that was still open before it first, and the loop goes
-- on inside the section. The source addresses, destination addresses and destination ports of the rule
-- are those of the last line with the key `srcaddr`, `dstaddr` and `service`, where no value and `all`
-- mean any, and any without such a line; its interface is the first value of the last `srcintf` line
-- that has one; its action is that of the last `action` line whose value means to allow or to deny, and
-- neither without one; and it is enabled unless a `status` line disables it.
pub run-policy :
    (edit next : Text) (body rest : List Text) (cur : Option Rule) (done : List Rule)
    → Begins (codes "edit ") edit
    → All (Begins (codes "set ")) body
    → lower (trim next) ≡ codes "next"
    → (r : Rule) × (run (inside cur done) (edit ∷ (body ++ next ∷ rest))
        ≡ run (inside none (flushed cur done ++ r ∷ [])) rest)
      × HasSettings body r
run-policy edit next body rest cur done opens h closes = (
  folded (new_policy (trim edit)) body,
  folded-run edit next body rest cur done (edit_kind (lower (trim edit)) opens) (each_set body h)
      (next_kind (lower (trim next)) closes),
  folded-HasSettings (trim edit) body,
)
