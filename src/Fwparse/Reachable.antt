-- ===== src/Fwparse/Reachable.antt =====
-- What the loop of `resolve` has collected when it goes through.
use rulehawk.Common.{
  List, length, ◌≤◌, ◌≡◌, ℕ, Any, arith, suc, ◌∷◌, ◌⊎◌, true, ◌∙◌, [], All, false, inl, ap, Holds,
  inr, refl, ◌↔◌, sym, ◌≢◌, if_false, subst,
}
use rulehawk.Fwparse.Base.{first_seen, dedupe_strings, is_blank}
use rulehawk.Common.Text.{insert_text, sort_texts, Text}
use rulehawk.Fwparse.Members.{
  Defs, Resolved, resolved, resolve, Member, add_members, is_defined, max_expand,
}
use rulehawk.Fwparse.Ways.{IsText, members_in}
use rulehawk.Fwrule.Rule.{one_of}
use rulehawk.Fwparse.Expansion.{Gives, add_member_inv}
use rulehawk.Fwparse.Texts.{dedupe_strings-Ascends}

length-first_seen : (seen ss : List Text) → length (first_seen seen ss) ≤ length ss
unfolding first_seen
length-first_seen seen [] = omega arith
length-first_seen seen (s ∷ ss) =
    ground (arith, length-first_seen seen ss, length-first_seen (s ∷ seen) ss)

length-insert_text : (s : Text) (ts : List Text) → length (insert_text s ts) ≡ suc (length ts)
unfolding insert_text
length-insert_text s [] = refl
length-insert_text s (t ∷ ts) = ground (arith, length-insert_text s ts)

length-sort_texts : (ts : List Text) → length (sort_texts ts) ≡ length ts
unfolding sort_texts
length-sort_texts [] = refl
length-sort_texts (t ∷ ts) = length-insert_text t (sort_texts ts) ∙ ap suc (length-sort_texts ts)

length-dedupe_strings : (ss : List Text) → length (dedupe_strings ss) ≤ length ss
unfolding dedupe_strings
length-dedupe_strings ss =
    omega (arith, length-sort_texts (first_seen [] ss), length-first_seen [] ss)

-- What a member of a group contributes.
abbrev pub Contributes : Defs → (Text → Resolved) → Text → Member → Type 0
Contributes table deeper x m =
    IsText table x m
    ⊎ ((is_blank m.ref ≡ false) × (is_defined table m.ref ≡ true) × Gives (deeper m.ref) x)

-- The loop of `resolve` has gone through: every reference resolved, and the texts are those so far
-- with what the members contribute.
pub record Settles (table : Defs) (deeper : Text → Resolved) (ms : List Member) (out ss : List Text)
    : Type 0 where
  pub small : length ss ≤ max_expand
  pub all_found :
      All
        (λ m.
          is_blank m.ref ≡ false
          → is_defined table m.ref ≡ true
          → (sub : List Text) × (deeper m.ref ≡ resolved sub))
        ms
  pub holds :
      (x : Text) → Holds x ss ↔ ((x ≢ []) × (Holds x out ⊎ Any (Contributes table deeper x) ms))

resolved_inj : {a b : List Text} → resolved a ≡ resolved b → a ≡ b
resolved_inj e = cc

module _ (table : Defs) (deeper : Text → Resolved) (ss : List Text) where
  add_members-Settles :
      (ms : List Member) (out : List Text)
      → length out ≤ max_expand
      → add_members table deeper ms out ≡ resolved ss
      → Settles table deeper ms out ss
  unfolding add_members
  add_members-Settles [] out le e =
      let same : dedupe_strings out ≡ ss = resolved_inj e in
      record {
        small =
            subst (λ l. length l ≤ max_expand) same (omega (arith, le, length-dedupe_strings out));
        all_found = tt;
        holds = λ x. (
          λ h.
              let k = ((dedupe_strings-Ascends out).1 x).0 (subst (Holds x) (sym same) h) in
              (k.1, inl k.0),
          λ h. subst (Holds x) same (
              ((dedupe_strings-Ascends out).1 x).1
                (elim h.1 [ inl k ↦ k | inr bad ↦ absurd bad ], h.0)),
        );
      }
  add_members-Settles (m ∷ ms) out le e =
      let c = add_member_inv table deeper m out (λ out'. add_members table deeper ms out') ss e in
      let later = add_members-Settles ms c.now c.small c.ends in
      record {
        small = later.small;
        all_found = (c.found, later.all_found);
        holds = λ x. (
          λ h.
              let k = (later.holds x).0 h in
              (
                k.0,
                elim k.1 [
                  | inl now ↦ elim ((c.adds x k.0).0 now) [
                    | inl old ↦ inl old
                    | inr new ↦ inr (inl new)
                  ]
                  | inr more ↦ inr (inr more)
                ],
              ),
          λ h. (later.holds x).1 (
            h.0,
            elim h.1 [
              | inl old ↦ inl ((c.adds x h.0).1 (inl old))
              | inr more ↦ elim more [
                | inl new ↦ inl ((c.adds x h.0).1 (inr new))
                | inr rest ↦ inr rest
              ]
            ],
          ),
        );
      }

module _ (table : Defs) where
  pub resolve-Settles :
      (fuel : ℕ) (seen : List Text) (name : Text) (ss : List Text)
      → one_of seen name ≡ false
      → resolve (suc fuel) table seen name ≡ resolved ss
      → Settles table (resolve fuel table (name ∷ seen)) (members_in table name) [] ss
  unfolding resolve
  resolve-Settles fuel seen name ss out e =
      add_members-Settles table (resolve fuel table (name ∷ seen)) ss (members_in table name) []
        (omega arith) (sym (if_false (one_of seen name) _ _ out) ∙ e)
