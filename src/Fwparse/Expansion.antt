-- ===== src/Fwparse/Expansion.antt =====
-- What `resolve` returns: it ends, keeps to the cap, and finds what there is a way to.
use rulehawk.Common.{
  List, Holds, ◌++◌, ◌∷◌, ◌≡◌, inl, inr, length, true, false, Bool-cases, ◌≤◌, if◌then◌else◌, sym,
  [], ◌∙◌, Holds-append, if_eq, ◌≢◌, ltb, false≢true, subst, if_false, ◌↔◌, arith, ◌⊎◌, refl,
}
use rulehawk.Fwparse.Members.{
  Resolved, Defs, resolved, Member, capped, with_sub, add_member, too_many, out_of_fuel, is_defined,
  max_expand,
}
use rulehawk.Common.Text.{Text}
use rulehawk.Fwparse.Base.{is_blank}
use rulehawk.Fwparse.Texts.{is_blank-eq}
use rulehawk.Fwparse.Ways.{IsText}

Holds-append_left : {A : Type 0} (a : A) (xs ys : List A) → Holds a xs → Holds a (xs ++ ys)
Holds-append_left a [] ys h = absurd h
Holds-append_left a (x ∷ xs) ys h = elim h [
  | inl e ↦ inl e
  | inr k ↦ inr (Holds-append_left a xs ys k)
]

Holds-append_right : {A : Type 0} (a : A) (xs ys : List A) → Holds a ys → Holds a (xs ++ ys)
Holds-append_right a [] ys h = h
Holds-append_right a (x ∷ xs) ys h = inr (Holds-append_right a xs ys h)

-- The text is one that the reference resolves to.
abbrev pub Gives : Resolved → Text → Type 0
Gives (resolved ss) x = Holds x ss
Gives too_many x = ⊥
Gives out_of_fuel x = ⊥

-- The loop went on to the end, from some texts that are no more than the cap.
pub record Continues (table : Defs) (deeper : Text → Resolved) (m : Member) (out : List Text)
    (go : List Text → Resolved) (ss : List Text) : Type 0 where
  pub now : List Text
  pub ends : go now ≡ resolved ss
  pub small : length now ≤ max_expand
  pub found :
      is_blank m.ref ≡ false
      → is_defined table m.ref ≡ true
      → (sub : List Text) × (deeper m.ref ≡ resolved sub)
  pub adds :
      (x : Text)
      → x ≢ []
      → Holds x now ↔ (
          Holds x out
          ⊎ (IsText table x m
              ⊎ ((is_blank m.ref ≡ false)
                  × (is_defined table m.ref ≡ true)
                  × Gives (deeper m.ref) x)))

module _ (out : List Text) (go : List Text → Resolved) (ss : List Text) where
  capped_inv : capped out go ≡ resolved ss → (go out ≡ resolved ss) × (length out ≤ max_expand)
  unfolding capped
  capped_inv e = elim (Bool-cases (ltb max_expand (length out))) [
    | inl big ↦ let bad = rw big at e in cc
    | inr small ↦ (rw small at e, ground arith)
  ]

module _ (table : Defs) (deeper : Text → Resolved) (m : Member) (out : List Text)
    (go : List Text → Resolved) (ss : List Text) where
  add_literal_inv :
      is_blank m.ref ≡ true
      → capped (if is_blank m.literal then out else out ++ m.literal ∷ []) go ≡ resolved ss
      → Continues table deeper m out go ss
  add_literal_inv b e = elim (Bool-cases (is_blank m.literal)) [
    | inl empty ↦
        let (end, small) = capped_inv out go ss (rw empty at e) in
        record {
          now = out;
          found = λ b' d. absurd (false≢true (sym b' ∙ b));
          ends = end;
          small = small;
          adds = λ x ne. (
            inl,
            elim [
              | inl h ↦ h
              | inr k ↦ elim k [
                | inl t ↦ elim t [
                  | inl l ↦ absurd (ne (l.1 ∙ is_blank-eq m.literal empty))
                  | inr r ↦ absurd (false≢true (sym r.0 ∙ b))
                ]
                | inr g ↦ absurd (false≢true (sym g.0 ∙ b))
              ]
            ],
          );
        }
    | inr full ↦
        let (end, small) = capped_inv (out ++ m.literal ∷ []) go ss (rw full at e) in
        record {
          now = out ++ m.literal ∷ [];
          found = λ b' d. absurd (false≢true (sym b' ∙ b));
          ends = end;
          small = small;
          adds = λ x ne. (
            λ h. elim (Holds-append x out (m.literal ∷ []) h) [
              | inl k ↦ inl k
              | inr k ↦ elim k [
                | inl same ↦ inr (inl (inl (b, same)))
                | inr no_more ↦ absurd no_more
              ]
            ],
            elim [
              | inl h ↦ Holds-append_left x out (m.literal ∷ []) h
              | inr k ↦ elim k [
                | inl t ↦ elim t [
                  | inl l ↦ Holds-append_right x out (m.literal ∷ []) (inl l.1)
                  | inr r ↦ absurd (false≢true (sym r.0 ∙ b))
                ]
                | inr g ↦ absurd (false≢true (sym g.0 ∙ b))
              ]
            ],
          );
        }
  ]

  add_name_inv :
      is_blank m.ref ≡ false
      → is_defined table m.ref ≡ false
      → capped (out ++ m.ref ∷ []) go ≡ resolved ss
      → Continues table deeper m out go ss
  add_name_inv b d e =
      let (end, small) = capped_inv (out ++ m.ref ∷ []) go ss e in
      record {
        now = out ++ m.ref ∷ [];
        found = λ b' d'. absurd (false≢true (sym d ∙ d'));
        ends = end;
        small = small;
        adds = λ x ne. (
          λ h. elim (Holds-append x out (m.ref ∷ []) h) [
            | inl k ↦ inl k
            | inr k ↦ elim k [
              | inl same ↦ inr (inl (inr (b, d, same)))
              | inr no_more ↦ absurd no_more
            ]
          ],
          elim [
            | inl h ↦ Holds-append_left x out (m.ref ∷ []) h
            | inr k ↦ elim k [
              | inl t ↦ elim t [
                | inl l ↦ absurd (false≢true (sym b ∙ l.0))
                | inr r ↦ Holds-append_right x out (m.ref ∷ []) (inl r.2)
              ]
              | inr g ↦ absurd (false≢true (sym d ∙ g.1))
            ]
          ],
        );
      }

  add_sub_inv :
      (sub : Resolved)
      → deeper m.ref ≡ sub
      → is_blank m.ref ≡ false
      → is_defined table m.ref ≡ true
      → with_sub out go sub ≡ resolved ss
      → Continues table deeper m out go ss
  unfolding with_sub
  add_sub_inv too_many s b d e = cc
  add_sub_inv out_of_fuel s b d e = cc
  add_sub_inv (resolved more) s b d e =
      let (end, small) = capped_inv (out ++ more) go ss e in
      record {
        now = out ++ more;
        found = λ b' d'. (more, s);
        ends = end;
        small = small;
        adds = λ x ne. (
          λ h. elim (Holds-append x out more h) [
            | inl k ↦ inl k
            | inr k ↦ inr (inr (b, d, subst (λ r. Gives r x) (sym s) k))
          ],
          elim [
            | inl h ↦ Holds-append_left x out more h
            | inr k ↦ elim k [
              | inl t ↦ elim t [
                | inl l ↦ absurd (false≢true (sym b ∙ l.0))
                | inr r ↦ absurd (false≢true (sym r.1 ∙ d))
              ]
              | inr g ↦ Holds-append_right x out more (subst (λ r. Gives r x) s g.2)
            ]
          ],
        );
      }

  pub add_member_inv :
      add_member table deeper m out go ≡ resolved ss → Continues table deeper m out go ss
  unfolding add_member
  add_member_inv e = elim (Bool-cases (is_blank m.ref)) [
    | inl b ↦ add_literal_inv b (sym (if_eq (is_blank m.ref) _ _ b) ∙ e)
    | inr b ↦ elim (Bool-cases (is_defined table m.ref)) [
      | inl d ↦
          add_sub_inv (deeper m.ref) refl b d
            (sym (if_false (is_blank m.ref) _ _ b ∙ if_eq (is_defined table m.ref) _ _ d) ∙ e)
      | inr d ↦
          add_name_inv b d
            (sym (if_false (is_blank m.ref) _ _ b ∙ if_false (is_defined table m.ref) _ _ d) ∙ e)
    ]
  ]
