-- ===== src/Fwparse/Resolving.antt =====
-- `resolve` gives the texts that there is a way to, and no more than the cap.
use rulehawk.Fwparse.Members.{
  Defs, Resolved, resolved, resolve, Member, too_many, is_defined, out_of_fuel, max_expand,
}
use rulehawk.Fwparse.Ways.{
  IsText, RefersTo, members_in, Way, Way_once, Way_weaken, here, step, Way_not_empty,
}
use rulehawk.Fwparse.Expansion.{Gives}
use rulehawk.Fwparse.Reachable.{Contributes, resolve-Settles}
use rulehawk.Common.Text.{Text}
use rulehawk.Common.{
  List, ℕ, Any, All, ◌≡◌, Holds, ◌⊎◌, ◌∷◌, false, suc, inl, Bool-cases, inr, true, subst, ap, if_eq,
  [], ◌∙◌, false≢true, refl, sym, zero, any, length, ◌≤◌, ◌↔◌,
}
use rulehawk.Fwparse.Base.{is_blank}
use rulehawk.Fwrule.Rule.{one_of}
use rulehawk.Fwparse.Texts.{one_of-Holds}

module _ (table : Defs) (deeper : Text → Resolved) (x : Text) where
  Behind : List Member → Type 0
  Behind ms = (r : Text) × (Any (RefersTo table r) ms × Gives (deeper r) x)

  -- What a list of members contributes is a text of a member, or comes from a name that one refers to.
  Any-split :
      (ms : List Member) → Any (Contributes table deeper x) ms → Any (IsText table x) ms ⊎ Behind ms
  unfolding Behind
  Any-split [] h = absurd h
  Any-split (m ∷ ms) h = elim h [
    | inl c ↦ elim c [ inl t ↦ inl (inl t) | inr g ↦ inr (m.ref, (inl (g.0, refl, g.1), g.2)) ]
    | inr k ↦ elim (Any-split ms k) [ inl t ↦ inl (inr t) | inr b ↦ inr (b.0, (inr b.1.0, b.1.1)) ]
  ]

  Any-text : (ms : List Member) → Any (IsText table x) ms → Any (Contributes table deeper x) ms
  Any-text [] h = absurd h
  Any-text (m ∷ ms) h = elim h [ inl t ↦ inl (inl t) | inr k ↦ inr (Any-text ms k) ]

  Found : Member → Type 0
  Found m =
      is_blank m.ref ≡ false
      → is_defined table m.ref ≡ true
      → (sub : List Text) × (deeper m.ref ≡ resolved sub)

  -- A name that a member refers to was resolved, and what it gives is contributed.
  Any-behind :
      (r : Text) (ms : List Member)
      → All Found ms
      → Any (RefersTo table r) ms
      → ((sub : List Text) → deeper r ≡ resolved sub → Holds x sub)
      → Any (Contributes table deeper x) ms
  unfolding Found
  Any-behind r [] all h k = absurd h
  Any-behind r (m ∷ ms) all h k = elim h [
    | inl t ↦
        let same = t.1 in
        let d : is_defined table m.ref ≡ true = ap (is_defined table) same ∙ t.2 in
        let got = all.0 t.0 d in
        let e : deeper r ≡ resolved got.0 = ap deeper (sym same) ∙ got.1 in
        inl (inr (t.0, d, subst (λ q. Gives q x) (sym got.1) (k got.0 e)))
    | inr more ↦ inr (Any-behind r ms all.1 more k)
  ]

Gives-some :
    (r : Resolved) (x : Text) → Gives r x → (ss : List Text) × ((r ≡ resolved ss) × Holds x ss)
Gives-some (resolved ss) x g = (ss, (refl, g))
Gives-some too_many x g = absurd g
Gives-some out_of_fuel x g = absurd g

module _ (table : Defs) where
  seen_or_not : (seen : List Text) (name : Text) → Holds name seen ⊎ (one_of seen name ≡ false)
  seen_or_not seen name = elim (Bool-cases (one_of seen name)) [
    | inl y ↦ inl ((one_of-Holds seen name).0 y)
    | inr n ↦ inr n
  ]

  resolve_sound :
      (fuel : ℕ) (seen : List Text) (x name : Text)
      → Gives (resolve fuel table seen name) x
      → (¬ Holds name seen) × Way table seen x name
  unfolding resolve Behind
  resolve_sound zero seen x name g = absurd g
  resolve_sound (suc fuel) seen x name g = elim (Bool-cases (one_of seen name)) [
    | inl y ↦ absurd (subst (λ r. Gives r x) (if_eq (one_of seen name) _ _ y) g)
    | inr n ↦ (
      λ h. false≢true (sym n ∙ (one_of-Holds seen name).1 h),
      let got = Gives-some (resolve (suc fuel) table seen name) x g in
          let s = resolve-Settles table fuel seen name got.0 n got.1.0 in
          let k = (s.holds x).0 got.1.1 in
          elim k.1 [
            | inl bad ↦ absurd bad
            | inr c ↦
                elim (Any-split table (resolve fuel table (name ∷ seen)) x (members_in table name)
                  c) [
                    | inl t ↦ here k.0 t
                    | inr b ↦
                        let (out, w) = resolve_sound fuel (name ∷ seen) x b.0 b.1.1 in
                        step b.0 b.1.0 (λ q. out (inr q)) (Way_weaken table seen x name w)
                  ]
          ],
    )
  ]

  resolve_complete :
      (fuel : ℕ) (seen : List Text) (x name : Text) (ss : List Text)
      → ¬ Holds name seen
      → resolve fuel table seen name ≡ resolved ss
      → Way table seen x name
      → Holds x ss
  unfolding resolve Found
  resolve_complete zero seen x name ss out e w = cc
  resolve_complete (suc fuel) seen x name ss out e w = elim (seen_or_not seen name) [
    | inl h ↦ absurd (out h)
    | inr n ↦
        let s = resolve-Settles table fuel seen name ss n e in
        let deeper = resolve fuel table (name ∷ seen) in
        elim (Way_once table seen x name w) [
          | here p a ↦ (s.holds x).1 (p, inr (Any-text table deeper x (members_in table name) a))
          | step r a far w' ↦ (s.holds x).1 (
            Way_not_empty table (name ∷ seen) x w',
            inr (
                Any-behind table deeper x r (members_in table name) s.all_found a
                  (λ sub e'. resolve_complete fuel (name ∷ seen) x r sub far e' w')),
          )
        ]
  ]

  resolve_small :
      (fuel : ℕ) (name : Text) (ss : List Text)
      → resolve fuel table [] name ≡ resolved ss
      → length ss ≤ max_expand
  unfolding one_of any resolve
  resolve_small zero name ss e = cc
  resolve_small (suc fuel) name ss e = (resolve-Settles table fuel [] name ss refl e).small

  -- Where a reference resolves, within whatever fuel, it resolves to at most 256 texts, which are exactly
  -- those that there is a way to from it through the definitions, one definition after another.
  pub resolve-Way :
      (fuel : ℕ) (name : Text) (ss : List Text)
      → resolve fuel table [] name ≡ resolved ss
      → (length ss ≤ max_expand) × ((x : Text) → Holds x ss ↔ Way table [] x name)
  resolve-Way fuel name ss e = (
    resolve_small fuel name ss e,
    λ x. (
      λ h. (resolve_sound fuel [] x name (subst (λ r. Gives r x) (sym e) h)).1,
      λ w. resolve_complete fuel [] x name ss (λ h. absurd h) e w,
    ),
  )
