-- ===== src/Fwparse/Ending.antt =====
-- `resolve` ends: no way through the definitions is longer than their number.
use rulehawk.Fwparse.Members.{
  Defs, Member, Resolved, resolved, resolve, enough, is_defined, out_of_fuel, members_of,
  add_members, add_member, capped, with_sub, members, max_expand, too_many,
}
use rulehawk.Common.{
  List, ℕ, ◌∷◌, any, ◌≢◌, ◌<◌, if◌then◌else◌, [], ◌≤◌, suc, ◌≡◌, arith, length, false, ap, true,
  false≢true, refl, Bool-cases, ltb, ◌++◌, inl, sym, inr, ◌∙◌, if_eq, if_false, zero, Option, Bool,
  some, none,
}
use rulehawk.Fwrule.Rule.{one_of}
use rulehawk.Common.Text.{Text, text_eq, text_eq→eq}
use rulehawk.Fwparse.Base.{is_blank}

-- The definitions whose names are not among `seen`.
unfoldable fresh : List Text → Defs → ℕ
fresh seen [] = 0
fresh seen (d ∷ table) = if one_of seen d.0 then fresh seen table else suc (fresh seen table)

fresh_none : (table : Defs) → fresh [] table ≡ length table
unfolding fresh one_of any
fresh_none [] = refl
fresh_none (d ∷ table) = ap suc (fresh_none table)

unfoldable is_some : Option (List Member) → Bool
is_some o = elim o [ none ↦ false | some ms ↦ true ]

none-members : (o : Option (List Member)) → is_some o ≡ false → members o ≡ []
unfolding is_some members
none-members none e = refl
none-members (some ms) e = cc

module _ (seen : List Text) (name : Text) where
  fresh_fewer : (table : Defs) → fresh (name ∷ seen) table ≤ fresh seen table
  unfolding fresh one_of any
  fresh_fewer [] = omega arith
  fresh_fewer (d ∷ table) = ground (arith, fresh_fewer table)

  is_defined_later :
      (e : Text × List Member) (table : Defs) (n : Text)
      → text_eq e.0 n ≡ false
      → is_defined (e ∷ table) n ≡ is_defined table n
  unfolding is_defined members_of is_some
  is_defined_later e table n other = ap is_some (if_false (text_eq e.0 n) _ _ other)

  -- A defined name that was not seen is one definition less to see.
  fresh_less :
      (table : Defs)
      → one_of seen name ≡ false
      → is_defined table name ≡ true
      → fresh (name ∷ seen) table < fresh seen table
  unfolding fresh one_of any is_defined members_of
  fresh_less [] n d = absurd (false≢true d)
  fresh_less (e ∷ table) n d = elim (Bool-cases (text_eq e.0 name)) [
    | inl y ↦
        let same = text_eq→eq e.0 name y in
        let n' : one_of seen e.0 ≡ false = ap (one_of seen) same ∙ n in
        ground (arith, fresh_fewer table, n', y)
    | inr other ↦
        let d' : is_defined table name ≡ true = rw (is_defined_later e table name other) at d in
        ground (arith, fresh_less table n d', other)
  ]

module _ (table : Defs) (deeper : Text → Resolved)
    (ends : (r : Text) → deeper r ≢ out_of_fuel) where
  capped-ends :
      (out : List Text) (go : List Text → Resolved)
      → ((o : List Text) → go o ≢ out_of_fuel)
      → capped out go ≢ out_of_fuel
  unfolding capped
  capped-ends out go goes e = elim (Bool-cases (ltb max_expand (length out))) [
    | inl big ↦ let bad = rw big at e in cc
    | inr small ↦ let end = rw small at e in goes out end
  ]

  with_sub-ends :
      (out : List Text) (go : List Text → Resolved) (sub : Resolved)
      → ((o : List Text) → go o ≢ out_of_fuel)
      → sub ≢ out_of_fuel
      → with_sub out go sub ≢ out_of_fuel
  unfolding with_sub
  with_sub-ends out go (resolved more) goes n e = capped-ends (out ++ more) go goes e
  with_sub-ends out go too_many goes n e = cc
  with_sub-ends out go out_of_fuel goes n e = n e

  add_member-ends :
      (m : Member) (out : List Text) (go : List Text → Resolved)
      → ((o : List Text) → go o ≢ out_of_fuel)
      → add_member table deeper m out go ≢ out_of_fuel
  unfolding add_member
  add_member-ends m out go goes e = elim (Bool-cases (is_blank m.ref)) [
    | inl b ↦ capped-ends _ go goes (sym (if_eq (is_blank m.ref) _ _ b) ∙ e)
    | inr b ↦ elim (Bool-cases (is_defined table m.ref)) [
      | inl d ↦
          with_sub-ends out go (deeper m.ref) goes (ends m.ref)
            (sym (if_false (is_blank m.ref) _ _ b ∙ if_eq (is_defined table m.ref) _ _ d) ∙ e)
      | inr d ↦
          capped-ends _ go goes
            (sym (if_false (is_blank m.ref) _ _ b ∙ if_false (is_defined table m.ref) _ _ d) ∙ e)
    ]
  ]

  add_members-ends :
      (ms : List Member) (out : List Text) → add_members table deeper ms out ≢ out_of_fuel
  unfolding add_members
  add_members-ends [] out e = cc
  add_members-ends (m ∷ ms) out e =
      absurd
        (add_member-ends m out (λ out'. add_members table deeper ms out') (add_members-ends ms) e)

module _ (table : Defs) where
  not_defined :
      (name : Text) (fuel : ℕ) (seen : List Text)
      → is_defined table name ≡ false
      → add_members table (resolve fuel table (name ∷ seen)) (members (members_of table name)) []
        ≢ out_of_fuel
  unfolding is_defined add_members is_some
  not_defined name fuel seen d e =
      let none_there = none-members (members_of table name) d in let end = rw none_there at e in cc

  resolve_ends :
      (fuel : ℕ) (seen : List Text) (name : Text)
      → fresh seen table < fuel
      → resolve fuel table seen name ≢ out_of_fuel
  unfolding resolve
  resolve_ends zero seen name few e = omega (arith, few)
  resolve_ends (suc fuel) seen name few e = elim (Bool-cases (one_of seen name)) [
    | inl y ↦ let bad = rw y at e in cc
    | inr n ↦
        let loop = sym (if_false (one_of seen name) _ _ n) ∙ e in
        elim (Bool-cases (is_defined table name)) [
          | inl d ↦
              add_members-ends table (resolve fuel table (name ∷ seen))
                (λ r.
                  resolve_ends fuel (name ∷ seen) r
                    (omega (arith, few, fresh_less seen name table n d)))
                (members (members_of table name)) [] loop
          | inr d ↦ not_defined name fuel seen d loop
        ]
  ]

  -- With one round more than there are definitions, `resolve` does not run out of fuel: resolving a
  -- reference ends, whatever refers to whatever, in a circle too.
  pub resolve-enough : (name : Text) → resolve (enough table) table [] name ≢ out_of_fuel
  resolve-enough name = resolve_ends (enough table) [] name (omega (arith, fresh_none table))
