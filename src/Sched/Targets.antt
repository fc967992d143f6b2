-- ===== src/Sched/Targets.antt =====
-- sched/scheduler.go: the targets that are listed behind an addition and a removal.
use rulehawk.Sched.Holding.{look_up-put_key, look_up-put_other}
use rulehawk.Common.{
  refl, none, some, List, Holds, ◌≡◌, Option, none_ne_some, map, Option-keeps, inl, ◌∷◌, false,
  if_keeps, Bool-cases, inr, ◌∙◌, sym, [], ap, subst, some_inj, if◌then◌else◌, ◌≢◌, false≢true,
}
use rulehawk.Sched.{
  put_key, remove, Scheduler, with_target, add_target, Target, list_targets, module_of,
  remove_target, snapshot_targets, Registration,
}
use rulehawk.Common.Text.{Text, text_eq, text_eq→eq, text_eq_iff}

put_key-Holds :
    {A : Type 0} (key : Text) (a : A) (table : List (Text × A))
    → Holds a (map (λ (e : Text × A). e.1) (put_key key a table))
unfolding put_key
put_key-Holds key a [] = inl refl
put_key-Holds {A} key a (e ∷ table) =
    if_keeps (λ t. Holds a (map (λ (e : Text × A). e.1) t)) (text_eq e.0 key) _ _ (inl refl)
      (inr (put_key-Holds key a table))

-- The target that a table holds under a key.
unfoldable pub held : List (Text × Target) → Text → Option Target
held [] key = none
held (e ∷ table) key = let rest = held table key in if text_eq e.0 key then some e.1 else rest

not_eq : (a b : Text) → a ≢ b → text_eq a b ≡ false
not_eq a b h = elim (Bool-cases (text_eq a b)) [ inl y ↦ absurd (h (text_eq→eq a b y)) | inr n ↦ n ]

held-put_key :
    (k : Text) (t : Target) (table : List (Text × Target)) (key : Text)
    → held (put_key k t table) key ≡ (if text_eq k key then some t else held table key)
unfolding held put_key
held-put_key k t [] key = refl
held-put_key k t (e ∷ table) key = elim (Bool-cases (text_eq e.0 k)) [
  | inl y ↦
      let same = text_eq→eq e.0 k y in
      rw (y, same) (elim (Bool-cases (text_eq k key)) [ inl z ↦ rw z refl | inr z ↦ rw z refl ])
  | inr n ↦ elim (Bool-cases (text_eq e.0 key)) [
    | inr z ↦ rw (n, z) (held-put_key k t table key)
    | inl z ↦
        let apart : text_eq k key ≡ false =
          not_eq k key
            (λ h. false≢true (sym n ∙ (text_eq_iff e.0 k).1 (text_eq→eq e.0 key z ∙ sym h))) in
        rw (n, z, apart) refl
  ]
]

held-remove :
    (k : Text) (table : List (Text × Target)) (key : Text)
    → held (remove k table) key ≡ (if text_eq k key then none else held table key)
unfolding held remove
held-remove k [] key = elim (Bool-cases (text_eq k key)) [ inl z ↦ rw z refl | inr z ↦ rw z refl ]
held-remove k (e ∷ table) key = elim (Bool-cases (text_eq e.0 k)) [
  | inl y ↦
      let same = text_eq→eq e.0 k y in
      rw (y, same)
        (held-remove k table key
          ∙ elim (Bool-cases (text_eq k key)) [ inl z ↦ rw z refl | inr z ↦ rw z refl ])
  | inr n ↦ elim (Bool-cases (text_eq e.0 key)) [
    | inr z ↦ rw (n, z) (held-remove k table key)
    | inl z ↦
        let apart : text_eq k key ≡ false =
          not_eq k key
            (λ h. false≢true (sym n ∙ (text_eq_iff e.0 k).1 (text_eq→eq e.0 key z ∙ sym h))) in
        rw (n, z, apart) refl
  ]
]

abbrev pub held_in : Text → Option Registration → Option Target
held_in key o = elim o [ none ↦ none | some reg ↦ held reg.targets key ]

-- The target that a module has under a canonical name.
abbrev pub target_at : Scheduler → Text → Text → Option Target
target_at s id key = held_in key (module_of s id)

listing : Option Registration → List Target
listing o = elim o [ none ↦ [] | some reg ↦ snapshot_targets reg ]

list_targets-some :
    (id : Text) (s : Scheduler) (reg : Registration)
    → module_of s id ≡ some reg
    → list_targets id s ≡ map (λ (v : Text × Target). v.1) reg.targets
unfolding list_targets snapshot_targets listing
list_targets-some id s reg e = ap listing e

with_target-same :
    (id : Text) (reg : Registration) (t : Target) (s : Scheduler)
    → module_of (with_target id reg t s) id
      ≡ some (record reg { targets = put_key t.canonical t reg.targets })
unfolding with_target module_of
with_target-same id reg t s = look_up-put_key none _ id s.modules

with_target-other :
    (id : Text) (reg : Registration) (t : Target) (s : Scheduler) (other : Text)
    → text_eq id other ≡ false
    → list_targets other (with_target id reg t s) ≡ list_targets other s
unfolding list_targets with_target module_of listing
with_target-other id reg t s other ne = ap listing (
    look_up-put_other none (some (record reg { targets = put_key t.canonical t reg.targets })) id
      other s.modules ne)

removed-same :
    (id : Text) (reg : Registration) (s : Scheduler)
    → module_of (record s { modules = put_key id (some reg) s.modules }) id ≡ some reg
unfolding module_of
removed-same id reg s = look_up-put_key none (some reg) id s.modules

-- The scheduler with the targets of one module replaced.
abbrev with_targets : Text → Registration → List (Text × Target) → Scheduler → Scheduler
with_targets id reg table s = record s {
  modules = put_key id (some (record reg { targets = table })) s.modules;
}

remove_target-eq :
    (id canonical : Text) (s : Scheduler) (reg : Registration)
    → module_of s id ≡ some reg
    → remove_target id canonical s ≡ with_targets id reg (remove canonical reg.targets) s
unfolding remove_target
remove_target-eq id canonical s reg e =
    ap (λ o. elim o [ none ↦ s | some r ↦ with_targets id r (remove canonical r.targets) s ]) e

-- What a removal leaves of the module's targets, and of those of another module.
remove_target-target_at :
    (id canonical : Text) (s : Scheduler) (reg : Registration) (key : Text)
    → module_of s id ≡ some reg
    → target_at (remove_target id canonical s) id key
      ≡ (if text_eq canonical key then none else target_at s id key)
remove_target-target_at id canonical s reg key e =
    let less : Registration = record reg { targets = remove canonical reg.targets } in
    ap (λ q. target_at q id key) (remove_target-eq id canonical s reg e)
    ∙ ap (held_in key) (removed-same id less s)
    ∙ held-remove canonical reg.targets key
    ∙ ap (λ o. if text_eq canonical key then none else held_in key o) (sym e)

remove_target-other :
    (id canonical : Text) (s : Scheduler) (reg : Registration) (other : Text)
    → module_of s id ≡ some reg
    → text_eq id other ≡ false
    → list_targets other (remove_target id canonical s) ≡ list_targets other s
unfolding list_targets module_of listing
remove_target-other id canonical s reg other e ne =
    ap (list_targets other) (remove_target-eq id canonical s reg e)
    ∙ ap listing (
        look_up-put_other none (some (record reg { targets = remove canonical reg.targets })) id
          other s.modules ne)

module _ (id : Text) (s : Scheduler) where
  -- The targets behind the addition of one, and behind its removal.
  pub record IsHeld (t : Target) (done : Scheduler) : Type 0 where
    added :
        (key : Text)
        → target_at done id key ≡ (if text_eq t.canonical key then some t else target_at s id key)
    removed :
        (key : Text)
        → target_at (remove_target id t.canonical done) id key
          ≡ (if text_eq t.canonical key then none else target_at s id key)
    kept :
        (other : Text)
        → text_eq id other ≡ false
        → list_targets other (remove_target id t.canonical done) ≡ list_targets other s

  -- What a target that was added comes to.
  abbrev IsAdded : Scheduler × Option Target → Type 0
  IsAdded done =
      (t : Target)
      → done.1 ≡ some t
      → Holds t (list_targets id done.0)
        × ((other : Text)
            → text_eq id other ≡ false
            → list_targets other done.0 ≡ list_targets other s)
        × IsHeld t done.0

  not-IsAdded : (r : Scheduler) → IsAdded (r, none)
  not-IsAdded r t e = absurd (none_ne_some e)

  with_target-IsHeld :
      (reg : Registration) (t : Target)
      → module_of s id ≡ some reg
      → IsHeld t (with_target id reg t s)
  with_target-IsHeld reg t e =
      let more : Registration = record reg { targets = put_key t.canonical t reg.targets } in
      let after = with_target-same id reg t s in
      let added : (key : Text)
          → target_at (with_target id reg t s) id key
            ≡ (if text_eq t.canonical key then some t else target_at s id key) =
        λ key. rw (e, after) (held-put_key t.canonical t reg.targets key) in
      record {
        added = added;
        removed = λ key.
            remove_target-target_at id t.canonical (with_target id reg t s) more key after
            ∙ ap (λ o. if text_eq t.canonical key then none else o) (added key)
            ∙ elim (Bool-cases (text_eq t.canonical key)) [ inl z ↦ rw z refl | inr z ↦ rw z refl ];
        kept = λ other ne.
            remove_target-other id t.canonical (with_target id reg t s) more other after ne
            ∙ with_target-other id reg t s other ne;
      }

  with_target-IsAdded :
      (reg : Registration) (t : Target)
      → module_of s id ≡ some reg
      → IsAdded (with_target id reg t s, some t)
  with_target-IsAdded reg t e t' same =
      let more : Registration = record reg { targets = put_key t.canonical t reg.targets } in
      let after = with_target-same id reg t s in
      subst
        (λ (v : Target).
          Holds v (list_targets id (with_target id reg t s))
          × ((other : Text)
              → text_eq id other ≡ false
              → list_targets other (with_target id reg t s) ≡ list_targets other s)
          × IsHeld v (with_target id reg t s))
        (some_inj same)
        (
          subst (Holds t) (sym (list_targets-some id (with_target id reg t s) more after))
              (put_key-Holds t.canonical t reg.targets),
          λ other ne. with_target-other id reg t s other ne,
          with_target-IsHeld reg t e,
        )

  add_target-IsAdded : (raw : Text) → IsAdded (add_target id raw s)
  unfolding add_target
  add_target-IsAdded raw =
      Option-keeps IsAdded (module_of s id) _ _ (λ e. not-IsAdded s)
        (λ reg found.
          Option-keeps IsAdded (reg.collector.validate_target raw) _ _ (λ e. not-IsAdded s)
            (λ t e. with_target-IsAdded reg t found))

  -- A target that `AddTarget` returns is listed for its module and is the module's target under its
  -- canonical name; under every other name the module has the target that it had, and the targets of
  -- every other module stay as they were. A removal of it takes away the target under that name only,
  -- from this module only.
  pub add_target-IsHeld :
      (raw : Text) (t : Target)
      → (add_target id raw s).1 ≡ some t
      → Holds t (list_targets id (add_target id raw s).0)
        × ((other : Text)
            → text_eq id other ≡ false
            → list_targets other (add_target id raw s).0 ≡ list_targets other s)
        × IsHeld t (add_target id raw s).0
  add_target-IsHeld raw t e = add_target-IsAdded raw t e
