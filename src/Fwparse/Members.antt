-- ===== src/Fwparse/Members.antt =====
-- fwparse/ciscoasa_objects.go: the members of objects and groups, and how a reference expands. Go's maps
-- are lists of keys and values.
use rulehawk.Common.{
  List, ℕ, Option, [], none, Bool, some, ◌∷◌, if◌then◌else◌, ◌++◌, suc, false, ltb, length, not,
  true, zero,
}
use rulehawk.Common.Text.{Text, text_eq}
use rulehawk.Fwparse.Base.{dedupe_strings, is_blank}
use rulehawk.Fwrule.Rule.{one_of}

-- `asaMaxExpand`
abbrev pub max_expand : ℕ
max_expand = 256

-- `asaMember`: an empty `ref` is a literal.
pub record Member : Type 0 where
  pub literal : Text
  pub ref : Text

abbrev pub Defs : Type 0
Defs = List (Text × List Member)

-- `table[name]`, with whether the name is defined.
unfoldable pub members_of : Defs → Text → Option (List Member)
members_of [] name = none
members_of (d ∷ table) name = if text_eq d.0 name then some d.1 else members_of table name

unfoldable pub is_defined : Defs → Text → Bool
is_defined table name = elim (members_of table name) [ none ↦ false | some ms ↦ true ]

unfoldable pub members : Option (List Member) → List Member
members none = []
members (some ms) = ms

-- `table[name] = append(table[name], ms...)`, where a missing name is defined.
unfoldable pub append_members : Defs → Text → List Member → Defs
append_members [] name ms = (name, ms) ∷ []
append_members (d ∷ table) name ms =
    let rest = append_members table name ms in
    if text_eq d.0 name then (d.0, d.1 ++ ms) ∷ table else d ∷ rest

-- What `resolve` returns: the members, or that there are too many. The model may run out of fuel.
pub data Resolved : Type 0 where
  resolved : List Text → Resolved
  too_many : Resolved
  out_of_fuel : Resolved

-- The test behind each round of the loop of `resolve`.
unfoldable pub capped : List Text → (List Text → Resolved) → Resolved
capped out go = if ltb max_expand (length out) then too_many else go out

unfoldable pub with_sub : List Text → (List Text → Resolved) → Resolved → Resolved
unfolding capped
with_sub out go (resolved sub) = capped (out ++ sub) go
with_sub out go too_many = too_many
with_sub out go out_of_fuel = out_of_fuel

-- What one member adds to the texts so far, and then the loop goes on; `deeper` resolves a reference.
unfoldable pub add_member :
    Defs → (Text → Resolved) → Member → List Text → (List Text → Resolved) → Resolved
unfolding capped with_sub
add_member table deeper m out go =
    if is_blank m.ref
    then capped (if is_blank m.literal then out else out ++ m.literal ∷ []) go
    else if is_defined table m.ref
    then with_sub out go (deeper m.ref)
    else capped (out ++ m.ref ∷ []) go

-- The loop of `resolve`.
unfoldable pub add_members : Defs → (Text → Resolved) → List Member → List Text → Resolved
unfolding add_member
add_members table deeper [] out = resolved (dedupe_strings out)
add_members table deeper (m ∷ ms) out =
    add_member table deeper m out (λ out'. add_members table deeper ms out')

-- `resolve`, with the names on the way to this one.
unfoldable pub resolve : ℕ → Defs → List Text → Text → Resolved
resolve zero table seen name = out_of_fuel
resolve (suc fuel) table seen name =
    let walk =
      add_members table (resolve fuel table (name ∷ seen)) (members (members_of table name)) [] in
    if one_of seen name then resolved [] else walk

-- The way to a name has each defined name once at most.
abbrev pub enough : Defs → ℕ
enough table = suc (length table)

-- `asaObjects`
pub record Objects : Type 0 where
  pub nets : Defs
  pub svcs : Defs
  pub net_cache : List (Text × List Text)
  pub svc_cache : List (Text × List Text)

abbrev pub no_objects : Objects
no_objects = record { nets = []; svcs = []; net_cache = []; svc_cache = [] }

unfoldable pub has_net : Objects → Text → Bool
has_net o name = is_defined o.nets name

unfoldable pub has_svc : Objects → Text → Bool
has_svc o name = is_defined o.svcs name

-- A reference that does not resolve, or resolves to nothing, keeps its name.
unfoldable pub or_name : Text → Resolved → List Text
or_name name (resolved (s ∷ ss)) = s ∷ ss
or_name name (resolved []) = name ∷ []
or_name name too_many = name ∷ []
or_name name out_of_fuel = name ∷ []

unfoldable pub cached : List (Text × List Text) → Text → Option (List Text)
cached [] name = none
cached (c ∷ cache) name = if text_eq c.0 name then some c.1 else cached cache name

-- `expand` on one table and its cache.
unfoldable pub expand_in :
    Defs → List (Text × List Text) → Text → List Text × List (Text × List Text)
expand_in table cache name =
    if not (is_defined table name) then (name ∷ [], cache) else elim (cached cache name) [
      | some got ↦ (got, cache)
      | none ↦
          let out = or_name name (resolve (enough table) table [] name) in
          (out, (name, out) ∷ cache)
    ]

-- `expandNet`
unfoldable pub expand_net : Objects → Text → List Text × Objects
expand_net o name =
    let both = expand_in o.nets o.net_cache name in (both.0, record o { net_cache = both.1 })

-- `expandSvc`
unfoldable pub expand_svc : Objects → Text → List Text × Objects
expand_svc o name =
    let both = expand_in o.svcs o.svc_cache name in (both.0, record o { svc_cache = both.1 })
