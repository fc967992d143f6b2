-- ===== src/Fwparse/Caching.antt =====
-- `expand` with its cache: a reference expands to what it resolves to.
use rulehawk.Fwparse.Members.{Defs, resolve, or_name, cached, expand_in, enough, is_defined}
use rulehawk.Common.Text.{Text, text_eq, text_eq→eq}
use rulehawk.Common.{
  List, [], if◌then◌else◌, ◌≡◌, not, some, ◌∷◌, Bool-cases, inr, inl, Option-cases, refl, sym,
  if_eq, ◌∙◌, ap, if_false,
}

some_inj : {a b : List Text} → some a ≡ some b → a ≡ b
some_inj e = cc

module _ (table : Defs) where
  -- What a reference expands to, without the cache.
  unfoldable pub uncached : Text → List Text
  uncached name =
      if not (is_defined table name)
      then name ∷ []
      else or_name name (resolve (enough table) table [] name)

  -- Every entry of the cache is what its name expands to.
  abbrev pub IsCache : List (Text × List Text) → Type 0
  IsCache cache =
      (name : Text) (got : List Text)
      → cached cache name ≡ some got
      → got ≡ or_name name (resolve (enough table) table [] name)

  IsCache-none : IsCache []
  unfolding cached
  IsCache-none name got e = cc

  IsCache-more :
      (cache : List (Text × List Text)) (name : Text)
      → IsCache cache
      → IsCache ((name, or_name name (resolve (enough table) table [] name)) ∷ cache)
  unfolding cached
  IsCache-more cache name ok other got e = elim (Bool-cases (text_eq name other)) [
    | inl y ↦
        let same = text_eq→eq name other y in
        let e' : or_name name (resolve (enough table) table [] name) ≡ got =
          some_inj (sym (if_eq (text_eq name other) _ _ y) ∙ e) in
        sym e' ∙ ap (λ n. or_name n (resolve (enough table) table [] n)) same
    | inr n ↦ ok other got (sym (if_false (text_eq name other) _ _ n) ∙ e)
  ]

  -- With a cache whose entries are what their names expand to, a reference expands to what it expands
  -- to without one, and the cache that is left is such a cache again.
  pub expand_in-uncached :
      (cache : List (Text × List Text)) (name : Text)
      → IsCache cache
      → ((expand_in table cache name).0 ≡ uncached name) × IsCache (expand_in table cache name).1
  unfolding expand_in uncached
  expand_in-uncached cache name ok = elim (Bool-cases (is_defined table name)) [
    | inr n ↦ rw n (refl, ok)
    | inl y ↦ elim (Option-cases (cached cache name)) [
      | inl missing ↦ rw (y, missing) (refl, IsCache-more cache name ok)
      | inr hit ↦ rw (y, hit.1) (ok name hit.0 hit.1, ok)
    ]
  ]
