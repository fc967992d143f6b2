-- ===== src/Fwparse/Spelled/Asa.antt =====
-- The rules of an ASA name their addresses: a group that is empty or does not resolve keeps its name.
use rulehawk.Common.{none, some, Option-keeps, cons_not_empty}
use rulehawk.Fwparse.Spelled.Base.{NotEmpty}
use rulehawk.Common.{
  List, Option, ◌≡◌, ◌≢◌, if_keeps, ◌∷◌, some, [], not, Option-cases, Bool-cases, ◌&&◌, inl, subst,
  inr, some_inj, sym, if_eq, ◌∙◌, if_false,
}
use rulehawk.Fwparse.Members.{
  Objects, or_name, cached, expand_in, Defs, expand_net, expand_svc, Resolved, has_svc, resolved,
  is_defined, has_net, too_many, resolve, out_of_fuel, enough,
}
use rulehawk.Fwparse.AsaSpecs.{
  plain_addr, named_addr, object_addr, asa_addr, PortSpec, object_ports, eq_port, range_ports,
  bound_ports, asa_port, AddrSpec, object_words, above, below,
}
use rulehawk.Common.Text.{Text, codes, atoi, text_eq}
use rulehawk.Common.Int.{ℤ}
use rulehawk.Fwparse.MemberLines.{is_ip}
use rulehawk.Fwrule.Rule.{one_of}
use rulehawk.Fwparse.Services.{port_name}

-- No entry of the cache is empty.
abbrev pub IsFull : List (Text × List Text) → Type 0
IsFull cache = (name : Text) (got : List Text) → cached cache name ≡ some got → got ≢ []

abbrev pub IsGood : Objects → Type 0
IsGood o = IsFull o.net_cache × IsFull o.svc_cache

or_name-not_empty : (name : Text) (r : Resolved) → or_name name r ≢ []
unfolding or_name
or_name-not_empty name (resolved (s ∷ ss)) = cons_not_empty
or_name-not_empty name (resolved []) = cons_not_empty
or_name-not_empty name too_many = cons_not_empty
or_name-not_empty name out_of_fuel = cons_not_empty

-- A result with the cache behind it.
abbrev IsExpanded : List Text × List (Text × List Text) → Type 0
IsExpanded both = (both.0 ≢ []) × IsFull both.1

IsFull-more :
    (cache : List (Text × List Text)) (name : Text) (out : List Text)
    → out ≢ []
    → IsFull cache
    → IsFull ((name, out) ∷ cache)
unfolding cached
IsFull-more cache name out ne h other got e = elim (Bool-cases (text_eq name other)) [
  | inl y ↦ subst NotEmpty (some_inj (sym (if_eq (text_eq name other) _ _ y) ∙ e)) ne
  | inr n ↦ h other got (sym (if_false (text_eq name other) _ _ n) ∙ e)
]

expand_in-IsExpanded :
    (table : Defs) (cache : List (Text × List Text)) (name : Text)
    → IsFull cache
    → IsExpanded (expand_in table cache name)
unfolding expand_in
expand_in-IsExpanded table cache name h =
    if_keeps IsExpanded (not (is_defined table name)) _ _ (cons_not_empty, h)
      (elim (Option-cases (cached cache name)) [
        | inl missing ↦ rw missing (
          or_name-not_empty name (resolve (enough table) table [] name),
          IsFull-more cache name _ (or_name-not_empty name (resolve (enough table) table [] name))
              h,
        )
        | inr hit ↦ rw hit.1 (h name hit.0 hit.1, h)
      ])

-- Addresses that were read.
abbrev pub IsAddr : Option AddrSpec → Type 0
IsAddr a = elim a [ none ↦ Unit | some spec ↦ (spec.addrs ≢ []) × IsGood spec.objs ]

plain_addr-IsAddr :
    (t : Text) (toks : List Text) (o : Objects) → IsGood o → IsAddr (plain_addr t toks o)
unfolding plain_addr
plain_addr-IsAddr t [] o h = if_keeps IsAddr (is_ip t) _ _ (cons_not_empty, h) tt
plain_addr-IsAddr t (u ∷ rest) o h =
    if_keeps IsAddr (is_ip t && is_ip u) _ _ (cons_not_empty, h)
      (if_keeps IsAddr (is_ip t) _ _ (cons_not_empty, h) tt)

named_addr-IsAddr : (toks : List Text) (o : Objects) → IsGood o → IsAddr (named_addr toks o)
unfolding named_addr
named_addr-IsAddr [] o h = tt
named_addr-IsAddr (u ∷ rest) o h = (cons_not_empty, h)

object_addr-IsAddr : (toks : List Text) (o : Objects) → IsGood o → IsAddr (object_addr toks o)
unfolding object_addr expand_net
object_addr-IsAddr [] o h = tt
object_addr-IsAddr (u ∷ rest) o h =
    let e = expand_in-IsExpanded o.nets o.net_cache u h.0 in (e.0, (e.1, h.1))

pub asa_addr-IsAddr : (toks : List Text) (o : Objects) → IsGood o → IsAddr (asa_addr toks o)
unfolding asa_addr
asa_addr-IsAddr [] o h = tt
asa_addr-IsAddr (t ∷ rest) o h =
    if_keeps IsAddr (one_of (codes "any" ∷ codes "any4" ∷ codes "any6" ∷ []) t) _ _
      (cons_not_empty, h)
      (if_keeps IsAddr (text_eq t (codes "host")) _ _ (named_addr-IsAddr rest o h) (
        if_keeps IsAddr (one_of object_words t) _ _ (object_addr-IsAddr rest o h) (
          if_keeps IsAddr (text_eq t (codes "interface")) _ _ (named_addr-IsAddr rest o h)
            (plain_addr-IsAddr t rest o h))))

-- The ports leave good objects behind.
abbrev pub IsPort : PortSpec → Type 0
IsPort p = IsGood p.objs

object_ports-IsPort :
    (t : Text) (toks : List Text) (o : Objects) → IsGood o → IsPort (object_ports t toks o)
unfolding object_ports expand_svc
object_ports-IsPort t [] o h = h
object_ports-IsPort t (u ∷ rest) o h =
    if_keeps IsPort (has_svc o u && not (has_net o u)) _ _
      (h.0, (expand_in-IsExpanded o.svcs o.svc_cache u h.1).1) h

eq_port-IsPort : (t : Text) (toks : List Text) (o : Objects) → IsGood o → IsPort (eq_port t toks o)
unfolding eq_port
eq_port-IsPort t [] o h = h
eq_port-IsPort t (u ∷ rest) o h = h

range_ports-IsPort :
    (t : Text) (toks : List Text) (o : Objects) → IsGood o → IsPort (range_ports t toks o)
unfolding range_ports
range_ports-IsPort t [] o h = h
range_ports-IsPort t (u ∷ []) o h = h
range_ports-IsPort t (u ∷ v ∷ rest) o h = h

bound_ports-IsPort :
    (bound : ℤ → Text) (t : Text) (toks : List Text) (o : Objects)
    → IsGood o
    → IsPort (bound_ports bound t toks o)
unfolding bound_ports
bound_ports-IsPort bound t [] o h = h
bound_ports-IsPort bound t (u ∷ rest) o h =
    Option-keeps IsPort (atoi (port_name u)) _ _ (λ e. h) (λ p e. h)

pub asa_port-IsPort : (toks : List Text) (o : Objects) → IsGood o → IsPort (asa_port toks o)
unfolding asa_port
asa_port-IsPort [] o h = h
asa_port-IsPort (t ∷ rest) o h =
    if_keeps IsPort (one_of object_words t) _ _ (object_ports-IsPort t rest o h) (
      if_keeps IsPort (text_eq t (codes "eq")) _ _ (eq_port-IsPort t rest o h) (
        if_keeps IsPort (text_eq t (codes "range")) _ _ (range_ports-IsPort t rest o h) (
          if_keeps IsPort (text_eq t (codes "gt")) _ _ (bound_ports-IsPort above t rest o h) (
            if_keeps IsPort (text_eq t (codes "lt")) _ _ (bound_ports-IsPort below t rest o h) h))))
