-- ===== src/Fwrule/Index/Addrs/Laws.antt =====
-- The address dimension keeps its lists ascending, and its query misses no covering address list.
use rulehawk.Common.{
  ℕ, List, Bool, All, Option, Holds, suc, ◌∷◌, ◌≡◌, Bool-cases, true, ◌∙◌, [], some, arith, inl,
  refl, none, not, inr, if◌then◌else◌, All-map,
}
use rulehawk.Common.Text.{Text, text_eq, text_eq_refl}
use rulehawk.Fwrule.Index.Addrs.{
  AddrDim, net_key_eq, add_canon, add_addr, add_each, add_addrs, set_len, NetKey, Canon, norm,
  canon_of, any_addr, put_at, push, cidr_key,
}
use rulehawk.Fwrule.Postings.Sorted.{
  Sorted, Sorted-suc, push-Sorted, Holds-push_new, Holds-push_old,
}
use rulehawk.Fwrule.Index.Table.{Holds-put_at_new, put_at-Sorted, Holds-put_at_old}
use rulehawk.Fwrule.Rule.{to_net}
use rulehawk.Net.Prefix.{is_mapped}

-- The element parses to no network of IPv4 addresses mapped into IPv6.
unfoldable pub is_plain : Text → Bool
is_plain a = elim (to_net a) [ none ↦ true | some n ↦ not (is_mapped n.ip) ]

abbrev pub IsClean : List Text → Type 0
IsClean addrs = All (λ a. is_plain a ≡ true) addrs

pub record IsSorted (P : ℕ → Type 0) (n : ℕ) (d : AddrDim) : Type 0 where
  pub any_sorted : Sorted P 0 n d.any_list
  pub net_sorted : (k : NetKey) → Sorted P 0 n (d.net k)
  pub str_sorted : (k : Text) → Sorted P 0 n (d.str k)

-- The position is listed under the network.
abbrev pub HasCanon : AddrDim → ℕ → Option Canon → Type 0
HasCanon d j none = Unit
HasCanon d j (some c) =
    Holds j (d.net (cidr_key c.addr c.ones c.fam)) × (d.lens c.fam c.ones ≡ true)

abbrev pub HasAddr : AddrDim → ℕ → Text → Type 0
HasAddr d j a = Holds j (d.str (norm a)) × HasCanon d j (canon_of a)

abbrev pub Has : AddrDim → ℕ → List Text → Type 0
Has d j addrs = if any_addr addrs then Holds j d.any_list else All (HasAddr d j) addrs

net_key_eq_refl : (k : NetKey) → net_key_eq k k ≡ true
unfolding net_key_eq
net_key_eq_refl k = ground arith

-- Growth keeps the lists in order.

module _ (P : ℕ → Type 0) (n : ℕ) where
  pub skip-IsSorted : (d : AddrDim) → IsSorted P n d → IsSorted P (suc n) d
  skip-IsSorted d s = record {
    any_sorted = Sorted-suc P 0 n d.any_list s.any_sorted;
    net_sorted = λ k. Sorted-suc P 0 n (d.net k) (s.net_sorted k);
    str_sorted = λ k. Sorted-suc P 0 n (d.str k) (s.str_sorted k);
  }

  add_canon-IsSorted :
      (d : AddrDim) (c : Option Canon)
      → P n
      → IsSorted P (suc n) d
      → IsSorted P (suc n) (add_canon d n c)
  unfolding add_canon
  add_canon-IsSorted d none p s = s
  add_canon-IsSorted d (some c) p s = record {
    any_sorted = s.any_sorted;
    net_sorted = put_at-Sorted net_key_eq P n d.net (cidr_key c.addr c.ones c.fam) p s.net_sorted;
    str_sorted = s.str_sorted;
  }

  add_addr-IsSorted :
      (d : AddrDim) (a : Text) → P n → IsSorted P (suc n) d → IsSorted P (suc n) (add_addr d n a)
  unfolding add_addr
  add_addr-IsSorted d a p s = add_canon-IsSorted _ (canon_of a) p (record {
    any_sorted = s.any_sorted;
    net_sorted = s.net_sorted;
    str_sorted = put_at-Sorted text_eq P n d.str (norm a) p s.str_sorted;
  })

  add_each-IsSorted :
      (d : AddrDim) (addrs : List Text)
      → P n
      → IsSorted P (suc n) d
      → IsSorted P (suc n) (add_each d n addrs)
  unfolding add_each
  add_each-IsSorted d [] p s = s
  add_each-IsSorted d (a ∷ addrs) p s =
      add_each-IsSorted (add_addr d n a) addrs p (add_addr-IsSorted d a p s)

  pub add_addrs-IsSorted :
      (d : AddrDim) (addrs : List Text)
      → P n
      → IsSorted P n d
      → IsSorted P (suc n) (add_addrs d n addrs)
  unfolding add_addrs
  add_addrs-IsSorted d addrs p s = elim (Bool-cases (any_addr addrs)) [
    | inl e ↦ rw e (record {
      any_sorted = push-Sorted P 0 n d.any_list (omega arith) p s.any_sorted;
      net_sorted = (skip-IsSorted d s).net_sorted;
      str_sorted = (skip-IsSorted d s).str_sorted;
    })
    | inr e ↦ rw e (add_each-IsSorted d addrs p (skip-IsSorted d s))
  ]

-- What was added stays, and what is added is there.

set_len-true : (lens : ℕ → ℕ → Bool) (f o g p : ℕ) → lens g p ≡ true → set_len lens f o g p ≡ true
unfolding set_len
set_len-true lens f o g p h = ground arith

set_len-set : (lens : ℕ → ℕ → Bool) (f o : ℕ) → set_len lens f o f o ≡ true
unfolding set_len
set_len-set lens f o = ground arith

HasCanon-add_canon :
    (d : AddrDim) (j n : ℕ) (c b : Option Canon) → HasCanon d j b → HasCanon (add_canon d n c) j b
unfolding add_canon
HasCanon-add_canon d j n none b h = h
HasCanon-add_canon d j n (some c) none h = tt
HasCanon-add_canon d j n (some c) (some b) h = (
  Holds-put_at_old net_key_eq j n d.net _ _ h.0,
  set_len-true d.lens c.fam c.ones b.fam b.ones h.1,
)

str-add_canon : (d : AddrDim) (n : ℕ) (c : Option Canon) → (add_canon d n c).str ≡ d.str
unfolding add_canon
str-add_canon d n none = refl
str-add_canon d n (some c) = refl

any_list-add_canon :
    (d : AddrDim) (n : ℕ) (c : Option Canon) → (add_canon d n c).any_list ≡ d.any_list
unfolding add_canon
any_list-add_canon d n none = refl
any_list-add_canon d n (some c) = refl

HasAddr-add_addr_old :
    (d : AddrDim) (j n : ℕ) (a b : Text) → HasAddr d j b → HasAddr (add_addr d n a) j b
unfolding add_addr
HasAddr-add_addr_old d j n a b h = (
  rw str-add_canon (Holds-put_at_old text_eq j n d.str (norm a) (norm b) h.0),
  HasCanon-add_canon (record d { str = put_at text_eq d.str (norm a) n }) j n (canon_of a)
      (canon_of b) (HasCanon_str (canon_of b) h.1),
)
  where
    HasCanon_str :
        (c : Option Canon)
        → HasCanon d j c
        → HasCanon (record d { str = put_at text_eq d.str (norm a) n }) j c
    HasCanon_str none k = tt
    HasCanon_str (some c) k = k

HasCanon-add_canon_new : (d : AddrDim) (n : ℕ) (c : Option Canon) → HasCanon (add_canon d n c) n c
unfolding add_canon
HasCanon-add_canon_new d n none = tt
HasCanon-add_canon_new d n (some c) =
    (Holds-put_at_new net_key_eq n d.net _ (net_key_eq_refl _), set_len-set d.lens c.fam c.ones)

HasAddr-add_addr_new : (d : AddrDim) (n : ℕ) (a : Text) → HasAddr (add_addr d n a) n a
unfolding add_addr
HasAddr-add_addr_new d n a = (
  rw str-add_canon (Holds-put_at_new text_eq n d.str (norm a) (text_eq_refl (norm a))),
  HasCanon-add_canon_new _ n (canon_of a),
)

HasAddr-add_each_old :
    (d : AddrDim) (j n : ℕ) (addrs : List Text) (b : Text)
    → HasAddr d j b
    → HasAddr (add_each d n addrs) j b
unfolding add_each
HasAddr-add_each_old d j n [] b h = h
HasAddr-add_each_old d j n (a ∷ addrs) b h =
    HasAddr-add_each_old (add_addr d n a) j n addrs b (HasAddr-add_addr_old d j n a b h)

HasAddr-add_each_new :
    (d : AddrDim) (n : ℕ) (addrs : List Text) → All (HasAddr (add_each d n addrs) n) addrs
unfolding add_each
HasAddr-add_each_new d n [] = tt
HasAddr-add_each_new d n (a ∷ addrs) = (
  HasAddr-add_each_old (add_addr d n a) n n addrs a (HasAddr-add_addr_new d n a),
  HasAddr-add_each_new (add_addr d n a) n addrs,
)

any_list-add_each :
    (d : AddrDim) (n : ℕ) (addrs : List Text) → (add_each d n addrs).any_list ≡ d.any_list
unfolding add_each add_addr
any_list-add_each d n [] = refl
any_list-add_each d n (a ∷ addrs) =
    any_list-add_each (add_addr d n a) n addrs ∙ any_list-add_canon _ n (canon_of a)

pub add_addrs-Has_new :
    (d : AddrDim) (n : ℕ) (addrs : List Text) → Has (add_addrs d n addrs) n addrs
unfolding add_addrs
add_addrs-Has_new d n addrs = elim (Bool-cases (any_addr addrs)) [
  | inl e ↦ rw e (Holds-push_new n d.any_list)
  | inr e ↦ rw e (HasAddr-add_each_new d n addrs)
]

pub add_addrs-Has_old :
    (d : AddrDim) (j n : ℕ) (addrs g : List Text) → Has d j g → Has (add_addrs d n addrs) j g
unfolding add_addrs
add_addrs-Has_old d j n addrs g h = elim (Bool-cases (any_addr addrs)) [
  | inl e ↦ elim (Bool-cases (any_addr g)) [
    | inl w ↦ rw (e, w) (Holds-push_old j n d.any_list (rw w at h))
    | inr w ↦ rw (e, w) (All-map _ _ g (λ a k. HasAddr_any a (canon_of a) k) (rw w at h))
  ]
  | inr e ↦ elim (Bool-cases (any_addr g)) [
    | inl w ↦ rw (e, w, any_list-add_each) (rw w at h)
    | inr w ↦ rw (e, w) (All-map _ _ g (HasAddr-add_each_old d j n addrs) (rw w at h))
  ]
]
  where
    HasAddr_any :
        (s : Text) (c : Option Canon)
        → Holds j (d.str (norm s)) × HasCanon d j c
        → Holds j (d.str (norm s)) × HasCanon (record d { any_list = push d.any_list n }) j c
    HasAddr_any s none k = (k.0, tt)
    HasAddr_any s (some c) k = k
