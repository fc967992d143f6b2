-- ===== src/Fwrule/Packet/Covers.antt =====
-- `Covers` is sound: a packet that matches the covered rule matches the covering one.
use rulehawk.Common.{
  ℕ, List, ◌≡◌, true, any, Bool-cases, none, some, inl, inr, ◌∷◌, Option-cases, false, ap, arith,
  sym, or-eq-true, ◌∙◌, [], all, subst, and-eq-true,
}
use rulehawk.Fwrule.Rule.{
  iface_covers, proto_covers, one_of, norm, contains_string, iface_words, proto_words,
  range_contains, range_covered_by, port_covered, ports_cover, Rule, PortRange, to_range, to_ranges,
  any_port, covers,
}
use rulehawk.Fwrule.Packet.{Names, in_port, in_range, in_ports, Packet, Matches}
use rulehawk.Common.Text.{Text, lower, text_eq→eq, text_eq}
use rulehawk.Fwrule.Rule.Parsed.{
  port_covered-none, to_ranges-none, port_covered-some, to_ranges-some,
}
use rulehawk.Fwrule.Index.First.{IsPlain, covers-CoversEach}
use rulehawk.Fwrule.Packet.Addrs.{addrs_cover_sound}

iface_covers_trans :
    (a b c : Text) → iface_covers a b ≡ true → iface_covers b c ≡ true → iface_covers a c ≡ true
unfolding iface_covers
iface_covers_trans a b c h k = elim (Bool-cases (one_of iface_words (norm a))) [
  | inl w ↦ rw w
  | inr w ↦
      let same : norm a ≡ norm b = text_eq→eq (norm a) (norm b) (rw w at h) in
      let w' : one_of iface_words (norm b) ≡ false = ap (one_of iface_words) (sym same) ∙ w in
      rw (w, same) (rw w' at k)
]

proto_covers_trans :
    (a b c : Text) → proto_covers a b ≡ true → proto_covers b c ≡ true → proto_covers a c ≡ true
unfolding proto_covers
proto_covers_trans a b c h k = elim (Bool-cases (one_of proto_words (lower a))) [
  | inl w ↦ rw w
  | inr w ↦
      let same : lower a ≡ lower b = text_eq→eq (lower a) (lower b) (rw w at h) in
      let w' : one_of proto_words (lower b) ≡ false = ap (one_of proto_words) (sym same) ∙ w in
      rw (w, same) (rw w' at k)
]

module _ (names : Names) (port : ℕ) where
  in_port-some :
      (p : Text) (r : PortRange)
      → to_range p ≡ some r
      → in_port names port p ≡ in_range port (some r)
  unfolding in_port
  in_port-some p r e = rw (names.range_is_no_name p r port e, e)

  in_port-none :
      (p : Text)
      → to_range p ≡ none
      → in_port names port p ≡ true
      → names.services (norm p) port ≡ true
  unfolding in_port in_range
  in_port-none p e h = let h' = rw e at h in ground arith

  in_port-name : (p : Text) → names.services (norm p) port ≡ true → in_port names port p ≡ true
  unfolding in_port
  in_port-name p h = rw h

  same_service :
      (a : List Text) (be : Text)
      → contains_string a be ≡ true
      → names.services (norm be) port ≡ true
      → any (in_port names port) a ≡ true
  unfolding contains_string any
  same_service [] be c h = cc
  same_service (x ∷ a) be c h = elim (or-eq-true (text_eq (norm x) (norm be)) _ c) [
    | inl e ↦
        let same = text_eq→eq (norm x) (norm be) e in
        let here = in_port-name x (subst (λ k. names.services k port ≡ true) (sym same) h) in
        ground arith
    | inr later ↦ let rest = same_service a be later h in ground arith
  ]

  wider_range :
      (s r : PortRange)
      → range_contains s r ≡ true
      → in_range port (some r) ≡ true
      → in_range port (some s) ≡ true
  unfolding range_contains in_range
  wider_range s r c h = ground arith

  in_some_range :
      (r : PortRange)
      → in_range port (some r) ≡ true
      → (a : List Text) → range_covered_by r (to_ranges a) ≡ true
      → any (in_port names port) a ≡ true
  unfolding range_covered_by any
  in_some_range r h [] c = unfold to_ranges in cc
  in_some_range r h (x ∷ a) c = elim (Option-cases (to_range x)) [
    | inl e ↦ let rest = in_some_range r h a (rw (to_ranges-none x a e) at c) in ground arith
    | inr (s, e) ↦ elim (or-eq-true (range_contains s r) _ (rw (to_ranges-some x a e) at c)) [
      | inl inside ↦
          let here : in_port names port x ≡ true = in_port-some x s e ∙ wider_range s r inside h in
          ground arith
      | inr later ↦ let rest = in_some_range r h a later in ground arith
    ]
  ]

  port_covered_sound :
      (a : List Text) (be : Text)
      → port_covered a be ≡ true
      → in_port names port be ≡ true
      → any (in_port names port) a ≡ true
  port_covered_sound a be c h = elim (Option-cases (to_range be)) [
    | inl e ↦ same_service a be (rw (port_covered-none be a e) at c) (in_port-none be e h)
    | inr (r, e) ↦
        in_some_range r (sym (in_port-some be r e) ∙ h) a (rw (port_covered-some be a e) at c)
  ]

  each_port_covered :
      (a b : List Text)
      → all (port_covered a) b ≡ true
      → any (in_port names port) b ≡ true
      → any (in_port names port) a ≡ true
  unfolding all any
  each_port_covered a [] c h = cc
  each_port_covered a (be ∷ b) c h =
      let both = and-eq-true _ _ c in
      elim (or-eq-true (in_port names port be) _ h) [
        | inl here ↦ port_covered_sound a be both.0 here
        | inr later ↦ each_port_covered a b both.1 later
      ]

  pub ports_cover_sound :
      (a b : List Text)
      → ports_cover a b ≡ true
      → in_ports names port b ≡ true
      → in_ports names port a ≡ true
  unfolding ports_cover in_ports
  ports_cover_sound a b c h = elim (Bool-cases (any_port a)) [
    | inl y ↦ rw y
    | inr y ↦ elim (Bool-cases (any_port b)) [
      | inl w ↦ let c' = rw (y, w) at c in cc
      | inr w ↦ rw y (each_port_covered a b (rw (y, w) at c) (rw w at h))
    ]
  ]

-- A packet that matches the covered rule matches the covering one, where no address of the two
-- parses to a network of IPv4 addresses mapped into IPv6.
pub covers_sound :
    (names : Names) (j i : Rule) (p : Packet)
    → IsPlain j
    → IsPlain i
    → covers j i ≡ true
    → Matches names i p
    → Matches names j p
covers_sound names j i p plain_j plain_i c m =
    let each = covers-CoversEach j i c in
    record {
      iface_ok = iface_covers_trans j.iface i.iface p.iface each.iface_covered m.iface_ok;
      proto_ok = proto_covers_trans j.proto i.proto p.proto each.proto_covered m.proto_ok;
      src_ok =
          addrs_cover_sound names p.src j.src_addrs i.src_addrs plain_j.0 plain_i.0 each.src_covered
            m.src_ok;
      dst_ok =
          addrs_cover_sound names p.dst j.dst_addrs i.dst_addrs plain_j.1 plain_i.1 each.dst_covered
            m.dst_ok;
      src_port_ok =
          ports_cover_sound names p.src_port j.src_ports i.src_ports each.sport_covered
            m.src_port_ok;
      dst_port_ok =
          ports_cover_sound names p.dst_port j.dst_ports i.dst_ports each.dport_covered
            m.dst_port_ok;
    }
