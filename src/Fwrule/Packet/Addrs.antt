-- ===== src/Fwrule/Packet/Addrs.antt =====
-- Addresses that `addrsCover` finds covered: a packet that matches them matches the covering ones.
use rulehawk.Common.{
  List, ◌≡◌, true, any, Bool-cases, none, some, inl, inr, ◌∷◌, Option-cases, arith, sym, or-eq-true,
  ◌∙◌, [], all, subst, and-eq-true,
}
use rulehawk.Fwrule.Rule.{
  any_net_contains, to_net, norm, contains_string, to_nets, net_contains, addr_covered, addrs_cover,
  any_addr,
}
use rulehawk.Fwrule.Packet.{Names, in_addr, in_net, in_addrs}
use rulehawk.Common.Text.{Text, text_eq→eq, text_eq}
use rulehawk.Net.{IpAddr, IpNet, contains}
use rulehawk.Fwrule.Index.Addrs.Laws.{is_plain, IsClean}
use rulehawk.Fwrule.Rule.Parsed.{to_nets-none, to_nets-some, addr_covered-none, addr_covered-some}
use rulehawk.Fwrule.Index.Addrs.Nets.{net_contains-split}
use rulehawk.Net.Sets.{net_contains-subset}
use rulehawk.Fwrule.Index.Addrs.Parsing.{to_net-IsNet, is_plain-unmapped}

module _ (names : Names) (ip : IpAddr) where
  in_addr-some : (a : Text) (n : IpNet) → to_net a ≡ some n → in_addr names ip a ≡ contains n ip
  unfolding in_addr in_net
  in_addr-some a n e = rw (names.net_is_no_name a n ip e, e)

  in_addr-none :
      (a : Text) → to_net a ≡ none → in_addr names ip a ≡ true → names.hosts (norm a) ip ≡ true
  unfolding in_addr in_net
  in_addr-none a e h = let h' = rw e at h in ground arith

  in_addr-name : (a : Text) → names.hosts (norm a) ip ≡ true → in_addr names ip a ≡ true
  unfolding in_addr
  in_addr-name a h = rw h

  -- An element with the covered name stands for the same hosts.
  same_name :
      (a : List Text) (be : Text)
      → contains_string a be ≡ true
      → names.hosts (norm be) ip ≡ true
      → any (in_addr names ip) a ≡ true
  unfolding contains_string any
  same_name [] be c h = cc
  same_name (x ∷ a) be c h = elim (or-eq-true (text_eq (norm x) (norm be)) _ c) [
    | inl e ↦
        let same = text_eq→eq (norm x) (norm be) e in
        let here = in_addr-name x (subst (λ k. names.hosts k ip ≡ true) (sym same) h) in
        ground arith
    | inr later ↦ let rest = same_name a be later h in ground arith
  ]

  in_some_net :
      (be : Text) (sub : IpNet)
      → to_net be ≡ some sub
      → is_plain be ≡ true
      → contains sub ip ≡ true
      → (a : List Text) → IsClean a
      → any_net_contains (to_nets a) sub ≡ true
      → any (in_addr names ip) a ≡ true
  unfolding any_net_contains any
  in_some_net be sub e plain h [] clean c = unfold to_nets in cc
  in_some_net be sub e plain h (x ∷ a) clean c = elim (Option-cases (to_net x)) [
    | inl none_here ↦
        let rest = in_some_net be sub e plain h a clean.1 (rw (to_nets-none x a none_here) at c) in
        ground arith
    | inr (n, some_here) ↦
        elim (or-eq-true (net_contains n sub) _ (rw (to_nets-some x a some_here) at c)) [
          | inl inside ↦
              let (first, le) = net_contains-split n sub inside in
              let hit =
                net_contains-subset n sub (to_net-IsNet x n some_here) (to_net-IsNet be sub e)
                  (is_plain-unmapped x n clean.0 some_here) (is_plain-unmapped be sub plain e) first
                  le ip h in
              let here : in_addr names ip x ≡ true = in_addr-some x n some_here ∙ hit in
              ground arith
          | inr later ↦ let rest = in_some_net be sub e plain h a clean.1 later in ground arith
        ]
  ]

  addr_covered_sound :
      (a : List Text) (be : Text)
      → IsClean a
      → is_plain be ≡ true
      → addr_covered a be ≡ true
      → in_addr names ip be ≡ true
      → any (in_addr names ip) a ≡ true
  addr_covered_sound a be clean plain c h = elim (Option-cases (to_net be)) [
    | inl e ↦ same_name a be (rw (addr_covered-none be a e) at c) (in_addr-none be e h)
    | inr (sub, e) ↦
        in_some_net be sub e plain (sym (in_addr-some be sub e) ∙ h) a clean
          (rw (addr_covered-some be a e) at c)
  ]

  each_covered :
      (a b : List Text)
      → IsClean a
      → IsClean b
      → all (addr_covered a) b ≡ true
      → any (in_addr names ip) b ≡ true
      → any (in_addr names ip) a ≡ true
  unfolding all any
  each_covered a [] ca cb c h = cc
  each_covered a (be ∷ b) ca cb c h =
      let both = and-eq-true _ _ c in
      elim (or-eq-true (in_addr names ip be) _ h) [
        | inl here ↦ addr_covered_sound a be ca cb.0 both.0 here
        | inr later ↦ each_covered a b ca cb.1 both.1 later
      ]

  pub addrs_cover_sound :
      (a b : List Text)
      → IsClean a
      → IsClean b
      → addrs_cover a b ≡ true
      → in_addrs names ip b ≡ true
      → in_addrs names ip a ≡ true
  unfolding addrs_cover in_addrs
  addrs_cover_sound a b ca cb c h = elim (Bool-cases (any_addr a)) [
    | inl y ↦ rw y
    | inr y ↦ elim (Bool-cases (any_addr b)) [
      | inl w ↦ let c' = rw (y, w) at c in cc
      | inr w ↦ rw y (each_covered a b ca cb (rw (y, w) at c) (rw w at h))
    ]
  ]
