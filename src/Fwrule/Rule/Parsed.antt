-- ===== src/Fwrule/Rule/Parsed.antt =====
-- The parsed elements of the address and port lists of fwrule/rule.go, one element at a time.
use rulehawk.Common.{List, ◌≡◌, none, some, ◌∷◌, []}
use rulehawk.Common.Text.{Text}
use rulehawk.Fwrule.Rule.{
  to_nets, to_ranges, addr_covered, port_covered, to_net, to_range, PortRange, contains_string,
  any_net_contains, range_covered_by,
}
use rulehawk.Net.{IpNet}

module _ (a : Text) where
  pub to_nets-none : (more : List Text) → to_net a ≡ none → to_nets (a ∷ more) ≡ to_nets more
  unfolding to_nets
  to_nets-none more e = rw (e, to_nets)

  pub to_nets-some :
      (more : List Text) {n : IpNet} → to_net a ≡ some n → to_nets (a ∷ more) ≡ n ∷ to_nets more
  unfolding to_nets
  to_nets-some more e = rw (e, to_nets)

  pub to_ranges-none :
      (more : List Text) → to_range a ≡ none → to_ranges (a ∷ more) ≡ to_ranges more
  unfolding to_ranges
  to_ranges-none more e = rw (e, to_ranges)

  pub to_ranges-some :
      (more : List Text) {r : PortRange}
      → to_range a ≡ some r
      → to_ranges (a ∷ more) ≡ r ∷ to_ranges more
  unfolding to_ranges
  to_ranges-some more e = rw (e, to_ranges)

  pub addr_covered-none : (f : List Text) → to_net a ≡ none → addr_covered f a ≡ contains_string f a
  unfolding addr_covered to_nets
  addr_covered-none f e = rw (to_nets-none [] e, addr_covered)

  pub addr_covered-some :
      (f : List Text) {n : IpNet}
      → to_net a ≡ some n
      → addr_covered f a ≡ any_net_contains (to_nets f) n
  unfolding addr_covered
  addr_covered-some f e = rw (to_nets-some [] e, addr_covered)

  pub port_covered-none :
      (f : List Text) → to_range a ≡ none → port_covered f a ≡ contains_string f a
  unfolding port_covered to_ranges
  port_covered-none f e = rw (to_ranges-none [] e, port_covered)

  pub port_covered-some :
      (f : List Text) {r : PortRange}
      → to_range a ≡ some r
      → port_covered f a ≡ range_covered_by r (to_ranges f)
  unfolding port_covered
  port_covered-some f e = rw (to_ranges-some [] e, port_covered)
