-- ===== src/Fwrule/Index/Lookup.antt =====
-- A lookup in the index of addresses or ports behind an insertion.
use rulehawk.Common.{List, ℕ, ◌≤◌, ◌∷◌, ◌<◌, ◌≡◌, [], true, some, ◌+◌, ◌*◌, arith}
use rulehawk.Fwrule.Index.Ports.Laws as Ports
use rulehawk.Fwrule.Index.Addrs.Laws as Addrs
use rulehawk.Fwrule.Index.Ports.{
  PortDim, insert_range, add_ports, port_space, tree_lists, query_ports, levels,
}
use rulehawk.Fwrule.Index.Addrs.{AddrDim, add_addrs, query_addrs}
use rulehawk.Common.Text.{Text}
use rulehawk.Fwrule.Index.Addrs.Laws.{IsClean, add_addrs-Has_old, add_addrs-Has_new}
use rulehawk.Fwrule.Postings.{Postings}
use rulehawk.Fwrule.Rule.{ports_cover, addrs_cover}
use rulehawk.Fwrule.Index.Ports.Keeps.{add_ports-Has_old, add_ports-Has_new}
use rulehawk.Fwrule.Postings.Sorted.{InDim}
use rulehawk.Fwrule.Index.Addrs.Query.{query_addrs_complete}
use rulehawk.Fwrule.Index.Ports.Query.{query_ports_complete}
use rulehawk.Fwrule.Index.Ports.Tree.{tree_lists-InDim, insert_loop-InTree, insert_loop_outside}

-- The dimension behind further insertions.
abbrev pub ports_later : PortDim → List (ℕ × List Text) → PortDim
ports_later d [] = d
ports_later d (x ∷ xs) = ports_later (add_ports d x.0 x.1) xs

abbrev pub addrs_later : AddrDim → List (ℕ × List Text) → AddrDim
addrs_later d [] = d
addrs_later d (x ∷ xs) = addrs_later (add_addrs d x.0 x.1) xs

ports_later-Has :
    (d : PortDim) (n : ℕ) (f : List Text) (xs : List (ℕ × List Text))
    → Ports.Has d n f
    → Ports.Has (ports_later d xs) n f
ports_later-Has d n f [] h = h
ports_later-Has d n f (x ∷ xs) h =
    ports_later-Has (add_ports d x.0 x.1) n f xs (add_ports-Has_old d n x.0 x.1 f h)

addrs_later-Has :
    (d : AddrDim) (n : ℕ) (f : List Text) (xs : List (ℕ × List Text))
    → Addrs.Has d n f
    → Addrs.Has (addrs_later d xs) n f
addrs_later-Has d n f [] h = h
addrs_later-Has d n f (x ∷ xs) h =
    addrs_later-Has (add_addrs d x.0 x.1) n f xs (add_addrs-Has_old d n x.0 x.1 f h)

-- A position stays in the lists that the query of covered ports returns, if it prunes at all,
-- whatever is inserted after it.
pub add_ports-query :
    (d : PortDim) (n : ℕ) (f g : List Text) (xs : List (ℕ × List Text)) (lists : List Postings)
    → ports_cover f g ≡ true
    → query_ports (ports_later (add_ports d n f) xs) g ≡ some lists
    → InDim n lists
add_ports-query d n f g xs lists c e =
    query_ports_complete (ports_later (add_ports d n f) xs) n f g lists
      (ports_later-Has (add_ports d n f) n f xs (add_ports-Has_new d n f)) c e

-- A position stays in the lists that the query of covered addresses returns, whatever is inserted
-- after it, where no address of the two rules parses to a network of IPv4 addresses mapped into
-- IPv6.
pub add_addrs-query :
    (d : AddrDim) (n : ℕ) (f g : List Text) (xs : List (ℕ × List Text))
    → IsClean f
    → IsClean g
    → addrs_cover f g ≡ true
    → InDim n (query_addrs (addrs_later (add_addrs d n f) xs) g)
add_addrs-query d n f g xs cf cg c =
    query_addrs_complete (addrs_later (add_addrs d n f) xs) n f g cf cg
      (addrs_later-Has (add_addrs d n f) n f xs (add_addrs-Has_new d n f)) c

-- Behind the insertion of a range of ports below 65536, the walk from the leaf of any of its ports up
-- to the root meets the position, and no node behind the last leaf has changed.
pub insert_range-tree_lists :
    (d : PortDim) (n lo hi port : ℕ)
    → lo ≤ port
    → port ≤ hi
    → hi < port_space
    → InDim n (tree_lists (insert_range d n lo hi).tree levels (port_space + port))
      × ((node : ℕ) → 2 * port_space ≤ node → (insert_range d n lo hi).tree node ≡ d.tree node)
unfolding insert_range
insert_range-tree_lists d n lo hi port p q r = (
  tree_lists-InDim n 16 (insert_range d n lo hi).tree (port_space + port) (omega arith) (
      insert_loop-InTree n 16 d.tree (lo + port_space) (hi + port_space + 1) (port_space + port)
        (omega arith) (omega arith) (omega arith)),
  λ node big.
      insert_loop_outside n levels d.tree (lo + port_space) (hi + port_space + 1) node
        (omega arith),
)
