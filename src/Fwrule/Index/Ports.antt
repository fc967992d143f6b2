-- ===== src/Fwrule/Index/Ports.antt =====
-- The port dimension of the index: `portDim` with its segment tree.
pub mod Levels
pub mod Tree
pub mod Laws
pub mod Keeps
pub mod Query
use rulehawk.Common.{
  ℕ, [], Bool, ◌+◌, List, ◌%◌, suc, ltb, Option, ◌∷◌, if◌then◌else◌, ◌==◌, ◌-◌, some, ◌/◌, ◌||◌,
  none, true, ◌&&◌, zero, false,
}
use rulehawk.Fwrule.Postings.{Postings, push, keep_list, pair}
use rulehawk.Fwrule.Index.Table.{Table, put_at}
use rulehawk.Fwrule.Rule.{PortRange, to_ranges, any_port, norm}
use rulehawk.Common.Text.{Text, text_eq}
use rulehawk.Common.Int.{ltb_ℤ, pos, leb_ℤ, pos_part}

abbrev pub port_space : ℕ
port_space = 65536

-- Two loops halve a node number below 2 * port_space until it is 0: at most 17 rounds.
abbrev pub levels : ℕ
levels = 17

-- The slice `tree`, by its node numbers.
pub record PortDim : Type 0 where
  pub any_list : Postings
  pub weird : Postings
  pub str : Table Text
  pub tree : Table ℕ

abbrev pub no_ports : PortDim
no_ports = record { any_list = []; weird = []; str = λ k. []; tree = λ node. [] }

unfoldable pub odd : ℕ → Bool
odd n = n % 2 == 1

unfoldable pub put_if : Bool → Table ℕ → ℕ → ℕ → Table ℕ
put_if true tree node idx = put_at ◌==◌ tree node idx
put_if false tree node idx = tree

-- The loop of `insertRange` over the nodes of each level from `lo` up to `hi`.
unfoldable pub insert_loop : ℕ → Table ℕ → ℕ → ℕ → ℕ → Table ℕ
insert_loop zero tree idx lo hi = tree
insert_loop (suc fuel) tree idx lo hi =
    let rest =
      insert_loop fuel (put_if (odd hi) (put_if (odd lo) tree lo idx) (hi - 1) idx) idx
        ((if odd lo then lo + 1 else lo) / 2) ((if odd hi then hi - 1 else hi) / 2) in
    if ltb lo hi then rest else tree

-- `insertRange`
unfoldable pub insert_range : PortDim → ℕ → ℕ → ℕ → PortDim
insert_range d idx lo hi = record d {
  tree = insert_loop levels d.tree idx (lo + port_space) (hi + port_space + 1);
}

-- A range outside the port space, or inverted.
unfoldable pub is_weird : PortRange → Bool
is_weird r = ltb_ℤ r.lo (pos 0) || (leb_ℤ (pos port_space) r.hi || ltb_ℤ r.hi r.lo)

-- The range of one element, if it has one.
unfoldable pub first_range : Text → Option PortRange
first_range p = elim (to_ranges (p ∷ [])) [ [] ↦ none | r ∷ rest ↦ some r ]

-- The position goes into `weird` once.
unfoldable pub note_weird : PortDim → ℕ → Bool → PortDim × Bool
note_weird d idx true = (d, true)
note_weird d idx false = (record d { weird = push d.weird idx }, true)

-- The dimension and the flag `inWeird` behind one range.
unfoldable pub add_range : PortDim → ℕ → Bool → Option PortRange → PortDim × Bool
add_range d idx in_weird none = (d, in_weird)
add_range d idx in_weird (some r) =
    if is_weird r
    then note_weird d idx in_weird
    else (insert_range d idx (pos_part r.lo) (pos_part r.hi), in_weird)

-- One round of the loop of `portDim.add`.
unfoldable pub add_port : PortDim → ℕ → Bool → Text → PortDim × Bool
add_port d idx in_weird p =
    add_range (record d { str = put_at text_eq d.str (norm p) idx }) idx in_weird (first_range p)

unfoldable pub add_each : PortDim × Bool → ℕ → List Text → PortDim
add_each (d, in_weird) idx [] = d
add_each (d, in_weird) idx (p ∷ ports) = add_each (add_port d idx in_weird p) idx ports

-- `portDim.add`
unfoldable pub add_ports : PortDim → ℕ → List Text → PortDim
add_ports d idx ports =
    if any_port ports
    then record d { any_list = push d.any_list idx }
    else add_each (d, false) idx ports

-- The lists on the way from a node up to the root.
unfoldable pub tree_lists : Table ℕ → ℕ → ℕ → List Postings
tree_lists tree zero node = []
tree_lists tree (suc fuel) node =
    let rest = tree_lists tree fuel (node / 2) in
    if node == 0 then [] else keep_list (tree node) rest

-- The lists for a range that is not inverted: those of its first port, if that is one.
unfoldable pub point_lists : PortDim → PortRange → List Postings
point_lists d r =
    if leb_ℤ (pos 0) r.lo && ltb_ℤ r.lo (pos port_space)
    then tree_lists d.tree levels (port_space + pos_part r.lo)
    else []

unfoldable pub query_range : PortDim → Text → Option PortRange → Option (List Postings)
query_range d be none = some (pair d.any_list (d.str (norm be)))
query_range d be (some r) =
    if ltb_ℤ r.hi r.lo
    then none
    else some (keep_list d.any_list (keep_list d.weird (point_lists d r)))

unfoldable pub query_first : PortDim → List Text → Option (List Postings)
query_first d [] = some []
query_first d (be ∷ rest) = query_range d be (first_range be)

-- `portDim.query`; `none` where the dimension cannot prune.
unfoldable pub query_ports : PortDim → List Text → Option (List Postings)
query_ports d ports = if any_port ports then some (pair d.any_list []) else query_first d ports
