-- ===== src/Fwrule/Index.antt =====
-- fwrule/coverindex.go: the index that answers which earlier rule covers a rule first. A position is
-- an `int32` there; the model's positions do not wrap, so rule bases stay below 2 ^ 31 rules.
pub mod Table
pub mod Dimension
pub mod Words
pub mod Addrs
pub mod Ports
pub mod Dimensions
pub mod Leapfrog
pub mod Tracks
pub mod First
pub mod Lookup
use rulehawk.Common.{
  ℕ, Option, List, if◌then◌else◌, some, Bool, ◌∷◌, suc, any, true, get_elem?, length, none, false,
  ltb, [], ◌+◌, zero, ◌&&◌, not,
}
use rulehawk.Fwrule.Index.Words.{
  WordDim, no_words, add_word, iface_wildcard, query_word, proto_wildcard,
}
use rulehawk.Fwrule.Rule.{Rule, covers, action_eq, other}
use rulehawk.Fwrule.Index.Addrs.{AddrDim, no_addrs, query_addrs, add_addrs}
use rulehawk.Fwrule.Postings.{Postings, seek_dim}
use rulehawk.Fwrule.Index.Ports.{PortDim, no_ports, query_ports, add_ports}

pub record CoverIndex : Type 0 where
  pub iface : WordDim
  pub proto : WordDim
  pub src : AddrDim
  pub dst : AddrDim
  pub sport : PortDim
  pub dport : PortDim

-- `newCoverIndex`
abbrev pub new_cover_index : CoverIndex
new_cover_index = record {
  iface = no_words;
  proto = no_words;
  src = no_addrs;
  dst = no_addrs;
  sport = no_ports;
  dport = no_ports;
}

-- The caller's test before `add`: the rule is enabled, terminates and is unconditional.
unfoldable pub may_cover : Rule → Bool
may_cover r = r.enabled && (not (action_eq r.action other) && not r.conditional)

-- `coverIndex.add`
unfoldable pub add : CoverIndex → ℕ → Rule → CoverIndex
add ix idx r = record {
  iface = add_word iface_wildcard ix.iface idx r.iface;
  proto = add_word proto_wildcard ix.proto idx r.proto;
  src = add_addrs ix.src idx r.src_addrs;
  dst = add_addrs ix.dst idx r.dst_addrs;
  sport = add_ports ix.sport idx r.src_ports;
  dport = add_ports ix.dport idx r.dst_ports;
}

-- A dimension that cannot prune is left out.
unfoldable pub with_lists : Option (List Postings) → List (List Postings) → List (List Postings)
with_lists none rest = rest
with_lists (some l) rest = l ∷ rest

-- The slice `dims` of `firstCoverer`.
unfoldable pub dims : CoverIndex → Rule → List (List Postings)
dims ix ri =
    query_word ix.iface ri.iface
    ∷ query_word ix.proto ri.proto
    ∷ query_addrs ix.src ri.src_addrs
    ∷ query_addrs ix.dst ri.dst_addrs
    ∷ with_lists (query_ports ix.sport ri.src_ports)
        (with_lists (query_ports ix.dport ri.dst_ports) [])

unfoldable pub is_empty : List Postings → Bool
is_empty [] = true
is_empty (l ∷ lists) = false

-- One pass over the dimensions: some list has no position from `x` on, the floor moves up to a
-- position, or every dimension has `x`.
pub data Align : Type 0 where
  exhausted : Align
  moved : ℕ → Align
  aligned : Align

unfoldable pub align : List (List Postings) → ℕ → Align
align [] x = aligned
align (d ∷ ds) x = elim (seek_dim d x) [
  | none ↦ exhausted
  | some v ↦ if ltb x v then moved v else align ds x
]

-- What `firstCoverer` returns; -1 is `absent`. Reading past the rules is a panic, and the fuel of
-- the model may run out.
pub data Outcome : Type 0 where
  found : ℕ → Outcome
  absent : Outcome
  out_of_range : Outcome
  out_of_fuel : Outcome

-- The outer loop of `firstCoverer`; each round moves the floor up.
unfoldable pub leapfrog : ℕ → List Rule → Rule → List (List Postings) → ℕ → Outcome
leapfrog zero rules ri ds x = out_of_fuel
leapfrog (suc fuel) rules ri ds x = elim (align ds x) [
  | exhausted ↦ absent
  | moved v ↦ leapfrog fuel rules ri ds v
  | aligned ↦ elim (get_elem? rules x) [
    | none ↦ out_of_range
    | some rj ↦ elim (covers rj ri) [ true ↦ found x | false ↦ leapfrog fuel rules ri ds (x + 1) ]
  ]
]

-- `firstCoverer`. The floor never passes the number of rules.
unfoldable pub first_coverer : CoverIndex → List Rule → Rule → Outcome
first_coverer ix rules ri =
    if any is_empty (dims ix ri)
    then absent
    else leapfrog (suc (length rules)) rules ri (dims ix ri) 0
