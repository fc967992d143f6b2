-- ===== src/Fwrule/Index/Ports/Laws.antt =====
-- The port dimension keeps its lists ascending, and what was added to it stays.
use rulehawk.Common.{
  ℕ, Option, List, suc, Bool, Holds, ◌≡◌, ◌∷◌, Bool-cases, if◌then◌else◌, some, false, All, true,
  inl, ◌≤◌, arith, inr, none, ◌+◌, [], refl,
}
use rulehawk.Fwrule.Index.Ports.{
  PortDim, add_range, add_port, add_ports, insert_range, first_range, is_weird, levels, port_space,
  note_weird, add_each,
}
use rulehawk.Common.Text.{Text, text_eq}
use rulehawk.Fwrule.Postings.Sorted.{Sorted, Sorted-suc, push-Sorted}
use rulehawk.Fwrule.Rule.{PortRange, norm, any_port}
use rulehawk.Fwrule.Index.Table.{put_at-Sorted}
use rulehawk.Common.Int.{pos_part}
use rulehawk.Fwrule.Index.Ports.Tree.{InTree, insert_loop-Sorted}

pub record IsSorted (P : ℕ → Type 0) (n : ℕ) (d : PortDim) : Type 0 where
  pub any_sorted : Sorted P 0 n d.any_list
  pub weird_sorted : Sorted P 0 n d.weird
  pub str_sorted : (k : Text) → Sorted P 0 n (d.str k)
  pub tree_sorted : (k : ℕ) → Sorted P 0 n (d.tree k)

-- The position is listed under the range: as a weird one, or in the tree at each of its ports.
abbrev pub HasRange : PortDim → ℕ → Option PortRange → Type 0
HasRange d j none = Unit
HasRange d j (some r) =
    if is_weird r
    then Holds j d.weird
    else ((p : ℕ) → pos_part r.lo ≤ p → p ≤ pos_part r.hi → InTree j d.tree levels (port_space + p))

abbrev pub HasPort : PortDim → ℕ → Text → Type 0
HasPort d j p = Holds j (d.str (norm p)) × HasRange d j (first_range p)

abbrev pub Has : PortDim → ℕ → List Text → Type 0
Has d j ports = if any_port ports then Holds j d.any_list else All (HasPort d j) ports

-- Growth keeps the lists in order.

module _ (P : ℕ → Type 0) (n : ℕ) where
  pub skip-IsSorted : (d : PortDim) → IsSorted P n d → IsSorted P (suc n) d
  skip-IsSorted d s = record {
    any_sorted = Sorted-suc P 0 n d.any_list s.any_sorted;
    weird_sorted = Sorted-suc P 0 n d.weird s.weird_sorted;
    str_sorted = λ k. Sorted-suc P 0 n (d.str k) (s.str_sorted k);
    tree_sorted = λ k. Sorted-suc P 0 n (d.tree k) (s.tree_sorted k);
  }

  -- Inside the loop the position may stand in `weird` only if the flag is set.
  record Loop (d : PortDim) (in_weird : Bool) : Type 0 where
    sorted : IsSorted P (suc n) d
    fresh : in_weird ≡ false → Sorted P 0 n d.weird

  add_range-Loop :
      (d : PortDim) (w : Bool) (o : Option PortRange)
      → P n
      → Loop d w
      → Loop (add_range d n w o).0 (add_range d n w o).1
  unfolding add_range insert_range note_weird
  add_range-Loop d w none p l = l
  add_range-Loop d w (some r) p l = elim (Bool-cases (is_weird r)) [
    | inl e ↦ rw e (weird_case w l)
    | inr e ↦ rw e (record {
      sorted = record {
        any_sorted = l.sorted.any_sorted;
        weird_sorted = l.sorted.weird_sorted;
        str_sorted = l.sorted.str_sorted;
        tree_sorted = insert_loop-Sorted P n levels d.tree _ _ p l.sorted.tree_sorted;
      };
      fresh = l.fresh;
    })
  ]
    where
      weird_case : (w : Bool) → Loop d w → Loop (note_weird d n w).0 (note_weird d n w).1
      weird_case true l = l
      weird_case false l = record {
        sorted = record {
          any_sorted = l.sorted.any_sorted;
          weird_sorted = push-Sorted P 0 n d.weird (omega arith) p (l.fresh refl);
          str_sorted = l.sorted.str_sorted;
          tree_sorted = l.sorted.tree_sorted;
        };
        fresh = λ e. cc;
      }

  add_port-Loop :
      (d : PortDim) (w : Bool) (a : Text)
      → P n
      → Loop d w
      → Loop (add_port d n w a).0 (add_port d n w a).1
  unfolding add_port
  add_port-Loop d w a p l = add_range-Loop _ w (first_range a) p (record {
    sorted = record {
      any_sorted = l.sorted.any_sorted;
      weird_sorted = l.sorted.weird_sorted;
      str_sorted = put_at-Sorted text_eq P n d.str (norm a) p l.sorted.str_sorted;
      tree_sorted = l.sorted.tree_sorted;
    };
    fresh = l.fresh;
  })

  add_each-IsSorted :
      (d : PortDim) (w : Bool) (ports : List Text)
      → P n
      → Loop d w
      → IsSorted P (suc n) (add_each (d, w) n ports)
  unfolding add_each
  add_each-IsSorted d w [] p l = l.sorted
  add_each-IsSorted d w (a ∷ ports) p l =
      add_each-IsSorted (add_port d n w a).0 (add_port d n w a).1 ports p (add_port-Loop d w a p l)

  pub add_ports-IsSorted :
      (d : PortDim) (ports : List Text)
      → P n
      → IsSorted P n d
      → IsSorted P (suc n) (add_ports d n ports)
  unfolding add_ports
  add_ports-IsSorted d ports p s = elim (Bool-cases (any_port ports)) [
    | inl e ↦ rw e (record {
      any_sorted = push-Sorted P 0 n d.any_list (omega arith) p s.any_sorted;
      weird_sorted = (skip-IsSorted d s).weird_sorted;
      str_sorted = (skip-IsSorted d s).str_sorted;
      tree_sorted = (skip-IsSorted d s).tree_sorted;
    })
    | inr e ↦ rw e (
        add_each-IsSorted d false ports p
          (record { sorted = skip-IsSorted d s; fresh = λ _. s.weird_sorted }))
  ]
