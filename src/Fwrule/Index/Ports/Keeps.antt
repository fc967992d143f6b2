-- ===== src/Fwrule/Index/Ports/Keeps.antt =====
-- What was added to the port dimension stays, and what is added is there.
use rulehawk.Common.{
  ℕ, Holds, Option, Bool, List, some, ◌∷◌, ◌≡◌, All, Bool-cases, inl, true, false, inr, All-map,
  none, ◌≤◌, ◌<◌, ◌+◌, arith, [], refl,
}
use rulehawk.Fwrule.Index.Ports.{
  PortDim, add_range, add_port, is_weird, add_ports, insert_range, first_range, levels, port_space,
  note_weird, add_each,
}
use rulehawk.Common.Text.{Text, text_eq, text_eq_refl}
use rulehawk.Fwrule.Rule.{PortRange, norm, any_port}
use rulehawk.Fwrule.Index.Ports.Laws.{HasRange, HasPort, Has}
use rulehawk.Fwrule.Index.Table.{Holds-put_at_old, Holds-put_at_new}
use rulehawk.Common.Int.{pos, pos_part, ◌≤ℤ◌}
use rulehawk.Fwrule.Postings.Sorted.{Holds-push_old, Holds-push_new}
use rulehawk.Fwrule.Index.Ports.Tree.{Holds-insert_loop, insert_loop-InTree, InTree, InTree-mono}

-- The later state lists at least what the earlier one lists.
pub record Grows (j : ℕ) (d e : PortDim) : Type 0 where
  pub any_grows : Holds j d.any_list → Holds j e.any_list
  pub weird_grows : Holds j d.weird → Holds j e.weird
  pub str_grows : (k : Text) → Holds j (d.str k) → Holds j (e.str k)
  pub tree_grows : (k : ℕ) → Holds j (d.tree k) → Holds j (e.tree k)

Grows-refl : (j : ℕ) (d : PortDim) → Grows j d d
Grows-refl j d = record {
  any_grows = λ h. h;
  weird_grows = λ h. h;
  str_grows = λ k h. h;
  tree_grows = λ k h. h;
}

Grows-trans : (j : ℕ) (d e f : PortDim) → Grows j d e → Grows j e f → Grows j d f
Grows-trans j d e f g h = record {
  any_grows = λ x. h.any_grows (g.any_grows x);
  weird_grows = λ x. h.weird_grows (g.weird_grows x);
  str_grows = λ k x. h.str_grows k (g.str_grows k x);
  tree_grows = λ k x. h.tree_grows k (g.tree_grows k x);
}

HasRange-Grows :
    (j : ℕ) (d e : PortDim) (o : Option PortRange) → Grows j d e → HasRange d j o → HasRange e j o
HasRange-Grows j d e none g h = tt
HasRange-Grows j d e (some r) g h = elim (Bool-cases (is_weird r)) [
  | inl w ↦ rw w (g.weird_grows (rw w at h))
  | inr w ↦
      let h' : (p : ℕ)
          → pos_part r.lo ≤ p
          → p ≤ pos_part r.hi
          → InTree j d.tree levels (port_space + p) =
        rw w at h in
      rw w λ p low high.
        InTree-mono j levels d.tree e.tree (port_space + p) g.tree_grows (h' p low high)
]

HasPort-Grows : (j : ℕ) (d e : PortDim) (a : Text) → Grows j d e → HasPort d j a → HasPort e j a
HasPort-Grows j d e a g h = (g.str_grows (norm a) h.0, HasRange-Grows j d e (first_range a) g h.1)

add_range-Grows :
    (j n : ℕ) (d : PortDim) (w : Bool) (o : Option PortRange) → Grows j d (add_range d n w o).0
unfolding add_range insert_range note_weird
add_range-Grows j n d w none = Grows-refl j d
add_range-Grows j n d w (some r) = elim (Bool-cases (is_weird r)) [
  | inl e ↦ rw e (weird_case w)
  | inr e ↦ rw e (record {
    any_grows = λ h. h;
    weird_grows = λ h. h;
    str_grows = λ k h. h;
    tree_grows = λ k h. Holds-insert_loop j n levels d.tree _ _ k h;
  })
]
  where
    weird_case : (w : Bool) → Grows j d (note_weird d n w).0
    weird_case true = Grows-refl j d
    weird_case false = record {
      any_grows = λ h. h;
      weird_grows = Holds-push_old j n d.weird;
      str_grows = λ k h. h;
      tree_grows = λ k h. h;
    }

add_port-Grows : (j n : ℕ) (d : PortDim) (w : Bool) (a : Text) → Grows j d (add_port d n w a).0
unfolding add_port
add_port-Grows j n d w a =
    Grows-trans j d _ _
      (record {
        any_grows = λ h. h;
        weird_grows = λ h. h;
        str_grows = λ k h. Holds-put_at_old text_eq j n d.str (norm a) k h;
        tree_grows = λ k h. h;
      })
      (add_range-Grows j n _ w (first_range a))

add_each-Grows :
    (j n : ℕ) (d : PortDim) (w : Bool) (ports : List Text) → Grows j d (add_each (d, w) n ports)
unfolding add_each
add_each-Grows j n d w [] = Grows-refl j d
add_each-Grows j n d w (a ∷ ports) =
    Grows-trans j d _ _ (add_port-Grows j n d w a)
      (add_each-Grows j n (add_port d n w a).0 (add_port d n w a).1 ports)

-- A set flag means that the position stands in `weird`.
abbrev Flagged : ℕ → PortDim → Bool → Type 0
Flagged n d w = w ≡ true → Holds n d.weird

-- A range that is not weird is an interval of ports.
plain_range :
    (r : PortRange)
    → is_weird r ≡ false
    → (pos 0 ≤ℤ r.lo)
      × (r.lo ≤ℤ r.hi)
      × (pos_part r.hi < port_space)
      × (pos_part r.lo ≤ pos_part r.hi)
unfolding is_weird
plain_range r h = ground arith

add_range-HasRange :
    (n : ℕ) (d : PortDim) (w : Bool) (o : Option PortRange)
    → Flagged n d w
    → HasRange (add_range d n w o).0 n o
unfolding add_range insert_range note_weird
add_range-HasRange n d w none f = tt
add_range-HasRange n d w (some r) f = elim (Bool-cases (is_weird r)) [
  | inl e ↦ rw e (weird_case w f)
  | inr e ↦ rw e λ p low high.
      let small = plain_range r e in
      insert_loop-InTree n 16 d.tree (pos_part r.lo + port_space) (pos_part r.hi + port_space + 1)
        (port_space + p) (omega arith) (omega arith) (omega arith)
]
  where
    weird_case : (w : Bool) → Flagged n d w → Holds n (note_weird d n w).0.weird
    weird_case true f = f refl
    weird_case false f = Holds-push_new n d.weird

add_range-Flagged :
    (n : ℕ) (d : PortDim) (w : Bool) (o : Option PortRange)
    → Flagged n d w
    → Flagged n (add_range d n w o).0 (add_range d n w o).1
unfolding add_range insert_range note_weird
add_range-Flagged n d w none f = f
add_range-Flagged n d w (some r) f = elim (Bool-cases (is_weird r)) [
  | inl e ↦ rw e (weird_case w f)
  | inr e ↦ rw e f
]
  where
    weird_case : (w : Bool) → Flagged n d w → Flagged n (note_weird d n w).0 (note_weird d n w).1
    weird_case true f = f
    weird_case false f = λ _. Holds-push_new n d.weird

add_port-HasPort :
    (n : ℕ) (d : PortDim) (w : Bool) (a : Text) → Flagged n d w → HasPort (add_port d n w a).0 n a
unfolding add_port
add_port-HasPort n d w a f = (
  (add_range-Grows n n _ w (first_range a)).str_grows (norm a)
      (Holds-put_at_new text_eq n d.str (norm a) (text_eq_refl (norm a))),
  add_range-HasRange n _ w (first_range a) f,
)

add_each-HasPort :
    (n : ℕ) (d : PortDim) (w : Bool) (ports : List Text)
    → Flagged n d w
    → All (HasPort (add_each (d, w) n ports) n) ports
unfolding add_each
add_each-HasPort n d w [] f = tt
add_each-HasPort n d w (a ∷ ports) f = (
  HasPort-Grows n _ _ a (add_each-Grows n n (add_port d n w a).0 (add_port d n w a).1 ports)
      (add_port-HasPort n d w a f),
  add_each-HasPort n (add_port d n w a).0 (add_port d n w a).1 ports
      (unfold add_port in add_range-Flagged n _ w (first_range a) f),
)

add_ports-Grows : (j n : ℕ) (d : PortDim) (ports : List Text) → Grows j d (add_ports d n ports)
unfolding add_ports
add_ports-Grows j n d ports = elim (Bool-cases (any_port ports)) [
  | inl e ↦ rw e (record {
    any_grows = Holds-push_old j n d.any_list;
    weird_grows = λ h. h;
    str_grows = λ k h. h;
    tree_grows = λ k h. h;
  })
  | inr e ↦ rw e (add_each-Grows j n d false ports)
]

pub add_ports-Has_new :
    (d : PortDim) (n : ℕ) (ports : List Text) → Has (add_ports d n ports) n ports
unfolding add_ports
add_ports-Has_new d n ports = elim (Bool-cases (any_port ports)) [
  | inl e ↦ rw e (Holds-push_new n d.any_list)
  | inr e ↦ rw e (add_each-HasPort n d false ports (λ e. cc))
]

pub add_ports-Has_old :
    (d : PortDim) (j n : ℕ) (ports g : List Text) → Has d j g → Has (add_ports d n ports) j g
add_ports-Has_old d j n ports g h = elim (Bool-cases (any_port g)) [
  | inl w ↦ rw w ((add_ports-Grows j n d ports).any_grows (rw w at h))
  | inr w ↦
      rw w
        (All-map _ _ g (λ a k. HasPort-Grows j d _ a (add_ports-Grows j n d ports) k) (rw w at h))
]
