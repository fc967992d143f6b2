-- ===== src/Fwrule/Index/First.antt =====
-- `firstCoverer` returns the first earlier rule that covers a rule.
use rulehawk.Common.{
  ℕ, List, get_elem?, ◌≡◌, some, true, false, suc, arith, All, Option, ◌<◌, ◌≤◌, length, none, refl,
  All-get_elem?, any, Bool-cases, false≢true, inl, ◌∷◌, inr, [],
}
use rulehawk.Fwrule.Rule.{Rule, iface_covers, covers, proto_covers, addrs_cover, ports_cover}
use rulehawk.Fwrule.Index.Addrs.Laws.{IsClean}
use rulehawk.Fwrule.Index.{
  CoverIndex, new_cover_index, add, with_lists, dims, first_coverer, is_empty, may_cover,
}
use rulehawk.Fwrule.Index.Tracks.{
  Tracks, Tracks-add, Tracks-skip, Tracks-SortedDim, Tracks-complete,
}
use rulehawk.Fwrule.Index.Dimensions.{
  iface_dimension, proto_dimension, addr_dimension, port_dimension,
}
use rulehawk.Fwrule.Index.Leapfrog.{Usable, Hit, FirstHit, leapfrog_first}
use rulehawk.Fwrule.Index.Dimension.{Dimension}
use rulehawk.Fwrule.Postings.{Postings}
use rulehawk.Fwrule.Index.Addrs.{no_addrs}
use rulehawk.Fwrule.Postings.Sorted.{SortedDim, InDim}
use rulehawk.Fwrule.Index.Ports.{no_ports}
use rulehawk.Fwrule.Index.Words.{no_words}

-- No address of the rule parses to a network of IPv4 addresses mapped into IPv6.
abbrev pub IsPlain : Rule → Type 0
IsPlain r = IsClean r.src_addrs × IsClean r.dst_addrs

-- The index has been fed the usable rules below position `n`.
pub record Indexes (rules : List Rule) (n : ℕ) (ix : CoverIndex) : Type 0 where
  pub by_iface : Tracks iface_dimension (λ r. r.iface) rules n ix.iface
  pub by_proto : Tracks proto_dimension (λ r. r.proto) rules n ix.proto
  pub by_src : Tracks addr_dimension (λ r. r.src_addrs) rules n ix.src
  pub by_dst : Tracks addr_dimension (λ r. r.dst_addrs) rules n ix.dst
  pub by_sport : Tracks port_dimension (λ r. r.src_ports) rules n ix.sport
  pub by_dport : Tracks port_dimension (λ r. r.dst_ports) rules n ix.dport

module _ (rules : List Rule) where
  pub new-Indexes : Indexes rules 0 new_cover_index
  new-Indexes = record {
    by_iface =
        nothing iface_dimension _ no_words (record { wild_sorted = tt; eq_sorted = λ k. tt });
    by_proto =
        nothing proto_dimension _ no_words (record { wild_sorted = tt; eq_sorted = λ k. tt });
    by_src = nothing addr_dimension _ no_addrs empty_addrs;
    by_dst = nothing addr_dimension _ no_addrs empty_addrs;
    by_sport = nothing port_dimension _ no_ports empty_ports;
    by_dport = nothing port_dimension _ no_ports empty_ports;
  }
    where
      nothing :
          {F : Type 0} (D : Dimension F) (feature : Rule → F) (d : D.Dim)
          → D.IsSorted (Usable rules) 0 d
          → Tracks D feature rules 0 d
      nothing D feature d s = record { sorted = s; holds = λ j r lt e m. absurd (omega arith) }

      empty_addrs : addr_dimension.IsSorted (Usable rules) 0 no_addrs
      empty_addrs = record { any_sorted = tt; net_sorted = λ k. tt; str_sorted = λ k. tt }

      empty_ports : port_dimension.IsSorted (Usable rules) 0 no_ports
      empty_ports = record {
        any_sorted = tt;
        weird_sorted = tt;
        str_sorted = λ k. tt;
        tree_sorted = λ k. tt;
      }

  pub add-Indexes :
      (n : ℕ) (ix : CoverIndex) (r : Rule)
      → get_elem? rules n ≡ some r
      → may_cover r ≡ true
      → Indexes rules n ix
      → Indexes rules (suc n) (add ix n r)
  unfolding add
  add-Indexes n ix r e m i = record {
    by_iface = Tracks-add iface_dimension (λ r. r.iface) rules n ix.iface r e m i.by_iface;
    by_proto = Tracks-add proto_dimension (λ r. r.proto) rules n ix.proto r e m i.by_proto;
    by_src = Tracks-add addr_dimension (λ r. r.src_addrs) rules n ix.src r e m i.by_src;
    by_dst = Tracks-add addr_dimension (λ r. r.dst_addrs) rules n ix.dst r e m i.by_dst;
    by_sport = Tracks-add port_dimension (λ r. r.src_ports) rules n ix.sport r e m i.by_sport;
    by_dport = Tracks-add port_dimension (λ r. r.dst_ports) rules n ix.dport r e m i.by_dport;
  }

  pub skip-Indexes :
      (n : ℕ) (ix : CoverIndex) (r : Rule)
      → get_elem? rules n ≡ some r
      → may_cover r ≡ false
      → Indexes rules n ix
      → Indexes rules (suc n) ix
  skip-Indexes n ix r e m i = record {
    by_iface = Tracks-skip iface_dimension (λ r. r.iface) rules n ix.iface r e m i.by_iface;
    by_proto = Tracks-skip proto_dimension (λ r. r.proto) rules n ix.proto r e m i.by_proto;
    by_src = Tracks-skip addr_dimension (λ r. r.src_addrs) rules n ix.src r e m i.by_src;
    by_dst = Tracks-skip addr_dimension (λ r. r.dst_addrs) rules n ix.dst r e m i.by_dst;
    by_sport = Tracks-skip port_dimension (λ r. r.src_ports) rules n ix.sport r e m i.by_sport;
    by_dport = Tracks-skip port_dimension (λ r. r.dst_ports) rules n ix.dport r e m i.by_dport;
  }

-- A rule that covers another covers it in each field.
pub record CoversEach (j i : Rule) : Type 0 where
  pub unconditional : j.conditional ≡ false
  pub iface_covered : iface_covers j.iface i.iface ≡ true
  pub proto_covered : proto_covers j.proto i.proto ≡ true
  pub src_covered : addrs_cover j.src_addrs i.src_addrs ≡ true
  pub dst_covered : addrs_cover j.dst_addrs i.dst_addrs ≡ true
  pub sport_covered : ports_cover j.src_ports i.src_ports ≡ true
  pub dport_covered : ports_cover j.dst_ports i.dst_ports ≡ true

pub covers-CoversEach : (j i : Rule) → covers j i ≡ true → CoversEach j i
unfolding covers
covers-CoversEach j i h = ground arith

with_lists-All :
    (P : List Postings → Type 0) (o : Option (List Postings)) (rest : List (List Postings))
    → ((l : List Postings) → o ≡ some l → P l)
    → All P rest
    → All P (with_lists o rest)
unfolding with_lists
with_lists-All P none rest f h = h
with_lists-All P (some l) rest f h = (f l refl, h)

-- A dimension with no list holds nothing.
empty_dim : (ds : List (List Postings)) (j : ℕ) → any is_empty ds ≡ true → All (InDim j) ds → ⊥
unfolding any is_empty
empty_dim [] j e h = false≢true e
empty_dim ([] ∷ ds) j e h = h.0
empty_dim ((l ∷ ls) ∷ ds) j e h = empty_dim ds j e h.1

module _ (rules : List Rule) (n : ℕ) (ix : CoverIndex) (i : Indexes rules n ix) (ri : Rule) where
  dims-SortedDim : All (SortedDim (Usable rules) n) (dims ix ri)
  unfolding dims
  dims-SortedDim = (
    Tracks-SortedDim iface_dimension (λ r. r.iface) rules n ix.iface ri.iface _ i.by_iface refl,
    (
      Tracks-SortedDim proto_dimension (λ r. r.proto) rules n ix.proto ri.proto _ i.by_proto refl,
      (
        Tracks-SortedDim addr_dimension (λ r. r.src_addrs) rules n ix.src ri.src_addrs _ i.by_src
            refl,
        (
          Tracks-SortedDim addr_dimension (λ r. r.dst_addrs) rules n ix.dst ri.dst_addrs _ i.by_dst
              refl,
          with_lists-All _ _ _
              (λ l e.
                Tracks-SortedDim port_dimension (λ r. r.src_ports) rules n ix.sport ri.src_ports l
                  i.by_sport e)
              (with_lists-All _ _ _
                (λ l e.
                  Tracks-SortedDim port_dimension (λ r. r.dst_ports) rules n ix.dport ri.dst_ports l
                    i.by_dport e)
                tt),
        ),
      ),
    ),
  )

  dims_complete :
      All IsPlain rules → IsPlain ri → (j : ℕ) → j < n → Hit rules ri j → All (InDim j) (dims ix ri)
  unfolding dims
  dims_complete plain plain_ri j lt (r, e, m, c) = (
    Tracks-complete iface_dimension (λ r. r.iface) rules n ix.iface ri.iface _ i.by_iface refl tt j
        r lt e m tt each.iface_covered,
    (
      Tracks-complete proto_dimension (λ r. r.proto) rules n ix.proto ri.proto _ i.by_proto refl tt
          j r lt e m tt each.proto_covered,
      (
        Tracks-complete addr_dimension (λ r. r.src_addrs) rules n ix.src ri.src_addrs _ i.by_src
            refl plain_ri.0 j r lt e m plain_r.0 each.src_covered,
        (
          Tracks-complete addr_dimension (λ r. r.dst_addrs) rules n ix.dst ri.dst_addrs _ i.by_dst
              refl plain_ri.1 j r lt e m plain_r.1 each.dst_covered,
          with_lists-All _ _ _
              (λ l q.
                Tracks-complete port_dimension (λ r. r.src_ports) rules n ix.sport ri.src_ports l
                  i.by_sport q tt j r lt e m tt each.sport_covered)
              (with_lists-All _ _ _
                (λ l q.
                  Tracks-complete port_dimension (λ r. r.dst_ports) rules n ix.dport ri.dst_ports l
                    i.by_dport q tt j r lt e m tt each.dport_covered)
                tt),
        ),
      ),
    ),
  )
    where
      each : CoversEach r ri
      each = covers-CoversEach r ri c

      plain_r : IsPlain r
      plain_r = All-get_elem? IsPlain rules j r plain e

  -- From an index of the first `n` of the rules, `firstCoverer` ends, never reads past the rules,
  -- and returns the first of those `n` that may cover and does cover the asked rule, and -1 only if
  -- there is none; where no address of the rules parses to a network of IPv4 addresses mapped into
  -- IPv6.
  pub first_coverer-FirstHit :
      All IsPlain rules
      → IsPlain ri
      → n ≤ length rules
      → FirstHit rules ri n (first_coverer ix rules ri)
  unfolding first_coverer
  first_coverer-FirstHit plain plain_ri in_rules = elim (Bool-cases (any is_empty (dims ix ri))) [
    | inl e ↦ rw e λ k lt hit. empty_dim (dims ix ri) k e (dims_complete plain plain_ri k lt hit)
    | inr e ↦ rw e (
        unfold dims in
        leapfrog_first rules ri n _ _ in_rules dims-SortedDim (dims_complete plain plain_ri))
  ]
