-- ===== src/Fwrule/Packet/Order.antt =====
-- A rule that is reported as shadowed or duplicate decides no packet.
use rulehawk.Common.{
  ℕ, List, ◌≡◌, get_elem?, ◌<◌, true, All, some, false, some_inj, arith, sym, ◌∙◌, subst,
  All-get_elem?, false≢true,
}
use rulehawk.Fwrule.Packet.{Names, Packet, Matches}
use rulehawk.Fwrule.Index.{may_cover}
use rulehawk.Fwrule.Rule.{Rule, action_eq, other}
use rulehawk.Fwrule.Analyze.{Issue, shadow_and_duplicate}
use rulehawk.Fwrule.Index.First.{IsPlain}
use rulehawk.Fwrule.Analyze.Reports.{Covered, IsNumbered, Reports, Reports-iff_Covered}
use rulehawk.Fwrule.Packet.Covers.{covers_sound}

-- The rule at a position acts on the packet: it is enabled and terminates, it matches, and what a
-- conditional rule demands beyond the model holds.
abbrev pub Fires : Names → (ℕ → Packet → Type 0) → List Rule → Packet → ℕ → Type 0
Fires names beyond rules p k =
    (r : Rule) × (get_elem? rules k ≡ some r)
    × (r.enabled ≡ true)
    × (action_eq r.action other ≡ false)
    × Matches names r p
    × (r.conditional ≡ true → beyond k p)

-- The first rule that fires decides the packet.
abbrev pub Decides : Names → (ℕ → Packet → Type 0) → List Rule → Packet → ℕ → Type 0
Decides names beyond rules p k =
    Fires names beyond rules p k × ((j : ℕ) → j < k → ¬ Fires names beyond rules p j)

may_cover-fires :
    (r : Rule)
    → may_cover r ≡ true
    → (r.enabled ≡ true) × (action_eq r.action other ≡ false) × (r.conditional ≡ false)
unfolding may_cover
may_cover-fires r m = ground arith

Covered-never-Decides :
    (names : Names) (beyond : ℕ → Packet → Type 0) (rules : List Rule) (p : Packet) (k : ℕ)
    → All IsPlain rules
    → Covered rules k
    → ¬ Decides names beyond rules p k
Covered-never-Decides names beyond rules p k plain (r, e, on, j, lt, (rj, ej, m, c)) d =
    let (r', e', on', term', match', _) = d.0 in
    let same : r' ≡ r = some_inj (sym e' ∙ e) in
    let (on_j, term_j, uncond) = may_cover-fires rj m in
    d.1 j lt (
      rj,
      ej,
      on_j,
      term_j,
      covers_sound names rj r p (All-get_elem? IsPlain rules j rj plain ej)
          (All-get_elem? IsPlain rules k r plain e) c (subst (λ q. Matches names q p) same match'),
      λ cond. absurd (false≢true (sym uncond ∙ cond)),
    )

-- Whatever the names stand for and whatever conditional rules demand beyond the model, a rule that
-- the analysis reports as shadowed or duplicate is never the first to act on a packet; where the
-- rules are numbered from 1 on, and no address of them parses to a network of IPv4 addresses mapped
-- into IPv6.
pub reported_never-Decides :
    (names : Names) (beyond : ℕ → Packet → Type 0) (rules : List Rule) (p : Packet) (k : ℕ)
    (issues : List Issue)
    → All IsPlain rules
    → IsNumbered rules
    → shadow_and_duplicate rules ≡ some issues
    → Reports k issues
    → ¬ Decides names beyond rules p k
reported_never-Decides names beyond rules p k issues plain numbered e h =
    let (all_issues, e', both) = Reports-iff_Covered rules k plain numbered in
    Covered-never-Decides names beyond rules p k plain
      (both.0 (subst (Reports k) (some_inj (sym e ∙ e')) h))
