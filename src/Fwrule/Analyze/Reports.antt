-- ===== src/Fwrule/Analyze/Reports.antt =====
-- Which rules the pass for shadowed and duplicate rules reports.
use rulehawk.Common.{
  ◌&&◌, ℕ, List, Any, get_elem?, ◌≡◌, ◌<◌, ◌++◌, some, suc, [], ◌↔◌, ◌+◌, true, ◌⊎◌, ◌≢◌, ◌∷◌, ◌≤◌,
  if◌then◌else◌, inl, none_ne_some, inr, Bool, sym, Bool-cases, arith, subst, ◌∙◌, some_inj, ap,
  false, refl, zero, ◌-◌, ◌==◌, All, ==_iff,
}
use rulehawk.Fwrule.Analyze.{
  duplicate_issue, dead_deny_issue, shadowed_issue, cover_issue, scan, Issue, quadratic_loop,
  passed_over, shadow_and_duplicate_quadratic, shadow_and_duplicate,
}
use rulehawk.Fwrule.Rule.{Rule, same_match, action_eq, deny, allow}
use rulehawk.Fwrule.Index.Leapfrog.{Hit}
use rulehawk.Fwrule.Analyze.Reference.{
  passed_over_usable, passed_over_hit, shadow_and_duplicate-eq-quadratic,
}
use rulehawk.Fwrule.Index.First.{IsPlain}

-- The parsers number the rules from 1 on.
abbrev pub IsNumbered : List Rule → Type 0
IsNumbered rules = (k : ℕ) (r : Rule) → get_elem? rules k ≡ some r → r.index ≡ suc k

-- An issue carries the number of the rule at the position.
abbrev pub Reports : ℕ → List Issue → Type 0
Reports k issues = Any (λ s. s.rule_index ≡ suc k) issues

-- The rule at the position is enabled, and an earlier one that may cover does cover it.
abbrev pub Covered : List Rule → ℕ → Type 0
Covered rules k =
    (r : Rule) × (get_elem? rules k ≡ some r)
    × (r.enabled ≡ true)
    × (j : ℕ) × (j < k)
    × Hit rules r j

index_if :
    (b : Bool) (x y : Issue) (n : ℕ)
    → x.rule_index ≡ n
    → y.rule_index ≡ n
    → (if b then x else y).rule_index ≡ n
index_if true x y n p q = p
index_if false x y n p q = q

rule_index-cover_issue : (rj ri : Rule) → (cover_issue rj ri).rule_index ≡ ri.index
unfolding cover_issue duplicate_issue dead_deny_issue shadowed_issue
rule_index-cover_issue rj ri =
    index_if (same_match rj ri && action_eq rj.action ri.action) (duplicate_issue rj ri)
      (if action_eq ri.action deny && action_eq rj.action allow
        then dead_deny_issue rj ri
        else shadowed_issue rj ri)
      ri.index refl
      (index_if (action_eq ri.action deny && action_eq rj.action allow) (dead_deny_issue rj ri)
        (shadowed_issue rj ri) ri.index refl refl)

-- The scan finds nothing, or stops at a hit.
pub scan_cases :
    (rules : List Rule) (n : ℕ) (ri : Rule)
    → (scan rules n ri ≡ [])
      ⊎ ((j : ℕ) × (j < n) × (h : Hit rules ri j) × (scan rules n ri ≡ cover_issue h.0 ri ∷ []))
unfolding scan
scan_cases [] n ri = inl refl
scan_cases (r ∷ rules) zero ri = inl refl
scan_cases (r ∷ rules) (suc n) ri = elim (Bool-cases (passed_over r ri)) [
  | inl e ↦ elim (scan_cases rules n ri) [
    | inl none_left ↦ inl (rw e none_left)
    | inr (j, lt, h, hit) ↦ inr (suc j, omega arith, h, rw e hit)
  ]
  | inr e ↦ let (m, c) = passed_over_usable r ri e in inr (0, omega arith, (r, refl, m, c), rw e)
]

-- A hit among the scanned rules leaves an issue.
scan_nonempty :
    (rules : List Rule) (n : ℕ) (ri : Rule) (j : ℕ) → j < n → Hit rules ri j → scan rules n ri ≢ []
unfolding scan
scan_nonempty [] n ri j lt (r, e, m, c) = absurd (none_ne_some e)
scan_nonempty (r ∷ rules) zero ri j lt h = absurd (omega arith)
scan_nonempty (r ∷ rules) (suc n) ri zero lt (r', e, m, c) =
    let same : r ≡ r' = some_inj e in rw (same, passed_over_hit r' ri m c) λ empty. cc
scan_nonempty (r ∷ rules) (suc n) ri (suc j) lt h = elim (Bool-cases (passed_over r ri)) [
  | inl e ↦ rw e (scan_nonempty rules n ri j (omega arith) h)
  | inr e ↦ rw e λ empty. cc
]

Any-append :
    {A : Type 0} (P : A → Type 0) (xs ys : List A) → Any P (xs ++ ys) ↔ (Any P xs ⊎ Any P ys)
Any-append P [] ys = (inr, elim [ inl h ↦ absurd h | inr h ↦ h ])
Any-append P (x ∷ xs) ys = (
  elim [
    | inl h ↦ inl (inl h)
    | inr h ↦ elim ((Any-append P xs ys).0 h) [ inl k ↦ inl (inr k) | inr k ↦ inr k ]
  ],
  elim [
    | inl h ↦ elim h [ inl k ↦ inl k | inr k ↦ inr ((Any-append P xs ys).1 (inl k)) ]
    | inr h ↦ inr ((Any-append P xs ys).1 (inr h))
  ],
)

module _ (rules : List Rule) (numbered : IsNumbered rules) where
  head-Reports :
      (i k : ℕ) (ri : Rule)
      → get_elem? rules i ≡ some ri
      → Reports k (if ri.enabled then scan rules i ri else [])
      → Covered rules k
  head-Reports i k ri e h = go ri.enabled refl h
    where
      go :
          (b : Bool)
          → ri.enabled ≡ b
          → Reports k (if b then scan rules i ri else [])
          → Covered rules k
      go false off h = absurd h
      go true on h = elim (scan_cases rules i ri) [
        | inl empty ↦ absurd (subst (Reports k) empty h)
        | inr (j, lt, hit, one) ↦ elim (subst (Reports k) one h) [
          | inl at ↦
              let same : k ≡ i =
                omega (arith, numbered i ri e, at, rule_index-cover_issue hit.0 ri) in
              rw same (ri, e, on, j, lt, hit)
          | inr no_more ↦ absurd no_more
        ]
      ]

  Reports-Covered :
      (rest : List Rule) (i k : ℕ)
      → ((m : ℕ) → get_elem? rest m ≡ get_elem? rules (m + i))
      → Reports k (quadratic_loop rules rest i)
      → Covered rules k
  unfolding quadratic_loop
  Reports-Covered [] i k at h = absurd h
  Reports-Covered (ri ∷ rest) i k at h =
      let here : get_elem? rules i ≡ some ri = sym (at 0 ∙ ap (get_elem? rules) (omega arith)) in
      elim ((Any-append (λ (s : Issue). s.rule_index ≡ suc k) _
          (quadratic_loop rules rest (suc i))).0
        h) [
          | inl now ↦ head-Reports i k ri here now
          | inr later ↦
              Reports-Covered rest (suc i) k (λ m. at (suc m) ∙ ap (get_elem? rules) (omega arith))
                later
        ]

  Covered-head :
      (i k : ℕ) (ri : Rule)
      → get_elem? rules i ≡ some ri
      → i ≡ k
      → Covered rules k
      → Reports k (if ri.enabled then scan rules i ri else [])
  Covered-head i k ri e same (r, e', on, j, lt, hit) =
      let rule : r ≡ ri = some_inj (sym e' ∙ ap (get_elem? rules) (sym same) ∙ e) in
      let on' : ri.enabled ≡ true = ap (λ (q : Rule). q.enabled) (sym rule) ∙ on in
      let hit' : Hit rules ri j = subst (λ q. Hit rules q j) rule hit in
      elim (scan_cases rules i ri) [
        | inl empty ↦ absurd (scan_nonempty rules i ri j (omega arith) hit' empty)
        | inr (j', lt', h, one) ↦
            subst (λ b. Reports k (if b then scan rules i ri else [])) (sym on')
              (subst (Reports k) (sym one)
                (inl (rule_index-cover_issue h.0 ri ∙ numbered i ri e ∙ ap suc same)))
      ]

  Covered-Reports :
      (rest : List Rule) (i k : ℕ)
      → ((m : ℕ) → get_elem? rest m ≡ get_elem? rules (m + i))
      → i ≤ k
      → Covered rules k
      → Reports k (quadratic_loop rules rest i)
  unfolding quadratic_loop
  Covered-Reports [] i k at le (r, e, _, _, _, _) =
      absurd (none_ne_some (at (k - i) ∙ ap (get_elem? rules) (omega arith) ∙ e))
  Covered-Reports (ri ∷ rest) i k at le c = elim (Bool-cases (i == k)) [
    | inl here ↦
        let same : i ≡ k = (==_iff i k).0 here in
        let this : get_elem? rules i ≡ some ri = sym (at 0 ∙ ap (get_elem? rules) (omega arith)) in
        (Any-append (λ (s : Issue). s.rule_index ≡ suc k) _ (quadratic_loop rules rest (suc i))).1
          (inl (Covered-head i k ri this same c))
    | inr later ↦
        (Any-append (λ (s : Issue). s.rule_index ≡ suc k) _ (quadratic_loop rules rest (suc i))).1 (
          inr (
            Covered-Reports rest (suc i) k (λ m. at (suc m) ∙ ap (get_elem? rules) (omega arith))
              (ground arith) c))
  ]

-- A rule with the number of its position is reported exactly when it is enabled and an earlier
-- enabled, terminating and unconditional rule covers it; where the rules are numbered from 1 on,
-- and no address of them parses to a network of IPv4 addresses mapped into IPv6.
pub Reports-iff_Covered :
    (rules : List Rule) (k : ℕ)
    → All IsPlain rules
    → IsNumbered rules
    → (issues : List Issue) × (shadow_and_duplicate rules ≡ some issues)
      × (Reports k issues ↔ Covered rules k)
unfolding shadow_and_duplicate_quadratic
Reports-iff_Covered rules k plain numbered = (
  shadow_and_duplicate_quadratic rules,
  shadow_and_duplicate-eq-quadratic rules plain,
  (
    Reports-Covered rules numbered rules 0 k (λ m. ap (get_elem? rules) (omega arith)),
    Covered-Reports rules numbered rules 0 k (λ m. ap (get_elem? rules) (omega arith))
        (omega arith),
  ),
)
