-- ===== src/Store/Absences.antt =====
-- How absences add up to the threshold, in the store in memory.
use rulehawk.Common.{
  List, ℕ, if◌then◌else◌, ◌≡◌, ◌∷◌, [], refl, false, true, ◌<◌, subst, sym, leb, ◌∙◌, ap, ◌+◌,
  arith, length, ◌≤◌, some, Bool-cases, inl, inr, if_false, if_eq, All,
}
use rulehawk.Store.{Record}
use rulehawk.Core.{
  ModuleInfo, resolve_after_or_default, FindingStatus, status_unknown, status_open, status_resolved,
  status_acknowledged, status_suppressed,
}
use rulehawk.Store.Memory.{MemStore, get, mem_ops}
use rulehawk.Store.Reconcile.{absent_once, absence_counts, resolves, is_resolved, reconcile}
use rulehawk.Common.Int.{ℤ, ltb_ℤ, pos, pos_part}
use rulehawk.Store.Silent.{quiet_once}
use rulehawk.Store.Scans.{Scan, run_scans, IsSilent, IsStored, silent-IsStored}

resolves-le :
    (threshold : ℕ) (r : Record) → resolves threshold r ≡ true → threshold ≤ r.absent_streak + 1
unfolding resolves
resolves-le threshold r e = ground arith

resolves-gt :
    (threshold : ℕ) (r : Record) → resolves threshold r ≡ false → r.absent_streak + 1 < threshold
unfolding resolves
resolves-gt threshold r e = ground arith

threshold_if : (z : ℤ) → 0 < (if ltb_ℤ z (pos 1) then 1 else pos_part z)
threshold_if z = ground arith

leb-false : (a b : ℕ) → b < a → leb a b ≡ false
leb-false a b h = ground arith

counts-not_resolved : (s : FindingStatus) → absence_counts s ≡ true → is_resolved s ≡ false
unfolding absence_counts is_resolved
counts-not_resolved status_open h = refl
counts-not_resolved status_acknowledged h = refl
counts-not_resolved (status_unknown t) h = refl
counts-not_resolved status_resolved h = cc
counts-not_resolved status_suppressed h = cc

resolved-counts_not : (s : FindingStatus) → is_resolved s ≡ true → absence_counts s ≡ false
unfolding absence_counts is_resolved
resolved-counts_not status_resolved h = refl
resolved-counts_not status_open h = cc
resolved-counts_not status_acknowledged h = cc
resolved-counts_not status_suppressed h = cc
resolved-counts_not (status_unknown t) h = cc

-- The record with one more absence, and the record resolved.
abbrev pub once_more : Record → Record
once_more r = record r { absent_streak = r.absent_streak + 1 }

abbrev pub settled : ℕ → Record → Record
settled now r = record {
  finding = record r.finding { status = status_resolved; resolved_at = some now };
  absent_streak = r.absent_streak + 1;
}

quiet_once-settled :
    (now threshold : ℕ) (r : Record)
    → absence_counts r.finding.status ≡ true
    → resolves threshold r ≡ true
    → quiet_once now threshold r ≡ settled now r
unfolding absent_once
quiet_once-settled now threshold r a e =
    if_eq (absence_counts r.finding.status) _ r a ∙ if_eq (resolves threshold r) _ _ e

quiet_once-once_more :
    (now threshold : ℕ) (r : Record)
    → absence_counts r.finding.status ≡ true
    → resolves threshold r ≡ false
    → quiet_once now threshold r ≡ once_more r
unfolding absent_once
quiet_once-once_more now threshold r a e =
    if_eq (absence_counts r.finding.status) _ r a ∙ if_false (resolves threshold r) _ _ e

leb-true : (a b : ℕ) → a ≤ b → leb a b ≡ true
leb-true a b h = ground arith

-- A resolved record stays as it is.
run_scans-resolved :
    (scans : List Scan) (mod_info : ModuleInfo) (m : MemStore) (r : Record)
    → All (IsSilent r.finding.fingerprint) scans
    → r.finding.module_id ≡ mod_info.id
    → is_resolved r.finding.status ≡ true
    → IsStored m r
    → IsStored (run_scans mod_info r.finding.target scans m) r
run_scans-resolved [] mod_info m r silent same res h = h
run_scans-resolved (scan ∷ scans) mod_info m r silent same res h =
    run_scans-resolved scans mod_info _ r silent.1 same res (
      subst (IsStored (reconcile mem_ops scan.eng mod_info r.finding.target scan.fresh m).store)
        (if_false (absence_counts r.finding.status) _ r (resolved-counts_not r.finding.status res))
        (silent-IsStored scan mod_info m r silent.0 same h))

-- What holds of the record behind a number of scans.
abbrev pub AgedTo : ℕ → ℕ → Record → MemStore → Record → Type 0
AgedTo threshold streak r m q =
    IsStored m q
    × (q.finding.module_id ≡ r.finding.module_id)
    × (q.finding.fingerprint ≡ r.finding.fingerprint)
    × (is_resolved q.finding.status ≡ leb threshold streak)

run_scans-AgedTo :
    (scans : List Scan) (mod_info : ModuleInfo) (m : MemStore) (r : Record)
    → All (IsSilent r.finding.fingerprint) scans
    → r.finding.module_id ≡ mod_info.id
    → absence_counts r.finding.status ≡ true
    → r.absent_streak < resolve_after_or_default mod_info
    → IsStored m r
    → (q : Record) × AgedTo
        (resolve_after_or_default mod_info)
        (r.absent_streak + length scans)
        r
        (run_scans mod_info r.finding.target scans m)
        q
unfolding is_resolved
run_scans-AgedTo [] mod_info m r silent same a lt h = (
  r,
  (h, refl, refl, counts-not_resolved r.finding.status a ∙ sym (leb-false _ _ (omega (arith, lt)))),
)
run_scans-AgedTo (scan ∷ scans) mod_info m r silent same a lt h =
    let now = scan.eng.now in
    let threshold = resolve_after_or_default mod_info in
    let m' = (reconcile mem_ops scan.eng mod_info r.finding.target scan.fresh m).store in
    let step = silent-IsStored scan mod_info m r silent.0 same h in
    elim (Bool-cases (resolves threshold r)) [
      | inl e ↦
          let le = resolves-le threshold r e in
          (
            settled now r,
            (
              run_scans-resolved scans mod_info m' (settled now r) silent.1 same refl
                  (subst (IsStored m') (quiet_once-settled now threshold r a e) step),
              refl,
              refl,
              sym (leb-true _ _ (omega (arith, le))),
            ),
          )
      | inr e ↦
          let gt = resolves-gt threshold r e in
          let (q, (stored, md, fp, st)) =
            run_scans-AgedTo scans mod_info m' (once_more r) silent.1 same a gt
              (subst (IsStored m') (quiet_once-once_more now threshold r a e) step) in
          (q, (stored, md, fp, st ∙ ap (leb threshold) (omega arith)))
    ]

-- The threshold is at least one.
threshold_pos : (mod_info : ModuleInfo) → 0 < resolve_after_or_default mod_info
unfolding resolve_after_or_default
threshold_pos mod_info = threshold_if mod_info.resolve_after

-- In a store whose records stand under their keys, each once, with a finding of the module in a state
-- in which absence counts and seen by the last scan: whatever other findings the scans of its target
-- report, and whatever other records the store has, any number of scans that do not report it leave it
-- in the store, and it is resolved exactly when their number has reached the threshold of the module;
-- where the generator of identifiers does not fail.
pub silent_scans-resolve :
    (scans : List Scan) (mod_info : ModuleInfo) (m : MemStore) (r : Record)
    → All (IsSilent r.finding.fingerprint) scans
    → r.finding.module_id ≡ mod_info.id
    → absence_counts r.finding.status ≡ true
    → r.absent_streak ≡ 0
    → IsStored m r
    → (q : Record) × (get
          (run_scans mod_info r.finding.target scans m)
          r.finding.module_id
          r.finding.fingerprint
        ≡ some q)
      × (is_resolved q.finding.status ≡ leb (resolve_after_or_default mod_info) (length scans))
silent_scans-resolve scans mod_info m r silent same a z h =
    let (q, (stored, md, fp, st)) =
      run_scans-AgedTo scans mod_info m r silent same a
        (subst (λ n. n < resolve_after_or_default mod_info) (sym z) (threshold_pos mod_info)) h in
    (
      q,
      ap (get (run_scans mod_info r.finding.target scans m) r.finding.module_id) (sym fp)
          ∙ ap (λ k. get (run_scans mod_info r.finding.target scans m) k q.finding.fingerprint)
              (sym md)
          ∙ stored.found,
      st ∙ ap (leb (resolve_after_or_default mod_info)) (omega (arith, z)),
    )
