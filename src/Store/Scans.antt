-- ===== src/Store/Scans.antt =====
-- Scans of one target, one after another, that do not report a finding of the store in memory.
use rulehawk.Common.{
  List, ◌≡◌, ◌≢◌, All, [], ◌∷◌, some, false, if_other, if_keeps, refl, sym, ◌∙◌, ap, subst,
  and-eq-true, ◌&&◌, true, ℕ, none_ne_some, any, none, Bool, arith,
}
use rulehawk.Common.Text.{Text, text_eq, text_eq→eq, text_eq_refl}
use rulehawk.Core.{Finding, ModuleInfo, resolve_after_or_default}
use rulehawk.Store.{Record, Engine, no_result}
use rulehawk.Store.Memory.{MemStore, mem_key, mem_ops, get_entry, list_by_target, get}
use rulehawk.Store.Reconcile.{Progress, ingest_all, reconcile, absence_counts}
use rulehawk.Store.Keyed.{key_of, IsKeyed, records_where-IsOnce, records_where-All}
use rulehawk.Store.Rejections.{ingest_all-Going}
use rulehawk.Store.Silent.{quiet_once, absent_once-keeps, ingest_all-Has, age_all-once}

-- A scan: the clock and the generator of its reconciliation, and what it reports.
pub record Scan : Type 0 where
  pub eng : Engine
  pub fresh : List Finding

-- The store behind the scans of a target, one after another.
abbrev pub run_scans : ModuleInfo → Text → List Scan → MemStore → MemStore
run_scans mod_info target [] m = m
run_scans mod_info target (scan ∷ scans) m =
    run_scans mod_info target scans (reconcile mem_ops scan.eng mod_info target scan.fresh m).store

-- The scan does not report the fingerprint, and the generator does not fail.
pub record IsSilent (fp : Text) (scan : Scan) : Type 0 where
  pub unreported : All (λ (f : Finding). f.fingerprint ≢ fp) scan.fresh
  pub generates : (n : ℕ) → scan.eng.new_id n ≢ none

-- The store has its records under their keys, and this one among them.
pub record IsStored (m : MemStore) (r : Record) : Type 0 where
  pub keyed : IsKeyed m.recs
  pub found : get m r.finding.module_id r.finding.fingerprint ≡ some r

and-true : {a b : Bool} → a ≡ true → b ≡ true → (a && b) ≡ true
and-true h k = ground arith

All-module :
    (module_id target : Text) (qs : List Record)
    → All
        (λ (q : Record).
          (text_eq q.finding.module_id module_id && text_eq q.finding.target target) ≡ true)
        qs
    → All (λ (q : Record). q.finding.module_id ≡ module_id) qs
All-module module_id target [] h = tt
All-module module_id target (q ∷ qs) h = (
  text_eq→eq q.finding.module_id module_id (and-eq-true _ _ h.0).0,
  All-module module_id target qs h.1,
)

quiet_once-keeps :
    (now threshold : ℕ) (r : Record)
    → ((quiet_once now threshold r).finding.module_id ≡ r.finding.module_id)
      × ((quiet_once now threshold r).finding.fingerprint ≡ r.finding.fingerprint)
      × ((quiet_once now threshold r).finding.target ≡ r.finding.target)
quiet_once-keeps now threshold r =
    if_keeps
      (λ (q : Record).
        (q.finding.module_id ≡ r.finding.module_id)
        × (q.finding.fingerprint ≡ r.finding.fingerprint)
        × (q.finding.target ≡ r.finding.target))
      (absence_counts r.finding.status) _ _ (absent_once-keeps now threshold r) (refl, refl, refl)

-- One scan that does not report the record leaves it with one more absence, if absence counts, and as
-- it was otherwise.
pub silent-IsStored :
    (scan : Scan) (mod_info : ModuleInfo) (m : MemStore) (r : Record)
    → IsSilent r.finding.fingerprint scan
    → r.finding.module_id ≡ mod_info.id
    → IsStored m r
    → IsStored
        (reconcile mem_ops scan.eng mod_info r.finding.target scan.fresh m).store
        (quiet_once scan.eng.now (resolve_after_or_default mod_info) r)
unfolding reconcile list_by_target get any
silent-IsStored scan mod_info m r silent same h =
    let aged = quiet_once scan.eng.now (resolve_after_or_default mod_info) r in
    let existing = list_by_target m mod_info.id r.finding.target in
    let start : Progress MemStore = record {
      store = m;
      result = no_result;
      calls = 0;
      seen = [];
      failed = false;
    } in
    let p = ingest_all mem_ops scan.eng mod_info existing start scan.fresh in
    let listed : (text_eq r.finding.module_id mod_info.id
          && text_eq r.finding.target r.finding.target)
        ≡ true =
      and-true (ap (text_eq r.finding.module_id) (sym same) ∙ text_eq_refl r.finding.module_id)
        (text_eq_refl r.finding.target) in
    let ok =
      (ingest_all-Going mem_ops scan.eng mod_info (λ s q e. none_ne_some (sym e)) silent.generates
        existing [] start scan.fresh (refl, refl)).0 in
    let ingested =
      ingest_all-Has scan.eng mod_info r same existing start scan.fresh
        (All-module mod_info.id r.finding.target existing (records_where-All _ m.recs))
        silent.unreported (h.keyed, h.found, refl) in
    let done =
      if_other
        (λ (q : Progress MemStore).
          IsKeyed q.store.recs × (get_entry q.store.recs (key_of r) ≡ some aged))
        p.failed _ _ ok
        (let (k, f, u) =
            age_all-once scan.eng mod_info r p existing
              (records_where-IsOnce _ r m.recs h.keyed h.found listed) ok ingested in
          (k, f)) in
    let keep = quiet_once-keeps scan.eng.now (resolve_after_or_default mod_info) r in
    record {
      keyed = done.0;
      found =
          subst
            (λ k.
              get_entry
                (reconcile mem_ops scan.eng mod_info r.finding.target scan.fresh m).store.recs k
              ≡ some aged)
            (sym (
              ap (λ z. mem_key z aged.finding.fingerprint) keep.0
              ∙ ap (mem_key r.finding.module_id) keep.1))
            done.1;
    }
