-- ===== src/Audit/Whole.antt =====
-- A scan from the configuration to the store: fwparse, fwrule, rulehawk, sched and store together.
use rulehawk.Common.{
  none, some, List, All, ◌≡◌, [], false, ◌∷◌, refl, ◌++◌, ◌≢◌, ℕ, ap, ◌∙◌, if_false, Option,
}
use rulehawk.Audit.Valid.{IsTaken, collect-IsTaken}
use rulehawk.Fwparse.Numbering.{parse-IsNumbered}
use rulehawk.Fwrule.Analyze.Reports.{Reports-iff_Covered}
use rulehawk.Store.Rejections.{rejects, reconcile-rejects}
use rulehawk.Audit.{
  Libraries, Config, audit, findings_of, Configs, collector_of, collect, get_config,
}
use rulehawk.Core.{Finding, blank}
use rulehawk.Common.Text.{Text}
use rulehawk.Fwparse.Base.{Parsed}
use rulehawk.Fwparse.{parse}
use rulehawk.Fwrule.Index.First.{IsPlain}
use rulehawk.Fwrule.Checks.{analyze, permissive, hygiene}
use rulehawk.Sched.{
  scan_one, scanned, Registration, Target, look_up, succeeded, Collector, failed, ScanOutcome,
}
use rulehawk.Fwrule.Analyze.{Issue}
use rulehawk.Store.{Store, Engine, Record, ReconcileResult}
use rulehawk.Store.Reconcile.{reconcile}

rejects-taken : (fresh : List Finding) → All IsTaken fresh → rejects fresh ≡ []
unfolding rejects
rejects-taken [] h = refl
rejects-taken (f ∷ fresh) h = rw (h.0, rejects) (rejects-taken fresh h.1)

module _ (lib : Libraries) (hashes : (s : Text) → blank (lib.hash s) ≡ false) (cfg : Config)
    (named : blank cfg.name ≡ false) (parsed : Parsed)
    (parses : parse lib.unmarshal cfg.vendor cfg.current ≡ some parsed)
    (plain : All IsPlain parsed.rules) where
  analyze_succeeds : (issues : List Issue) × (analyze parsed.rules ≡ some issues)
  unfolding analyze
  analyze_succeeds =
      let numbered = parse-IsNumbered lib.unmarshal cfg.vendor cfg.current parsed parses in
      let (issues, e, both) = Reports-iff_Covered parsed.rules 0 plain numbered in
      (issues ++ (permissive parsed.rules ++ hygiene parsed.rules), rw (e, analyze) refl)

  pub audit_succeeds : (found : List Finding) × (audit lib cfg ≡ some found)
  unfolding audit
  audit_succeeds =
      let (issues, e) = analyze_succeeds in
      (findings_of lib cfg parsed issues, rw (parses, audit, e) refl)

  collects :
      (reg : Registration) (configs : Configs) (t : Target) (found : List Finding)
      → reg.collector ≡ collector_of lib configs
      → look_up none configs t.canonical ≡ some cfg
      → audit lib cfg ≡ some found
      → reg.collector.collect t ≡ some found
  unfolding collector_of collect get_config
  collects reg configs t found made there a =
      ap (λ (c : Collector). c.collect t) made ∙ ap (λ o. collect lib (some o)) there ∙ a

  -- A scan of a stored configuration that has a name and parses goes through: the analysers do not
  -- panic, the reconciliation does not fail, and none of the findings is rejected. This is where no
  -- hash is empty, the store of findings and the generator of identifiers do not fail, and no address
  -- of the rules parses to a network of IPv4 addresses mapped into IPv6.
  pub scan_one-succeeds :
      {S : Type 0} (ops : Store S) (eng : Engine)
      → ((s : S) (r : Record) → ops.upsert s r ≢ none)
      → ((n : ℕ) → eng.new_id n ≢ none)
      → (reg : Registration) (configs : Configs) (t : Target) (existing : List Record) (s : S)
      → reg.collector ≡ collector_of lib configs
      → look_up none configs t.canonical ≡ some cfg
      → ops.list_by_target s reg.info.id t.canonical ≡ some existing
      → (result : ReconcileResult) × (((scan_one ops eng reg t s).1 ≡ some result)
          × ((scan_one ops eng reg t s).2 ≡ succeeded)
          × (result.rejected ≡ []))
  unfolding scan_one scanned collect
  scan_one-succeeds {S} ops eng stores generates reg configs t existing s made there listed =
      let (found, a) = audit_succeeds in
      let p = reconcile ops eng reg.info t.canonical found s in
      let (ok, left) =
        reconcile-rejects ops eng reg.info stores generates t.canonical existing found s listed in
      let shape : scan_one ops eng reg t s ≡ (p.store, some p.result, succeeded) =
        ap
          (λ o. elim o [
            | none ↦ (s, none, failed)
            | some findings ↦ scanned ops eng (reconcile ops eng reg.info t.canonical findings s)
          ])
          (collects reg configs t found made there a)
        ∙ if_false p.failed _ _ ok in
      (
        p.result,
        (
          ap (λ (r : S × Option ReconcileResult × ScanOutcome). r.1) shape,
          ap (λ (r : S × Option ReconcileResult × ScanOutcome). r.2) shape,
          left ∙ rejects-taken found (collect-IsTaken lib hashes cfg named found a),
        ),
      )
