-- ===== src/Store/Rejections.antt =====
-- What a reconciliation rejects, where the store and the generator of identifiers do not fail.
use rulehawk.Common.{
  List, ◌++◌, Bool, ◌∷◌, [], ◌≡◌, some, none, ap, false, refl, ◌≢◌, sym, ℕ, true, ◌∙◌, any,
  Option-cases, Option, inl, ◌||◌, inr, subst, not, ◌+◌, if_other, if_keeps,
}
use rulehawk.Core.{Finding, IngestError, validate_for_ingest, ModuleInfo, resolve_after_or_default}
use rulehawk.Store.{RejectedFinding, Store, Engine, Record, ReconcileResult, no_result}
use rulehawk.Store.Reconcile.{
  Progress, put_record, add_open, add_resolved, refresh, ingest, ingest_all, age, age_all,
  reconcile, open_new, cap_evidence, by_fingerprint, absence_counts, opened, resolves, merged,
  is_resolved,
}
use rulehawk.Common.Text.{Text, text_eq}

-- The invalid findings of a scan, in their order, each with its error.
unfoldable pub rejects : List Finding → List RejectedFinding
rejects [] = []
rejects (f ∷ fresh) = elim (validate_for_ingest f) [
  | none ↦ rejects fresh
  | some err ↦ record { finding = f; err = err } ∷ rejects fresh
]

rejects-some :
    (f : Finding) (fresh : List Finding) (err : IngestError)
    → validate_for_ingest f ≡ some err
    → rejects (f ∷ fresh) ≡ record { finding = f; err = err } ∷ rejects fresh
unfolding rejects
rejects-some f fresh err e = rw (e, rejects) refl

rejects-none :
    (f : Finding) (fresh : List Finding)
    → validate_for_ingest f ≡ none
    → rejects (f ∷ fresh) ≡ rejects fresh
unfolding rejects
rejects-none f fresh e = rw (e, rejects) refl

append-assoc-one :
    {A : Type 0} (xs : List A) (y : A) (ys : List A) → (xs ++ y ∷ []) ++ ys ≡ xs ++ y ∷ ys
append-assoc-one [] y ys = refl
append-assoc-one (x ∷ xs) y ys = ap (λ l. x ∷ l) (append-assoc-one xs y ys)

append-empty : {A : Type 0} (xs : List A) → xs ++ [] ≡ xs
append-empty [] = refl
append-empty (x ∷ xs) = ap (λ l. x ∷ l) (append-empty xs)

-- The reconciliation goes on, and has rejected these findings.
abbrev pub Going : {S : Type 0} → List RejectedFinding → Progress S → Type 0
Going l p = (p.failed ≡ false) × (p.result.rejected ≡ l)

module _ {S : Type 0} (ops : Store S) (eng : Engine) (mod_info : ModuleInfo)
    (stores : (s : S) (r : Record) → ops.upsert s r ≢ none)
    (generates : (n : ℕ) → eng.new_id n ≢ none) where
  put_record-Going :
      (l : List RejectedFinding) (p : Progress S) (r : Record)
      (update : ReconcileResult → ReconcileResult)
      → p.failed ≡ false
      → (update p.result).rejected ≡ l
      → Going l (put_record ops p r update)
  unfolding put_record
  put_record-Going l p r update ok e = elim (Option-cases (ops.upsert p.store r)) [
    | inl fails ↦ absurd (stores p.store r fails)
    | inr (s, q) ↦ rw (q, put_record) (ok, e)
  ]

  add_open-rejected :
      (b : Bool) (x : Finding) (res : ReconcileResult) → (add_open b x res).rejected ≡ res.rejected
  unfolding add_open
  add_open-rejected true x res = refl
  add_open-rejected false x res = refl

  add_resolved-rejected :
      (b : Bool) (x : Finding) (res : ReconcileResult)
      → (add_resolved b x res).rejected ≡ res.rejected
  unfolding add_resolved
  add_resolved-rejected true x res = refl
  add_resolved-rejected false x res = refl

  refresh-Going :
      (l : List RejectedFinding) (p : Progress S) (f : Finding) (o : Option Record)
      → Going l p
      → Going l (refresh ops eng mod_info p f o)
  unfolding refresh open_new
  refresh-Going l p f none (ok, e) = elim (Option-cases (eng.new_id p.calls)) [
    | inl fails ↦ absurd (generates p.calls fails)
    | inr (id, q) ↦
        rw (q, open_new)
          (put_record-Going l (record p { calls = p.calls + 1 }) (opened eng.now mod_info.id id f) _
            ok (add_open-rejected true _ p.result ∙ e))
  ]
  refresh-Going l p f (some prev) (ok, e) =
      put_record-Going l p (merged eng.now prev f) _ ok
        (add_open-rejected (is_resolved prev.finding.status) _ p.result ∙ e)

  ingest-valid :
      (existing : List Record) (l : List RejectedFinding) (p : Progress S) (f : Finding)
      → validate_for_ingest f ≡ none
      → Going l p
      → Going l (ingest ops eng mod_info existing p f)
  unfolding ingest
  ingest-valid existing l p f v h =
      rw (v, ingest)
        (refresh-Going l (record p { seen = f.fingerprint ∷ p.seen })
          (record f { evidence = cap_evidence f.evidence }) (by_fingerprint existing f.fingerprint)
          h)

  ingest-invalid :
      (existing : List Record) (l : List RejectedFinding) (p : Progress S) (f : Finding)
      (err : IngestError)
      → validate_for_ingest f ≡ some err
      → Going l p
      → Going (l ++ record { finding = f; err = err } ∷ []) (ingest ops eng mod_info existing p f)
  unfolding ingest
  ingest-invalid existing l p f err v (ok, e) =
      rw (v, ingest) (ok, ap (λ z. z ++ record { finding = f; err = err } ∷ []) e)

  -- A round that has not failed goes on to the rest.
  next :
      (existing : List Record) (l : List RejectedFinding) (p : Progress S) (f : Finding)
      (fresh : List Finding)
      → (ingest ops eng mod_info existing p f).failed ≡ false
      → Going l (ingest_all ops eng mod_info existing (ingest ops eng mod_info existing p f) fresh)
      → Going l (ingest_all ops eng mod_info existing p (f ∷ fresh))
  unfolding ingest_all
  next existing l p f fresh ok h =
      if_other (Going l) (ingest ops eng mod_info existing p f).failed _ _ ok h

  pub ingest_all-Going :
      (existing : List Record) (l : List RejectedFinding) (p : Progress S) (fresh : List Finding)
      → Going l p
      → Going (l ++ rejects fresh) (ingest_all ops eng mod_info existing p fresh)
  unfolding ingest_all rejects
  ingest_all-Going existing l p [] (ok, e) = (ok, e ∙ sym (append-empty l))
  ingest_all-Going existing l p (f ∷ fresh) (ok, e) = elim (Option-cases (validate_for_ingest f)) [
    | inl v ↦
        let step = ingest-valid existing l p f v (ok, e) in
        subst (λ z. Going (l ++ z) (ingest_all ops eng mod_info existing p (f ∷ fresh)))
          (sym (rejects-none f fresh v))
          (next existing (l ++ rejects fresh) p f fresh step.0
            (ingest_all-Going existing l (ingest ops eng mod_info existing p f) fresh step))
    | inr (err, v) ↦
        let step = ingest-invalid existing l p f err v (ok, e) in
        subst (λ z. Going (l ++ z) (ingest_all ops eng mod_info existing p (f ∷ fresh)))
          (sym (rejects-some f fresh err v))
          (subst (λ z. Going z (ingest_all ops eng mod_info existing p (f ∷ fresh)))
            (append-assoc-one l (record { finding = f; err = err }) (rejects fresh))
            (next existing ((l ++ record { finding = f; err = err } ∷ []) ++ rejects fresh) p f
              fresh step.0
              (ingest_all-Going existing (l ++ record { finding = f; err = err } ∷ [])
                (ingest ops eng mod_info existing p f) fresh step)))
  ]

  pub age-Going :
      (l : List RejectedFinding) (p : Progress S) (r : Record)
      → Going l p
      → Going l (age ops eng mod_info p r)
  unfolding age
  age-Going l p r (ok, e) =
      if_keeps (Going l)
        (any (text_eq r.finding.fingerprint) p.seen || not (absence_counts r.finding.status)) _ _
        (ok, e)
        (put_record-Going l _ _ (λ res. res) ok
          (add_resolved-rejected (resolves (resolve_after_or_default mod_info) r) _ p.result ∙ e))

  age_all-Going :
      (l : List RejectedFinding) (p : Progress S) (records : List Record)
      → Going l p
      → Going l (age_all ops eng mod_info p records)
  unfolding age_all
  age_all-Going l p [] h = h
  age_all-Going l p (r ∷ records) h =
      let now = age-Going l p r h in
      if_other (Going l) (age ops eng mod_info p r).failed _ _ now.0
        (age_all-Going l (age ops eng mod_info p r) records now)

  -- Where the store and the generator of identifiers do not fail, a reconciliation goes through, and
  -- rejects exactly the invalid findings of the scan, in their order, each with its error.
  pub reconcile-rejects :
      (target : Text) (existing : List Record) (fresh : List Finding) (s : S)
      → ops.list_by_target s mod_info.id target ≡ some existing
      → ((reconcile ops eng mod_info target fresh s).failed ≡ false)
        × ((reconcile ops eng mod_info target fresh s).result.rejected ≡ rejects fresh)
  unfolding reconcile
  reconcile-rejects target existing fresh s e =
      let start : Progress S = record {
        store = s;
        result = no_result;
        calls = 0;
        seen = [];
        failed = false;
      } in
      let mid = ingest_all-Going existing [] start fresh (refl, refl) in
      rw (e, reconcile)
        (if_other (Going (rejects fresh)) (ingest_all ops eng mod_info existing start fresh).failed
          _ _ mid.0
          (age_all-Going (rejects fresh) (ingest_all ops eng mod_info existing start fresh) existing
            mid))
