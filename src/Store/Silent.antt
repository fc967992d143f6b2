-- ===== src/Store/Silent.antt =====
-- A scan of store/reconcile.go that does not report a finding of the store in memory, whatever else it
-- reports and whatever other records the store has.
use rulehawk.Store.Apart.{mem_key-apart, by_fingerprint-All}
use rulehawk.Common.{
  List, ℕ, ◌≡◌, ◌≢◌, All, Option, [], ◌∷◌, some, none, false, Bool-cases, Option-cases, inl, inr,
  refl, sym, ◌∙◌, ap, subst, if_keeps, if_other, any, ◌||◌, not, if◌then◌else◌, ◌+◌,
}
use rulehawk.Common.Text.{Text, text_eq, text_eq→eq}
use rulehawk.Core.{Finding, ModuleInfo, validate_for_ingest, resolve_after_or_default}
use rulehawk.Store.{Record, Engine, ReconcileResult}
use rulehawk.Store.Memory.{MemStore, mem_key, mem_ops, get_entry, upsert}
use rulehawk.Store.Reconcile.{
  Progress, put_record, open_new, refresh, ingest, ingest_all, age, age_all, opened, merged,
  by_fingerprint, absence_counts, absent_once, resolves, cap_evidence,
}
use rulehawk.Store.Keyed.{
  key_of, IsKeyed, IsKeyed-set_entry, get_entry-upsert_other, get_entry-upsert_same, IsOnce,
}
use rulehawk.Store.Notices.{by_fingerprint-fingerprint}

-- The record behind one scan that does not report it.
abbrev pub quiet_once : ℕ → ℕ → Record → Record
quiet_once now threshold r =
    if absence_counts r.finding.status then absent_once now threshold r else r

-- An absence changes neither the key nor the target.
pub absent_once-keeps :
    (now threshold : ℕ) (r : Record)
    → ((absent_once now threshold r).finding.module_id ≡ r.finding.module_id)
      × ((absent_once now threshold r).finding.fingerprint ≡ r.finding.fingerprint)
      × ((absent_once now threshold r).finding.target ≡ r.finding.target)
unfolding absent_once
absent_once-keeps now threshold r =
    if_keeps
      (λ (q : Record).
        (q.finding.module_id ≡ r.finding.module_id)
        × (q.finding.fingerprint ≡ r.finding.fingerprint)
        × (q.finding.target ≡ r.finding.target))
      (resolves threshold r) _ _ (refl, refl, refl) (refl, refl, refl)

absent_once-key_of :
    (now threshold : ℕ) (r : Record) → key_of (absent_once now threshold r) ≡ key_of r
absent_once-key_of now threshold r =
    let keep = absent_once-keeps now threshold r in
    ap (λ m. mem_key m (absent_once now threshold r).finding.fingerprint) keep.0
    ∙ ap (mem_key r.finding.module_id) keep.1

-- The store stands on its keys and has this record under the key, and the scan has not seen the
-- fingerprint.
abbrev pub Has : Text → Text → Record → Progress MemStore → Type 0
Has key fp v p =
    IsKeyed p.store.recs × (get_entry p.store.recs key ≡ some v) × (any (text_eq fp) p.seen ≡ false)

module _ (eng : Engine) (mod_info : ModuleInfo) (r : Record) where
  put_record-Has :
      (v q : Record) (p : Progress MemStore) (update : ReconcileResult → ReconcileResult)
      → key_of q ≢ key_of r
      → Has (key_of r) r.finding.fingerprint v p
      → Has (key_of r) r.finding.fingerprint v (put_record mem_ops p q update)
  unfolding put_record
  put_record-Has v q p update ne (keyed, found, unseen) = (
    unfold upsert in IsKeyed-set_entry q p.store.recs keyed,
    get_entry-upsert_other p.store q (key_of r) ne ∙ found,
    unseen,
  )

  module _ (same_module : r.finding.module_id ≡ mod_info.id) where
    apart :
        (q : Record)
        → q.finding.module_id ≡ mod_info.id
        → q.finding.fingerprint ≢ r.finding.fingerprint
        → key_of q ≢ key_of r
    apart q m ne e =
        mem_key-apart r.finding.module_id q.finding.fingerprint r.finding.fingerprint ne
          (ap (λ z. mem_key z q.finding.fingerprint) (same_module ∙ sym m) ∙ e)

    refresh-Has :
        (p : Progress MemStore) (f : Finding) (o : Option Record)
        → f.fingerprint ≢ r.finding.fingerprint
        → ((prev : Record) → o ≡ some prev → key_of prev ≢ key_of r)
        → Has (key_of r) r.finding.fingerprint r p
        → Has (key_of r) r.finding.fingerprint r (refresh mem_ops eng mod_info p f o)
    unfolding refresh open_new
    refresh-Has p f none ne other h = elim (Option-cases (eng.new_id p.calls)) [
      | inl e ↦ rw (e, open_new) h
      | inr (id, e) ↦
          rw (e, open_new)
            (put_record-Has r (opened eng.now mod_info.id id f) (record p { calls = p.calls + 1 }) _
              (unfold opened in apart (opened eng.now mod_info.id id f) refl ne) h)
    ]
    refresh-Has p f (some prev) ne other h =
        put_record-Has r (merged eng.now prev f) p _ (unfold merged in other prev refl) h

    ingest-Has :
        (existing : List Record) (p : Progress MemStore) (f : Finding)
        → All (λ (q : Record). q.finding.module_id ≡ mod_info.id) existing
        → f.fingerprint ≢ r.finding.fingerprint
        → Has (key_of r) r.finding.fingerprint r p
        → Has (key_of r) r.finding.fingerprint r (ingest mem_ops eng mod_info existing p f)
    unfolding ingest
    ingest-Has existing p f ours ne h = elim (Option-cases (validate_for_ingest f)) [
      | inr (err, v) ↦ rw (v, ingest) h
      | inl v ↦
          let not_it : text_eq r.finding.fingerprint f.fingerprint ≡ false =
            elim (Bool-cases (text_eq r.finding.fingerprint f.fingerprint)) [
              | inl y ↦ absurd (ne (sym (text_eq→eq r.finding.fingerprint f.fingerprint y)))
              | inr n ↦ n
            ] in
          let unseen : any (text_eq r.finding.fingerprint) (f.fingerprint ∷ p.seen) ≡ false =
            unfold any in (rw not_it h.2) in
          rw (v, ingest)
            (refresh-Has (record p { seen = f.fingerprint ∷ p.seen })
              (record f { evidence = cap_evidence f.evidence })
              (by_fingerprint existing f.fingerprint) ne
              (λ prev e.
                apart prev
                  (by_fingerprint-All (λ q. q.finding.module_id ≡ mod_info.id) existing
                    f.fingerprint prev ours e)
                  (λ same.
                    ne (sym (by_fingerprint-fingerprint existing f.fingerprint prev e) ∙ same)))
              (h.0, h.1, unseen))
    ]

    pub ingest_all-Has :
        (existing : List Record) (p : Progress MemStore) (fresh : List Finding)
        → All (λ (q : Record). q.finding.module_id ≡ mod_info.id) existing
        → All (λ (f : Finding). f.fingerprint ≢ r.finding.fingerprint) fresh
        → Has (key_of r) r.finding.fingerprint r p
        → Has (key_of r) r.finding.fingerprint r (ingest_all mem_ops eng mod_info existing p fresh)
    unfolding ingest_all
    ingest_all-Has existing p [] ours ne h = h
    ingest_all-Has existing p (f ∷ fresh) ours ne h =
        let now = ingest-Has existing p f ours ne.0 h in
        if_keeps (Has (key_of r) r.finding.fingerprint r)
          (ingest mem_ops eng mod_info existing p f).failed _ _ now
          (ingest_all-Has existing (ingest mem_ops eng mod_info existing p f) fresh ours ne.1 now)

  -- An absence of another record.
  age-other :
      (v q : Record) (p : Progress MemStore)
      → key_of q ≢ key_of r
      → Has (key_of r) r.finding.fingerprint v p
      → Has (key_of r) r.finding.fingerprint v (age mem_ops eng mod_info p q)
  unfolding age
  age-other v q p ne h =
      let threshold = resolve_after_or_default mod_info in
      if_keeps (Has (key_of r) r.finding.fingerprint v)
        (any (text_eq q.finding.fingerprint) p.seen || not (absence_counts q.finding.status)) _ _ h
        (put_record-Has v (absent_once eng.now threshold q) _ (λ res. res)
          (λ e. ne (sym (absent_once-key_of eng.now threshold q) ∙ e)) h)

  age-goes_on :
      (q : Record) (p : Progress MemStore)
      → p.failed ≡ false
      → (age mem_ops eng mod_info p q).failed ≡ false
  unfolding age put_record
  age-goes_on q p ok =
      if_keeps (λ (z : Progress MemStore). z.failed ≡ false)
        (any (text_eq q.finding.fingerprint) p.seen || not (absence_counts q.finding.status)) _ _ ok
        ok

  -- The absence of the record itself.
  age_self :
      (p : Progress MemStore)
      → Has (key_of r) r.finding.fingerprint r p
      → Has
          (key_of r)
          r.finding.fingerprint
          (quiet_once eng.now (resolve_after_or_default mod_info) r)
          (age mem_ops eng mod_info p r)
  unfolding age put_record upsert
  age_self p (keyed, found, unseen) =
      let threshold = resolve_after_or_default mod_info in
      let q = absent_once eng.now threshold r in
      elim (Bool-cases (absence_counts r.finding.status)) [
        | inl y ↦
            rw (unseen, y)
              (
                IsKeyed-set_entry q p.store.recs keyed,
                subst (λ k. get_entry (upsert p.store q).recs k ≡ some q)
                    (absent_once-key_of eng.now threshold r) (get_entry-upsert_same p.store q),
                unseen,
              )
        | inr n ↦ rw (unseen, n) (keyed, found, unseen)
      ]

  age_all-other :
      (v : Record) (p : Progress MemStore) (qs : List Record)
      → All (λ (q : Record). key_of q ≢ key_of r) qs
      → Has (key_of r) r.finding.fingerprint v p
      → Has (key_of r) r.finding.fingerprint v (age_all mem_ops eng mod_info p qs)
  unfolding age_all
  age_all-other v p [] ne h = h
  age_all-other v p (q ∷ qs) ne h =
      let now = age-other v q p ne.0 h in
      if_keeps (Has (key_of r) r.finding.fingerprint v) (age mem_ops eng mod_info p q).failed _ _
        now (age_all-other v (age mem_ops eng mod_info p q) qs ne.1 now)

  pub age_all-once :
      (p : Progress MemStore) (qs : List Record)
      → IsOnce r qs
      → p.failed ≡ false
      → Has (key_of r) r.finding.fingerprint r p
      → Has
          (key_of r)
          r.finding.fingerprint
          (quiet_once eng.now (resolve_after_or_default mod_info) r)
          (age_all mem_ops eng mod_info p qs)
  unfolding age_all
  age_all-once p [] once ok h = absurd once
  age_all-once p (q ∷ qs) once ok h =
      let aged = quiet_once eng.now (resolve_after_or_default mod_info) r in
      elim once [
        | inl (same, others) ↦
            let now =
              subst (λ z. Has (key_of r) r.finding.fingerprint aged (age mem_ops eng mod_info p z))
                (sym same) (age_self p h) in
            if_keeps (Has (key_of r) r.finding.fingerprint aged)
              (age mem_ops eng mod_info p q).failed _ _ now
              (age_all-other aged (age mem_ops eng mod_info p q) qs others now)
        | inr (ne, later) ↦
            let goes_on = age-goes_on q p ok in
            if_other (Has (key_of r) r.finding.fingerprint aged)
              (age mem_ops eng mod_info p q).failed _ _ goes_on
              (age_all-once (age mem_ops eng mod_info p q) qs later goes_on (age-other r q p ne h))
      ]
