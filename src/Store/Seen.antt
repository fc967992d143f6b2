-- ===== src/Store/Seen.antt =====
-- Which fingerprints a reconciliation has seen behind the findings of the scan.
use rulehawk.Common.{
  List, Bool, ◌≡◌, if◌then◌else◌, false, Option-cases, Option, some, false≢true, inl, none, Holds,
  sym, inr, subst, ◌∷◌, true, ◌∙◌, ◌+◌, ap, [], refl, if_keeps,
}
use rulehawk.Core.{ModuleInfo, Finding, validate_for_ingest}
use rulehawk.Store.{Store, Engine, Record, ReconcileResult}
use rulehawk.Store.Reconcile.{
  Progress, put_record, open_new, refresh, ingest, ingest_all, merged, cap_evidence, opened,
  by_fingerprint,
}
use rulehawk.Common.Text.{Text}

-- The first of two rounds has not failed, and the second has the last word.
if_not_failed :
    {S : Type 0} (b : Bool) (x y : Progress S)
    → x.failed ≡ b
    → (if b then x else y).failed ≡ false
    → (if b then x else y) ≡ y
if_not_failed true x y e h = absurd (false≢true (sym h ∙ e))
if_not_failed false x y e h = refl

module _ {S : Type 0} (ops : Store S) (eng : Engine) (mod_info : ModuleInfo) where
  pub put_record-seen :
      (p : Progress S) (r : Record) (update : ReconcileResult → ReconcileResult)
      → (put_record ops p r update).seen ≡ p.seen
  unfolding put_record
  put_record-seen p r update = elim (Option-cases (ops.upsert p.store r)) [
    | inl e ↦ rw (e, put_record) refl
    | inr (s, e) ↦ rw (e, put_record) refl
  ]

  open_new-seen : (p : Progress S) (f : Finding) → (open_new ops eng mod_info p f).seen ≡ p.seen
  unfolding open_new
  open_new-seen p f = elim (Option-cases (eng.new_id p.calls)) [
    | inl e ↦ rw (e, open_new) refl
    | inr (id, e) ↦
        rw (e, open_new)
          (put_record-seen (record p { calls = p.calls + 1 }) (opened eng.now mod_info.id id f) _)
  ]

  refresh-seen :
      (p : Progress S) (f : Finding) (o : Option Record)
      → (refresh ops eng mod_info p f o).seen ≡ p.seen
  unfolding refresh
  refresh-seen p f none = open_new-seen p f
  refresh-seen p f (some prev) = put_record-seen p (merged eng.now prev f) _

  ingest-seen_new :
      (existing : List Record) (p : Progress S) (f : Finding)
      → validate_for_ingest f ≡ none
      → Holds f.fingerprint (ingest ops eng mod_info existing p f).seen
  unfolding ingest
  ingest-seen_new existing p f v =
      rw (v, ingest)
        (subst (Holds f.fingerprint)
          (sym (
            refresh-seen (record p { seen = f.fingerprint ∷ p.seen })
              (record f { evidence = cap_evidence f.evidence })
              (by_fingerprint existing f.fingerprint)))
          (inl refl))

  ingest-seen_old :
      (existing : List Record) (p : Progress S) (f : Finding) (fp : Text)
      → Holds fp p.seen
      → Holds fp (ingest ops eng mod_info existing p f).seen
  unfolding ingest
  ingest-seen_old existing p f fp h = elim (Option-cases (validate_for_ingest f)) [
    | inl v ↦
        rw (v, ingest)
          (subst (Holds fp)
            (sym (
              refresh-seen (record p { seen = f.fingerprint ∷ p.seen })
                (record f { evidence = cap_evidence f.evidence })
                (by_fingerprint existing f.fingerprint)))
            (inr h))
    | inr (err, v) ↦ rw (v, ingest) h
  ]

  ingest_all-seen_old :
      (existing : List Record) (p : Progress S) (rest : List Finding) (fp : Text)
      → Holds fp p.seen
      → Holds fp (ingest_all ops eng mod_info existing p rest).seen
  unfolding ingest_all
  ingest_all-seen_old existing p [] fp h = h
  ingest_all-seen_old existing p (f ∷ rest) fp h =
      let now = ingest-seen_old existing p f fp h in
      if_keeps (λ (q : Progress S). Holds fp q.seen) (ingest ops eng mod_info existing p f).failed _
        _ now (ingest_all-seen_old existing (ingest ops eng mod_info existing p f) rest fp now)

  pub ingest_all-seen :
      (existing : List Record) (p : Progress S) (rest : List Finding) (f : Finding)
      → (ingest_all ops eng mod_info existing p rest).failed ≡ false
      → Holds f rest
      → validate_for_ingest f ≡ none
      → Holds f.fingerprint (ingest_all ops eng mod_info existing p rest).seen
  unfolding ingest_all
  ingest_all-seen existing p [] f ok h v = absurd h
  ingest_all-seen existing p (g ∷ rest) f ok h v =
      let step = ingest ops eng mod_info existing p g in
      let later = ingest_all ops eng mod_info existing step rest in
      let end : (if step.failed then step else later) ≡ later =
        if_not_failed step.failed step later refl ok in
      let ok' : later.failed ≡ false = ap (λ (q : Progress S). q.failed) (sym end) ∙ ok in
      subst (λ (q : Progress S). Holds f.fingerprint q.seen) (sym end)
        (elim h [
          | inl e ↦ ingest_all-seen_old existing step rest f.fingerprint (
              subst (λ (z : Finding). Holds z.fingerprint step.seen) (sym e)
                (ingest-seen_new existing p g (subst (λ z. validate_for_ingest z ≡ none) e v)))
          | inr k ↦ ingest_all-seen existing step rest f ok' k v
        ])
