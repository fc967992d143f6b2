-- ===== src/Store/Notices.antt =====
-- What a reconciliation announces as newly open.
use rulehawk.Common.{
  List, All, ◌≡◌, ◌∷◌, none, some, [], true, ◌⊎◌, Holds, none_ne_some, Option-cases, inl,
  Bool-cases, inr, refl, some_inj, ap, sym, ◌∙◌, Bool, any, ◌+◌, ◌||◌, false, Option, not,
  if◌then◌else◌, All-push, if_keeps,
}
use rulehawk.Store.{Record, Store, Engine, ReconcileResult, no_result}
use rulehawk.Store.Reconcile.{
  by_fingerprint, is_resolved, put_record, Progress, open_new, add_open, refresh, ingest,
  ingest_all, add_resolved, age, age_all, reconcile, opened, cap_evidence, merged, absence_counts,
  resolves,
}
use rulehawk.Common.Text.{Text, text_eq, text_eq_iff}
use rulehawk.Core.{
  Finding, FindingStatus, ModuleInfo, status_open, status_resolved, validate_for_ingest,
  status_unknown, status_acknowledged, status_suppressed, resolve_after_or_default,
}

-- The target has not shown the fingerprint before, or its finding was resolved.
abbrev pub IsFresh : List Record → Text → Type 0
IsFresh existing fp =
    (by_fingerprint existing fp ≡ none)
    ⊎ ((prev : Record) × (by_fingerprint existing fp ≡ some prev)
        × (prev.finding.status ≡ status_resolved))

-- The finding is open, and comes from a valid one of the scan that the target has not shown before
-- or that was resolved.
abbrev pub Notified : List Record → List Finding → Finding → Type 0
Notified existing fresh x =
    (x.status ≡ status_open)
    × ((f : Finding) × Holds f fresh
        × (validate_for_ingest f ≡ none)
        × (x.fingerprint ≡ f.fingerprint)
        × IsFresh existing f.fingerprint)

pub by_fingerprint-fingerprint :
    (existing : List Record) (fp : Text) (r : Record)
    → by_fingerprint existing fp ≡ some r
    → r.finding.fingerprint ≡ fp
unfolding by_fingerprint
by_fingerprint-fingerprint [] fp r e = absurd (none_ne_some e)
by_fingerprint-fingerprint (q ∷ existing) fp r e =
    elim (Option-cases (by_fingerprint existing fp)) [
      | inl nothing ↦ elim (Bool-cases (text_eq q.finding.fingerprint fp)) [
        | inl y ↦
            let same : q ≡ r = some_inj (rw (nothing, y) at e) in
            ap (λ (z : Record). z.finding.fingerprint) (sym same)
            ∙ (text_eq_iff q.finding.fingerprint fp).0 y
        | inr y ↦ absurd (none_ne_some (rw (nothing, y) at e))
      ]
      | inr (later, found_later) ↦
          by_fingerprint-fingerprint existing fp r (found_later ∙ (rw found_later at e))
    ]

is_resolved→eq : (s : FindingStatus) → is_resolved s ≡ true → s ≡ status_resolved
unfolding is_resolved
is_resolved→eq status_resolved h = refl
is_resolved→eq status_open h = cc
is_resolved→eq status_acknowledged h = cc
is_resolved→eq status_suppressed h = cc
is_resolved→eq (status_unknown t) h = cc

status_if : (b : Bool) (s : FindingStatus) → b ≡ true → (if b then status_open else s) ≡ status_open
status_if true s y = refl
status_if false s y = cc

module _ {S : Type 0} (ops : Store S) (eng : Engine) (mod_info : ModuleInfo) where
  -- A store that fails leaves the result as it is.
  pub put_record_keeps :
      (P : ReconcileResult → Type 0) (p : Progress S) (r : Record)
      (update : ReconcileResult → ReconcileResult)
      → P p.result
      → P (update p.result)
      → P (put_record ops p r update).result
  unfolding put_record
  put_record_keeps P p r update before after = elim (Option-cases (ops.upsert p.store r)) [
    | inl e ↦ rw (e, put_record) before
    | inr (s, e) ↦ rw (e, put_record) after
  ]

  module _ (existing : List Record) (fresh : List Finding) where
    -- The new finding is open.
    open_new-Notified :
        (p : Progress S) (f : Finding)
        → ((id : Text) → Notified existing fresh (opened eng.now mod_info.id id f).finding)
        → All (Notified existing fresh) p.result.newly_open
        → All (Notified existing fresh) (open_new ops eng mod_info p f).result.newly_open
    unfolding open_new add_open
    open_new-Notified p f n h = elim (Option-cases (eng.new_id p.calls)) [
      | inl e ↦ rw (e, open_new) h
      | inr (id, e) ↦
          rw (e, open_new)
            (put_record_keeps (λ res. All (Notified existing fresh) res.newly_open)
              (record p { calls = p.calls + 1 }) (opened eng.now mod_info.id id f) _ h
              (All-push _ p.result.newly_open _ h (n id)))
    ]

    add_open-Notified :
        (b : Bool) (x : Finding) (res : ReconcileResult)
        → (b ≡ true → Notified existing fresh x)
        → All (Notified existing fresh) res.newly_open
        → All (Notified existing fresh) (add_open b x res).newly_open
    unfolding add_open
    add_open-Notified true x res n h = All-push _ res.newly_open x h (n refl)
    add_open-Notified false x res n h = h

    refresh-Notified :
        (p : Progress S) (f g : Finding) (o : Option Record)
        → Holds f fresh
        → validate_for_ingest f ≡ none
        → by_fingerprint existing f.fingerprint ≡ o
        → g.fingerprint ≡ f.fingerprint
        → All (Notified existing fresh) p.result.newly_open
        → All (Notified existing fresh) (refresh ops eng mod_info p g o).result.newly_open
    unfolding refresh opened merged
    refresh-Notified p f g none k v e s h =
        open_new-Notified p g (λ id. (refl, (f, k, v, s, inl e))) h
    refresh-Notified p f g (some prev) k v e s h =
        put_record_keeps (λ res. All (Notified existing fresh) res.newly_open) p
          (merged eng.now prev g) _ h
          (add_open-Notified (is_resolved prev.finding.status) (merged eng.now prev g).finding
            p.result
            (λ y. (
              status_if (is_resolved prev.finding.status) prev.finding.status y,
              (
                f,
                k,
                v,
                by_fingerprint-fingerprint existing f.fingerprint prev e,
                inr (prev, e, is_resolved→eq prev.finding.status y),
              ),
            ))
            h)

    ingest-Notified :
        (p : Progress S) (f : Finding)
        → Holds f fresh
        → All (Notified existing fresh) p.result.newly_open
        → All (Notified existing fresh) (ingest ops eng mod_info existing p f).result.newly_open
    unfolding ingest
    ingest-Notified p f k h = elim (Option-cases (validate_for_ingest f)) [
      | inl v ↦
          rw (v, ingest)
            (refresh-Notified (record p { seen = f.fingerprint ∷ p.seen }) f
              (record f { evidence = cap_evidence f.evidence })
              (by_fingerprint existing f.fingerprint) k v refl refl h)
      | inr (err, v) ↦ rw (v, ingest) h
    ]

    ingest_all-Notified :
        (p : Progress S) (rest : List Finding)
        → ((f : Finding) → Holds f rest → Holds f fresh)
        → All (Notified existing fresh) p.result.newly_open
        → All
            (Notified existing fresh)
            (ingest_all ops eng mod_info existing p rest).result.newly_open
    unfolding ingest_all
    ingest_all-Notified p [] sub h = h
    ingest_all-Notified p (f ∷ rest) sub h =
        let now = ingest-Notified p f (sub f (inl refl)) h in
        if_keeps (λ (q : Progress S). All (Notified existing fresh) q.result.newly_open)
          (ingest ops eng mod_info existing p f).failed _ _ now
          (ingest_all-Notified (ingest ops eng mod_info existing p f) rest (λ g k. sub g (inr k))
            now)

    add_resolved-Notified :
        (b : Bool) (x : Finding) (res : ReconcileResult)
        → All (Notified existing fresh) res.newly_open
        → All (Notified existing fresh) (add_resolved b x res).newly_open
    unfolding add_resolved
    add_resolved-Notified true x res h = h
    add_resolved-Notified false x res h = h

    age-Notified :
        (p : Progress S) (r : Record)
        → All (Notified existing fresh) p.result.newly_open
        → All (Notified existing fresh) (age ops eng mod_info p r).result.newly_open
    unfolding age add_resolved
    age-Notified p r h =
        if_keeps (λ (q : Progress S). All (Notified existing fresh) q.result.newly_open)
          (any (text_eq r.finding.fingerprint) p.seen || not (absence_counts r.finding.status)) _ _
          h
          (put_record_keeps (λ res. All (Notified existing fresh) res.newly_open) _ _ (λ res. res)
            (add_resolved-Notified (resolves (resolve_after_or_default mod_info) r) _ p.result h)
            (add_resolved-Notified (resolves (resolve_after_or_default mod_info) r) _ p.result h))

    age_all-Notified :
        (p : Progress S) (rest : List Record)
        → All (Notified existing fresh) p.result.newly_open
        → All (Notified existing fresh) (age_all ops eng mod_info p rest).result.newly_open
    unfolding age_all
    age_all-Notified p [] h = h
    age_all-Notified p (r ∷ rest) h =
        let now = age-Notified p r h in
        if_keeps (λ (q : Progress S). All (Notified existing fresh) q.result.newly_open)
          (age ops eng mod_info p r).failed _ _ now
          (age_all-Notified (age ops eng mod_info p r) rest now)

-- Each finding that a reconciliation announces as newly open is open, and comes from a valid finding
-- of the scan whose fingerprint the target has not shown before, or whose finding was resolved; also
-- where the store or the generator of identifiers fails half-way.
pub reconcile-Notified :
    {S : Type 0} (ops : Store S) (eng : Engine) (mod_info : ModuleInfo) (target : Text)
    (existing : List Record) (fresh : List Finding) (s : S)
    → ops.list_by_target s mod_info.id target ≡ some existing
    → All (Notified existing fresh) (reconcile ops eng mod_info target fresh s).result.newly_open
unfolding reconcile
reconcile-Notified {S} ops eng mod_info target existing fresh s e =
    let start : Progress S = record {
      store = s;
      result = no_result;
      calls = 0;
      seen = [];
      failed = false;
    } in
    let now = ingest_all-Notified ops eng mod_info existing fresh start fresh (λ f k. k) tt in
    rw (e, reconcile)
      (if_keeps (λ (q : Progress S). All (Notified existing fresh) q.result.newly_open)
        (ingest_all ops eng mod_info existing start fresh).failed _ _ now
        (age_all-Notified ops eng mod_info existing fresh _ existing now))
