-- ===== src/Store/Resolutions.antt =====
-- What a reconciliation resolves.
use rulehawk.Common.{
  List, Bool, ℕ, ◌≡◌, false, Option-cases, Option, some, false≢true, inl, none, Holds, sym, inr,
  subst, ◌∷◌, true, ◌∙◌, ◌+◌, [], refl, ◌≤◌, ◌≢◌, Any, any, leb→le, Any→any, All, ◌||◌, Bool-cases,
  not, arith, if_keeps, All-push, if_true,
}
use rulehawk.Store.Notices.{put_record_keeps}
use rulehawk.Core.{
  ModuleInfo, Finding, status_resolved, validate_for_ingest, resolve_after_or_default,
}
use rulehawk.Store.{Store, Engine, Record, ReconcileResult, no_result}
use rulehawk.Store.Reconcile.{
  Progress, open_new, refresh, ingest, ingest_all, absence_counts, merged, cap_evidence, opened,
  by_fingerprint, add_open, is_resolved, absent_once, resolves, add_resolved, age, age_all,
  reconcile,
}
use rulehawk.Common.Text.{Text, text_eq, text_eq_iff}
use rulehawk.Store.Seen.{put_record-seen, ingest_all-seen}

-- The finding is resolved now; the target had it, in a state in which absence counts and with a streak
-- that reaches the threshold; and no valid finding of the scan has its fingerprint.
abbrev pub ResolvedNow : ModuleInfo → ℕ → List Record → List Finding → Finding → Type 0
ResolvedNow mod_info now existing fresh x =
    (x.status ≡ status_resolved)
    × (x.resolved_at ≡ some now)
    × ((r : Record) × Holds r existing
        × (r.finding.fingerprint ≡ x.fingerprint)
        × (absence_counts r.finding.status ≡ true)
        × (resolve_after_or_default mod_info ≤ r.absent_streak + 1))
    × ((f : Finding) → Holds f fresh → validate_for_ingest f ≡ none → x.fingerprint ≢ f.fingerprint)

Holds-Any :
    (test : Text → Bool) (a : Text) (xs : List Text)
    → test a ≡ true
    → Holds a xs
    → Any (λ x. test x ≡ true) xs
Holds-Any test a [] t h = h
Holds-Any test a (x ∷ xs) t h = elim h [
  | inl e ↦ inl (subst (λ z. test z ≡ true) e t)
  | inr k ↦ inr (Holds-Any test a xs t k)
]

module _ {S : Type 0} (ops : Store S) (eng : Engine) (mod_info : ModuleInfo) where
  open_new-resolved :
      (l : List Finding) (p : Progress S) (f : Finding)
      → p.result.resolved ≡ l
      → (open_new ops eng mod_info p f).result.resolved ≡ l
  unfolding open_new add_open
  open_new-resolved l p f h = elim (Option-cases (eng.new_id p.calls)) [
    | inl e ↦ rw (e, open_new) h
    | inr (id, e) ↦
        rw (e, open_new)
          (put_record_keeps ops eng mod_info (λ res. res.resolved ≡ l)
            (record p { calls = p.calls + 1 }) (opened eng.now mod_info.id id f) _ h h)
  ]

  add_open-resolved :
      (l : List Finding) (b : Bool) (x : Finding) (res : ReconcileResult)
      → res.resolved ≡ l
      → (add_open b x res).resolved ≡ l
  unfolding add_open
  add_open-resolved l true x res h = h
  add_open-resolved l false x res h = h

  refresh-resolved :
      (l : List Finding) (p : Progress S) (f : Finding) (o : Option Record)
      → p.result.resolved ≡ l
      → (refresh ops eng mod_info p f o).result.resolved ≡ l
  unfolding refresh
  refresh-resolved l p f none h = open_new-resolved l p f h
  refresh-resolved l p f (some prev) h =
      put_record_keeps ops eng mod_info (λ res. res.resolved ≡ l) p (merged eng.now prev f) _ h
        (add_open-resolved l (is_resolved prev.finding.status) (merged eng.now prev f).finding
          p.result h)

  ingest-resolved :
      (existing : List Record) (l : List Finding) (p : Progress S) (f : Finding)
      → p.result.resolved ≡ l
      → (ingest ops eng mod_info existing p f).result.resolved ≡ l
  unfolding ingest
  ingest-resolved existing l p f h = elim (Option-cases (validate_for_ingest f)) [
    | inl v ↦
        rw (v, ingest)
          (refresh-resolved l (record p { seen = f.fingerprint ∷ p.seen })
            (record f { evidence = cap_evidence f.evidence })
            (by_fingerprint existing f.fingerprint) h)
    | inr (err, v) ↦ rw (v, ingest) h
  ]

  ingest_all-resolved :
      (existing : List Record) (l : List Finding) (p : Progress S) (rest : List Finding)
      → p.result.resolved ≡ l
      → (ingest_all ops eng mod_info existing p rest).result.resolved ≡ l
  unfolding ingest_all
  ingest_all-resolved existing l p [] h = h
  ingest_all-resolved existing l p (f ∷ rest) h =
      let now = ingest-resolved existing l p f h in
      if_keeps (λ (q : Progress S). q.result.resolved ≡ l)
        (ingest ops eng mod_info existing p f).failed _ _ now
        (ingest_all-resolved existing l (ingest ops eng mod_info existing p f) rest now)

  module _ (existing : List Record) (fresh : List Finding) where
    abbrev pub AllSeen : Progress S → Type 0
    AllSeen p =
        (f : Finding) → Holds f fresh → validate_for_ingest f ≡ none → Holds f.fingerprint p.seen

    -- The record that a round resolves.
    aged-ResolvedNow :
        (p : Progress S) (r : Record)
        → Holds r existing
        → AllSeen p
        → any (text_eq r.finding.fingerprint) p.seen ≡ false
        → absence_counts r.finding.status ≡ true
        → resolves (resolve_after_or_default mod_info) r ≡ true
        → ResolvedNow mod_info eng.now existing fresh
            (absent_once eng.now (resolve_after_or_default mod_info) r).finding
    unfolding absent_once resolves
    aged-ResolvedNow p r k seen u a res = rw res (
      refl,
      refl,
      (r, k, refl, a, leb→le (resolve_after_or_default mod_info) (r.absent_streak + 1) res),
      λ f kf v same. false≢true (
          sym u
          ∙ Any→any (text_eq r.finding.fingerprint) p.seen (
              Holds-Any (text_eq r.finding.fingerprint) f.fingerprint p.seen
                ((text_eq_iff r.finding.fingerprint f.fingerprint).1 same) (seen f kf v))),
    )

    add_resolved-ResolvedNow :
        (b : Bool) (x : Finding) (res : ReconcileResult)
        → (b ≡ true → ResolvedNow mod_info eng.now existing fresh x)
        → All (ResolvedNow mod_info eng.now existing fresh) res.resolved
        → All (ResolvedNow mod_info eng.now existing fresh) (add_resolved b x res).resolved
    unfolding add_resolved
    add_resolved-ResolvedNow true x res n h = All-push _ res.resolved x h (n refl)
    add_resolved-ResolvedNow false x res n h = h

    age-ResolvedNow :
        (p : Progress S) (r : Record)
        → Holds r existing
        → AllSeen p
        → All (ResolvedNow mod_info eng.now existing fresh) p.result.resolved
        → All
            (ResolvedNow mod_info eng.now existing fresh)
            (age ops eng mod_info p r).result.resolved
    unfolding age
    age-ResolvedNow p r k seen h =
        elim (Bool-cases
          (any (text_eq r.finding.fingerprint) p.seen || not (absence_counts r.finding.status))) [
            | inl y ↦ rw (y, age) h
            | inr y ↦
                let now =
                  add_resolved-ResolvedNow (resolves (resolve_after_or_default mod_info) r)
                    (absent_once eng.now (resolve_after_or_default mod_info) r).finding p.result
                    (λ res. aged-ResolvedNow p r k seen (ground arith) (ground arith) res) h in
                rw (y, age)
                  (put_record_keeps ops eng mod_info
                    (λ res. All (ResolvedNow mod_info eng.now existing fresh) res.resolved) _ _
                    (λ res. res) now now)
          ]

    age-seen : (p : Progress S) (r : Record) → (age ops eng mod_info p r).seen ≡ p.seen
    unfolding age
    age-seen p r =
        if_keeps (λ (q : Progress S). q.seen ≡ p.seen)
          (any (text_eq r.finding.fingerprint) p.seen || not (absence_counts r.finding.status)) _ _
          refl (put_record-seen ops eng mod_info _ _ (λ res. res))

    age_all-ResolvedNow :
        (p : Progress S) (rest : List Record)
        → ((r : Record) → Holds r rest → Holds r existing)
        → AllSeen p
        → All (ResolvedNow mod_info eng.now existing fresh) p.result.resolved
        → All
            (ResolvedNow mod_info eng.now existing fresh)
            (age_all ops eng mod_info p rest).result.resolved
    unfolding age_all
    age_all-ResolvedNow p [] sub seen h = h
    age_all-ResolvedNow p (r ∷ rest) sub seen h =
        let now = age-ResolvedNow p r (sub r (inl refl)) seen h in
        if_keeps
          (λ (q : Progress S). All (ResolvedNow mod_info eng.now existing fresh) q.result.resolved)
          (age ops eng mod_info p r).failed _ _ now
          (age_all-ResolvedNow (age ops eng mod_info p r) rest (λ q k. sub q (inr k))
            (λ f k v. subst (Holds f.fingerprint) (sym (age-seen p r)) (seen f k v)) now)

-- Each finding that a reconciliation announces as resolved is resolved at the time of the scan; the
-- target had a record of its fingerprint that was neither resolved nor suppressed and whose streak,
-- with this scan, reaches the threshold of the module; and no valid finding of the scan has its
-- fingerprint. This holds also where the store or the generator of identifiers fails half-way.
pub reconcile-ResolvedNow :
    {S : Type 0} (ops : Store S) (eng : Engine) (mod_info : ModuleInfo) (target : Text)
    (existing : List Record) (fresh : List Finding) (s : S)
    → ops.list_by_target s mod_info.id target ≡ some existing
    → All
        (ResolvedNow mod_info eng.now existing fresh)
        (reconcile ops eng mod_info target fresh s).result.resolved
unfolding reconcile
reconcile-ResolvedNow {S} ops eng mod_info target existing fresh s e =
    let start : Progress S = record {
      store = s;
      result = no_result;
      calls = 0;
      seen = [];
      failed = false;
    } in
    let mid = ingest_all ops eng mod_info existing start fresh in
    let none_yet : All (ResolvedNow mod_info eng.now existing fresh) mid.result.resolved =
      subst (All (ResolvedNow mod_info eng.now existing fresh))
        (sym (ingest_all-resolved ops eng mod_info existing [] start fresh refl)) tt in
    rw (e, reconcile)
      (elim (Bool-cases mid.failed) [
        | inl y ↦
            if_true
              (λ (q : Progress S).
                All (ResolvedNow mod_info eng.now existing fresh) q.result.resolved)
              mid.failed _ _ y none_yet
        | inr y ↦
            if_keeps
              (λ (q : Progress S).
                All (ResolvedNow mod_info eng.now existing fresh) q.result.resolved)
              mid.failed _ _ none_yet
              (age_all-ResolvedNow ops eng mod_info existing fresh mid existing (λ r k. k)
                (λ f k v. ingest_all-seen ops eng mod_info existing start fresh f y k v) none_yet)
      ])
