-- ===== src/Store/Keeps.antt =====
-- Lookups in the store in memory behind its updates.
use rulehawk.Common.{
  List, Bool, any, if◌then◌else◌, ◌≡◌, true, false, some, ◌++◌, Bool-cases, ◌∷◌, inl, refl, [],
  subst, inr, arith, sym, false≢true, ◌∙◌, if_false, ◌&&◌, ap,
}
use rulehawk.Store.Memory.{
  get_entry, get, targets_of, save_target, MemStore, set_entry, upsert, MemTarget, mem_key,
}
use rulehawk.Common.Text.{Text, text_eq, text_eq_refl, text_eq→eq, text_eq_iff}
use rulehawk.Store.{Record}
use rulehawk.Common.Separated.{Lacks, separated-inj}

if_twice :
    {A : Type 0} (b : Bool) (x y z : A)
    → (if b then x else z) ≡ (if b then x else (if b then y else z))
if_twice true x y z = refl
if_twice false x y z = refl

pub get_entry-set_entry :
    {A : Type 0} (xs : List (Text × A)) (k l : Text) (v : A)
    → get_entry (set_entry xs k v) l ≡ (if text_eq k l then some v else get_entry xs l)
unfolding get_entry set_entry
get_entry-set_entry [] k l v = refl
get_entry-set_entry (x ∷ xs) k l v = elim (Bool-cases (text_eq x.0 k)) [
  | inl e ↦ rw (e, text_eq→eq x.0 k e) (if_twice (text_eq k l) (some v) (some x.1) (get_entry xs l))
  | inr e ↦ elim (Bool-cases (text_eq x.0 l)) [
    | inl y ↦ elim (Bool-cases (text_eq k l)) [
      | inl z ↦ absurd (
          false≢true
            (sym e ∙ (text_eq_iff x.0 k).1 ((text_eq_iff x.0 l).0 y ∙ sym ((text_eq_iff k l).0 z))))
      | inr z ↦ rw (e, y, z) refl
    ]
    | inr y ↦ rw (e, y) (get_entry-set_entry xs k l v)
  ]
]

-- Where the identifiers of the modules have no zero, a key stands for one module and one fingerprint.
pub mem_key-eq :
    (a b f g : Text)
    → Lacks 0 a
    → Lacks 0 b
    → text_eq (mem_key a f) (mem_key b g) ≡ (text_eq a b && text_eq f g)
unfolding mem_key
mem_key-eq a b f g la lb = elim (Bool-cases (text_eq (a ++ 0 ∷ f) (b ++ 0 ∷ g))) [
  | inl e ↦
      let (p, q) = separated-inj 0 a b f g la lb (text_eq→eq _ _ e) in
      let p' = (text_eq_iff a b).1 p in let q' = (text_eq_iff f g).1 q in rw (e, p', q') refl
  | inr n ↦ elim (Bool-cases (text_eq a b)) [
    | inr d ↦ rw (n, d) refl
    | inl p ↦ elim (Bool-cases (text_eq f g)) [
      | inr d ↦ rw (n, p, d) refl
      | inl q ↦
          let a_b = text_eq→eq a b p in
          let f_g = text_eq→eq f g q in
          let same : a ++ 0 ∷ f ≡ b ++ 0 ∷ g = cc in
          absurd (false≢true (sym n ∙ (text_eq_iff (a ++ 0 ∷ f) (b ++ 0 ∷ g)).1 same))
    ]
  ]
]

-- Behind an update, a lookup of the record's module and fingerprint returns the record, and one of
-- another module or another fingerprint what it returned before; where the identifiers of the two
-- modules have no zero, which separates them from the fingerprint in a key.
pub get-upsert :
    (m : MemStore) (r : Record) (module_id fingerprint : Text)
    → Lacks 0 r.finding.module_id
    → Lacks 0 module_id
    → get (upsert m r) module_id fingerprint ≡ (
        if text_eq r.finding.module_id module_id && text_eq r.finding.fingerprint fingerprint
        then some r
        else get m module_id fingerprint)
unfolding get upsert
get-upsert m r module_id fingerprint lr lm =
    get_entry-set_entry m.recs (mem_key r.finding.module_id r.finding.fingerprint)
      (mem_key module_id fingerprint) r
    ∙ ap (λ (b : Bool). if b then some r else get_entry m.recs (mem_key module_id fingerprint))
        (mem_key-eq r.finding.module_id module_id r.finding.fingerprint fingerprint lr lm)

any-append :
    {A : Type 0} (test : A → Bool) (xs : List A) (y : A)
    → test y ≡ true
    → any test (xs ++ y ∷ []) ≡ true
unfolding any
any-append test [] y t = rw t refl
any-append test (x ∷ xs) y t = let rest = any-append test xs y t in ground arith

targets_of-set :
    (m : MemStore) (module_id : Text) (ts : List MemTarget)
    → targets_of (record m { targets = set_entry m.targets module_id ts }) module_id ≡ ts
unfolding targets_of
targets_of-set m module_id ts =
    rw (get_entry-set_entry m.targets module_id module_id ts, text_eq_refl module_id, targets_of)
      refl

save_known :
    (m : MemStore) (module_id raw canonical : Text)
    → any (λ t. text_eq t.canonical canonical) (targets_of m module_id) ≡ true
    → save_target m module_id raw canonical ≡ m
unfolding save_target
save_known m module_id raw canonical e = rw (save_target, e) refl

save_target_known :
    (m : MemStore) (module_id raw canonical : Text)
    → any
        (λ t. text_eq t.canonical canonical)
        (targets_of (save_target m module_id raw canonical) module_id)
      ≡ true
unfolding save_target
save_target_known m module_id raw canonical =
    elim (Bool-cases (any (λ t. text_eq t.canonical canonical) (targets_of m module_id))) [
      | inl e ↦
          subst (λ q. any (λ t. text_eq t.canonical canonical) (targets_of q module_id) ≡ true)
            (sym (save_known m module_id raw canonical e)) e
      | inr e ↦
          subst (λ q. any (λ t. text_eq t.canonical canonical) (targets_of q module_id) ≡ true)
            (sym (if_false _ m _ e))
            (subst (λ ts. any (λ t. text_eq t.canonical canonical) ts ≡ true)
              (sym (targets_of-set m module_id _))
              (any-append (λ (t : MemTarget). text_eq t.canonical canonical)
                (targets_of m module_id) _ (text_eq_refl canonical)))
    ]

-- Saving a target makes it known, and saving one of the same canonical name again changes nothing.
pub save_target-save_target :
    (m : MemStore) (module_id raw again canonical : Text)
    → (any
          (λ t. text_eq t.canonical canonical)
          (targets_of (save_target m module_id raw canonical) module_id)
        ≡ true)
      × (save_target (save_target m module_id raw canonical) module_id again canonical
          ≡ save_target m module_id raw canonical)
save_target-save_target m module_id raw again canonical =
    let known = save_target_known m module_id raw canonical in
    (known, save_known (save_target m module_id raw canonical) module_id again canonical known)
