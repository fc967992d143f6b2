-- ===== src/Sched/Holding.antt =====
-- sched/scheduler.go: a target that fails is held back by its own failures only.
use rulehawk.Sched.{
  look_up, Config, put_key, Gates, note_outcome, failed, ScanOutcome, succeeded, later, backoff_for,
  cancelled,
}
use rulehawk.Common.Text.{Text, text_eq, text_eq_refl, text_eq→eq}
use rulehawk.Common.{
  List, ◌≡◌, ℕ, if_eq, false, ◌∷◌, Option, if_false, none, Bool-cases, inl, [], inr, ◌∙◌, sym, ap,
  ◌++◌, suc, ◌+◌, length, some, arith, refl,
}

pub look_up-put_key :
    {A : Type 0} (default a : A) (key : Text) (table : List (Text × A))
    → look_up default (put_key key a table) key ≡ a
unfolding look_up put_key
look_up-put_key default a key [] = if_eq (text_eq key key) _ _ (text_eq_refl key)
look_up-put_key default a key (e ∷ table) = elim (Bool-cases (text_eq e.0 key)) [
  | inl y ↦ rw (y, put_key) (if_eq (text_eq key key) _ _ (text_eq_refl key))
  | inr n ↦ rw (n, put_key) (if_false (text_eq e.0 key) _ _ n ∙ look_up-put_key default a key table)
]

pub look_up-put_other :
    {A : Type 0} (default a : A) (key other : Text) (table : List (Text × A))
    → text_eq key other ≡ false
    → look_up default (put_key key a table) other ≡ look_up default table other
unfolding look_up put_key
look_up-put_other default a key other [] ne = if_false (text_eq key other) _ _ ne
look_up-put_other default a key other (e ∷ table) ne = elim (Bool-cases (text_eq e.0 key)) [
  | inl y ↦
      let same = text_eq→eq e.0 key y in
      rw (y, put_key)
        (if_false (text_eq key other) _ _ ne
          ∙ sym (if_false (text_eq e.0 other) _ _ (ap (λ k. text_eq k other) same ∙ ne)))
  | inr n ↦
      rw (n, put_key)
        (elim (Bool-cases (text_eq e.0 other)) [
          | inl z ↦ if_eq (text_eq e.0 other) _ _ z ∙ sym (if_eq (text_eq e.0 other) _ _ z)
          | inr z ↦
              if_false (text_eq e.0 other) _ _ z
              ∙ look_up-put_other default a key other table ne
              ∙ sym (if_false (text_eq e.0 other) _ _ z)
        ])
]

module _ (cfg : Config) (canonical : Text) where
  -- Failures of the target, at these times.
  abbrev pub fail_at : List ℕ → Gates → Gates
  fail_at [] g = g
  fail_at (now ∷ times) g = fail_at times (note_outcome cfg now canonical failed g)

  -- The state of one target.
  abbrev pub state_of : Gates → Text → ℕ × Option ℕ
  state_of g t = (look_up 0 g.failures t, look_up none g.next_ok t)

  failures-fail_at :
      (times : List ℕ) (g : Gates)
      → look_up 0 (fail_at times g).failures canonical
        ≡ look_up 0 g.failures canonical + length times
  unfolding note_outcome
  failures-fail_at [] g = omega arith
  failures-fail_at (now ∷ times) g =
      let n = suc (look_up 0 g.failures canonical) in
      omega (
        arith,
        failures-fail_at times (note_outcome cfg now canonical failed g),
        look_up-put_key 0 n canonical g.failures,
      )

  succeeded-failures :
      (start : ℕ) (g : Gates)
      → look_up 0 (note_outcome cfg start canonical succeeded g).failures canonical ≡ 0
  unfolding note_outcome
  succeeded-failures start g = look_up-put_key 0 0 canonical g.failures

  fail_at-snoc :
      (times : List ℕ) (now : ℕ) (g : Gates)
      → fail_at (times ++ now ∷ []) g ≡ note_outcome cfg now canonical failed (fail_at times g)
  fail_at-snoc [] now g = refl
  fail_at-snoc (t ∷ times) now g = fail_at-snoc times now (note_outcome cfg t canonical failed g)

  -- After a failure, the state of the target follows from the number of its failures.
  failed-state_of :
      (now n : ℕ) (g : Gates)
      → look_up 0 g.failures canonical ≡ n
      → state_of (note_outcome cfg now canonical failed g) canonical
        ≡ (suc n, some (later now (backoff_for cfg (suc n))))
  unfolding note_outcome
  failed-state_of now n g e =
      ap
        (λ k. (
          look_up 0 (put_key canonical (suc k) g.failures) canonical,
          look_up none (put_key canonical (some (later now (backoff_for cfg (suc k)))) g.next_ok)
              canonical,
        ))
        e
      ∙ ap
          (λ k. (
            k,
            look_up none (put_key canonical (some (later now (backoff_for cfg (suc n)))) g.next_ok)
                canonical,
          ))
          (look_up-put_key 0 (suc n) canonical g.failures)
      ∙ ap (λ z. (suc n, z))
          (look_up-put_key none (some (later now (backoff_for cfg (suc n)))) canonical g.next_ok)

  other_state_of :
      (o : ScanOutcome) (now : ℕ) (other : Text) (g : Gates)
      → text_eq canonical other ≡ false
      → state_of (note_outcome cfg now canonical o g) other ≡ state_of g other
  unfolding note_outcome
  other_state_of succeeded now other g ne = λ i. (
    look_up-put_other 0 0 canonical other g.failures ne i,
    look_up-put_other none none canonical other g.next_ok ne i,
  )
  other_state_of cancelled now other g ne = λ i. (
    look_up-put_other 0 0 canonical other g.failures ne i,
    look_up-put_other none none canonical other g.next_ok ne i,
  )
  other_state_of failed now other g ne =
      let n = suc (look_up 0 g.failures canonical) in
      λ i. (
        look_up-put_other 0 n canonical other g.failures ne i,
        look_up-put_other none (some (later now (backoff_for cfg n))) canonical other g.next_ok ne
            i,
      )

  fail_at-other :
      (times : List ℕ) (other : Text) (g : Gates)
      → text_eq canonical other ≡ false
      → state_of (fail_at times g) other ≡ state_of g other
  fail_at-other [] other g ne = refl
  fail_at-other (now ∷ times) other g ne =
      fail_at-other times other (note_outcome cfg now canonical failed g) ne
      ∙ other_state_of failed now other g ne

  -- After a scan that succeeded and some failures in a row, a target counts as many failures, and is
  -- held back from the last one for the back-off of that number; every other target stands as it did.
  pub fail_at-state_of :
      (times : List ℕ) (start now : ℕ) (g : Gates)
      → let held = fail_at (times ++ now ∷ []) (note_outcome cfg start canonical succeeded g) in
        (state_of held canonical
          ≡ (suc (length times), some (later now (backoff_for cfg (suc (length times))))))
        × ((other : Text)
            → text_eq canonical other ≡ false
            → state_of held other ≡ state_of g other)
  fail_at-state_of times start now g =
      let g0 = note_outcome cfg start canonical succeeded g in
      let counted : look_up 0 (fail_at times g0).failures canonical ≡ length times =
        failures-fail_at times g0
        ∙ ap (λ k. k + length times) (succeeded-failures start g)
        ∙ omega arith in
      (
        ap (λ h. state_of h canonical) (fail_at-snoc times now g0)
            ∙ failed-state_of now (length times) (fail_at times g0) counted,
        λ other ne.
            fail_at-other (times ++ now ∷ []) other g0 ne
            ∙ other_state_of succeeded start other g ne,
      )
