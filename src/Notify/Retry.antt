-- ===== src/Notify/Retry.antt =====
-- notify/notify.go: the sending of one digest over one channel, with its retries. `Channel.Send` is a
-- parameter: what it returns at each attempt, `none` for success.
use rulehawk.Common.{
  ℕ, Option, ◌-◌, ◌≤◌, ◌≡◌, suc, ◌<◌, some, none, ◌⊎◌, ◌+◌, zero, Bool-cases, inl, ◌==◌, arith, ap,
  subst, false, ◌∙◌, inr, Option-keeps, refl,
}
use rulehawk.Notify.{Config, with_defaults, or_default}
use rulehawk.Common.Int.{pos_part, ℤ, leb_ℤ, pos, negsuc}
use rulehawk.Notify.Window.{or_default-positive}

positive : (n : ℤ) → leb_ℤ n (pos 0) ≡ false → 1 ≤ pos_part n
positive (pos n) h = ground arith
positive (negsuc n) h = absurd (ground arith)

module _ {Err : Type 0} (send : ℕ → Option Err) where
  -- What the channel was given: the attempts made, the delays waited, and the error reported.
  pub record Sent : Type 0 where
    pub attempts : ℕ
    pub delays : ℕ
    pub reported : Option Err

  -- The loop of `sendWithRetry` from an attempt on, with the attempts that are left.
  unfoldable pub attempt_from : ℕ → ℕ → Option Err → Sent
  attempt_from zero attempt err = record {
    attempts = attempt;
    delays = attempt - 1;
    reported = err;
  }
  attempt_from (suc left) attempt err = elim (send attempt) [
    | none ↦ record { attempts = suc attempt; delays = attempt; reported = none }
    | some e ↦ attempt_from left (suc attempt) (some e)
  ]

  -- `sendWithRetry`; the number of retries is positive.
  unfoldable pub send_with_retry : Config → Sent
  send_with_retry cfg = attempt_from (pos_part cfg.retries) 0 none

  -- Every attempt before this one failed.
  abbrev pub Fails : ℕ → Type 0
  Fails end = (i : ℕ) → i < end → (e : Err) × (send i ≡ some e)

  -- Either every attempt was made and failed, and the last error is reported, or the attempts ended
  -- with the first that succeeded, and nothing is reported.
  abbrev pub IsSent : ℕ → Sent → Type 0
  IsSent retries s =
      ((s.attempts ≡ retries)
        × Fails retries
        × ((e : Err) × ((s.reported ≡ some e) × (send (retries - 1) ≡ some e))))
      ⊎ ((last : ℕ) × (last < retries)
          × Fails last
          × (send last ≡ none)
          × (s.attempts ≡ suc last)
          × (s.reported ≡ none))

  Fails-more : (n : ℕ) (e : Err) → Fails n → send n ≡ some e → Fails (suc n)
  Fails-more n e f h i lt = elim (Bool-cases (i == n)) [
    | inl y ↦ (e, ap send (ground arith) ∙ h)
    | inr other ↦ f i (ground arith)
  ]

  -- The error so far is the one of the attempt before.
  abbrev IsLast : ℕ → Option Err → Type 0
  IsLast attempt err = (e : Err) × ((err ≡ some e) × (send (attempt - 1) ≡ some e))

  attempt_from-IsSent :
      (left attempt : ℕ) (err : Option Err)
      → Fails attempt
      → IsLast attempt err ⊎ (1 ≤ left)
      → IsSent (attempt + left) (attempt_from left attempt err)
  unfolding attempt_from
  attempt_from-IsSent zero attempt err f last = elim last [
    | inl l ↦
        let same : attempt ≡ attempt + 0 = omega arith in
        inl (same, subst Fails same f, subst (λ n. IsLast n err) same l)
    | inr bad ↦ absurd (omega (arith, bad))
  ]
  attempt_from-IsSent (suc left) attempt err f last =
      let same : suc attempt + left ≡ attempt + suc left = omega arith in
      Option-keeps (IsSent (attempt + suc left)) (send attempt) _ _
        (λ ok. inr (attempt, omega arith, f, ok, refl, refl))
        (λ e h.
          subst (λ n. IsSent n (attempt_from left (suc attempt) (some e))) same
            (attempt_from-IsSent left (suc attempt) (some e) (Fails-more attempt e f h)
              (inl (e, (refl, subst (λ i. send i ≡ some e) (omega arith) h)))))

  -- With the configuration of a dispatcher, `sendWithRetry` gives up after as many attempts as the
  -- configuration allows, where all of them failed, and reports the error of the last one; or it ends
  -- with the first attempt that succeeds, within that number, and reports nothing.
  pub send_with_retry-IsSent :
      (cfg : Config)
      → IsSent (pos_part (with_defaults cfg).retries) (send_with_retry (with_defaults cfg))
  unfolding send_with_retry with_defaults
  send_with_retry-IsSent cfg =
      let n = or_default cfg.retries (pos 3) in
      subst (λ k. IsSent k (attempt_from (pos_part n) 0 none)) (omega arith)
        (attempt_from-IsSent (pos_part n) 0 none (λ i lt. absurd (omega (arith, lt)))
          (inr (positive n (or_default-positive cfg.retries (pos 3) refl))))
