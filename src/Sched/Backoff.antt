-- ===== src/Sched/Backoff.antt =====
-- sched/scheduler.go: how long a target that fails is held back.
use rulehawk.Common.{
  ℕ, suc, ◌≤◌, if◌then◌else◌, arith, leb, ◌^◌, ◌≡◌, ◌+◌, ◌<◌, zero, ◌%◌, if_eq, ltb, Bool-cases,
  ◌-◌, inl, ap, true, ◌∙◌, sym, inr, false, if_false,
}
use rulehawk.Sched.{double, backoff_from, backoff_for, Config}
use rulehawk.Common.Int.{wrap, from_word, pos, leb_ℤ}

-- A number doubled some times.
abbrev pub doubled : ℕ → ℕ → ℕ
doubled zero x = x
doubled (suc k) x = doubled k (x + x)

doubled_grows : (k x : ℕ) → x ≤ doubled k x
doubled_grows zero x = omega arith
doubled_grows (suc k) x = omega (arith, doubled_grows k (x + x))

-- The least of two numbers.
abbrev pub least : ℕ → ℕ → ℕ
least a b = if leb a b then a else b

double-pos : (n : ℕ) → n < 2 ^ 62 → double (pos n) ≡ pos (n + n)
unfolding double wrap from_word
double-pos n h =
    let small : (n + n) % 2 ^ 64 ≡ n + n = omega (arith, h) in
    rw small (if_eq (ltb (n + n) (2 ^ 63)) _ _ (ground arith))

backoff_from-least :
    (left most x : ℕ)
    → most ≤ 2 ^ 62
    → x < 2 ^ 62
    → backoff_from left (pos most) (pos x) ≡ pos (least most (doubled left x))
unfolding backoff_from
backoff_from-least zero most x m h = ground arith
backoff_from-least (suc left) most x m h =
    let twice = double-pos x h in
    elim (Bool-cases (leb most (x + x))) [
      | inl y ↦
          let more : leb most (doubled left (x + x)) ≡ true =
            ground (arith, doubled_grows left (x + x)) in
          let over : leb_ℤ (pos most) (double (pos x)) ≡ true =
            ap (leb_ℤ (pos most)) twice ∙ ground arith in
          if_eq (leb_ℤ (pos most) (double (pos x))) _ _ over
          ∙ ap pos (sym (if_eq (leb most (doubled left (x + x))) _ _ more))
      | inr n ↦
          let under : leb_ℤ (pos most) (double (pos x)) ≡ false =
            ap (leb_ℤ (pos most)) twice ∙ ground arith in
          if_false (leb_ℤ (pos most) (double (pos x))) _ _ under
          ∙ ap (backoff_from left (pos most)) twice
          ∙ backoff_from-least left most (x + x) m (ground arith)
    ]

-- With the base and the cap below 2^62 nanoseconds (146 years), the hold after a failure is the base
-- doubled once for each failure before it, or the cap where that is less.
pub backoff_for-least :
    (cfg : Config) (base most n : ℕ)
    → cfg.retry_base ≡ pos base
    → cfg.retry_max ≡ pos most
    → base < 2 ^ 62
    → most ≤ 2 ^ 62
    → backoff_for cfg (suc n) ≡ pos (least most (doubled n base))
unfolding backoff_for
backoff_for-least cfg base most n b m hb hm =
    let rounds : suc n - 1 ≡ n = omega arith in
    ap (λ k. backoff_from k cfg.retry_max cfg.retry_base) rounds
    ∙ ap (λ d. backoff_from n d cfg.retry_base) m
    ∙ ap (backoff_from n (pos most)) b
    ∙ backoff_from-least n most base hm hb
