-- ===== src/Fwrule/Index/Table.antt =====
-- Go's maps from keys to posting lists; a missing key reads as the empty list.
use rulehawk.Common.{ℕ, Bool, if◌then◌else◌, Holds, ◌≡◌, Bool-cases, true, inl, suc, inr, arith}
use rulehawk.Fwrule.Postings.{Postings, push, put}
use rulehawk.Fwrule.Postings.Sorted.{
  Sorted, Holds-push_new, Holds-put_new, Holds-push_old, Holds-put_old, push-Sorted, put-Sorted,
  Sorted-suc,
}

abbrev pub Table : Type 0 → Type 0
Table K = K → Postings

module _ {K : Type 0} (eq : K → K → Bool) where
  -- `m[k] = append(m[k], idx)`
  unfoldable pub push_at : Table K → K → ℕ → Table K
  push_at m k idx k' = if eq k k' then push (m k') idx else m k'

  -- `m[k] = append(dedupTail(m[k], idx), idx)`
  unfoldable pub put_at : Table K → K → ℕ → Table K
  put_at m k idx k' = if eq k k' then put (m k') idx else m k'

  pub push_at-Sorted :
      (P : ℕ → Type 0) (n : ℕ) (m : Table K) (k : K)
      → P n
      → ((k' : K) → Sorted P 0 n (m k'))
      → (k' : K) → Sorted P 0 (suc n) (push_at m k n k')
  unfolding push_at
  push_at-Sorted P n m k p s k' = elim (Bool-cases (eq k k')) [
    | inl e ↦ rw e (push-Sorted P 0 n (m k') (omega arith) p (s k'))
    | inr e ↦ rw e (Sorted-suc P 0 n (m k') (s k'))
  ]

  pub put_at-Sorted :
      (P : ℕ → Type 0) (n : ℕ) (m : Table K) (k : K)
      → P n
      → ((k' : K) → Sorted P 0 (suc n) (m k'))
      → (k' : K) → Sorted P 0 (suc n) (put_at m k n k')
  unfolding put_at
  put_at-Sorted P n m k p s k' = elim (Bool-cases (eq k k')) [
    | inl e ↦ rw e (put-Sorted P n (m k') p (s k'))
    | inr e ↦ rw e (s k')
  ]

  pub Holds-push_at_old :
      (j n : ℕ) (m : Table K) (k k' : K) → Holds j (m k') → Holds j (push_at m k n k')
  unfolding push_at
  Holds-push_at_old j n m k k' h = elim (Bool-cases (eq k k')) [
    | inl e ↦ rw e (Holds-push_old j n (m k') h)
    | inr e ↦ rw e h
  ]

  pub Holds-put_at_old :
      (j n : ℕ) (m : Table K) (k k' : K) → Holds j (m k') → Holds j (put_at m k n k')
  unfolding put_at
  Holds-put_at_old j n m k k' h = elim (Bool-cases (eq k k')) [
    | inl e ↦ rw e (Holds-put_old j n (m k') h)
    | inr e ↦ rw e h
  ]

  pub Holds-push_at_new : (n : ℕ) (m : Table K) (k : K) → eq k k ≡ true → Holds n (push_at m k n k)
  unfolding push_at
  Holds-push_at_new n m k e = rw e (Holds-push_new n (m k))

  pub Holds-put_at_new : (n : ℕ) (m : Table K) (k : K) → eq k k ≡ true → Holds n (put_at m k n k)
  unfolding put_at
  Holds-put_at_new n m k e = rw e (Holds-put_new n (m k))
