-- ===== src/Retry/Fuel.antt =====
-- `retryUntilDeadline` returns, when the clock does not go back and a sleep takes its time.
use bell_markets.Prelude.{
  ℕ, zero, suc, ◌+◌, ◌*◌, ◌<◌, ◌≤◌, ◌≡◌, refl, true, ltb, leb, Bool-cases, Option, none, some, inl,
  inr, arith,
}
use bell_markets.Retry.{
  Attempt, resolves, rejects, World, RetryResult, deadline, after_attempt, retry_loop,
  retry_until_deadline,
}

-- The readings of the clock do not go back, and a sleep takes at least the interval. The loop sleeps
-- after attempt `n`, between the readings `2 n` and `2 n + 1`, when the attempt rejected with an
-- error to retry and the interval ends before the deadline.
pub record Advances {T E : Type 0} (world : World T E) : Type 0 where
  pub forward : (k : ℕ) → world.clock k ≤ world.clock (k + 1)
  pub sleeps :
      (n : ℕ) (error : E)
      → 0 < n
      → world.attempt n ≡ rejects error
      → world.should_retry error n ≡ true
      → world.clock (2 * n) + world.interval_ms < deadline world
      → world.clock (2 * n) + world.interval_ms ≤ world.clock (2 * n + 1)

module _ {T E : Type 0} (world : World T E) (advances : Advances world)
    (positive : 0 < world.interval_ms) where
  slept_at :
      (n i j : ℕ) (error : E)
      → i ≡ 2 * (n + 1)
      → j ≡ 2 * (n + 1) + 1
      → world.attempt (n + 1) ≡ rejects error
      → world.should_retry error (n + 1) ≡ true
      → world.clock i + world.interval_ms < deadline world
      → world.clock i + world.interval_ms ≤ world.clock j
  slept_at n i j error at_i at_j rejected retry early =
      rw (at_i, at_j)
        (advances.sleeps (n + 1) error (omega arith) rejected retry (rw at_i at early))

  after_attempt-returns :
      (k n : ℕ) (a : Attempt T E) (again : E → Option (RetryResult T E))
      → ((error : E)
          → a ≡ rejects error
          → world.should_retry error n ≡ true
          → world.clock (k + 1) + world.interval_ms < deadline world
          → (result : RetryResult T E) × (again error ≡ some result))
      → (result : RetryResult T E) × (after_attempt world k n a again ≡ some result)
  unfolding after_attempt
  after_attempt-returns k n (resolves value) again h = (_, refl)
  after_attempt-returns k n (rejects error) again h =
      elim (Bool-cases (world.should_retry error n)) [
        | inl retry ↦
            elim (Bool-cases (leb (deadline world) (world.clock (k + 1) + world.interval_ms))) [
              | inl late ↦ rw (retry, late) (_, refl)
              | inr early ↦ rw (retry, early) (h error refl retry (ground arith))
            ]
        | inr abort ↦ rw abort (_, refl)
      ]

  retry_loop-returns :
      (fuel n k : ℕ) (last : Option E)
      → k ≡ 2 * n + 1
      → deadline world < world.clock k + fuel
      → 0 < fuel
      → (result : RetryResult T E) × (retry_loop world fuel k n last ≡ some result)
  unfolding retry_loop
  retry_loop-returns zero n k last at enough fuelled = ground arith
  retry_loop-returns (suc fuel) n k last at enough fuelled =
      elim (Bool-cases (ltb (world.clock k) (deadline world))) [
        | inl running ↦ rw running (
            after_attempt-returns k (n + 1) (world.attempt (n + 1)) _ (λ error rejected retry early.
              let step = advances.forward k in
              let slept : world.clock (k + 1) + world.interval_ms ≤ world.clock (k + 2) =
                slept_at n (k + 1) (k + 2) error (omega (arith, at)) (omega (arith, at)) rejected
                  retry early in
              retry_loop-returns fuel (n + 1) (k + 2) (some error) (omega (arith, at))
                (omega (arith, step, slept, enough, positive))
                (omega (arith, step, early, enough, positive))))
        | inr over ↦ rw over (_, refl)
      ]

  -- With a clock that does not go back, sleeps that take at least the interval, and an interval above zero,
  -- the loop ends within one iteration more than the milliseconds of the window.
  pub retry_until_deadline-returns :
      (result : RetryResult T E) × (retry_until_deadline world (world.deadline_ms + 1)
        ≡ some result)
  unfolding retry_until_deadline
  retry_until_deadline-returns =
      let first = advances.forward 0 in
      retry_loop-returns (world.deadline_ms + 1) 0 1 none refl (omega (arith, first)) (omega arith)
