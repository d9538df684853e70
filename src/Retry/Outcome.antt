-- ===== src/Retry/Outcome.antt =====
-- What the result of `retryUntilDeadline` says of the attempts that were made.
use bell_markets.Prelude.{
  ℕ, zero, suc, ◌+◌, ◌*◌, ◌<◌, ◌≤◌, ◌≡◌, refl, sym, subst, true, false, ltb, leb, Bool-cases,
  Option, none, some, ◌⊎◌, inl, inr, arith,
}
use mathlib.Core.Option.{some-injective}
use bell_markets.Retry.{
  Attempt, resolves, rejects, World, RetryResult, success, failure, exhausted, non_retriable,
  deadline, after_attempt, retry_loop, retry_until_deadline,
}

module _ {T E : Type 0} (world : World T E) where
  -- Attempt `m + 1` starts right after the reading `2 m + 1`, before the deadline, for all m below n.
  abbrev pub Started : ℕ → Type 0
  Started n = (m : ℕ) → m < n → world.clock (2 * m + 1) < deadline world

  -- Attempt `n` was rejected with the error, and the caller wants to try again.
  abbrev pub Retriable : ℕ → E → Type 0
  Retriable n error = (world.attempt n ≡ rejects error) × (world.should_retry error n ≡ true)

  -- All attempts up to the n-th were.
  abbrev pub Retried : ℕ → Type 0
  Retried n = (m : ℕ) → m < n → (error : E) × Retriable (m + 1) error

-- What a result claims of the world.
pub data IsOutcome {T E : Type 0} (world : World T E) : RetryResult T E → Type 0 where
  resolved :
      {value : T} {n ms : ℕ}
      → Started world (n + 1)
      → Retried world n
      → world.attempt (n + 1) ≡ resolves value
      → IsOutcome world (success value (n + 1) ms)
  aborted :
      {error : E} {n ms : ℕ}
      → Started world (n + 1)
      → Retried world n
      → world.attempt (n + 1) ≡ rejects error
      → world.should_retry error (n + 1) ≡ false
      → IsOutcome world (failure (some error) non_retriable (n + 1) ms)
  too_late :
      {ms : ℕ} → deadline world ≤ world.clock 1 → IsOutcome world (failure none exhausted 0 ms)
  ran_out :
      {error : E} {n ms : ℕ}
      → Started world (n + 1)
      → Retried world n
      → Retriable world (n + 1) error
      → (deadline world ≤ world.clock (2 * n + 2) + world.interval_ms)
        ⊎ (deadline world ≤ world.clock (2 * n + 3))
      → IsOutcome world (failure (some error) exhausted (n + 1) ms)

module _ {T E : Type 0} (world : World T E) where
  -- The last error that the loop knows after n attempts.
  abbrev pub LastError : ℕ → Option E → Type 0
  LastError n none = n ≡ 0
  LastError n (some error) = (m : ℕ) × (n ≡ m + 1) × Retriable world n error

  Started-suc :
      {n : ℕ} → Started world n → world.clock (2 * n + 1) < deadline world → Started world (n + 1)
  Started-suc {n = n} started now m below = elim (Bool-cases (ltb m n)) [
    | inl old ↦ started m (ground arith)
    | inr new ↦
        let e : n ≡ m = ground arith in subst (λ j. world.clock (2 * j + 1) < deadline world) e now
  ]

  Retried-suc :
      {n : ℕ} {error : E} → Retried world n → Retriable world (n + 1) error → Retried world (n + 1)
  Retried-suc {n = n} {error = error} retried new_one m below = elim (Bool-cases (ltb m n)) [
    | inl old ↦ retried m (ground arith)
    | inr new ↦
        let e : n ≡ m = ground arith in
        (error, subst (λ j. Retriable world (j + 1) error) e new_one)
  ]

  after_attempt-IsOutcome :
      (n k : ℕ) (a : Attempt T E) (again : E → Option (RetryResult T E)) {result : RetryResult T E}
      → k ≡ 2 * n + 1
      → world.attempt (n + 1) ≡ a
      → Started world (n + 1)
      → Retried world n
      → ((error : E)
          → Retriable world (n + 1) error
          → again error ≡ some result
          → IsOutcome world result)
      → after_attempt world k (n + 1) a again ≡ some result
      → IsOutcome world result
  unfolding after_attempt
  after_attempt-IsOutcome n k (resolves value) again at ends started retried more e =
      subst (IsOutcome world) (some-injective _ _ e) (resolved started retried ends)
  after_attempt-IsOutcome n k (rejects error) again at ends started retried more e =
      elim (Bool-cases (world.should_retry error (n + 1))) [
        | inl retry ↦
            elim (Bool-cases (leb (deadline world) (world.clock (k + 1) + world.interval_ms))) [
              | inl late ↦
                  let next : 2 * n + 2 ≡ k + 1 = omega (arith, at) in
                  let reached : deadline world ≤ world.clock (2 * n + 2) + world.interval_ms =
                    rw next (ground arith) in
                  subst (IsOutcome world) (some-injective _ _ (rw (retry, late) at e))
                    (ran_out started retried (ends, retry) (inl reached))
              | inr early ↦ more error (ends, retry) (rw (retry, early) at e)
            ]
        | inr abort ↦
            subst (IsOutcome world) (some-injective _ _ (rw abort at e))
              (aborted started retried ends abort)
      ]

  over-IsOutcome :
      (n k ms : ℕ) (last : Option E)
      → k ≡ 2 * n + 1
      → Started world n
      → Retried world n
      → LastError n last
      → deadline world ≤ world.clock k
      → IsOutcome world (failure last exhausted n ms)
  over-IsOutcome n k ms none at started retried known over =
      let at1 : k ≡ 1 = omega (arith, at, known) in
      subst (λ j. IsOutcome world (failure none exhausted j ms)) (sym known)
        (too_late (subst (λ j. deadline world ≤ world.clock j) at1 over))
  over-IsOutcome n k ms (some error) at started retried (m, e, known) over =
      let at3 : k ≡ 2 * m + 3 = omega (arith, at, e) in
      subst (λ j. IsOutcome world (failure (some error) exhausted j ms)) (sym e)
        (ran_out (subst (Started world) e started) (λ i below. retried i (omega (arith, e, below)))
          (subst (λ j. Retriable world j error) e known)
          (inr (subst (λ j. deadline world ≤ world.clock j) at3 over)))

  retry_loop-IsOutcome :
      (fuel n k : ℕ) (last : Option E) {result : RetryResult T E}
      → k ≡ 2 * n + 1
      → Started world n
      → Retried world n
      → LastError n last
      → retry_loop world fuel k n last ≡ some result
      → IsOutcome world result
  unfolding retry_loop
  retry_loop-IsOutcome zero n k last at started retried known e = cc
  retry_loop-IsOutcome (suc fuel) n k last at started retried known e =
      elim (Bool-cases (ltb (world.clock k) (deadline world))) [
        | inl running ↦
            let now : world.clock (2 * n + 1) < deadline world =
              subst (λ j. world.clock j < deadline world) at (ground arith) in
            after_attempt-IsOutcome n k (world.attempt (n + 1)) _ at refl (Started-suc started now)
              retried
              (λ error retriable again.
                retry_loop-IsOutcome fuel (n + 1) (k + 2) (some error) (omega (arith, at))
                  (Started-suc started now) (Retried-suc retried retriable) (n, refl, retriable)
                  again)
              (rw running at e)
        | inr over ↦
            subst (IsOutcome world) (some-injective _ _ (rw over at e))
              (over-IsOutcome n k _ last at started retried known (ground arith))
      ]

-- Whenever the loop returns, its result tells what happened: every attempt counted started before the
-- deadline; all but the last were rejected with an error that the caller wants retried; on success
-- the last one resolved to the value; `non-retriable` means that the last one was rejected with that
-- error and the caller does not want it retried; and `exhausted` means that no attempt could start,
-- or that the last one was rejected, to be retried, and the deadline had come by the next check or
-- would have come by the end of the next sleep.
pub retry_until_deadline-IsOutcome :
    {T E : Type 0} (world : World T E) (fuel : ℕ) {result : RetryResult T E}
    → retry_until_deadline world fuel ≡ some result
    → IsOutcome world result
unfolding retry_until_deadline
retry_until_deadline-IsOutcome world fuel e =
    retry_loop-IsOutcome world fuel 0 1 none refl (λ m below. ground arith)
      (λ m below. ground arith) refl e
