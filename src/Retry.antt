-- ===== src/Retry.antt =====
-- services/automation/src/lib/retry.ts: `retryUntilDeadline`. What is injected is the world of a run:
-- the k-th reading of the clock, how the n-th attempt ends (with the value or the error of the
-- caller's own types), and the options. The loop runs on fuel; Retry/Fuel.antt has the fuel that is
-- enough.
pub mod Outcome
pub mod Fuel
use bell_markets.Prelude.{
  ℕ, zero, suc, ◌+◌, ◌-◌, Bool, not, ltb, leb, if◌then◌else◌, Option, none, some,
}

-- `fn` resolves or rejects.
pub data Attempt (T E : Type 0) : Type 0 where
  resolves : T → Attempt T E
  rejects : E → Attempt T E

pub data Reason : Type 0 where
  exhausted non_retriable : Reason

-- `error` is undefined when no attempt was made.
pub data RetryResult (T E : Type 0) : Type 0 where
  success : T → (attempts elapsed_ms : ℕ) → RetryResult T E
  failure : Option E → Reason → (attempts elapsed_ms : ℕ) → RetryResult T E

pub record World (T E : Type 0) : Type 0 where
  pub clock : ℕ → ℕ
  pub attempt : ℕ → Attempt T E
  pub should_retry : E → ℕ → Bool
  pub interval_ms : ℕ
  pub deadline_ms : ℕ

-- `start + opts.deadlineMs`, of the first reading.
abbrev pub deadline : {T E : Type 0} → World T E → ℕ
deadline world = world.clock 0 + world.deadline_ms

-- `now() - start` at the k-th reading.
abbrev pub elapsed : {T E : Type 0} → World T E → ℕ → ℕ
elapsed world k = world.clock k - world.clock 0

-- What the body of the loop does after attempt `n`, where the check before it was the k-th reading.
unfoldable pub after_attempt :
    {T E : Type 0}
    → World T E
    → ℕ
    → ℕ
    → Attempt T E
    → (E → Option (RetryResult T E))
    → Option (RetryResult T E)
after_attempt world k n (resolves value) again = some (success value n (elapsed world (k + 1)))
after_attempt world k n (rejects error) again =
    if not (world.should_retry error n)
    then some (failure (some error) non_retriable n (elapsed world (k + 1)))
    else if leb (deadline world) (world.clock (k + 1) + world.interval_ms)
    then some (failure (some error) exhausted n (elapsed world (k + 2)))
    else again error

-- `while (now() < deadline)` at the k-th reading, after `attempts` attempts.
unfoldable pub retry_loop :
    {T E : Type 0} → World T E → ℕ → ℕ → ℕ → Option E → Option (RetryResult T E)
retry_loop world zero k attempts last_error = none
retry_loop world (suc fuel) k attempts last_error =
    let again = retry_loop world fuel (k + 2) (attempts + 1) in
    if ltb (world.clock k) (deadline world)
    then after_attempt world k (attempts + 1) (world.attempt (attempts + 1))
        (λ error. again (some error))
    else some (failure last_error exhausted attempts (elapsed world (k + 1)))

-- `none` is no fuel left.
unfoldable pub retry_until_deadline : {T E : Type 0} → World T E → ℕ → Option (RetryResult T E)
retry_until_deadline world fuel = retry_loop world fuel 1 0 none
