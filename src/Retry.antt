-- ===== src/Retry.antt =====
-- pkg/llm/retry.go: a provider whose calls are repeated on transient errors. Generate and Chat are
-- the same loop over another type of answer. The provider's answers, the context's Done and the
-- jitter are parameters.
pub mod Laws
use zero_trust_sh.Prelude.{
  ℕ, zero, suc, ◌+◌, ◌-◌, ◌*◌, ◌/◌, ◌%◌, ◌^◌, Bool, true, false, not, ◌&&◌, Option, none, some,
}
use zero_trust_sh.Prelude.{◌==◌, ltb, leb, ◌||◌, if◌then◌else◌}
use zero_trust_sh.Prelude.Text.{Bytes}

-- Durations are int64 counts of nanoseconds, here their 64 bits as a number below 2 ^ 64; MaxAttempts is 0 also for a
-- negative number.
pub record RetryConfig : Type 0 where
  pub max_attempts : ℕ
  pub base_delay : ℕ
  pub max_delay : ℕ

abbrev pub default_retry_config : RetryConfig
default_retry_config = record { max_attempts = 3; base_delay = 500000000; max_delay = 5000000000 }

-- The errors that retryable tells apart.
pub data CallError : Type 0 where
  model_blocked canceled deadline_exceeded : CallError
  other_error : Bytes → CallError

unfoldable pub retryable : CallError → Bool
retryable model_blocked = false
retryable canceled = false
retryable deadline_exceeded = false
retryable (other_error text) = true

pub data Outcome {ℓ} (A : Type ℓ) : Type ℓ where
  answer : A → Outcome A
  failed : CallError → Outcome A

-- with_retry: a configuration without attempts is replaced.
unfoldable pub with_retry : RetryConfig → RetryConfig
with_retry cfg = if cfg.max_attempts == 0 then default_retry_config else cfg

-- The error that the loop keeps in lastErr.
unfoldable pub error_of {ℓ} : {A : Type ℓ} → Outcome A → Option CallError
error_of (answer a) = none
error_of (failed e) = some e

-- What is returned with lastErr; nil gives the zero answer without an error, written `none`.
unfoldable pub last_outcome {ℓ} : {A : Type ℓ} → Option CallError → Option (Outcome A)
last_outcome none = none
last_outcome (some e) = some (failed e)

-- Call number `attempt` returned; `rest` is what the later attempts give.
unfoldable pub react {ℓ} :
    {A : Type ℓ} → ℕ → Outcome A → Option (Outcome A) × ℕ → Option (Outcome A) × ℕ
unfolding retryable
react attempt (answer a) rest = (some (answer a), suc attempt)
react attempt (failed e) rest = if retryable e then rest else (some (failed e), suc attempt)

-- The loop from `attempt` on, with `left` attempts left: the outcome and the number of calls made.
-- `wait_ok i` says that the context was not done during the wait before attempt `i`.
unfoldable pub attempts {ℓ} :
    {A : Type ℓ} (call : ℕ → Outcome A) (wait_ok : ℕ → Bool)
    → ℕ
    → ℕ
    → Option CallError
    → Option (Outcome A) × ℕ
unfolding react error_of last_outcome
attempts call wait_ok attempt zero last_err = (last_outcome last_err, attempt)
attempts call wait_ok attempt (suc left) last_err =
    let rest = attempts call wait_ok (suc attempt) left (error_of (call attempt)) in
    if ltb 0 attempt && not (wait_ok attempt)
    then (last_outcome last_err, attempt)
    else react attempt (call attempt) rest

-- Generate and Chat of the provider that WithRetry returns.
unfoldable pub generate {ℓ} :
    {A : Type ℓ} → RetryConfig → (ℕ → Outcome A) → (ℕ → Bool) → Option (Outcome A) × ℕ
unfolding attempts with_retry
generate cfg call wait_ok = attempts call wait_ok 0 ((with_retry cfg).max_attempts) none

-- The order of int64 on 64 bits: the negative numbers come first.
unfoldable pub signed_order : ℕ → ℕ
signed_order bits = if leb (2 ^ 63) bits then bits - 2 ^ 63 else bits + 2 ^ 63

-- delay > max
unfoldable pub is_above : ℕ → ℕ → Bool
unfolding signed_order
is_above delay most = ltb (signed_order most) (signed_order delay)

-- delay <= 0
unfoldable pub not_positive : ℕ → Bool
not_positive delay = leb (2 ^ 63) delay || delay == 0

-- The delay before attempt `attempt`: the shift is of a uint, the product of an int64.
unfoldable pub backoff : RetryConfig → ℕ → ℕ
unfolding is_above not_positive
backoff cfg attempt =
    let raw = (cfg.base_delay * (2 ^ (attempt - 1) % 2 ^ 64)) % 2 ^ 64 in
    if is_above raw cfg.max_delay || not_positive raw then cfg.max_delay else raw

-- delay + rand.Int63n(delay/2+1), of int64; `random n` is a number below `n`, and `none` the panic of Int63n on a
-- number that is not positive: of the negative delays only -1 has none.
unfoldable pub jitter : (ℕ → ℕ) → ℕ → Option ℕ
jitter random delay =
    if leb (2 ^ 63) delay
    then (if delay == 2 ^ 64 - 1 then some ((delay + random 1) % 2 ^ 64) else none)
    else some ((delay + random (delay / 2 + 1)) % 2 ^ 64)

-- The wait with its jitter.
unfoldable pub wait_time : RetryConfig → (ℕ → ℕ) → ℕ → Option ℕ
unfolding backoff jitter
wait_time cfg random attempt = jitter random (backoff cfg attempt)
