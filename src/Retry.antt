-- ===== src/Retry.antt =====
-- crates/core/src/retry.rs and crates/worker/src/retry_handler.rs: which outcome of a process is
-- tried again, and when. Signals and exit codes are the bits of their `i32`. The source computes
-- the delay in `f64` seconds; here it is exact, in whole milliseconds, rounded down, for attempts
-- below 2^31.
mod Examples
use knitting_crab.Prelude.{
  ℕ, zero, suc, ◌+◌, ◌*◌, ◌/◌, ◌%◌, ◌^◌, Bool, true, false, not, List, [], ◌∷◌, contains, leb, min,
  if◌then◌else◌, u32_mod,
}
use knitting_crab.Core.Task.{RetryPolicy}

unfoldable pub default_policy : RetryPolicy
default_policy = record {
  max_attempts = 3;
  initial_backoff = 100;
  backoff_multiplier = 200;
  max_backoff = 30000;
  retryable_exit_codes = [];
}

unfoldable pub backoff_for : RetryPolicy → ℕ → ℕ
backoff_for p attempt =
    min (p.initial_backoff * p.backoff_multiplier ^ attempt / 100 ^ attempt) p.max_backoff

pub data ExitOutcome : Type 0 where
  success : ExitOutcome
  failed_with_code : ℕ → ExitOutcome
  killed_by_signal : ℕ → ExitOutcome
  timed_out : ExitOutcome

abbrev pub is_empty : List ℕ → Bool
is_empty [] = true
is_empty (x ∷ xs) = false

unfoldable pub is_retryable : ExitOutcome → RetryPolicy → Bool
is_retryable success p = false
is_retryable (failed_with_code code) p =
    if is_empty p.retryable_exit_codes then true else contains code p.retryable_exit_codes
is_retryable (killed_by_signal n) p = true
is_retryable timed_out p = true

pub data RetryDecision : Type 0 where
  retry : ℕ → RetryDecision
  abandon : RetryDecision
  complete : RetryDecision

-- `RetryHandler::decide`.
unfoldable pub decide : ExitOutcome → RetryPolicy → ℕ → RetryDecision
unfolding is_retryable backoff_for
decide outcome p attempt =
    if not (is_retryable outcome p)
    then complete
    else if leb p.max_attempts ((attempt + 1) % u32_mod)
    then abandon
    else retry (backoff_for p attempt)
