-- ===== src/Retry/Examples.antt =====
-- The decisions of a policy of three attempts that tries one exit code again.
use knitting_crab.Prelude.{◌≡◌, refl, [], ◌∷◌}
use knitting_crab.Core.Task.{RetryPolicy}
use knitting_crab.Retry.{failed_with_code, timed_out, retry, abandon, complete, decide}

abbrev policy : RetryPolicy
policy = record {
  max_attempts = 3;
  initial_backoff = 100;
  backoff_multiplier = 200;
  max_backoff = 30000;
  retryable_exit_codes = 1 ∷ [];
}

decisions :
    (decide (failed_with_code 1) policy 1 ≡ retry 200)
    × (decide timed_out policy 2 ≡ abandon)
    × (decide (failed_with_code 7) policy 0 ≡ complete)
unfolding decide
decisions = (refl, refl, refl)
