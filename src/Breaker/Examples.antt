-- ===== src/Breaker/Examples.antt =====
-- The breaker's theorems at concrete calls.
use knitting_crab.Prelude.{ℕ, ◌⊎◌, ◌<◌, ◌≡◌, ◌≢◌, refl, some, [], ◌∷◌, arith}
use knitting_crab.Core.Error.{ok, internal, returns, panics}
use knitting_crab.Breaker.{
  CircuitState, closed, opened, half_open, CircuitBreakerConfig, CircuitBreaker, default_config,
  with_config, state, record_success, record_failure, count_call,
}
use knitting_crab.Breaker.Laws.{asked, counted, failed, here, next, Reach-failures}
use knitting_crab.Breaker.Trips.{
  FailingCall, fail_call, fail_calls, fail_calls-trip, succeed_call, succeed_calls,
  succeed_calls-close,
}

-- The default configuration, written out.
abbrev config : CircuitBreakerConfig
config = record {
  failure_threshold = 5;
  timeout = 60000;
  half_open_max_calls = 3;
  half_open_success_threshold = 67;
}

config-default : config ≡ default_config
unfolding default_config
config-default = refl

abbrev breaker : CircuitState → ℕ → ℕ → CircuitBreaker
breaker c last calls = record {
  config = config;
  circuit = c;
  consecutive_failures = 0;
  consecutive_successes = 0;
  last_failure_time = last;
  half_open_calls = calls;
  half_open_successes = 0;
}

Reach-failures_example :
    let b = record_failure (some 5) (count_call (state (some 3) (with_config config))) in
    ((b.consecutive_failures < b.config.failure_threshold) ⊎ (b.circuit ≢ closed))
    × (record_success (some 9) b ≢ panics)
Reach-failures_example =
    Reach-failures {config = config} (some 9) (omega arith) (omega arith)
      (next (next (next here (asked (some 3))) counted) (failed (some 5)))

abbrev failing : FailingCall
failing = record { now = some 10; later = some 11; error = internal "no answer" }

fail_calls-trip_example :
    let four = fail_calls (failing ∷ failing ∷ failing ∷ failing ∷ []) (breaker closed 0 0) in
    (four.circuit ≡ closed) × ((fail_call failing four).circuit ≡ opened)
fail_calls-trip_example =
    fail_calls-trip (failing ∷ failing ∷ failing ∷ failing ∷ []) failing (breaker closed 0 0) refl
      refl refl (omega arith)

succeed_calls-close_example :
    let two = succeed_calls ((some 1, some 2) ∷ (some 3, some 4) ∷ []) (breaker half_open 0 0) in
    (two.circuit ≡ half_open) × ((succeed_call (some 5, some 6) two).circuit ≡ closed)
succeed_calls-close_example =
    succeed_calls-close ((some 1, some 2) ∷ (some 3, some 4) ∷ []) (some 5, some 6)
      (breaker half_open 0 0)
      (record { is_half_open = refl; has_calls = refl; has_successes = refl; has_config = refl })
      refl (omega arith) (omega arith)

-- With the default configuration three calls overlap, and the first to succeed opens the circuit.
overlap :
    record_success (some 70000) (breaker half_open 1000 3)
    ≡ returns (record (breaker opened 70000 3) { half_open_successes = 1 }) (ok tt)
unfolding record_success
overlap = refl
