-- ===== src/Breaker.antt =====
-- crates/core/src/circuit_breaker.rs. A method that holds the lock is one step, and so is `call` of a
-- call that runs alone, at a clock reading: milliseconds since
-- the epoch, or `none` when the clock stands before it. The counters are `u32`, whose updates wrap.
-- The future of `call` is its result, which only an admitted call looks at.
pub mod Laws
pub mod Trips
mod Examples
use knitting_crab.Prelude.{
  ℕ, ◌+◌, ◌-◌, ◌*◌, ◌/◌, ◌%◌, Bool, true, false, Option, none, some, leb, ltb, ◌==◌, if◌then◌else◌,
  u32_mod, u64_mod,
}
use knitting_crab.Core.Error.{CoreError, Result, ok, err, internal, Outcome, returns, panics}

pub data CircuitState : Type 0 where
  closed opened half_open : CircuitState

-- The timeout is in milliseconds.
pub record CircuitBreakerConfig : Type 0 where
  pub failure_threshold : ℕ
  pub timeout : ℕ
  pub half_open_max_calls : ℕ
  pub half_open_success_threshold : ℕ

unfoldable pub default_config : CircuitBreakerConfig
default_config = record {
  failure_threshold = 5;
  timeout = 60000;
  half_open_max_calls = 3;
  half_open_success_threshold = 67;
}

pub record CircuitBreaker : Type 0 where
  pub config : CircuitBreakerConfig
  pub circuit : CircuitState
  pub consecutive_failures : ℕ
  pub consecutive_successes : ℕ
  pub last_failure_time : ℕ
  pub half_open_calls : ℕ
  pub half_open_successes : ℕ

unfoldable pub with_config : CircuitBreakerConfig → CircuitBreaker
with_config config = record {
  config = config;
  circuit = closed;
  consecutive_failures = 0;
  consecutive_successes = 0;
  last_failure_time = 0;
  half_open_calls = 0;
  half_open_successes = 0;
}

unfoldable pub record_last_failure : Option ℕ → CircuitBreaker → CircuitBreaker
record_last_failure none b = b
record_last_failure (some now) b = record b { last_failure_time = now % u64_mod }

-- `none` is the error of a clock before the epoch.
unfoldable pub time_since_last_failure : Option ℕ → CircuitBreaker → Option ℕ
time_since_last_failure none b = if b.last_failure_time == 0 then some 0 else none
time_since_last_failure (some now) b =
    if b.last_failure_time == 0 then some 0 else some (now % u64_mod - b.last_failure_time)

-- Whether the timeout of an open circuit has passed.
unfoldable pub is_due : Option ℕ → CircuitBreaker → Bool
unfolding time_since_last_failure
is_due now b = elim (time_since_last_failure now b) [
  | none ↦ false
  | some elapsed ↦ leb b.config.timeout elapsed
]

-- The move from Open to HalfOpen.
unfoldable pub try_recovery : Option ℕ → CircuitBreaker → CircuitBreaker
unfolding is_due
try_recovery now b =
    if is_due now b
    then (record b { circuit = half_open; half_open_calls = 0; half_open_successes = 0 })
    else b

-- The method answers with the state that it leaves.
unfoldable pub state : Option ℕ → CircuitBreaker → CircuitBreaker
unfolding try_recovery
state now b = elim b.circuit [ closed ↦ b | opened ↦ try_recovery now b | half_open ↦ b ]

unfoldable pub is_open : Option ℕ → CircuitBreaker → Bool
unfolding state
is_open now b = elim (state now b).circuit [ closed ↦ false | opened ↦ true | half_open ↦ false ]

-- The verdict on a full round of half-open calls. A division by zero panics.
unfoldable pub judge_round : Option ℕ → CircuitBreaker → Outcome CircuitBreaker (Unit {0})
unfolding record_last_failure
judge_round now b =
    if b.half_open_calls == 0
    then panics
    else if leb b.config.half_open_success_threshold
        (b.half_open_successes * 100 % u32_mod / b.half_open_calls)
    then returns (record b { circuit = closed; consecutive_failures = 0 }) (ok tt)
    else returns (record_last_failure now (record b { circuit = opened })) (ok tt)

-- A success in HalfOpen.
unfoldable pub count_success : Option ℕ → CircuitBreaker → Outcome CircuitBreaker (Unit {0})
unfolding judge_round
count_success now b =
    let counted = record b { half_open_successes = (b.half_open_successes + 1) % u32_mod } in
    if leb b.config.half_open_max_calls b.half_open_calls
    then judge_round now counted
    else returns counted (ok tt)

unfoldable pub record_success : Option ℕ → CircuitBreaker → Outcome CircuitBreaker (Unit {0})
unfolding count_success
record_success now b = elim b.circuit [
  | closed ↦ returns (record b { consecutive_failures = 0 }) (ok tt)
  | opened ↦ returns b (ok tt)
  | half_open ↦ count_success now b
]

-- A failure in Closed.
unfoldable pub count_failure : CircuitBreaker → CircuitBreaker
count_failure b =
    let failures = (b.consecutive_failures + 1) % u32_mod in
    record b {
      consecutive_failures = failures;
      circuit = if leb b.config.failure_threshold failures then opened else b.circuit;
    }

unfoldable pub record_failure : Option ℕ → CircuitBreaker → CircuitBreaker
unfolding record_last_failure count_failure
record_failure now b = elim b.circuit [
  | closed ↦ count_failure (record_last_failure now b)
  | opened ↦ record_last_failure now b
  | half_open ↦ record (record_last_failure now b) {
    circuit = opened;
    half_open_calls = 0;
    half_open_successes = 0;
  }
]

-- The atomic increment of a call that has seen HalfOpen, and its undoing when it is refused.
unfoldable pub count_call : CircuitBreaker → CircuitBreaker
count_call b = record b { half_open_calls = (b.half_open_calls + 1) % u32_mod }

unfoldable pub uncount_call : CircuitBreaker → CircuitBreaker
uncount_call b = record b { half_open_calls = (b.half_open_calls + u32_mod - 1) % u32_mod }

-- The permit of a call that has seen HalfOpen, of a call that runs alone: whether it may run.
unfoldable pub take_permit : CircuitBreaker → CircuitBreaker × Bool
unfolding count_call uncount_call
take_permit b =
    let counted = count_call b in
    if ltb b.config.half_open_max_calls counted.half_open_calls
    then (uncount_call counted, false)
    else (counted, true)

-- An admitted call awaits its future, which ends at `later`, and records how it ended.
unfoldable pub await_call :
    {A : Type 0} → Option ℕ → Result A → CircuitBreaker → Outcome CircuitBreaker A
unfolding record_success record_failure
await_call later (err e) b = returns (record_failure later b) (err e)
await_call later (ok v) b = elim (record_success later b) [
  | panics ↦ panics
  | returns c u ↦ returns c (ok v)
]

unfoldable pub call_half_open :
    {A : Type 0} → Option ℕ → Result A → CircuitBreaker → Outcome CircuitBreaker A
unfolding take_permit await_call
call_half_open later f b =
    if (take_permit b).1
    then await_call later f (take_permit b).0
    else returns (take_permit b).0 (err (internal "circuit breaker half-open capacity exceeded"))

-- The call once it has asked for the state.
unfoldable pub call_in_state :
    {A : Type 0} → Option ℕ → Result A → CircuitBreaker → Outcome CircuitBreaker A
unfolding await_call call_half_open
call_in_state later f b = elim b.circuit [
  | closed ↦ await_call later f b
  | opened ↦ returns b (err (internal "circuit breaker is open; service is unavailable"))
  | half_open ↦ call_half_open later f b
]

-- Called at `now`, with a future that ends at `later`.
unfoldable pub call :
    {A : Type 0} → Option ℕ → Option ℕ → Result A → CircuitBreaker → Outcome CircuitBreaker A
unfolding state call_in_state
call now later f b = call_in_state later f (state now b)

unfoldable pub reset : CircuitBreaker → CircuitBreaker
reset b = record b {
  circuit = closed;
  consecutive_failures = 0;
  consecutive_successes = 0;
  half_open_calls = 0;
  half_open_successes = 0;
}

pub record CircuitBreakerStats : Type 0 where
  pub circuit : CircuitState
  pub consecutive_failures : ℕ
  pub half_open_calls : ℕ
  pub half_open_successes : ℕ

unfoldable pub stats : Option ℕ → CircuitBreaker → CircuitBreaker × CircuitBreakerStats
unfolding state
stats now b = (
  state now b,
  record {
    circuit = (state now b).circuit;
    consecutive_failures = (state now b).consecutive_failures;
    half_open_calls = (state now b).half_open_calls;
    half_open_successes = (state now b).half_open_successes;
  },
)
