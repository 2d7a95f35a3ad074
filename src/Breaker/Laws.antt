-- ===== src/Breaker/Laws.antt =====
-- When a call is refused, and what holds in every state that interleaved calls reach.
use knitting_crab.Prelude.{
  ℕ, ◌⊎◌, sym, subst, ◌+◌, ◌-◌, ◌≤◌, ◌<◌, ◌≡◌, ◌≢◌, refl, Option, none, some, u64_mod, arith, inl,
  inr,
}
use knitting_crab.Core.Error.{Result, ok, err, internal, returns, panics}
use knitting_crab.Breaker.{
  CircuitState, closed, opened, half_open, CircuitBreakerConfig, CircuitBreaker, with_config,
  try_recovery, state, count_success, record_success, record_failure, count_call, uncount_call,
  call_in_state, call, reset,
}

state-stays :
    (now : ℕ) (b : CircuitBreaker)
    → b.circuit ≡ opened
    → 0 < b.last_failure_time
    → now < u64_mod
    → now - b.last_failure_time < b.config.timeout
    → state (some now) b ≡ b
unfolding state
state-stays now b o p w l = ground arith

call_in_state-opened :
    {A : Type 0} (later : Option ℕ) (f : Result A) (b : CircuitBreaker)
    → b.circuit ≡ opened
    → call_in_state later f b
      ≡ returns b (err (internal "circuit breaker is open; service is unavailable"))
unfolding call_in_state
call_in_state-opened later f b o = ground arith

-- While the timeout of an open circuit has not passed, a call is refused, whatever its future would
-- have answered, and the breaker is unchanged.
pub call-refuses :
    {A : Type 0} (now : ℕ) (later : Option ℕ) (f : Result A) (b : CircuitBreaker)
    → b.circuit ≡ opened
    → 0 < b.last_failure_time
    → now < u64_mod
    → now - b.last_failure_time < b.config.timeout
    → call (some now) later f b
      ≡ returns b (err (internal "circuit breaker is open; service is unavailable"))
unfolding call
call-refuses now later f b o p w l =
    subst
      (λ c.
        call_in_state later f c
        ≡ returns b (err (internal "circuit breaker is open; service is unavailable")))
      (sym (state-stays now b o p w l)) (call_in_state-opened later f b o)

state-recovers :
    (now : ℕ) (b : CircuitBreaker)
    → b.circuit ≡ opened
    → 0 < b.last_failure_time
    → now < u64_mod
    → b.last_failure_time + b.config.timeout ≤ now
    → state (some now) b
      ≡ record b { circuit = half_open; half_open_calls = 0; half_open_successes = 0 }
unfolding state
state-recovers now b o p w l = ground arith

-- Steps of any number of calls and of other users of the breaker, in any order. A call is the steps
-- `asks` (its clock reading), `counts` and, if it is refused, `uncounts` when it has seen HalfOpen,
-- and `succeeds` or `fails` when its future ends. The circuit may change between any two of them.
pub data Event : Type 0 where
  asks : Option ℕ → Event
  counts uncounts : Event
  succeeds : Option ℕ → Event
  fails : Option ℕ → Event
  resets : Event

pub data Step (b : CircuitBreaker) : Event → CircuitBreaker → Type 0 where
  asked : (now : Option ℕ) → Step b (asks now) (state now b)
  counted : Step b counts (count_call b)
  uncounted : Step b uncounts (uncount_call b)
  succeeded :
      (now : Option ℕ) {c : CircuitBreaker}
      → record_success now b ≡ returns c (ok tt)
      → Step b (succeeds now) c
  failed : (now : Option ℕ) → Step b (fails now) (record_failure now b)
  was_reset : Step b resets (reset b)

-- No tripped circuit is closed.
pub record IsSound (b : CircuitBreaker) : Type 0 where
  pub failures : b.circuit ≡ closed → b.consecutive_failures < b.config.failure_threshold
  pub threshold : 0 < b.config.failure_threshold
  pub max_calls : 0 < b.config.half_open_max_calls

with_config-IsSound :
    (config : CircuitBreakerConfig)
    → 0 < config.failure_threshold
    → 0 < config.half_open_max_calls
    → IsSound (with_config config)
unfolding with_config
with_config-IsSound config t m = record { failures = λ _. t; threshold = t; max_calls = m }

-- In a sound breaker no success divides by zero.
record_success-returns :
    (now : Option ℕ) (b : CircuitBreaker) → IsSound b → record_success now b ≢ panics
unfolding record_success
record_success-returns now b s = ground arith

try_recovery-IsSound :
    (now : Option ℕ) (b : CircuitBreaker) → IsSound b → IsSound (try_recovery now b)
unfolding try_recovery
try_recovery-IsSound now b s = ground arith

-- By the state of the circuit.
state-IsSound :
    (now : Option ℕ) (c : CircuitState) (b : CircuitBreaker)
    → IsSound (record b { circuit = c })
    → IsSound (state now (record b { circuit = c }))
unfolding state
state-IsSound now closed b s = s
state-IsSound now opened b s = try_recovery-IsSound now (record b { circuit = opened }) s
state-IsSound now half_open b s = s

count_success-IsSound :
    (now : Option ℕ) (b c : CircuitBreaker)
    → count_success now b ≡ returns c (ok tt)
    → IsSound b
    → IsSound c
unfolding count_success
count_success-IsSound now b c r s = ground arith

record_success-IsSound :
    (now : Option ℕ) (k : CircuitState) (b c : CircuitBreaker)
    → record_success now (record b { circuit = k }) ≡ returns c (ok tt)
    → IsSound (record b { circuit = k })
    → IsSound c
unfolding record_success
record_success-IsSound now closed b c r s = ground arith
record_success-IsSound now opened b c r s = ground arith
record_success-IsSound now half_open b c r s =
    count_success-IsSound now (record b { circuit = half_open }) c r s

record_failure-IsSound :
    (now : Option ℕ) (k : CircuitState) (b : CircuitBreaker)
    → IsSound (record b { circuit = k })
    → IsSound (record_failure now (record b { circuit = k }))
unfolding record_failure
record_failure-IsSound none closed b s = ground arith
record_failure-IsSound (some n) closed b s = ground arith
record_failure-IsSound none opened b s = ground arith
record_failure-IsSound (some n) opened b s = ground arith
record_failure-IsSound none half_open b s = ground arith
record_failure-IsSound (some n) half_open b s = ground arith

Step-IsSound : {b c : CircuitBreaker} {e : Event} → Step b e c → IsSound b → IsSound c
unfolding count_call uncount_call reset
Step-IsSound {b = b} (asked now) s = state-IsSound now b.circuit b s
Step-IsSound counted s = ground arith
Step-IsSound uncounted s = ground arith
Step-IsSound {b = b} {c = c} (succeeded now r) s = record_success-IsSound now b.circuit b c r s
Step-IsSound {b = b} (failed now) s = record_failure-IsSound now b.circuit b s
Step-IsSound was_reset s = ground arith

-- The states that a new breaker reaches.
pub data Reach (config : CircuitBreakerConfig) : CircuitBreaker → Type 0 where
  here : Reach config (with_config config)
  next : {b c : CircuitBreaker} {e : Event} → Reach config b → Step b e c → Reach config c

pub Reach-IsSound :
    {config : CircuitBreakerConfig} {b : CircuitBreaker}
    → 0 < config.failure_threshold
    → 0 < config.half_open_max_calls
    → Reach config b
    → IsSound b
Reach-IsSound {config = config} t m here = with_config-IsSound config t m
Reach-IsSound t m (next r s) = Step-IsSound s (Reach-IsSound t m r)

failures_or : (c : CircuitState) (n k : ℕ) → (c ≡ closed → n < k) → (n < k) ⊎ (c ≢ closed)
failures_or closed n k f = inl (f refl)
failures_or opened n k f = inr (λ e. cc)
failures_or half_open n k f = inr (λ e. cc)

-- However the steps of the calls of a breaker interleave, the state of the circuit changing at any
-- point between them: a circuit that is closed has counted fewer failures than the threshold, and no
-- success divides by zero, when the threshold and the number of half-open calls are positive.
pub Reach-failures :
    {config : CircuitBreakerConfig} {b : CircuitBreaker} (now : Option ℕ)
    → 0 < config.failure_threshold
    → 0 < config.half_open_max_calls
    → Reach config b
    → ((b.consecutive_failures < b.config.failure_threshold) ⊎ (b.circuit ≢ closed))
      × (record_success now b ≢ panics)
Reach-failures {b = b} now t m r =
    let s = Reach-IsSound t m r in
    (
      failures_or (b.circuit) (b.consecutive_failures) b.config.failure_threshold s.failures,
      record_success-returns now b s,
    )
