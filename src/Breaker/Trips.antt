-- ===== src/Breaker/Trips.antt =====
-- How a breaker trips and recovers: consecutive failing calls, and a round of succeeding
-- half-open calls.
use knitting_crab.Prelude.{
  ℕ, ◌+◌, ◌*◌, ◌/◌, ◌%◌, ◌≤◌, ◌<◌, ◌≡◌, refl, sym, subst, ap, ◌∙◌, Option, none, some, List, [],
  ◌∷◌, u32_mod, arith, length,
}
use native.Mathlib.Nat.{mod-eq_of_lt, mul-div_cancel_left}
use knitting_crab.Core.Error.{CoreError, ok, err, state_after}
use knitting_crab.Breaker.{
  CircuitState, closed, opened, half_open, CircuitBreakerConfig, CircuitBreaker, state,
  record_success, record_failure, take_permit, await_call, call_half_open, call_in_state, call,
}

-- A failing call: the clock at its start and at its end, and its error.
pub record FailingCall : Type 0 where
  pub now : Option ℕ
  pub later : Option ℕ
  pub error : CoreError

unfoldable pub fail_call : FailingCall → CircuitBreaker → CircuitBreaker
unfolding call
fail_call f b = state_after b (call {A = Unit {0}} f.now f.later (err f.error) b)

unfoldable pub fail_calls : List FailingCall → CircuitBreaker → CircuitBreaker
unfolding fail_call
fail_calls [] b = b
fail_calls (f ∷ fs) b = fail_calls fs (fail_call f b)

-- Closed, with some failures counted.
pub record HasFailed (k : ℕ) (config : CircuitBreakerConfig) (b : CircuitBreaker) : Type 0 where
  pub is_closed : b.circuit ≡ closed
  pub has_count : b.consecutive_failures ≡ k
  pub has_config : b.config ≡ config

fail_call-circuit :
    (f : FailingCall) (k : CircuitState) (b : CircuitBreaker)
    → k ≡ closed
    → fail_call f (record b { circuit = k }) ≡ record_failure f.later (record b { circuit = k })
unfolding fail_call state call_in_state await_call
fail_call-circuit f closed b e = refl
fail_call-circuit f opened b e = ground arith
fail_call-circuit f half_open b e = ground arith

record_failure-HasFailed :
    (later : Option ℕ) (k : ℕ) (config : CircuitBreakerConfig) (b : CircuitBreaker)
    → HasFailed k config b
    → k + 1 < config.failure_threshold
    → config.failure_threshold < u32_mod
    → HasFailed (k + 1) config (record_failure later b)
unfolding record_failure
record_failure-HasFailed none k config b h l w = ground arith
record_failure-HasFailed (some n) k config b h l w = ground arith

record_failure-trips :
    (later : Option ℕ) (k : ℕ) (config : CircuitBreakerConfig) (b : CircuitBreaker)
    → HasFailed k config b
    → k + 1 ≡ config.failure_threshold
    → config.failure_threshold < u32_mod
    → (record_failure later b).circuit ≡ opened
unfolding record_failure
record_failure-trips none k config b h l w = ground arith
record_failure-trips (some n) k config b h l w = ground arith

fail_call-HasFailed :
    (f : FailingCall) (k : ℕ) (config : CircuitBreakerConfig) (b : CircuitBreaker)
    → HasFailed k config b
    → fail_call f b ≡ record_failure f.later b
fail_call-HasFailed f k config b h = fail_call-circuit f b.circuit b h.is_closed

-- Failing calls that do not bring the count to the threshold leave the circuit closed.
fail_calls-closed :
    (fs : List FailingCall) (k : ℕ) (config : CircuitBreakerConfig) (b : CircuitBreaker)
    → HasFailed k config b
    → k + length fs < config.failure_threshold
    → config.failure_threshold < u32_mod
    → HasFailed (k + length fs) config (fail_calls fs b)
unfolding fail_calls
fail_calls-closed [] k config b h l w = subst (λ j. HasFailed j config b) (omega arith) h
fail_calls-closed (f ∷ fs) k config b h l w =
    subst (λ j. HasFailed j config (fail_calls fs (fail_call f b))) (omega arith)
      (fail_calls-closed fs (k + 1) config (fail_call f b)
        (subst (HasFailed (k + 1) config) (sym (fail_call-HasFailed f k config b h))
          (record_failure-HasFailed f.later k config b h (omega arith) w))
        (omega arith) w)

-- A closed breaker that has counted no failure stays closed over failing calls that are fewer than
-- the threshold, and one more failing call, which brings their number to the threshold, opens it.
pub fail_calls-trip :
    (fs : List FailingCall) (f : FailingCall) (b : CircuitBreaker)
    → b.circuit ≡ closed
    → b.consecutive_failures ≡ 0
    → length fs + 1 ≡ b.config.failure_threshold
    → b.config.failure_threshold < u32_mod
    → ((fail_calls fs b).circuit ≡ closed) × ((fail_call f (fail_calls fs b)).circuit ≡ opened)
fail_calls-trip fs f b c z l w =
    let h : HasFailed (length fs) b.config (fail_calls fs b) =
      subst (λ j. HasFailed j b.config (fail_calls fs b)) (omega arith)
        (fail_calls-closed fs 0 b.config b
          (record { is_closed = c; has_count = z; has_config = refl }) (omega arith) w) in
    (
      h.is_closed,
      subst (λ s. s.circuit ≡ opened)
          (sym (fail_call-HasFailed f (length fs) b.config (fail_calls fs b) h))
          (record_failure-trips f.later (length fs) b.config (fail_calls fs b) h l w),
    )

-- A succeeding call: the clock at its start and at its end.
unfoldable pub succeed_call : Option ℕ × Option ℕ → CircuitBreaker → CircuitBreaker
unfolding call
succeed_call t b = state_after b (call t.0 t.1 (ok (tt {0})) b)

unfoldable pub succeed_calls : List (Option ℕ × Option ℕ) → CircuitBreaker → CircuitBreaker
unfolding succeed_call
succeed_calls [] b = b
succeed_calls (t ∷ ts) b = succeed_calls ts (succeed_call t b)

-- Half open, with some calls that have all succeeded.
pub record HasSucceeded (k : ℕ) (config : CircuitBreakerConfig) (b : CircuitBreaker) : Type 0 where
  pub is_half_open : b.circuit ≡ half_open
  pub has_calls : b.half_open_calls ≡ k
  pub has_successes : b.half_open_successes ≡ k
  pub has_config : b.config ≡ config

percentage : (n : ℕ) → 0 < n → n * 100 < u32_mod → n * 100 % u32_mod / n ≡ 100
percentage n p w = ap (λ x. x / n) (mod-eq_of_lt w) ∙ mul-div_cancel_left 100 p

succeed_call-HasSucceeded :
    (t : Option ℕ × Option ℕ) (k : ℕ) (c : CircuitState) (b : CircuitBreaker)
    → c ≡ half_open
    → b.half_open_calls ≡ k
    → b.half_open_successes ≡ k
    → k + 1 < b.config.half_open_max_calls
    → b.config.half_open_max_calls * 100 < u32_mod
    → HasSucceeded (k + 1) b.config (succeed_call t (record b { circuit = c }))
unfolding succeed_call state call_in_state call_half_open take_permit await_call record_success
succeed_call-HasSucceeded t k closed b e n s l w = ground arith
succeed_call-HasSucceeded t k opened b e n s l w = ground arith
succeed_call-HasSucceeded t k half_open b e n s l w = ground arith

succeed_call-closes :
    (t : Option ℕ × Option ℕ) (k : ℕ) (c : CircuitState) (b : CircuitBreaker)
    → c ≡ half_open
    → b.half_open_calls ≡ k
    → b.half_open_successes ≡ k
    → k + 1 ≡ b.config.half_open_max_calls
    → b.config.half_open_max_calls * 100 < u32_mod
    → b.config.half_open_success_threshold ≤ 100
    → (succeed_call t (record b { circuit = c })).circuit ≡ closed
unfolding succeed_call state call_in_state call_half_open take_permit await_call record_success
succeed_call-closes t k closed b e n s l w h = ground arith
succeed_call-closes t k opened b e n s l w h = ground arith
succeed_call-closes t k half_open b e n s l w h =
    let q = percentage (k + 1) (omega arith) (omega arith) in ground arith

succeed_calls-HasSucceeded :
    (ts : List (Option ℕ × Option ℕ)) (k : ℕ) (config : CircuitBreakerConfig) (b : CircuitBreaker)
    → HasSucceeded k config b
    → k + length ts < config.half_open_max_calls
    → config.half_open_max_calls * 100 < u32_mod
    → HasSucceeded (k + length ts) config (succeed_calls ts b)
unfolding succeed_calls
succeed_calls-HasSucceeded [] k config b h l w =
    subst (λ j. HasSucceeded j config b) (omega arith) h
succeed_calls-HasSucceeded (t ∷ ts) k config b h l w =
    let s =
      succeed_call-HasSucceeded t k b.circuit b h.is_half_open h.has_calls h.has_successes
        (ground arith) (ground arith) in
    subst (λ j. HasSucceeded j config (succeed_calls ts (succeed_call t b))) (omega arith)
      (succeed_calls-HasSucceeded ts (k + 1) config (succeed_call t b)
        (subst (λ d. HasSucceeded (k + 1) d (succeed_call t b)) h.has_config s) (omega arith) w)

-- A half-open breaker that has counted no call closes after as many succeeding calls, one after
-- the other, as it allows, and is half open before the last of them. The allowed number is
-- positive, its hundredfold fits a `u32`, and the threshold is a percentage.
pub succeed_calls-close :
    (ts : List (Option ℕ × Option ℕ)) (t : Option ℕ × Option ℕ) (b : CircuitBreaker)
    → HasSucceeded 0 b.config b
    → length ts + 1 ≡ b.config.half_open_max_calls
    → b.config.half_open_max_calls * 100 < u32_mod
    → b.config.half_open_success_threshold ≤ 100
    → ((succeed_calls ts b).circuit ≡ half_open)
      × ((succeed_call t (succeed_calls ts b)).circuit ≡ closed)
succeed_calls-close ts t b z l w p =
    let h = succeed_calls-HasSucceeded ts 0 b.config b z (omega arith) w in
    let c = succeed_calls ts b in
    (
      h.is_half_open,
      succeed_call-closes t (0 + length ts) c.circuit c h.is_half_open h.has_calls h.has_successes
          (ground arith) (ground arith) (ground arith),
    )
