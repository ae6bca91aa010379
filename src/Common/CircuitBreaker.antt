-- ===== src/Common/CircuitBreaker.antt =====
-- src/common/utils/circuit-breaker.ts: the class CircuitBreaker. The configuration, the outcome of
-- the protected call and the clock's readings are arguments; log lines are left out. `fire` waits
-- for its call, so it is two steps, `admit` and `settle`, between which other calls may run.
pub mod Laws
mod Tests
use wash_flow.Prelude.{
  ℕ, suc, ◌+◌, Bool, true, false, Option, none, some, List, [], ◌∷◌, ◌||◌, leb, if◌then◌else◌,
  get_or, Result, ok, err,
}

pub data CircuitState : Type 0 where
  closed open_circuit half_open : CircuitState

pub record CircuitBreakerConfig : Type 0 where
  pub failure_threshold : Option ℕ
  pub reset_timeout_ms : Option ℕ

pub record CircuitBreaker : Type 0 where
  pub failure_threshold : ℕ
  pub reset_timeout_ms : ℕ
  pub state : CircuitState
  pub failure_count : ℕ
  pub last_failure_time : ℕ

abbrev pub is_open : CircuitState → Bool
is_open open_circuit = true
is_open _ = false

abbrev pub is_half_open : CircuitState → Bool
is_half_open half_open = true
is_half_open _ = false

-- The constructor.
unfoldable pub new : CircuitBreakerConfig → CircuitBreaker
new config = record {
  failure_threshold = get_or config.failure_threshold 5;
  reset_timeout_ms = get_or config.reset_timeout_ms 30000;
  state = closed;
  failure_count = 0;
  last_failure_time = 0;
}

-- `transitionTo`, by the old and the new state.
transition : CircuitState → CircuitState → CircuitBreaker → CircuitBreaker
transition closed closed b = b
transition open_circuit open_circuit b = b
transition half_open half_open b = b
transition _ closed b = record b { state = closed; failure_count = 0 }
transition _ open_circuit b = record b { state = open_circuit }
transition _ half_open b = record b { state = half_open }

unfoldable pub transition_to : CircuitState → CircuitBreaker → CircuitBreaker
unfolding transition
transition_to next b = transition b.state next b

-- `Date.now() - lastFailureTime >= resetTimeoutMs`, with the subtraction moved to the other side.
unfoldable pub should_attempt_reset : CircuitBreaker → ℕ → Bool
should_attempt_reset b now = leb (b.last_failure_time + b.reset_timeout_ms) now

unfoldable pub on_success : CircuitBreaker → CircuitBreaker
unfolding transition_to
on_success b =
    let c = if is_half_open b.state then transition_to closed b else b in
    record c { failure_count = 0 }

unfoldable pub on_failure : CircuitBreaker → ℕ → CircuitBreaker
unfolding transition_to
on_failure b now =
    let c = record b { failure_count = b.failure_count + 1; last_failure_time = now } in
    if is_half_open c.state || leb c.failure_threshold c.failure_count
    then transition_to open_circuit c
    else c

-- The first half of `fire`: `none` is the CircuitOpenError.
unfoldable pub admit : CircuitBreaker → ℕ → Option CircuitBreaker
unfolding should_attempt_reset transition_to
admit b now =
    if is_open b.state
    then (if should_attempt_reset b now then some (transition_to half_open b) else none)
    else some b

-- The second half: the call came back at `now`.
unfoldable pub settle {ℓ} : {A : Type ℓ} → CircuitBreaker → Result A → ℕ → CircuitBreaker
unfolding on_success on_failure
settle b (ok a) now = on_success b
settle b (err e) now = on_failure b now

pub data Fired {ℓ} (A : Type ℓ) : Type ℓ where
  settled : Result A → Fired A
  circuit_open_error : Fired A

-- `fire`, begun at `now`, with no other call in between; the call, if made, comes back at `later`.
unfoldable pub fire {ℓ} :
    {A : Type ℓ} → CircuitBreaker → ℕ → Result A → ℕ → Fired A × CircuitBreaker
unfolding admit settle
fire b now call later = elim (admit b now) [
  | none ↦ (circuit_open_error, b)
  | some c ↦ (settled call, settle c call later)
]

-- What can happen to a breaker that many requests share, in any order.
pub data Event : Type 0 where
  admits : ℕ → Event
  succeeds : Event
  fails : ℕ → Event

unfoldable pub step : CircuitBreaker → Event → CircuitBreaker
unfolding admit on_success on_failure
step b (admits now) = get_or (admit b now) b
step b succeeds = on_success b
step b (fails now) = on_failure b now

unfoldable pub run : CircuitBreaker → List Event → CircuitBreaker
unfolding step
run b [] = b
run b (e ∷ es) = run (step b e) es

-- `n` calls in a row that fail, the k-th at `now + k`.
unfoldable pub fail_times : ℕ → CircuitBreaker → ℕ → CircuitBreaker
unfolding on_failure
fail_times ℕ.zero b now = b
fail_times (suc n) b now = fail_times n (on_failure b now) (now + 1)
