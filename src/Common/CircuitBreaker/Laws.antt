-- ===== src/Common/CircuitBreaker/Laws.antt =====
-- What the circuit breaker promises to the calls that share it.
use wash_flow.Prelude.{
  ℕ, zero, suc, ◌+◌, ◌≤◌, ◌<◌, ◌≡◌, refl, ◌↔◌, some, List, [], ◌∷◌, Result, ok, err, Error, arith,
}
use wash_flow.Common.CircuitBreaker.{
  closed, open_circuit, half_open, CircuitBreaker, on_failure, admit, settled, circuit_open_error,
  fire, Event, admits, succeeds, fails, step, run, fail_times,
}

-- A closed breaker has counted fewer failures than its threshold.
pub record IsValid (b : CircuitBreaker) : Type 0 where
  pub positive : 0 < b.failure_threshold
  pub under : b.state ≡ closed → b.failure_count < b.failure_threshold

pub step-IsValid : (b : CircuitBreaker) (e : Event) → IsValid b → IsValid (step b e)
unfolding step
step-IsValid b (admits now) v = ground arith
step-IsValid b succeeds v = ground arith
step-IsValid b (fails now) v = ground arith

-- In every interleaving of admissions, successes and failures, a breaker whose threshold is
-- positive is closed only while it has counted fewer failures than the threshold.
pub run-IsValid : (b : CircuitBreaker) (es : List Event) → IsValid b → IsValid (run b es)
unfolding run
run-IsValid b [] v = v
run-IsValid b (e ∷ es) v = run-IsValid (step b e) es (step-IsValid b e v)

-- `fire` rejects its call exactly when the circuit is open and the reset timeout has not passed
-- since the last failure; a rejection leaves the breaker as it was.
fire_rejects_iff :
    (b : CircuitBreaker) (now later : ℕ) (call : Result ℕ)
    → ((fire b now call later).0 ≡ circuit_open_error
        ↔ (b.state ≡ open_circuit) × (now < b.last_failure_time + b.reset_timeout_ms))
      × ((fire b now call later).0 ≡ circuit_open_error → (fire b now call later).1 ≡ b)
unfolding fire
fire_rejects_iff b now later (ok a) = ground arith
fire_rejects_iff b now later (err e) = ground arith

-- From a closed breaker, failures in a row keep it closed and counting while the count stays under
-- the threshold, and the failure that reaches the threshold opens it.
fail_times_opens :
    (n : ℕ) (b : CircuitBreaker) (now : ℕ)
    → b.state ≡ closed
    → b.failure_count + suc n ≤ b.failure_threshold
    → let c = fail_times (suc n) b now in
      (c.failure_count ≡ b.failure_count + suc n)
      × (c.last_failure_time ≡ now + n)
      × (b.failure_count + suc n < b.failure_threshold → c.state ≡ closed)
      × (b.failure_count + suc n ≡ b.failure_threshold → c.state ≡ open_circuit)
unfolding fail_times
fail_times_opens zero b now s h = ground arith
fail_times_opens (suc n) b now s h = ground (arith, fail_times_opens n (on_failure b now) (now + 1))

-- Once the reset timeout has passed, an open breaker makes the next call: if it succeeds the
-- breaker is closed with no failure counted, and if it fails the breaker is open again, with its
-- timeout running from that failure.
fire_probe :
    (b : CircuitBreaker) (now later : ℕ) (call : Result ℕ)
    → b.state ≡ open_circuit
    → b.last_failure_time + b.reset_timeout_ms ≤ now
    → let (out, c) = fire b now call later in
      (out ≡ settled call)
      × ((a : ℕ) → call ≡ ok a → (c.state ≡ closed) × (c.failure_count ≡ 0))
      × ((e : Error) → call ≡ err e → (c.state ≡ open_circuit) × (c.last_failure_time ≡ later))
unfolding fire
fire_probe b now later (ok a) s h = ground arith
fire_probe b now later (err e) s h = ground arith

-- The half-open state admits every call that arrives before the first one settles, not one alone.
admit_second_probe :
    (b : CircuitBreaker) (now later : ℕ)
    → b.state ≡ open_circuit
    → b.last_failure_time + b.reset_timeout_ms ≤ now
    → (c : CircuitBreaker) × (admit b now ≡ some c)
      × (c.state ≡ half_open)
      × (admit c later ≡ some c)
unfolding admit
admit_second_probe b now later s h = (record b { state = half_open }, ground arith, refl, refl)
