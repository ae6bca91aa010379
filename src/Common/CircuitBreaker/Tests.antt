-- ===== src/Common/CircuitBreaker/Tests.antt =====
-- The circuit breaker's laws at concrete breakers.
use wash_flow.Prelude.{◌≡◌, refl, none, List, [], ◌∷◌, arith}
use wash_flow.Common.CircuitBreaker.{
  closed, open_circuit, half_open, CircuitBreaker, new, Event, admits, succeeds, fails, run,
}
use wash_flow.Common.CircuitBreaker.Laws.{IsValid, run-IsValid}

abbrev paddle : CircuitBreaker
paddle = record {
  failure_threshold = 2;
  reset_timeout_ms = 100;
  state = closed;
  failure_count = 0;
  last_failure_time = 0;
}

abbrev tripped : CircuitBreaker
tripped = record paddle { state = open_circuit; failure_count = 2; last_failure_time = 50 }

abbrev history : List Event
history = admits 0 ∷ admits 1 ∷ fails 10 ∷ fails 12 ∷ admits 50 ∷ admits 200 ∷ succeeds ∷ []

new_defaults :
    (new (record { failure_threshold = none; reset_timeout_ms = none })).failure_threshold ≡ 5
unfolding new
new_defaults = refl

history_closes : run paddle history ≡ record paddle { last_failure_time = 12 }
unfolding run
history_closes = refl

run-IsValid_example : IsValid (run paddle history)
run-IsValid_example =
    run-IsValid paddle history (record { positive = omega arith; under = λ _. omega arith })

-- The second call comes before the first one settles.
admits_second : run tripped (admits 150 ∷ admits 151 ∷ []) ≡ record tripped { state = half_open }
unfolding run
admits_second = refl
