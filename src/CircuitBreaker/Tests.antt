-- ===== src/CircuitBreaker/Tests.antt =====
-- Runs of the breaker, and its theorems at concrete states.
use obase.Base.{ℕ, ◌+◌, ◌<◌, ◌≡◌, refl, some, none, [], ◌∷◌, arith}
use obase.CircuitBreaker.{
  closed, opened, Breaker, returned, returns, init, admit, get_state, on_success, on_failure, call,
}
use obase.CircuitBreaker.Invariant.{IsValid, here, next, enters, fails, reachable-IsValid}
use obase.CircuitBreaker.Calls.{fail_all, fail_all-opens, enter_all}

program : Unit {0}
unfolding init admit on_success on_failure call get_state fail_all enter_all
program = tt

abbrev fresh : Breaker
fresh = record {
  failure_threshold = 2;
  recovery_timeout = 30;
  failure_count = 0;
  state = closed;
  opened_at = none;
}

abbrev tripped : Breaker
tripped = record fresh { failure_count = 2; state = opened; opened_at = some 12 }

init_runs : init 2 30 ≡ fresh
unfolding program
init_runs = refl

fail_twice : fail_all ((1, 2) ∷ (11, 12) ∷ []) fresh ≡ tripped
unfolding program
fail_twice = refl

call_recovers : call {A = ℕ} {E = ℕ} 42 43 (returns 7) tripped ≡ (returned 7, fresh)
unfolding program
call_recovers = refl

reachable-IsValid_example : IsValid (on_failure 12 (on_failure 2 (admit 1 (init 2 30)).1))
reachable-IsValid_example = reachable-IsValid 2 30 (omega arith) (
    next (next (next here (enters 1 (init 2 30))) (fails 2 (admit 1 (init 2 30)).1))
      (fails 12 (on_failure 2 (admit 1 (init 2 30)).1)))

fail_all-opens_example :
    (fresh.failure_count + 1 < fresh.failure_threshold
      → fail_all ((1, 2) ∷ []) fresh ≡ record fresh { failure_count = 0 + 1 })
    × (0 + 1 + 1 ≡ fresh.failure_threshold
        → fail_all ((11, 12) ∷ []) (fail_all ((1, 2) ∷ []) fresh)
          ≡ record fresh { failure_count = 2; state = opened; opened_at = some 12 })
fail_all-opens_example = fail_all-opens ((1, 2) ∷ []) 11 12 fresh refl
