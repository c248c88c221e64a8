-- ===== src/Retry/Tests.antt =====
-- Runs of the retry loops, and the theorem at one.
use obase.Base.{ℕ, zero, suc, ◌≡◌, refl, [], ◌∷◌}
use obase.Base.Int.{pos, negsuc}
use obase.Retry.{
  Outcome, returned, retryable, RetryPolicy, value, raised, raised_none, value_error, loop,
  delay_at, execute, retry_with_backoff,
}
use obase.Retry.Bounds.{LoopSays, delays, retry-LoopSays}

program : Unit {0}
unfolding loop delay_at execute retry_with_backoff delays
program = tt

abbrev policy : RetryPolicy
policy = record { max_retries = pos 3; base_delay = 10; max_delay = 25; backoff_factor = 2 }

-- Two calls that fail with numbers, then a value.
abbrev third : ℕ → Outcome ℕ ℕ
third zero = retryable 7
third (suc zero) = retryable 8
third (suc (suc n)) = returned 5

third_call : execute policy third ≡ record { end = value 5; calls = 3; sleeps = 10 ∷ 20 ∷ [] }
unfolding program
third_call = refl

all_fail :
    execute {A = ℕ} policy (λ n. retryable n)
    ≡ record { end = raised 3; calls = 4; sleeps = 10 ∷ 20 ∷ 25 ∷ [] }
unfolding program
all_fail = refl

-- A negative `max_retries` calls nothing and raises `None`.
no_call :
    execute (record policy { max_retries = negsuc 0 }) third
    ≡ record { end = raised_none; calls = 0; sleeps = [] }
unfolding program
no_call = refl

no_attempt :
    retry_with_backoff (pos 0) 10 25 third ≡ record { end = value_error; calls = 0; sleeps = [] }
unfolding program
no_attempt = refl

retry-LoopSays_example :
    LoopSays third 10 2 25 0 3 (execute policy third)
    × LoopSays third 10 2 25 0 3 (retry_with_backoff (pos 4) 10 25 third)
retry-LoopSays_example = retry-LoopSays third 3 10 2 25
