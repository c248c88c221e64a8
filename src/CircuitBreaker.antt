-- ===== src/CircuitBreaker.antt =====
-- obase/circuit_breaker.py: the breaker's record, and `call` as the two critical sections that
-- its lock protects, with the protected function between them. Times are numbers of a fixed
-- small unit; `now` is the value that `time.monotonic()` returns.
pub mod Invariant
pub mod Calls
mod Tests
use obase.Base.{ℕ, ◌+◌, Bool, true, false, ◌||◌, Option, none, some, leb, if◌then◌else◌}

pub data State : Type 0 where
  closed opened half_open : State

pub record Breaker : Type 0 where
  pub failure_threshold : ℕ
  pub recovery_timeout : ℕ
  pub failure_count : ℕ
  pub state : State
  pub opened_at : Option ℕ

unfoldable pub init : ℕ → ℕ → Breaker
init failure_threshold recovery_timeout = record {
  failure_threshold = failure_threshold;
  recovery_timeout = recovery_timeout;
  failure_count = 0;
  state = closed;
  opened_at = none;
}

-- The test of `_get_state`: an open breaker whose timeout has passed.
abbrev pub has_recovered : Breaker → ℕ → State → Option ℕ → Bool
has_recovered b now opened (some t) = leb (t + b.recovery_timeout) now
has_recovered b now _ _ = false

-- `_get_state`, which may move the breaker to half_open.
unfoldable pub get_state : ℕ → Breaker → Breaker
get_state now b =
    if has_recovered b now b.state b.opened_at then record b { state = half_open } else b

unfoldable pub reset : Breaker → Breaker
reset b = record b { state = closed; failure_count = 0; opened_at = none }

abbrev pub is_open : State → Bool
is_open opened = true
is_open _ = false

abbrev pub is_half_open : State → Bool
is_half_open half_open = true
is_half_open _ = false

-- The first critical section of `call`: `false` stands for `CircuitBreakerOpenError`.
unfoldable pub admit : ℕ → Breaker → Bool × Breaker
unfolding get_state
admit now b = let b' = get_state now b in if is_open b'.state then (false, b') else (true, b')

-- The second critical section of `call`, after the function returned.
unfoldable pub on_success : Breaker → Breaker
on_success b = record b { failure_count = 0; state = closed; opened_at = none }

-- The second critical section of `call`, after the function raised.
unfoldable pub on_failure : ℕ → Breaker → Breaker
on_failure now b =
    let count = b.failure_count + 1 in
    if is_half_open b.state || leb b.failure_threshold count
    then record b { failure_count = count; state = opened; opened_at = some now }
    else record b { failure_count = count }

pub data Outcome (A E : Type 0) : Type 0 where
  rejected : Outcome A E
  returned : A → Outcome A E
  raised : E → Outcome A E

-- What the function does. An exception that the counting clause does not catch, a
-- `CircuitBreakerOpenError` of the function's own or a cancellation, passes through.
pub data Behaviour (A E : Type 0) : Type 0 where
  returns : A → Behaviour A E
  raises : E → Behaviour A E
  passes : E → Behaviour A E

module _ {A E : Type 0} where
  abbrev pub finish : ℕ → Behaviour A E → Breaker → Outcome A E × Breaker
  finish ended (returns a) b = (returned a, on_success b)
  finish ended (raises e) b = (raised e, on_failure ended b)
  finish ended (passes e) b = (raised e, b)

  -- `call` of a function that no other call overlaps; `ended` is the clock when it has raised.
  unfoldable pub call : ℕ → ℕ → Behaviour A E → Breaker → Outcome A E × Breaker
  unfolding admit on_success on_failure
  call now ended f b =
      let (admitted, b') = admit now b in if admitted then finish ended f b' else (rejected, b')
