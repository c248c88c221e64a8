-- ===== src/CircuitBreaker/Invariant.antt =====
-- What holds of a breaker between two critical sections, however the calls interleave.
use obase.Base.{ℕ, ◌≤◌, ◌<◌, ◌≡◌, ◌≢◌, none, arith}
use obase.CircuitBreaker.{closed, Breaker, init, get_state, reset, admit, on_success, on_failure}

pub record IsValid (b : Breaker) : Type 0 where
  pub positive : 0 < b.failure_threshold
  pub closed_below : b.state ≡ closed → b.failure_count < b.failure_threshold
  pub closed_unstamped : b.state ≡ closed → b.opened_at ≡ none
  pub tripped : b.state ≢ closed → b.failure_threshold ≤ b.failure_count
  pub stamped : b.state ≢ closed → b.opened_at ≢ none

-- One critical section of some thread. The calls under way are not recorded, so that a thread may
-- report a success or a failure at any time: all interleavings of `call`, `reset` and `state`.
pub data Step : Breaker → Breaker → Type 0 where
  looks : (now : ℕ) (b : Breaker) → Step b (get_state now b)
  enters : (now : ℕ) (b : Breaker) → Step b (admit now b).1
  succeeds : (b : Breaker) → Step b (on_success b)
  fails : (now : ℕ) (b : Breaker) → Step b (on_failure now b)
  resets : (b : Breaker) → Step b (reset b)

pub data Reach (b : Breaker) : Breaker → Type 0 where
  here : Reach b b
  next : {c d : Breaker} → Reach b c → Step c d → Reach b d

get_state-IsValid : (now : ℕ) (b : Breaker) → IsValid b → IsValid (get_state now b)
unfolding get_state
get_state-IsValid now b v = ground arith

Step-IsValid : {b c : Breaker} → Step b c → IsValid b → IsValid c
unfolding admit on_success on_failure reset
Step-IsValid (looks now b) v = get_state-IsValid now b v
Step-IsValid (enters now b) v = ground (arith, get_state-IsValid now b v)
Step-IsValid (succeeds b) v = ground arith
Step-IsValid (fails now b) v = ground arith
Step-IsValid (resets b) v = ground arith

Reach-IsValid : {b c : Breaker} → IsValid b → Reach b c → IsValid c
Reach-IsValid v here = v
Reach-IsValid v (next r s) = Step-IsValid s (Reach-IsValid v r)

-- From a new breaker with a positive threshold, every interleaving of critical sections reaches
-- only states in which the breaker is closed exactly while fewer failures than the threshold are
-- counted, and carries the time of opening exactly while it is not closed.
pub reachable-IsValid :
    (threshold timeout : ℕ) {b : Breaker}
    → 0 < threshold
    → Reach (init threshold timeout) b
    → IsValid b
unfolding init
reachable-IsValid threshold timeout h r =
    Reach-IsValid {b = init threshold timeout} (ground arith) r
