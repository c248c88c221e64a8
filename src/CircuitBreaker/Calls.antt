-- ===== src/CircuitBreaker/Calls.antt =====
-- What a call does to the breaker, and what a row of calls does.
use obase.Base.{
  ℕ, ◌+◌, ◌≤◌, ◌<◌, ◌≡◌, refl, ◌↔◌, Bool, true, none, some, List, [], ◌∷◌, arith, length, map, ◌∙◌,
}
use obase.CircuitBreaker.{
  closed, opened, half_open, Breaker, Outcome, rejected, Behaviour, returns, raises, get_state,
  admit, on_failure, call,
}

-- The breaker is open and its timeout, counted from `t`, has not passed.
pub record IsShut (now : ℕ) (b : Breaker) : Type 0 where
  pub since : ℕ
  pub is_open : b.state ≡ opened
  pub stamp : b.opened_at ≡ some since
  pub early : now < since + b.recovery_timeout

module _ {A E : Type 0} where
  -- A call of a stamped breaker is rejected exactly while it is open and its timeout has not
  -- passed; a rejected call leaves the breaker as it was.
  pub call-rejected_iff :
      (now ended : ℕ) (f : Behaviour A E) (b : Breaker) (t : ℕ)
      → b.opened_at ≡ some t
      → (((call now ended f b).0 ≡ rejected)
          ↔ ((b.state ≡ opened) × (now < t + b.recovery_timeout)))
        × ((call now ended f b).0 ≡ rejected → (call now ended f b).1 ≡ b)
  unfolding call get_state
  call-rejected_iff now ended (returns a) b t stamp = ground arith
  call-rejected_iff now ended _ b t stamp = ground arith

  -- Once the timeout has passed, the next call decides: a success closes the breaker and clears
  -- its count, a failure opens it again from the time of that failure, with one more counted.
  pub call_probe :
      (now ended : ℕ) (b : Breaker) (t : ℕ) (a : A) (e : E)
      → b.state ≡ opened
      → b.opened_at ≡ some t
      → t + b.recovery_timeout ≤ now
      → (call {A = A} {E = E} now ended (returns a) b
          ≡ (Outcome.returned a, record b { failure_count = 0; state = closed; opened_at = none }))
        × (call {A = A} {E = E} now ended (raises e) b ≡ (
          Outcome.raised e,
          record b { failure_count = b.failure_count + 1; state = opened; opened_at = some ended },
        ))
  unfolding call get_state
  call_probe now ended b t a e is_open stamp late = ground arith

-- The breaker after a row of calls whose functions all raise; each pair holds the clock at the
-- call and at its end.
unfoldable pub fail_all : List (ℕ × ℕ) → Breaker → Breaker
fail_all [] b = b
fail_all ((now, ended) ∷ times) b =
    fail_all times (call {A = Unit {0}} {E = Unit {0}} now ended (raises tt) b).1

fail_closed :
    (now ended : ℕ) (b : Breaker)
    → b.state ≡ closed
    → (call {A = Unit {0}} {E = Unit {0}} now ended (raises tt) b).1 ≡ on_failure ended b
unfolding call get_state
fail_closed now ended b h = ground arith

fail_counted :
    (now ended : ℕ) (b : Breaker)
    → b.state ≡ closed
    → b.failure_count + 1 < b.failure_threshold
    → (call {A = Unit {0}} {E = Unit {0}} now ended (raises tt) b).1
      ≡ record b { failure_count = b.failure_count + 1 }
unfolding on_failure
fail_counted now ended b h p = rw (fail_closed now ended b h) (ground arith)

-- From a closed breaker, a row of failures that stays below the threshold is only counted, and
-- the failure that reaches the threshold opens the breaker at the clock of its end.
pub fail_all-opens :
    (times : List (ℕ × ℕ)) (now ended : ℕ) (b : Breaker)
    → b.state ≡ closed
    → (b.failure_count + length times < b.failure_threshold
        → fail_all times b ≡ record b { failure_count = b.failure_count + length times })
      × (b.failure_count + length times + 1 ≡ b.failure_threshold
          → fail_all ((now, ended) ∷ []) (fail_all times b) ≡ record b {
            failure_count = b.failure_threshold;
            state = opened;
            opened_at = some ended;
          })
unfolding fail_all on_failure
fail_all-opens [] now ended b h = (λ p. ground arith, λ p. ground (arith, fail_closed now ended b))
fail_all-opens ((n, e) ∷ times) now ended b h =
    let b' : Breaker = record b { failure_count = b.failure_count + 1 } in
    let (counted, opens) = fail_all-opens times now ended b' h in
    (
      λ p. rw (fail_counted n e b h (omega arith)) (counted (omega arith) ∙ ground arith),
      λ p. rw (fail_counted n e b h (omega arith)) (opens (omega arith)),
    )

-- Calls that enter one after another while an earlier probe has not reported yet.
unfoldable pub enter_all : List ℕ → Breaker → List Bool × Breaker
enter_all [] b = ([], b)
enter_all (now ∷ times) b =
    let (admitted, b') = admit now b in
    let (rest, last) = enter_all times b' in (admitted ∷ rest, last)

-- A half-open breaker admits every call that enters it, not one probe alone, as long as no call
-- has reported.
pub enter_all-half_open :
    (times : List ℕ) (b : Breaker)
    → b.state ≡ half_open
    → enter_all times b ≡ (map (λ _. true) times, b)
unfolding enter_all admit get_state
enter_all-half_open [] b h = refl
enter_all-half_open (now ∷ times) b h = ground (arith, enter_all-half_open times b h)
