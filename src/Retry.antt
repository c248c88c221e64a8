-- ===== src/Retry.antt =====
-- obase/retry.py. The n-th call of the function, from 0, may come to anything; the sleeps between the
-- calls are the list of their lengths, in any unit of time. Delays and the backoff factor are natural
-- numbers; a negative `max_retries` or `max_attempts` is the negative integer.
pub mod Bounds
mod Tests
use obase.Base.{
  ℕ, zero, suc, ◌+◌, ◌*◌, ◌^◌, min, Option, none, some, List, [], ◌∷◌, Result, ok, err, ltb,
  if◌then◌else◌,
}
use obase.Base.Int.{ℤ, pos, negsuc}

-- What a call comes to: a value, an exception to retry, or another one.
pub data Outcome (A E : Type 0) : Type 0 where
  returned : A → Outcome A E
  retryable : E → Outcome A E
  fatal : E → Outcome A E

pub record RetryPolicy : Type 0 where
  pub max_retries : ℤ
  pub base_delay : ℕ
  pub max_delay : ℕ
  pub backoff_factor : ℕ

-- How it ends: with a value, with the exception of a call, by `raise None`, or by a ValueError.
pub data End (A E : Type 0) : Type 0 where
  value : A → End A E
  raised : E → End A E
  raised_none : End A E
  value_error : End A E

-- The end, the number of calls and the sleeps.
pub record Report (A E : Type 0) : Type 0 where
  pub end : End A E
  pub calls : ℕ
  pub sleeps : List ℕ

abbrev pub called : {A E : Type 0} → Report A E → Report A E
called r = record r { calls = suc r.calls }

abbrev pub sleep : {A E : Type 0} → ℕ → Report A E → Report A E
sleep delay r = record r { sleeps = delay ∷ r.sleeps }

unfoldable pub delay_at : ℕ → ℕ → ℕ → ℕ → ℕ
delay_at base factor top attempt = min (base * factor ^ attempt) top

abbrev pub last_error : {A E : Type 0} → Option E → Report A E
last_error none = record { end = raised_none; calls = 0; sleeps = [] }
last_error (some e) = record { end = raised e; calls = 0; sleeps = [] }

-- One round, where `left` more follow as `rest`.
abbrev pub round : {A E : Type 0} → ℕ → ℕ → (E → Report A E) → Outcome A E → Report A E
round delay left rest (returned a) = record { end = value a; calls = 1; sleeps = [] }
round delay left rest (fatal e) = record { end = raised e; calls = 1; sleeps = [] }
round delay left rest (retryable e) = called (if ltb 0 left then sleep delay (rest e) else rest e)

module _ {A E : Type 0} (func : ℕ → Outcome A E) (base factor top : ℕ) where
  -- The loop: `left` rounds to go, from round `attempt`, after the exception `last`.
  unfoldable pub loop : ℕ → ℕ → Option E → Report A E
  unfolding delay_at
  loop zero attempt last = last_error last
  loop (suc left) attempt last =
      round (delay_at base factor top attempt) left (λ e. loop left (suc attempt) (some e))
        (func attempt)

-- `max_retries + 1`
abbrev pub plus_one : ℤ → ℕ
plus_one (pos n) = n + 1
plus_one (negsuc n) = 0

unfoldable pub execute : {A E : Type 0} → RetryPolicy → (ℕ → Outcome A E) → Report A E
unfolding loop
execute p func = loop func p.base_delay p.backoff_factor p.max_delay (plus_one p.max_retries) 0 none

unfoldable pub retry_with_backoff : {A E : Type 0} → ℤ → ℕ → ℕ → (ℕ → Outcome A E) → Report A E
unfolding loop
retry_with_backoff (pos (suc n)) base top func = loop func base 2 top (suc n) 0 none
retry_with_backoff _ base top func = record { end = value_error; calls = 0; sleeps = [] }
