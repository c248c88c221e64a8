-- ===== src/Retry/Bounds.antt =====
-- How often the function is called, how long the sleeps are, and how the loop ends.
use obase.Base.{
  ℕ, zero, suc, ◌+◌, ◌≤◌, ◌<◌, ◌≡◌, ◌⊎◌, refl, ap, subst, true, Option, none, some, List, [], ◌∷◌,
  arith, ltb, inl, inr,
}
use obase.Base.Int.{pos}
use obase.Retry.{
  Outcome, returned, retryable, fatal, End, value, raised, raised_none, value_error, Report, called,
  sleep, delay_at, last_error, loop, round, execute, retry_with_backoff,
}

-- The delays after the rounds from `start` on, `n` of them.
unfoldable pub delays : ℕ → ℕ → ℕ → ℕ → ℕ → List ℕ
unfolding delay_at
delays base factor top start zero = []
delays base factor top start (suc n) =
    delay_at base factor top start ∷ delays base factor top (suc start) n

abbrev pub IsRetryable : {A E : Type 0} → (ℕ → Outcome A E) → ℕ → Type 0
IsRetryable {E = E} func n = (e : E) × (func n ≡ retryable e)

-- The loop ends as call `n` did: with its value, with its exception if that is not to be retried, or
-- with any exception of the last call.
abbrev pub EndsAs : {A E : Type 0} → (ℕ → Outcome A E) → ℕ → ℕ → End A E → Type 0
EndsAs func stop n (value a) = func n ≡ returned a
EndsAs func stop n (raised e) = (func n ≡ fatal e) ⊎ (func n ≡ retryable e) × (n ≡ stop)
EndsAs func stop n raised_none = ⊥
EndsAs func stop n value_error = ⊥

-- What a loop from round `start` to round `stop` reports.
abbrev pub LoopSays : {A E : Type 0} → (ℕ → Outcome A E) → ℕ → ℕ → ℕ → ℕ → ℕ → Report A E → Type 0
LoopSays func base factor top start stop r =
    (j : ℕ) × (start + j ≤ stop)
    × ((m : ℕ) → start ≤ m → m < start + j → IsRetryable func m)
    × EndsAs func stop (start + j) r.end
    × (r.calls ≡ suc j)
    × (r.sleeps ≡ delays base factor top start j)

module _ {A E : Type 0} (func : ℕ → Outcome A E) (base factor top : ℕ) where
  ends_here :
      (start stop : ℕ) (e : End A E)
      → start ≤ stop
      → EndsAs func stop start e
      → LoopSays func base factor top start stop (record { end = e; calls = 1; sleeps = [] })
  unfolding delays
  ends_here start stop e room ends = (
    0,
    omega arith,
    λ m above below. absurd (omega arith),
    subst (λ (n : ℕ). EndsAs func stop n e) (omega arith) ends,
    refl,
    refl,
  )

  goes_round :
      (start stop : ℕ) (r : Report A E)
      → IsRetryable func start
      → LoopSays func base factor top (suc start) stop r
      → LoopSays func base factor top start stop (called (sleep (delay_at base factor top start) r))
  unfolding delays
  goes_round start stop r again (j, room, before, ends, calls, sleeps) = (
    suc j,
    omega arith,
    λ m above below. either m (split start m above) below,
    subst (λ (n : ℕ). EndsAs func stop n r.end) (omega arith) ends,
    ap suc calls,
    ap (λ ds. delay_at base factor top start ∷ ds) sleeps,
  )
    where
      split : (a b : ℕ) → a ≤ b → (a ≡ b) ⊎ (suc a ≤ b)
      split a b h = ground arith

      either : (m : ℕ) → (start ≡ m) ⊎ (suc start ≤ m) → m < start + suc j → IsRetryable func m
      either m (inl same) below = subst (IsRetryable func) same again
      either m (inr more) below = before m more (omega arith)

  round-LoopSays :
      (left start stop : ℕ) (rest : E → Report A E) (o : Outcome A E)
      → start + left ≡ stop
      → func start ≡ o
      → ((e : E) → left ≡ 0 → rest e ≡ last_error (some e))
      → ((e : E) → 0 < left → LoopSays func base factor top (suc start) stop (rest e))
      → LoopSays func base factor top start stop
          (round (delay_at base factor top start) left rest o)
  round-LoopSays left start stop rest (returned a) ends at over more =
      ends_here start stop (value a) (omega arith) at
  round-LoopSays left start stop rest (fatal e) ends at over more =
      ends_here start stop (raised e) (omega arith) (inl at)
  round-LoopSays zero start stop rest (retryable e) ends at over more =
      rw (over e refl) (ends_here start stop (raised e) (omega arith) (inr (at, omega arith)))
  round-LoopSays (suc left) start stop rest (retryable e) ends at over more =
      rw positive (goes_round start stop (rest e) (e, at) (more e (omega arith)))
    where
      positive : ltb 0 (suc left) ≡ true
      positive = ground arith

  loop-LoopSays :
      (left start stop : ℕ) (last : Option E)
      → start + left ≡ stop
      → LoopSays func base factor top start stop (loop func base factor top (suc left) start last)
  unfolding loop
  loop-LoopSays zero start stop last ends =
      round-LoopSays zero start stop _ (func start) ends refl (λ e nothing. refl)
        (λ e more. absurd (omega (arith, more)))
  loop-LoopSays (suc left) start stop last ends =
      round-LoopSays (suc left) start stop _ (func start) ends refl
        (λ e nothing. absurd (omega (arith, nothing)))
        (λ e more. loop-LoopSays left (suc start) stop (some e) (omega (arith, ends)))

-- With `max_retries` not negative `execute` ends after at most `max_retries + 1` calls: with what the
-- first call came to that was not to be retried, or, where all were, with the exception of the last;
-- between the calls it slept once each, for the delays of the backoff in turn. The same holds of
-- `retry_with_backoff`, whose factor is 2, with `max_attempts` calls at most.
pub retry-LoopSays :
    {A E : Type 0} (func : ℕ → Outcome A E) (n base factor top : ℕ)
    → LoopSays func base factor top 0 n (
        execute
          (record {
            max_retries = pos n;
            base_delay = base;
            max_delay = top;
            backoff_factor = factor;
          })
          func)
      × LoopSays func base 2 top 0 n (retry_with_backoff (pos (suc n)) base top func)
unfolding execute retry_with_backoff
retry-LoopSays func n base factor top = (
  rw add_one (loop-LoopSays func base factor top n 0 n none (omega arith)),
  loop-LoopSays func base 2 top n 0 n none (omega arith),
)
  where
    add_one : n + 1 ≡ suc n
    add_one = omega arith
