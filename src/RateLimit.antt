-- ===== src/RateLimit.antt =====
-- obase/rate_limit.py: the sliding-window limiter and the registry of named limiters. Times are
-- nanoseconds, as the monotonic clock counts them. `acquire` holds the limiter's lock for all of
-- its loop, so that calls follow one another; the clock readings of a call are its argument.
pub mod Window
pub mod Serve
pub mod Waiting
pub mod Registry
mod Tests
use obase.Base.{
  ℕ, ◌+◌, ◌-◌, Bool, true, false, Option, none, some, List, [], ◌∷◌, ◌++◌, leb, ltb, if◌then◌else◌,
  length, Result, ok, err, String, string_eq,
}
use obase.Base.Dict.{Dict, lookup, insert}

pub data Error : Type 0 where
  value_error not_found : Error

pub record Limiter : Type 0 where
  pub rate : ℕ
  pub period : ℕ
  pub timestamps : List ℕ

unfoldable pub init : ℕ → ℕ → Result Error Limiter
init rate period =
    if leb rate 0
    then err value_error
    else if leb period 0
    then err value_error
    else ok (record { rate = rate; period = period; timestamps = [] })

-- The inner loop: pops the timestamps that are not after the cutoff.
unfoldable pub evict : ℕ → ℕ → List ℕ → List ℕ
evict now period [] = []
evict now period (t ∷ ts) =
    let rest = evict now period ts in if leb (t + period) now then rest else t ∷ ts

-- 1e-4 seconds.
abbrev pub slack : ℕ
slack = 100_000

-- `self._timestamps[0]`; the code reads it only when the deque is not empty.
abbrev pub oldest : List ℕ → ℕ → ℕ
oldest [] now = now
oldest (t ∷ _) now = t

abbrev pub passes : Option ℕ → ℕ → Bool
passes none at = false
passes (some deadline) at = ltb deadline at

pub data Answer : Type 0 where
  granted : ℕ → Answer
  exceeded : Answer
  sleeps : ℕ → Answer

-- One round of the outer loop. `now` and `later` are its two readings of the clock.
unfoldable pub round : Option ℕ → ℕ → ℕ → Limiter → Answer × Limiter
unfolding evict
round deadline now later l =
    let live = evict now l.period l.timestamps in
    let sleep_for = oldest live now + l.period - now + slack in
    if ltb (length live) l.rate
    then (granted now, record l { timestamps = live ++ now ∷ [] })
    else if passes deadline (later + sleep_for)
    then (exceeded, record l { timestamps = live })
    else (sleeps sleep_for, record l { timestamps = live })

-- What follows a round: the loop's `rest` goes on only after a sleep.
abbrev pub after : Answer × Limiter → (ℕ → Limiter → Answer × Limiter) → Answer × Limiter
after (sleeps n, l) rest = rest n l
after (granted now, l) rest = (granted now, l)
after (exceeded, l) rest = (exceeded, l)

-- The outer loop, over the clock readings of its rounds; it still sleeps when they are used up.
unfoldable pub loop : Option ℕ → List (ℕ × ℕ) → ℕ → Limiter → Answer × Limiter
unfolding round
loop deadline [] slept l = (sleeps slept, l)
loop deadline ((now, later) ∷ clock) slept l =
    after (round deadline now later l) (loop deadline clock)

abbrev pub deadline_of : Option ℕ → ℕ → Option ℕ
deadline_of none start = none
deadline_of (some timeout) start = some (start + timeout)

unfoldable pub acquire : Option ℕ → ℕ → List (ℕ × ℕ) → Limiter → Answer × Limiter
unfolding loop
acquire timeout start clock l = loop (deadline_of timeout start) clock 0 l

-- `RateLimitRegistry._limiters`.
abbrev pub Limiters : Type 0
Limiters = Dict String Limiter

unfoldable pub register : String → ℕ → ℕ → Limiters → Result Error Limiter × Limiters
unfolding init
register name rate period limiters = elim (init rate period) [
  | ok limiter ↦ (ok limiter, insert name limiter limiters)
  | err e ↦ (err e, limiters)
]

abbrev pub or_not_found : Option Limiter → Result Error Limiter
or_not_found none = err not_found
or_not_found (some limiter) = ok limiter

unfoldable pub get : String → Limiters → Result Error Limiter
get name limiters = or_not_found (lookup name limiters)

abbrev pub is_some : Option Limiter → Bool
is_some none = false
is_some (some _) = true

unfoldable pub has : String → Limiters → Bool
has name limiters = is_some (lookup name limiters)

-- `load_from_yaml` after the file is parsed: the entries' names, rates and periods.
unfoldable pub load : List (String × ℕ × ℕ) → Limiters → Result Error (Unit {0}) × Limiters
unfolding register
load [] limiters = (ok tt, limiters)
load ((name, rate, period) ∷ entries) limiters =
    let (r, limiters') = register name rate period limiters in
    let rest = load entries limiters' in elim r [ ok _ ↦ rest | err e ↦ (err e, limiters') ]

unfoldable pub clear : Limiters → Limiters
clear limiters = []
