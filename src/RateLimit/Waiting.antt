-- ===== src/RateLimit/Waiting.antt =====
-- How long `acquire` waits.
use obase.Base.{
  ℕ, ◌+◌, ◌-◌, ◌≤◌, ◌<◌, ◌≡◌, ap, Option, none, some, List, [], ◌∷◌, length, length-append, arith,
  Bool-cases, inl, inr, ◌≢◌, true, false, ltb, ltb→ge, ◌⊎◌, lt→ltb,
}
use obase.RateLimit.{
  Limiter, Answer, granted, exceeded, sleeps, evict, oldest, slack, passes, round, after, loop,
  acquire, deadline_of,
}

-- The deque never holds more than the rate: what the code keeps between calls.
pub record IsBounded (l : Limiter) : Type 0 where
  pub positive : 0 < l.rate
  pub bounded : length l.timestamps ≤ l.rate

length-evict-le : (now period : ℕ) (ts : List ℕ) → length (evict now period ts) ≤ length ts
unfolding evict
length-evict-le now period [] = omega arith
length-evict-le now period (t ∷ ts) = ground (arith, length-evict-le now period ts)

-- Once the oldest timestamp has left the window, an eviction makes room.
evict-oldest :
    (now m period : ℕ) (ts : List ℕ)
    → 0 < length ts
    → oldest ts now + period ≤ m
    → length (evict m period ts) < length ts
unfolding evict
evict-oldest now m period [] some_left h = absurd (omega arith)
evict-oldest now m period (t ∷ ts) some_left h = ground (arith, length-evict-le m period ts)

passes-ne-none :
    (timeout : Option ℕ) (start at : ℕ)
    → passes (deadline_of timeout start) at ≡ true
    → timeout ≢ none
passes-ne-none none start at h = cc
passes-ne-none (some t) start at h = λ e. cc

round_sleeps :
    (deadline : Option ℕ) (now later : ℕ) (l : Limiter)
    → let live = evict now l.period l.timestamps in
      let sleep = oldest live now + l.period - now + slack in
      ltb (length live) l.rate ≡ false
      → passes deadline (later + sleep) ≡ false
      → round deadline now later l ≡ (sleeps sleep, record l { timestamps = live })
unfolding round
round_sleeps deadline now later l full early = rw (full, early)

round_grants :
    (deadline : Option ℕ) (now later : ℕ) (l : Limiter)
    → length (evict now l.period l.timestamps) < l.rate
    → (round deadline now later l).0 ≡ granted now
unfolding round
round_grants deadline now later l room = rw (lt→ltb _ _ room)

after_granted :
    (now : ℕ) (r : Answer × Limiter) (rest : ℕ → Limiter → Answer × Limiter)
    → r.0 ≡ granted now
    → (after r rest).0 ≡ granted now
after_granted now (granted g, l) rest h = h
after_granted now (exceeded, l) rest h = h
after_granted now (sleeps n, l) rest h = cc

-- A call on a limiter whose deque holds at most `rate` timestamps ends within two rounds of its
-- loop, if the clock of the second round shows that the sleep has passed: it is granted at once,
-- granted after one sleep, or given up; and a call without a timeout is never given up.
pub acquire_ends :
    (timeout : Option ℕ) (start now later now' later' : ℕ) (clock : List (ℕ × ℕ)) (l : Limiter)
    → IsBounded l
    → now ≤ later
    → ((n : ℕ) → (round (deadline_of timeout start) now later l).0 ≡ sleeps n → later + n ≤ now')
    → let answer = (acquire timeout start ((now, later) ∷ (now', later') ∷ clock) l).0 in
      (answer ≡ granted now) ⊎ (answer ≡ granted now') ⊎ ((answer ≡ exceeded) × (timeout ≢ none))
unfolding acquire
acquire_ends timeout start now later now' later' clock l bounded rises slept =
    elim (Bool-cases (ltb (length live) l.rate)) [
      | inl room ↦ inl (rw room)
      | inr full ↦ elim (Bool-cases (passes deadline (later + sleep))) [
        | inl late ↦ inr (inr (rw (full, late), passes-ne-none timeout start _ late))
        | inr early ↦
            let first = round_sleeps deadline now later l full early in
            let waited = slept sleep (ap (λ r. r.0) first) in
            let freed =
              evict-oldest now now' l.period live (omega (arith, bounded.positive, ltb→ge _ _ full))
                (omega arith) in
            let room : length (evict now' l.period live) < l.rate =
              omega (arith, freed, length-evict-le now l.period l.timestamps, bounded.bounded) in
            let second = round_grants deadline now' later' (record l { timestamps = live }) room in
            inr (inl (rw first (after_granted now' _ (loop deadline clock) second)))
      ]
    ]
  where
    deadline : Option ℕ
    deadline = deadline_of timeout start

    live : List ℕ
    live = evict now l.period l.timestamps

    sleep : ℕ
    sleep = oldest live now + l.period - now + slack

round-IsBounded :
    (deadline : Option ℕ) (now later : ℕ) (l : Limiter)
    → IsBounded l
    → IsBounded (round deadline now later l).1
unfolding round
round-IsBounded deadline now later l b =
    let live = evict now l.period l.timestamps in
    ground (arith, length-evict-le now l.period l.timestamps, length-append live (now ∷ []))

loop-IsBounded :
    (clock : List (ℕ × ℕ)) (deadline : Option ℕ) (slept : ℕ) (l : Limiter)
    → IsBounded l
    → IsBounded (loop deadline clock slept l).1
unfolding loop
loop-IsBounded [] deadline slept l b = b
loop-IsBounded ((now, later) ∷ clock) deadline slept l b =
    let (a, l') = round deadline now later l in
    go a l' (round-IsBounded deadline now later l b) (loop-IsBounded clock deadline)
  where
    go :
        (a : Answer) (l' : Limiter)
        → IsBounded l'
        → ((n : ℕ) (m : Limiter) → IsBounded m → IsBounded (loop deadline clock n m).1)
        → IsBounded (after (a, l') (loop deadline clock)).1
    go (granted g) l' k rest = k
    go exceeded l' k rest = k
    go (sleeps n) l' k rest = rest n l' k

-- Whatever the clock reads and however a call ends, the deque of a limiter never grows past its
-- rate.
pub acquire-IsBounded :
    (timeout : Option ℕ) (start : ℕ) (clock : List (ℕ × ℕ)) (l : Limiter)
    → IsBounded l
    → IsBounded (acquire timeout start clock l).1
unfolding acquire
acquire-IsBounded timeout start clock l b = loop-IsBounded clock (deadline_of timeout start) 0 l b
