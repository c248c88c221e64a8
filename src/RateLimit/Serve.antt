-- ===== src/RateLimit/Serve.antt =====
-- The sliding window over a row of `acquire` calls.
use obase.Base.{
  ℕ, ◌≤◌, ◌<◌, ◌≡◌, refl, Option, List, [], ◌∷◌, ◌++◌, append-nil, arith, All-map, le_trans, count,
  ok, ◌∙◌, sym, subst,
}
use obase.RateLimit.{
  Limiter, Answer, granted, exceeded, sleeps, round, after, loop, acquire, deadline_of, init,
}
use obase.RateLimit.Window.{Tracks, in_window, grants, round-Tracks}

-- The clock readings of a loop that begins at `last` never go back.
abbrev pub Rises : ℕ → List (ℕ × ℕ) → Type 0
Rises last [] = Unit
Rises last ((now, later) ∷ clock) = (last ≤ now) × (now ≤ later) × Rises later clock

-- The last reading.
abbrev pub end_of : ℕ → List (ℕ × ℕ) → ℕ
end_of last [] = last
end_of last ((now, later) ∷ clock) = end_of later clock

end_of-le : (last : ℕ) (clock : List (ℕ × ℕ)) → Rises last clock → last ≤ end_of last clock
end_of-le last [] r = omega arith
end_of-le last ((now, later) ∷ clock) r = omega (arith, end_of-le later clock r.2)

Tracks-later :
    {log : List ℕ} {last : ℕ} {l : Limiter} (m : ℕ) → last ≤ m → Tracks log last l → Tracks log m l
Tracks-later {l = l} m h tr = record {
  dropped = tr.dropped;
  split = tr.split;
  stale = All-map (λ d p. le_trans p h) tr.dropped tr.stale;
  window = tr.window;
}

after-Tracks :
    {log : List ℕ} (now e : ℕ) (a : Answer) (l : Limiter) (rest : ℕ → Limiter → Answer × Limiter)
    → now ≤ e
    → Tracks (log ++ grants a) now l
    → ((n : ℕ) → Tracks log now l → Tracks (log ++ grants (rest n l).0) e (rest n l).1)
    → Tracks (log ++ grants (after (a, l) rest).0) e (after (a, l) rest).1
after-Tracks now e (granted g) l rest h tr k = Tracks-later e h tr
after-Tracks now e exceeded l rest h tr k = Tracks-later e h tr
after-Tracks {log} now e (sleeps n) l rest h tr k = k n (rw append-nil at tr)

loop-Tracks :
    (clock : List (ℕ × ℕ)) {log : List ℕ} {last : ℕ} {l : Limiter} (deadline : Option ℕ) (slept : ℕ)
    → Rises last clock
    → Tracks log last l
    → Tracks
        (log ++ grants (loop deadline clock slept l).0)
        (end_of last clock)
        (loop deadline clock slept l).1
unfolding loop
loop-Tracks [] {log} deadline slept r tr = rw append-nil tr
loop-Tracks ((now, later) ∷ clock) {log} {l = l} deadline slept r tr =
    let (a, l') = round deadline now later l in
    after-Tracks now (end_of later clock) a l' (loop deadline clock)
      (le_trans r.1 (end_of-le later clock r.2)) (round-Tracks deadline now later r.0 tr)
      (λ n t. loop-Tracks clock deadline n r.2 (Tracks-later later r.1 t))

pub record Call : Type 0 where
  pub timeout : Option ℕ
  pub start : ℕ
  pub clock : List (ℕ × ℕ)

-- Calls of `acquire`, one after another; the first part collects the times of the grants.
unfoldable pub serve : List Call → List ℕ → Limiter → List ℕ × Limiter
serve [] log l = (log, l)
serve (c ∷ calls) log l =
    let (a, l') = acquire c.timeout c.start c.clock l in serve calls (log ++ grants a) l'

abbrev pub RisesAll : ℕ → List Call → Type 0
RisesAll last [] = Unit
RisesAll last (c ∷ calls) = Rises last c.clock × RisesAll (end_of last c.clock) calls

serve-Tracks :
    (calls : List Call) {log : List ℕ} {last : ℕ} {l : Limiter}
    → RisesAll last calls
    → Tracks log last l
    → (e : ℕ) × Tracks (serve calls log l).0 e (serve calls log l).1
unfolding serve acquire
serve-Tracks [] {last = last} r tr = (last, tr)
serve-Tracks (c ∷ calls) r tr =
    serve-Tracks calls r.1 (loop-Tracks c.clock (deadline_of c.timeout c.start) 0 r.0 tr)

-- No operation changes the configuration.
abbrev Keeps : Limiter → Limiter → Type 0
Keeps l l' = (l'.rate ≡ l.rate) × (l'.period ≡ l.period)

round-Keeps :
    (deadline : Option ℕ) (now later : ℕ) (l : Limiter) → Keeps l (round deadline now later l).1
unfolding round
round-Keeps deadline now later l = ground arith

loop-Keeps :
    (clock : List (ℕ × ℕ)) (deadline : Option ℕ) (slept : ℕ) (l : Limiter)
    → Keeps l (loop deadline clock slept l).1
unfolding loop
loop-Keeps [] deadline slept l = (refl, refl)
loop-Keeps ((now, later) ∷ clock) deadline slept l =
    go (round deadline now later l).0 (round deadline now later l).1
      (round-Keeps deadline now later l) (loop-Keeps clock deadline)
  where
    go :
        (a : Answer) (l' : Limiter)
        → Keeps l l'
        → ((n : ℕ) (m : Limiter) → Keeps m (loop deadline clock n m).1)
        → Keeps l (after (a, l') (loop deadline clock)).1
    go (granted g) l' k rest = k
    go exceeded l' k rest = k
    go (sleeps n) l' k rest = ((rest n l').0 ∙ k.0, (rest n l').1 ∙ k.1)

serve-Keeps : (calls : List Call) (log : List ℕ) (l : Limiter) → Keeps l (serve calls log l).1
unfolding serve acquire
serve-Keeps [] log l = (refl, refl)
serve-Keeps (c ∷ calls) log l =
    let k = loop-Keeps c.clock (deadline_of c.timeout c.start) 0 l in
    let (a, l') = acquire c.timeout c.start c.clock l in
    let k' = serve-Keeps calls (log ++ grants a) l' in (k'.0 ∙ k.0, k'.1 ∙ k.1)

init_fields :
    (rate period : ℕ) {l : Limiter}
    → init rate period ≡ ok l
    → (l.rate ≡ rate) × (l.period ≡ period) × (l.timestamps ≡ []) × (0 < rate) × (0 < period)
unfolding init
init_fields rate period h = ground arith

-- In a row of calls of `acquire` on a new limiter, whose clock readings never go back, no window of
-- the period's length, wherever it ends, holds more grants than the rate.
pub serve-window :
    (rate period start t : ℕ) (calls : List Call) {l : Limiter}
    → init rate period ≡ ok l
    → RisesAll start calls
    → count (in_window period t) (serve calls [] l).0 ≤ rate
serve-window rate period start t calls {l} made rises =
    let (same_rate, same_period, empty, _, _) = init_fields rate period made in
    let begun : Tracks [] start l = record {
      dropped = [];
      split = sym empty;
      stale = tt;
      window = λ _. omega arith;
    } in
    let (e, tracks) = serve-Tracks calls rises begun in
    let (kept_rate, kept_period) = serve-Keeps calls [] l in
    subst (λ p. count (in_window p t) (serve calls [] l).0 ≤ rate) (kept_period ∙ same_period)
      (rw (kept_rate ∙ same_rate) at (tracks.window t))
