-- ===== src/RateLimit/Window.antt =====
-- No window of the period's length holds more grants than the rate.
use obase.Base.{
  ℕ, ◌+◌, ◌≤◌, ◌<◌, ◌≡◌, refl, Bool, ◌&&◌, Option, List, [], ◌∷◌, ◌++◌, append_assoc, leb, ltb,
  length, count, count-append, All, All-append, All-map, arith, ◌-◌, Bool-cases, inl, inr, leb→le,
  ap, sym, length-select-le, ◌∙◌, append-nil, ltb→lt, ltb→ge,
}
use obase.RateLimit.{Limiter, Answer, granted, evict, round, passes, oldest, slack}

-- The grant lies in the window of length `period` that ends at `t`.
abbrev pub in_window : ℕ → ℕ → ℕ → Bool
in_window period t grant = leb grant t && ltb t (grant + period)

-- What the deque is to the list of all grants so far, oldest first: the grants that it no longer
-- holds had left the window when the clock read `last`.
pub record Tracks (log : List ℕ) (last : ℕ) (l : Limiter) : Type 0 where
  pub dropped : List ℕ
  pub split : log ≡ dropped ++ l.timestamps
  pub stale : All (λ d. d + l.period ≤ last) dropped
  pub window : (t : ℕ) → count (in_window l.period t) log ≤ l.rate

-- What a call adds to the list of grants.
abbrev pub grants : Answer → List ℕ
grants (granted now) = now ∷ []
grants _ = []

-- The part of the deque that `evict` removes.
evict_split :
    (now period : ℕ) (ts : List ℕ)
    → (gone : List ℕ) × (ts ≡ gone ++ evict now period ts) × All (λ d. d + period ≤ now) gone
unfolding evict
evict_split now period [] = ([], refl, tt)
evict_split now period (t ∷ ts) = elim (Bool-cases (leb (t + period) now)) [
  | inl late ↦
      let (gone, split, stale) = evict_split now period ts in
      (t ∷ gone, rw late (ap (◌∷◌ t) split), (leb→le _ _ late, stale))
  | inr live ↦ ([], rw live, tt)
]

count_stale :
    (period now t : ℕ) (ds : List ℕ)
    → now ≤ t
    → All (λ d. d + period ≤ now) ds
    → count (in_window period t) ds ≡ 0
count_stale period now t [] h s = refl
count_stale period now t (d ∷ ds) h s = ground (arith, count_stale period now t ds)

-- The deque after an eviction at `now`, and after an append of `now`.
module _ {log : List ℕ} {last : ℕ} {l : Limiter} (tr : Tracks log last l) (now : ℕ)
    (rises : last ≤ now) where
  live : List ℕ
  live = evict now l.period l.timestamps

  gone : List ℕ
  gone = (evict_split now l.period l.timestamps).0

  log_split : log ≡ (tr.dropped ++ gone) ++ live
  unfolding live gone
  log_split =
      tr.split
      ∙ ap (◌++◌ tr.dropped) (evict_split now l.period l.timestamps).1
      ∙ sym (append_assoc tr.dropped gone live)

  every_stale : All (λ d. d + l.period ≤ now) (tr.dropped ++ gone)
  unfolding gone
  every_stale =
      All-append _ tr.dropped gone
        (All-map (λ d (h : d + l.period ≤ last). omega arith) tr.dropped tr.stale)
        (evict_split now l.period l.timestamps).2

  count_log : (t : ℕ) → now ≤ t → count (in_window l.period t) log ≤ length live
  count_log t h = omega (
    arith,
    ap (count (in_window l.period t)) log_split,
    count-append (in_window l.period t) (tr.dropped ++ gone) live,
    count_stale l.period now t (tr.dropped ++ gone) h every_stale,
    length-select-le (in_window l.period t) live,
  )

  evict-Tracks : Tracks (log ++ []) now (record l { timestamps = live })
  evict-Tracks = record {
    dropped = tr.dropped ++ gone;
    split = append-nil log ∙ log_split;
    stale = every_stale;
    window = λ t. rw (append-nil log) (tr.window t);
  }

  count_now :
      (t : ℕ) → length live < l.rate → count (in_window l.period t) (log ++ now ∷ []) ≤ l.rate
  count_now t room = elim (Bool-cases (ltb t now)) [
    | inl before ↦
        let unseen : count (in_window l.period t) (now ∷ []) ≡ 0 = ground arith in
        omega (arith, count-append (in_window l.period t) log (now ∷ []), tr.window t, unseen)
    | inr from ↦ omega (
      arith,
      count-append (in_window l.period t) log (now ∷ []),
      count_log t (ltb→ge _ _ from),
      length-select-le (in_window l.period t) (now ∷ []),
    )
  ]

  append-Tracks :
      length live < l.rate
      → Tracks (log ++ now ∷ []) now (record l { timestamps = live ++ now ∷ [] })
  append-Tracks room = record {
    dropped = tr.dropped ++ gone;
    split = ap (λ g. g ++ now ∷ []) log_split ∙ append_assoc (tr.dropped ++ gone) live (now ∷ []);
    stale = every_stale;
    window = λ t. count_now t room;
  }

pub round-Tracks :
    {log : List ℕ} {last : ℕ} {l : Limiter} (deadline : Option ℕ) (now later : ℕ)
    → last ≤ now
    → Tracks log last l
    → Tracks (log ++ grants (round deadline now later l).0) now (round deadline now later l).1
unfolding round live
round-Tracks {l = l} deadline now later rises tracks =
    elim (Bool-cases (ltb (length (evict now l.period l.timestamps)) l.rate)) [
      | inl room ↦ rw room (append-Tracks tracks now rises (ltb→lt _ _ room))
      | inr full ↦ elim (Bool-cases (passes deadline (later + sleep))) [
        | inl late ↦ rw (full, late) (evict-Tracks tracks now rises)
        | inr early ↦ rw (full, early) (evict-Tracks tracks now rises)
      ]
    ]
  where
    sleep : ℕ
    sleep = oldest (evict now l.period l.timestamps) now + l.period - now + slack
