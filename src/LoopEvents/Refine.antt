-- ===== src/LoopEvents/Refine.antt =====
-- The tracker together with the log that it writes to.
use obase.Base.{
  ℕ, suc, ◌≡◌, refl, sym, ap, ◌∙◌, Bool, true, false, none, String, string_eq, nat_eq, List, [],
  ◌∷◌, ◌++◌, map, append-nil, append_assoc, ok, arith, Option-cases, inl, inr,
}
use obase.Base.Int.{pos}
use obase.LoopEvents.Log.{
  Row, Line, row, malformed, Pieces, LineHash, Event, read_head, make_row, next_row, append, replay,
}
use obase.LoopEvents.Chain.{lines, Caches, append_by, append_all, append_all-verify, AreOneLine}
use obase.LoopEvents.Quota.{
  QuotaEvent, quota_consumed, quota_paused, quota_resumed, QuotaTracker, init,
}
use obase.LoopEvents.View.{project, view, Call, run, run-project}

module _ {P : Type 0} (line_hash : LineHash P) (schema : ℕ) (pieces : Pieces P) where
  payloads : List (Line P) → List P
  payloads [] = []
  payloads (malformed ∷ lines) = payloads lines
  payloads (row r ∷ lines) = r.payload ∷ payloads lines

  payloads-append : (xs ys : List (Line P)) → payloads (xs ++ ys) ≡ payloads xs ++ payloads ys
  unfolding payloads
  payloads-append [] ys = refl
  payloads-append (malformed ∷ xs) ys = payloads-append xs ys
  payloads-append (row r ∷ xs) ys = ap (λ ps. r.payload ∷ ps) (payloads-append xs ys)

  payloads-lines : (rows : List (Row P)) → payloads (lines rows) ≡ map (λ r. r.payload) rows
  unfolding payloads
  payloads-lines [] = refl
  payloads-lines (r ∷ rows) = ap (λ ps. r.payload ∷ ps) (payloads-lines rows)

  next_row-payload :
      (e : Event P) (file : List (Line P))
      → (next_row line_hash schema pieces e file).payload ≡ e.payload
  unfolding next_row
  next_row-payload e file = elim (Option-cases (read_head pieces file)) [
    | inl empty ↦ rw (empty, next_row, make_row) refl
    | inr (r, head) ↦ rw (head, next_row, make_row) refl
  ]

  -- Events without a dedupe id, each appended by one store.
  unfoldable pub write_all : ℕ → List (Event P) → List (ℕ × Event P)
  write_all store [] = []
  write_all store (e ∷ events) = (store, record e { dedupe_id = none }) ∷ write_all store events

  payloads-write_all :
      (events : List (Event P)) (store : ℕ) (caches : Caches line_hash schema)
      (file : List (Line P))
      → payloads (append_all line_hash schema pieces (write_all store events) (caches, file)).1
        ≡ payloads file ++ map (λ e. e.payload) events
  unfolding append_all append_by append write_all payloads
  payloads-write_all [] store caches file = sym (append-nil (payloads file))
  payloads-write_all (e ∷ events) store caches file =
      let plain : Event P = record e { dedupe_id = none } in
      let r = next_row line_hash schema pieces plain file in
      let one = append_by line_hash schema pieces store plain (caches, file) in
      payloads-write_all events store one.0 (file ++ row r ∷ [])
      ∙ ap (λ ps. ps ++ map (λ e. e.payload) events)
          (payloads-append file (row r ∷ [])
            ∙ ap (λ p. payloads file ++ p ∷ []) (next_row-payload plain file))
      ∙ append_assoc (payloads file) (e.payload ∷ []) (map (λ e. e.payload) events)

-- The event that the tracker hands to its store, with the store's id and time.
abbrev pub kind_of : QuotaEvent → String
kind_of (quota_consumed _ _ _ _) = "quota_consumed"
kind_of (quota_paused _ _) = "quota_paused"
kind_of (quota_resumed _ _ _) = "quota_resumed"

unfoldable pub stamp : (ℕ → String × ℕ) → ℕ → List QuotaEvent → List (Event QuotaEvent)
stamp stamps n [] = []
stamp stamps n (e ∷ events) =
    record {
      event_type = kind_of e;
      payload = e;
      dedupe_id = none;
      id = (stamps n).0;
      ts = (stamps n).1;
    }
    ∷ stamp stamps (suc n) events

stamp-payload :
    (stamps : ℕ → String × ℕ) (n : ℕ) (events : List QuotaEvent)
    → map (λ e. e.payload) (stamp stamps n events) ≡ events
unfolding stamp
stamp-payload stamps n [] = refl
stamp-payload stamps n (e ∷ events) = ap (λ es. e ∷ es) (stamp-payload stamps (suc n) events)

-- A new tracker whose store's log is empty and is written by this tracker alone, after any calls of
-- `record_usage` and `resume`: if `splitlines()` takes the row of every event for one line, the log
-- replays, and reading the replayed events one after the other gives what the tracker has in memory,
-- the money spent and whether it is paused.
pub replay_refines :
    (line_hash : LineHash QuotaEvent) (schema budget : ℕ) (auto_pause : Bool) (calls : List Call)
    (stamps : ℕ → String × ℕ) {q : QuotaTracker}
    → init (pos budget) true auto_pause ≡ ok q
    → (pieces : Pieces QuotaEvent)
    → AreOneLine line_hash schema pieces
        (write_all line_hash schema pieces 0 (stamp stamps 0 (run calls q).1))
    → let (q', events) = run calls q in
      let (caches, file) =
        append_all line_hash schema pieces
          (write_all line_hash schema pieces 0 (stamp stamps 0 events))
          ([], []) in
      (rows : List (Row QuotaEvent)) × (replay line_hash schema file ≡ ok rows)
      × (project (map (λ r. r.payload) rows) (record { spent = 0; paused = false }) ≡ view q')
unfolding init payloads
replay_refines line_hash schema budget auto_pause calls stamps {q} made pieces ones =
    let (q', events) = run calls q in
    let written = write_all line_hash schema pieces 0 (stamp stamps 0 events) in
    let (verified, (rows, is, replayed)) = append_all-verify line_hash schema pieces written ones in
    let same : map (λ r. r.payload) rows ≡ events =
      sym (payloads-lines line_hash schema pieces rows)
      ∙ ap (payloads line_hash schema pieces) (sym is)
      ∙ payloads-write_all line_hash schema pieces (stamp stamps 0 events) 0 [] []
      ∙ stamp-payload stamps 0 events in
    let there : q.has_store ≡ true = ground (arith, made) in
    let blank : view q ≡ record { spent = 0; paused = false } = ground (arith, made) in
    (
      rows,
      replayed,
      ap (λ es. project es (record { spent = 0; paused = false })) same
          ∙ ap (project events) (sym blank)
          ∙ run-project calls q there,
    )
