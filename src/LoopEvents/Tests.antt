-- ===== src/LoopEvents/Tests.antt =====
-- Runs of the store and of the tracker, and their theorems at concrete inputs.
use obase.Base.{
  ℕ, ◌≡◌, refl, true, false, some, none, Option, String, string_eq, nat_eq, List, [], ◌∷◌, map, ok,
  err, ◌+◌, arith, length, ◌==◌, if◌then◌else◌,
}
use obase.Base.Dict.{insert, lookup}
use obase.Base.Int.{pos}
use obase.LoopEvents.Log.{
  Row, row, malformed, LineHash, Event, bad_line, bad_version, bad_hash, bad_prev, sound, broken,
  Pieces, split_lines, last_row, read_head, scan, read_all, make_row, next_row, append, check_row,
  verify_rows, verify, replay, latest, count,
}
use obase.LoopEvents.Migrate.{upgrade, migrate_rows, migrate}
use obase.LoopEvents.Quota.{
  QuotaEvent, QuotaTracker, quota_consumed, quota_paused, init, consume, record_usage, resume,
  check, restore,
}
use obase.LoopEvents.Chain.{lines, append_by, append_all, append_all-verify}
use obase.LoopEvents.Tamper.{AreSame, verify_unique}
use obase.LoopEvents.Dedupe.{append_once}
use obase.LoopEvents.Rechain.{KeepSeq, verify-migrate}
use obase.LoopEvents.View.{Call, records, run, apply, step, project, view}
use obase.LoopEvents.Refine.{write_all, stamp, replay_refines}

program : Unit {0}
unfolding split_lines last_row read_head scan read_all make_row next_row append check_row
    verify_rows verify replay latest count upgrade migrate_rows migrate init consume record_usage
    resume check restore append_by append_all run apply step project write_all stamp string_eq
    nat_eq insert lookup
program = tt

-- A hash that is the id of the row.
abbrev hash_id : LineHash ℕ
hash_id prev seq id ts kind payload = id

abbrev event : String → Option String → ℕ → Event ℕ
event id dedupe_id payload = record {
  event_type = "goal";
  payload = payload;
  dedupe_id = dedupe_id;
  id = id;
  ts = 7;
}

abbrev nothing : Option String
nothing = none

abbrev first_row : Row ℕ
first_row = record {
  v = 1;
  seq = 1;
  id = "a";
  ts = 7;
  event_type = "goal";
  payload = 10;
  prev_hash = "genesis";
  dedupe_id = some "k";
  hash = "a";
}

abbrev second_row : Row ℕ
second_row = record first_row {
  seq = 2;
  id = "b";
  payload = 20;
  prev_hash = "a";
  dedupe_id = none;
  hash = "b";
}

abbrev two_rows : List (Row ℕ)
two_rows = first_row ∷ second_row ∷ []

-- Every line is one line.
abbrev whole : {P : Type 0} → Pieces P
whole line = line ∷ []

-- A line break in the text of the rows with the payload 30.
abbrev cut : Pieces ℕ
cut malformed = malformed ∷ []
cut (row r) = if r.payload == 30 then malformed ∷ malformed ∷ [] else row r ∷ []

abbrev two_calls : List (ℕ × Event ℕ)
two_calls = (0, event "a" (some "k") 10) ∷ (1, event "b" none 20) ∷ []

append_two : (append_all hash_id 1 whole two_calls ([], [])).1 ≡ lines two_rows
unfolding program
append_two = refl

verify_two : verify hash_id 1 (lines two_rows) ≡ sound 2
unfolding program
verify_two = refl

verify_changed :
    verify hash_id 1 (lines (record first_row { id = "c" } ∷ second_row ∷ []))
    ≡ broken bad_hash (some 1)
unfolding program
verify_changed = refl

verify_version : verify hash_id 2 (lines two_rows) ≡ broken bad_version (some 1)
unfolding program
verify_version = refl

replay_malformed : replay hash_id 1 (row first_row ∷ malformed ∷ []) ≡ err bad_line
unfolding program
replay_malformed = refl

-- After a line that is no JSON, the next row starts over.
append_malformed :
    (next_row hash_id 1 whole (event "b" none 20) (row first_row ∷ malformed ∷ [])).prev_hash
    ≡ "genesis"
unfolding program
append_malformed = refl

-- After a row whose text holds a line break, the next row starts over as well, and verify fails.
abbrev cut_calls : List (ℕ × Event ℕ)
cut_calls = (0, event "a" none 30) ∷ (0, event "b" none 20) ∷ []

append_cut :
    verify hash_id 1 (append_all hash_id 1 cut cut_calls ([], [])).1 ≡ broken bad_prev (some 2)
unfolding program
append_cut = refl

count-cut : count cut (append_all hash_id 1 cut cut_calls ([], [])).1 ≡ 3
unfolding program
count-cut = refl

-- A second store that read the file before does not see the first store's id.
append_stale :
    (append hash_id 1 whole (event "b" (some "k") 20) (some []) (row first_row ∷ [])).2
    ≡ row first_row ∷ row (record second_row { dedupe_id = some "k" }) ∷ []
unfolding program
append_stale = refl

latest_two : latest whole (lines two_rows) ≡ some second_row
unfolding program
latest_two = refl

append_all-verify_example :
    let file = (append_all hash_id 1 whole two_calls ([], [])).1 in
    (verify hash_id 1 file ≡ sound (length file))
    × ((rows : List (Row ℕ)) × (file ≡ lines rows) × (replay hash_id 1 file ≡ ok rows))
append_all-verify_example =
    append_all-verify hash_id 1 whole two_calls ((λ seq prev. refl), ((λ seq prev. refl), tt))

verify_unique_example : AreSame two_rows (record first_row { dedupe_id = none } ∷ second_row ∷ [])
unfolding program
verify_unique_example =
    verify_unique hash_id 1 two_rows (record first_row { dedupe_id = none } ∷ second_row ∷ []) 2
      (λ h. (refl, refl, refl, refl, refl, refl), (λ h. (refl, refl, refl, refl, refl, refl), tt))
      refl refl refl

append_once_example :
    let r = (append hash_id 1 whole (event "a" (some "k") 10) none []).0 in
    let (caches, file) =
      append_all hash_id 1 whole
        ((1, event "b" none 20) ∷ [])
        (append_by hash_id 1 whole 0 (event "a" (some "k") 10) ([], [])) in
    let again = append hash_id 1 whole (event "c" (some "k") 30) (lookup 0 caches) file in
    (again.0 ≡ r) × (again.2 ≡ file)
unfolding program
append_once_example =
    append_once hash_id 1 whole 0 (event "a" (some "k") 10) (event "c" (some "k") 30) "k"
      ((1, event "b" none 20) ∷ []) [] [] refl refl

-- A migration that doubles the payload.
abbrev doubled : Row ℕ → Row ℕ
doubled r = record r { payload = r.payload + r.payload }

abbrev upgrades : ℕ → Option (Row ℕ → Row ℕ)
upgrades ver = some doubled

upgrades-KeepSeq : KeepSeq hash_id upgrades
upgrades-KeepSeq ver f r found = ground (arith, found)

abbrev forged : List (Row ℕ)
forged = record first_row { payload = 99; hash = "x" } ∷ second_row ∷ []

verify-forged : verify hash_id 1 (lines forged) ≡ broken bad_hash (some 1)
unfolding program
verify-forged = refl

verify-migrate_example :
    (n : ℕ) × (verify hash_id 2 (migrate hash_id upgrades whole (some 2) 1 (lines forged)).1
      ≡ sound n)
unfolding program
verify-migrate_example =
    verify-migrate hash_id upgrades upgrades-KeepSeq whole (lines forged) forged (some 2) 1 2 refl
      (refl, omega arith, (refl, omega arith, tt)) refl

abbrev hash_ts : LineHash QuotaEvent
hash_ts prev seq id ts kind payload = id

abbrev calls : List Call
calls = records (pos 8) "one" 1 ∷ records (pos 5) "two" 2 ∷ records (pos 1) "late" 3 ∷ []

abbrev tracker : QuotaTracker
tracker = record {
  budget = 10;
  has_store = true;
  auto_pause = true;
  spent = 0;
  paused = false;
  entries = [];
}

run_calls : view (run calls tracker).0 ≡ record { spent = 13; paused = true }
unfolding program
run_calls = refl

run_events :
    (run calls tracker).1
    ≡ quota_consumed 8 8 10 "one" ∷ quota_consumed 5 13 10 "two" ∷ quota_paused 13 10 ∷ []
unfolding program
run_events = refl

abbrev stamps : ℕ → String × ℕ
stamps n = ("id", n)

replay_refines_example :
    let (q, events) = run calls tracker in
    let (caches, file) =
      append_all hash_ts 1 whole (write_all hash_ts 1 whole 0 (stamp stamps 0 events)) ([], []) in
    (rows : List (Row QuotaEvent)) × (replay hash_ts 1 file ≡ ok rows)
    × (project (map (λ r. r.payload) rows) (record { spent = 0; paused = false }) ≡ view q)
unfolding program
replay_refines_example =
    replay_refines hash_ts 1 10 true calls stamps refl whole
      ((λ seq prev. refl), ((λ seq prev. refl), ((λ seq prev. refl), tt)))
