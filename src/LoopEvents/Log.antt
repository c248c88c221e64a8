-- ===== src/LoopEvents/Log.antt =====
-- obase/loop_event_store.py: `AppendOnlyEventStore`. The file is the list of its lines, each a row or
-- text that is no JSON; a file that does not exist has none. `_read_all` reads these lines, the other
-- methods those that `splitlines()` gives, which is a parameter. Several stores, each with its own cache
-- of dedupe ids, may share the file; every method is one step, as it holds both locks. The hash of a
-- row is a parameter. Rows that lack a field are not modelled.
use obase.Base.{
  ℕ, ◌+◌, Option, none, some, String, string_eq, nat_eq, List, [], ◌∷◌, ◌++◌, length, ◌==◌,
  if◌then◌else◌, Result, ok, err, ◌>>=◌,
}
use obase.Base.Dict.{Dict, lookup, insert}

pub record Row (P : Type 0) : Type 0 where
  pub v : ℕ
  pub seq : ℕ
  pub id : String
  pub ts : ℕ
  pub event_type : String
  pub payload : P
  pub prev_hash : String
  pub dedupe_id : Option String
  pub hash : String

pub data Line (P : Type 0) : Type 0 where
  row : Row P → Line P
  malformed : Line P

-- A line of the file, which ends at a newline, as `splitlines()` cuts it: `json.dumps` writes the line
-- breaks U+0085, U+2028 and U+2029 as they are. Only the pieces that are not blank; each is a row or
-- no JSON.
abbrev pub Pieces : Type 0 → Type 0
Pieces P = Line P → List (Line P)

-- `_line_hash`: of the previous hash, the sequence number, the id, the time, the type, the payload.
abbrev pub LineHash : Type 0 → Type 0
LineHash P = String → ℕ → String → ℕ → String → P → String

abbrev pub genesis : String
genesis = "genesis"

-- What a caller and the clock give to `append`.
pub record Event (P : Type 0) : Type 0 where
  pub event_type : String
  pub payload : P
  pub dedupe_id : Option String
  pub id : String
  pub ts : ℕ

abbrev pub Cache : Type 0 → Type 0
Cache P = Option (Dict String (Row P))

pub data Fault : Type 0 where
  bad_line bad_version bad_prev bad_seq bad_hash : Fault

-- `VerifyResult`: the number of rows, or the first fault and the line where it is, if it has one.
pub data Verdict : Type 0 where
  sound : ℕ → Verdict
  broken : Fault → Option ℕ → Verdict

module _ {P : Type 0} where
  -- `read_text().splitlines()` without the blank ones
  unfoldable pub split_lines : Pieces P → List (Line P) → List (Line P)
  split_lines pieces [] = []
  split_lines pieces (line ∷ file) = pieces line ++ split_lines pieces file

  -- `json.loads(lines[-1])`
  unfoldable pub last_row : List (Line P) → Option (Row P)
  last_row [] = none
  last_row (row r ∷ []) = some r
  last_row (malformed ∷ []) = none
  last_row (_ ∷ line ∷ lines) = last_row (line ∷ lines)

  -- `_read_head`
  unfoldable pub read_head : Pieces P → List (Line P) → Option (Row P)
  unfolding split_lines last_row
  read_head pieces file = last_row (split_lines pieces file)

  -- The scan of `_find_dedupe`: later rows replace earlier ones.
  unfoldable pub scan : List (Line P) → Dict String (Row P) → Dict String (Row P)
  scan [] d = d
  scan (malformed ∷ lines) d = scan lines d
  scan (row r ∷ lines) d = scan lines (elim r.dedupe_id [ none ↦ d | some id ↦ insert id r d ])

  abbrev pub loaded : Pieces P → Cache P → List (Line P) → Dict String (Row P)
  loaded pieces none file = scan (split_lines pieces file) []
  loaded pieces (some d) file = d

  unfoldable pub read_all : List (Line P) → Result Fault (List (Row P))
  read_all [] = ok []
  read_all (malformed ∷ lines) = err bad_line
  read_all (row r ∷ lines) = read_all lines >>= λ rows. ok (r ∷ rows)

  module _ (line_hash : LineHash P) (schema : ℕ) where
    unfoldable pub make_row : Event P → ℕ → String → Row P
    make_row e seq prev = record {
      v = schema;
      seq = seq;
      id = e.id;
      ts = e.ts;
      event_type = e.event_type;
      payload = e.payload;
      prev_hash = prev;
      dedupe_id = e.dedupe_id;
      hash = line_hash prev seq e.id e.ts e.event_type e.payload;
    }

    -- The row that comes after the head.
    unfoldable pub next_row : Pieces P → Event P → List (Line P) → Row P
    unfolding read_head make_row
    next_row pieces e file = elim (read_head pieces file) [
      | none ↦ make_row e 1 genesis
      | some head ↦ make_row e (head.seq + 1) head.hash
    ]

    -- `append`: the row, the store's cache and the file afterwards.
    unfoldable pub append :
        Pieces P → Event P → Cache P → List (Line P) → Row P × Cache P × List (Line P)
    unfolding scan next_row
    append pieces e cache file =
        let r = next_row pieces e file in
        let written = file ++ row r ∷ [] in
        elim e.dedupe_id [
          | none ↦ (r, cache, written)
          | some id ↦
              let d = loaded pieces cache file in
              elim (lookup id d) [
                | some old ↦ (old, some d, file)
                | none ↦ (r, some (insert id r d), written)
              ]
        ]

    -- The tests of `_verify_rows` on one row, in their order.
    unfoldable pub check_row : String → ℕ → Row P → Option Fault
    check_row prev seq r =
        if r.v == schema
        then if r.prev_hash == prev
          then if r.seq == seq + 1
            then if r.hash == line_hash prev r.seq r.id r.ts r.event_type r.payload
              then none
              else some bad_hash
            else some bad_seq
          else some bad_prev
        else some bad_version

    unfoldable pub verify_rows : String → ℕ → ℕ → List (Row P) → Verdict
    unfolding check_row
    verify_rows prev seq done [] = sound done
    verify_rows prev seq done (r ∷ rows) =
        let rest = verify_rows r.hash r.seq (done + 1) rows in
        elim (check_row prev seq r) [ none ↦ rest | some fault ↦ broken fault (some (done + 1)) ]

    unfoldable pub verify : List (Line P) → Verdict
    unfolding verify_rows read_all
    verify file = elim (read_all file) [
      | err fault ↦ broken fault none
      | ok rows ↦ verify_rows genesis 0 0 rows
    ]

    -- `_fail` raises in `replay`.
    abbrev pub or_raise : List (Row P) → Verdict → Result Fault (List (Row P))
    or_raise rows (sound n) = ok rows
    or_raise rows (broken fault line) = err fault

    unfoldable pub replay : List (Line P) → Result Fault (List (Row P))
    unfolding verify_rows read_all
    replay file = elim (read_all file) [
      | err fault ↦ err fault
      | ok rows ↦ or_raise rows (verify_rows genesis 0 0 rows)
    ]

  -- `latest` is `_read_head` under the shared lock; `count` counts the lines that are not blank.
  unfoldable pub latest : Pieces P → List (Line P) → Option (Row P)
  unfolding read_head
  latest pieces file = read_head pieces file

  unfoldable pub count : Pieces P → List (Line P) → ℕ
  unfolding split_lines
  count pieces file = length (split_lines pieces file)
