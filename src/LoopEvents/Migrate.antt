-- ===== src/LoopEvents/Migrate.antt =====
-- obase/loop_event_store.py: `migrate`. The registry of row migrations is a parameter: `none` where
-- none is registered from a version.
use obase.Base.{
  ℕ, zero, suc, ◌+◌, ◌-◌, Option, none, some, String, List, [], ◌∷◌, ltb, if◌then◌else◌, Result, ok,
  err, ◌>>=◌, map,
}
use obase.LoopEvents.Log.{
  Row, Line, row, malformed, Pieces, split_lines, LineHash, genesis, Fault, bad_line, bad_version,
}

module _ {P : Type 0} (line_hash : LineHash P) (upgrades : ℕ → Option (Row P → Row P)) where
  -- The `while` loop over the versions of one row, of which `left` are missing: the row, and how many
  -- steps were made.
  unfoldable pub upgrade : ℕ → ℕ → Row P → Result Fault (Row P)
  upgrade zero ver r = ok r
  upgrade (suc left) ver r = elim (upgrades ver) [
    | none ↦ err bad_version
    | some f ↦ upgrade left (suc ver) (record (f r) { v = suc ver })
  ]

  abbrev pub rechain : String → Row P → Row P
  rechain prev r = record r {
    prev_hash = prev;
    hash = line_hash prev r.seq r.id r.ts r.event_type r.payload;
  }

  -- The loop over the lines: the new rows and the number of steps.
  unfoldable pub migrate_rows : ℕ → String → List (Line P) → Result Fault (List (Row P) × ℕ)
  unfolding upgrade
  migrate_rows target prev [] = ok ([], 0)
  migrate_rows target prev (malformed ∷ lines) = err bad_line
  migrate_rows target prev (row r ∷ lines) = upgrade (target - r.v) r.v r >>= λ r'.
      migrate_rows target (rechain prev r').hash lines >>= λ rest.
      ok (rechain prev r' ∷ rest.0, (target - r.v) + rest.1)

  -- `target_version or self._schema_version`
  abbrev pub target_of : Option ℕ → ℕ → ℕ
  target_of none schema = schema
  target_of (some zero) schema = schema
  target_of (some (suc n)) schema = suc n

  -- `migrate`: the number of steps and the file afterwards; the file is replaced at the end only.
  unfoldable pub migrate : Pieces P → Option ℕ → ℕ → List (Line P) → Result Fault ℕ × List (Line P)
  unfolding migrate_rows split_lines
  migrate pieces asked schema file =
      let target = target_of asked schema in
      if ltb target 1
      then (err bad_version, file)
      else elim (migrate_rows target genesis (split_lines pieces file)) [
        | err fault ↦ (err fault, file)
        | ok (rows, steps) ↦ (ok steps, map (λ r. row r) rows)
      ]
