-- ===== src/Runbook/Kept.antt =====
-- What `runbook_goto` leaves in the store of the runs.
use obase.Base.{
  ℕ, Bool, ◌≡◌, ◌≤◌, ◌<◌, false, Option, none, String, string_eq, List, Result, ok, err,
}
use obase.Runbook.State.{Node, Runbook, Evidence, RunState, blocked, Error, Backend}
use obase.Runbook.Goto.{
  node_of, find_edge, attempts_at, Runner, Answer, invalid_state, no_edge, max_attempts_exceeded,
  check_failed, moved, is_running,
}
use obase.Runbook.Checks.{ArePassed, IsFirstFailure}
use obase.Runbook.Saved.{IsNoted, IsEntered, IsSavedAs}
use obase.Runbook.Gate.{Fails, Way, checks_of}

-- What a call leaves where the run is in the state `s`, by its answer.
abbrev pub Leaves :
    Runbook
    → Runner
    → Option (String → Bool)
    → String
    → ℕ
    → String
    → RunState
    → Backend
    → Result Error Answer × Backend
    → Type 0
Leaves runbook runner hooks id now target s b (err e, b') =
    Fails runbook runner hooks target s e × (b' ≡ b)
Leaves runbook runner hooks id now target s b (ok (invalid_state status), b') =
    (s.state ≡ status) × (is_running status ≡ false) × (b' ≡ b)
Leaves runbook runner hooks id now target s b (ok no_edge, b') =
    (find_edge runbook s.current_node target ≡ none) × (b' ≡ b)
Leaves runbook runner hooks id now target s b (ok max_attempts_exceeded, b') =
    (way : Way runbook s target) × (way.edge.max_attempts ≤ attempts_at way.edge way.entry)
    × IsSavedAs (λ t. t ≡ record s { state = blocked }) s b b'
Leaves runbook runner hooks id now target s b (ok (check_failed v stay done), b') =
    (way : Way runbook s target) × (node : Node) × (node_of runbook s.current_node ≡ ok node)
    × (attempts_at way.edge way.entry < way.edge.max_attempts)
    × IsFirstFailure runner (checks_of node way.entry) v done
    × (stay ≡ s.current_node)
    × IsSavedAs (IsNoted way.edge way.entry done s) s b b'
Leaves runbook runner hooks id now target s b (ok (moved from to new_id prompt), b') =
    (way : Way runbook s target) × (node : Node) × (node_of runbook s.current_node ≡ ok node)
    × (attempts_at way.edge way.entry < way.edge.max_attempts)
    × (from ≡ way.edge.from_node)
    × (to ≡ target)
    × (new_id ≡ id)
    × (done : List Evidence) × ArePassed runner (checks_of node way.entry) done
    × IsSavedAs (IsEntered runbook id now way.edge target done s) s b b'
