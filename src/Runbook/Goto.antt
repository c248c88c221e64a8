-- ===== src/Runbook/Goto.antt =====
-- obase/orchestrator.py: `runbook_goto`, `register_dynamic_check`, `runbook_current`. The runners of
-- checks and hooks are parameters; `none` and `false` stand for an exception of theirs. What is handed
-- to the causal store and the context store after the state is saved is left out.
use obase.Base.{
  ℕ, ◌+◌, Bool, true, false, ◌&&◌, not, Option, none, some, String, string_eq, List, [], ◌∷◌, ◌++◌,
  map, leb, if◌then◌else◌, ◌==◌, first, select, exists, Result, ok, err, ◌>>=◌,
}
use obase.Base.Dict.{lookup, insert}
use Prim.Native.String.{◌++◌ as join}
use obase.Runbook.State.{
  Check, Node, Edge, Runbook, Verdict, Evidence, RunEntry, Status, running, completed, blocked,
  RunState, Error, key_error, check_raised, hook_raised, Backend, save, require_state, fresh_entry,
}

abbrev pub entry_of : RunState → Result Error RunEntry
entry_of s = elim (lookup s.current_entry_id s.entries) [ none ↦ err key_error | some e ↦ ok e ]

abbrev pub node_of : Runbook → String → Result Error Node
node_of runbook id = elim (lookup id runbook.nodes) [ none ↦ err key_error | some n ↦ ok n ]

abbrev pub leads : String → String → Edge → Bool
leads from_node target e = e.from_node == from_node && e.to_node == target

abbrev pub find_edge : Runbook → String → String → Option Edge
find_edge runbook from_node target = first (leads from_node target) runbook.edges

abbrev pub leaves : String → Edge → Bool
leaves node_id e = e.from_node == node_id

unfoldable pub edge_key : Edge → String
edge_key e = join e.from_node (join "->" e.to_node)

-- `entry.attempts.get(edge_key, 0)`
unfoldable pub attempts_at : Edge → RunEntry → ℕ
attempts_at edge entry = elim (lookup (edge_key edge) entry.attempts) [ none ↦ 0 | some n ↦ n ]

abbrev pub Runner : Type 0
Runner = Check → Option Verdict

pub data Checked : Type 0 where
  all_passed : List Evidence → Checked
  failed_at : Verdict → List Evidence → Checked
  raised : Checked

-- The loop over the checks, after those with the results `done`.
unfoldable pub run_checks : Runner → List Evidence → List Check → Checked
run_checks runner done [] = all_passed done
run_checks runner done (c ∷ cs) = elim (runner c) [
  | none ↦ raised
  | some v ↦
      let done' : List Evidence =
        done ++ record { check_id = c.id; type = c.type; verdict = v } ∷ [] in
      let rest = run_checks runner done' cs in
      if c.blocking && not v.passed then failed_at v done' else rest
]

-- A hook that a node or an edge may name; there may be no runner of hooks.
abbrev pub run_hook : Option (String → Bool) → Option String → Result Error (Unit {0})
run_hook none hook = ok tt
run_hook (some runs) none = ok tt
run_hook (some runs) (some hook) =
    if hook == "" then ok tt else if runs hook then ok tt else err hook_raised

pub data Answer : Type 0 where
  invalid_state : Status → Answer
  no_edge : Answer
  max_attempts_exceeded : Answer
  check_failed : Verdict → String → List Evidence → Answer
  moved : String → String → String → String → Answer

-- What a failed check leaves: one attempt more, and the results so far.
unfoldable pub note_failure : Edge → RunEntry → List Evidence → RunState → RunState
note_failure edge entry done s = record s {
  entries =
      insert s.current_entry_id
        (record entry {
          attempts = insert (edge_key edge) (attempts_at edge entry + 1) entry.attempts;
          checks = entry.checks ++ done;
        })
        s.entries;
}

-- The run in its new node, completed if no edge leaves that node.
unfoldable pub enter : Runbook → String → ℕ → Edge → String → List Evidence → RunState → RunState
enter runbook new_id now edge target done s = record s {
  transitions =
      s.transitions
      ++ record {
        from_node = edge.from_node;
        to_node = target;
        from_entry = s.current_entry_id;
        to_entry = new_id;
        checks = done;
        ts = now;
      }
        ∷ [];
  current_node = target;
  current_entry_id = new_id;
  entries = insert new_id (fresh_entry new_id target now) s.entries;
  state = if exists (leaves target) runbook.edges then s.state else completed;
}

-- `runbook_goto` from the hooks on: the answer and the state that is saved.
unfoldable pub transfer :
    Runbook
    → Option (String → Bool)
    → String
    → ℕ
    → Edge
    → String
    → Node
    → List Evidence
    → RunState
    → Result Error (Answer × RunState)
unfolding enter
transfer runbook hooks new_id now edge target node done s = run_hook hooks node.out_hook >>= λ _.
    run_hook hooks edge.hook >>= λ _. node_of runbook target >>= λ target_node.
    run_hook hooks target_node.in_hook >>= λ _. ok (
      moved edge.from_node target new_id target_node.prompt,
      enter runbook new_id now edge target done s,
    )

-- What follows the checks.
unfoldable pub after_checks :
    Runbook
    → Option (String → Bool)
    → String
    → ℕ
    → Edge
    → String
    → Node
    → RunEntry
    → RunState
    → Checked
    → Result Error (Answer × RunState)
unfolding note_failure transfer
after_checks runbook hooks new_id now edge target node entry s raised = err check_raised
after_checks runbook hooks new_id now edge target node entry s (failed_at v done) =
    ok (check_failed v s.current_node done, note_failure edge entry done s)
after_checks runbook hooks new_id now edge target node entry s (all_passed done) =
    transfer runbook hooks new_id now edge target node done s

-- `runbook_goto` once an edge is found.
unfoldable pub try_edge :
    Runbook
    → Runner
    → Option (String → Bool)
    → String
    → ℕ
    → String
    → RunState
    → Edge
    → Result Error (Answer × RunState)
unfolding after_checks
try_edge runbook runner hooks new_id now target s edge = entry_of s >>= λ entry.
    if leb edge.max_attempts (attempts_at edge entry)
    then ok (max_attempts_exceeded, record s { state = blocked })
    else (node_of runbook s.current_node >>= λ node.
        after_checks runbook hooks new_id now edge target node entry s
          (run_checks runner [] (node.before_transfer ++ entry.dynamic_checks)))

abbrev pub is_running : Status → Bool
is_running running = true
is_running _ = false

-- `runbook_goto` on a state; `none` where nothing is saved.
unfoldable pub go_from :
    Runbook
    → Runner
    → Option (String → Bool)
    → String
    → ℕ
    → String
    → RunState
    → Result Error (Answer × Option RunState)
unfolding try_edge
go_from runbook runner hooks new_id now target s =
    if is_running s.state
    then elim (find_edge runbook s.current_node target) [
      | none ↦ ok (no_edge, none)
      | some edge ↦
          (try_edge runbook runner hooks new_id now target s edge >>= λ r. ok (r.0, some r.1))
    ]
    else ok (invalid_state s.state, none)

abbrev pub keep : Result Error (Answer × Option RunState) → Backend → Result Error Answer × Backend
keep (err e) b = (err e, b)
keep (ok (answer, none)) b = (ok answer, b)
keep (ok (answer, some s)) b = (ok answer, save s b)

unfoldable pub runbook_goto :
    Runbook
    → Runner
    → Option (String → Bool)
    → String
    → ℕ
    → String
    → String
    → Backend
    → Result Error Answer × Backend
unfolding require_state go_from save
runbook_goto runbook runner hooks new_id now run_id target b =
    keep (require_state run_id b >>= go_from runbook runner hooks new_id now target) b

unfoldable pub register_dynamic_check : String → Check → Backend → Result Error (Unit {0}) × Backend
unfolding require_state save
register_dynamic_check run_id check b =
    elim (require_state run_id b >>= λ s. entry_of s >>= λ entry. ok (record s {
      entries =
          insert s.current_entry_id
            (record entry { dynamic_checks = entry.dynamic_checks ++ check ∷ [] }) s.entries;
    })) [ err e ↦ (err e, b) | ok s ↦ (ok tt, save s b) ]

pub record Current : Type 0 where
  pub node : String
  pub entry_id : String
  pub prompt : String
  pub state : Status
  pub allowed_next : List String

unfoldable pub runbook_current : Runbook → String → Backend → Result Error Current
unfolding require_state
runbook_current runbook run_id b = require_state run_id b >>= λ s.
    node_of runbook s.current_node >>= λ node. ok (record {
      node = s.current_node;
      entry_id = s.current_entry_id;
      prompt = node.prompt;
      state = s.state;
      allowed_next = map (λ e. e.to_node) (select (leaves s.current_node) runbook.edges);
    })
