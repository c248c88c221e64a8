-- ===== src/Runbook/State.antt =====
-- obase/orchestrator.py: the types of the graph mode, the backends, `start_runbook`. A backend is the
-- dict of the states it keeps, by run id. The hash of a runbook is a parameter.
use obase.Base.{
  ℕ, Bool, Option, none, some, String, string_eq, List, [], if◌then◌else◌, ◌==◌, Result, ok, err,
}
use obase.Base.Dict.{Dict, lookup, insert}

pub data CheckType : Type 0 where
  checklist command predicate llm_review manual : CheckType

pub record Check : Type 0 where
  pub id : String
  pub type : CheckType
  pub payload : String
  pub blocking : Bool

pub record Node : Type 0 where
  pub id : String
  pub prompt : String
  pub in_hook : Option String
  pub out_hook : Option String
  pub before_transfer : List Check

pub record Edge : Type 0 where
  pub from_node : String
  pub to_node : String
  pub condition : String
  pub hook : Option String
  pub max_attempts : ℕ

pub record Runbook : Type 0 where
  pub name : String
  pub initial : String
  pub nodes : Dict String Node
  pub edges : List Edge
  pub version : String

-- What a check's runner returns.
pub record Verdict : Type 0 where
  pub passed : Bool
  pub message : String

pub record Evidence : Type 0 where
  pub check_id : String
  pub type : CheckType
  pub verdict : Verdict

pub record RunEntry : Type 0 where
  pub entry_id : String
  pub node_id : String
  pub entered_at : ℕ
  pub checks : List Evidence
  pub dynamic_checks : List Check
  pub attempts : Dict String ℕ

pub record Transition : Type 0 where
  pub from_node : String
  pub to_node : String
  pub from_entry : String
  pub to_entry : String
  pub checks : List Evidence
  pub ts : ℕ

pub data Status : Type 0 where
  pending running paused failed completed blocked : Status

-- The fields that the graph mode reads or writes, none of which is `None` in that mode.
pub record RunState : Type 0 where
  pub run_id : String
  pub pipeline_name : String
  pub started_at : ℕ
  pub state : Status
  pub runbook_hash : String
  pub current_node : String
  pub current_entry_id : String
  pub entries : Dict String RunEntry
  pub transitions : List Transition

pub data Error : Type 0 where
  file_not_found contract_violation key_error check_raised hook_raised : Error

abbrev pub Backend : Type 0
Backend = Dict String RunState

unfoldable pub save : RunState → Backend → Backend
save s b = insert s.run_id s b

unfoldable pub require_state : String → Backend → Result Error RunState
require_state run_id b = elim (lookup run_id b) [ none ↦ err file_not_found | some s ↦ ok s ]

abbrev pub fresh_entry : String → String → ℕ → RunEntry
fresh_entry entry_id node_id now = record {
  entry_id = entry_id;
  node_id = node_id;
  entered_at = now;
  checks = [];
  dynamic_checks = [];
  attempts = [];
}

-- The state of a run that starts; `now` is the clock, `entry_id` the new id.
unfoldable pub first_state : (Runbook → String) → Runbook → String → String → ℕ → RunState
first_state hash runbook run_id entry_id now = record {
  run_id = run_id;
  pipeline_name = runbook.name;
  started_at = now;
  state = running;
  runbook_hash = hash runbook;
  current_node = runbook.initial;
  current_entry_id = entry_id;
  entries = insert entry_id (fresh_entry entry_id runbook.initial now) [];
  transitions = [];
}

unfoldable pub start_runbook :
    (Runbook → String)
    → Runbook
    → String
    → Bool
    → String
    → ℕ
    → Backend
    → Result Error RunState × Backend
start_runbook hash runbook run_id resume entry_id now b =
    let state : RunState = first_state hash runbook run_id entry_id now in
    let fresh : Result Error RunState × Backend = (ok state, save state b) in
    if resume
    then elim (lookup run_id b) [
      | none ↦ fresh
      | some existing ↦
          (if existing.runbook_hash == hash runbook then ok existing else err contract_violation, b)
    ]
    else fresh
