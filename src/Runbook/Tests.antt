-- ===== src/Runbook/Tests.antt =====
-- A runbook of two nodes, runs of it, and the theorems at it.
use obase.Runbook.History.{last_ones}
use obase.Runbook.State.{Transition}
use obase.Base.{
  ◌+◌, ◌≡◌, refl, true, false, none, some, Option, String, string_eq, List, [], ◌∷◌, ok, err,
}
use obase.Base.Dict.{lookup, insert}
use obase.Runbook.State.{
  Check, CheckType, Edge, Node, Runbook, Verdict, Evidence, RunState, Status, running, completed,
  Backend, save, require_state, first_state, start_runbook, contract_violation,
}
use obase.Runbook.Goto.{
  Runner, check_failed, run_checks, enter, transfer, after_checks, try_edge, go_from, runbook_goto,
  register_dynamic_check, runbook_current, note_failure, attempts_at, edge_key,
}
use obase.Runbook.Walk.{IsSound}
use obase.Runbook.Reach.{Call, starts, goes, run, apply, run-IsSound}
use obase.Runbook.Attempts.{IsRefused, IsBlockedNext, go_all, go_all-blocks}

program : Unit {0}
unfolding lookup insert string_eq save require_state first_state start_runbook edge_key attempts_at
    run_checks note_failure enter transfer after_checks try_edge go_from runbook_goto
    register_dynamic_check runbook_current run apply go_all
program = tt

abbrev tests_pass : Check
tests_pass = record { id = "c"; type = CheckType.command; payload = "make test"; blocking = true }

abbrev plan : Node
plan = record {
  id = "plan";
  prompt = "Plan.";
  in_hook = none;
  out_hook = some "h";
  before_transfer = tests_pass ∷ [];
}

abbrev build : Node
build = record {
  id = "build";
  prompt = "Build.";
  in_hook = none;
  out_hook = none;
  before_transfer = [];
}

abbrev forward : Edge
forward = record {
  from_node = "plan";
  to_node = "build";
  condition = "";
  hook = none;
  max_attempts = 2;
}

abbrev book : Runbook
book = record {
  name = "book";
  initial = "plan";
  nodes = ("plan", plan) ∷ ("build", build) ∷ [];
  edges = forward ∷ [];
  version = "1";
}

abbrev hash : Runbook → String
hash r = r.version

abbrev good : Verdict
good = record { passed = true; message = "" }

abbrev bad : Verdict
bad = record { passed = false; message = "2 failed" }

abbrev accepts : Runner
accepts c = some good

abbrev refuses : Runner
refuses c = some bad

abbrev calls : List Call
calls =
    starts "r" true "e0" 1
    ∷ goes refuses none "e1" 2 "r" "build"
    ∷ goes accepts none "e2" 3 "r" "build"
    ∷ []

abbrev place : Option RunState → Option (String × Status)
place none = none
place (some s) = some (s.current_node, s.state)

-- A check that fails, then one that passes: the run is completed in its second node.
ends_in_build : place (lookup "r" (run hash book calls [])) ≡ some ("build", completed)
unfolding program
ends_in_build = refl

-- A changed runbook is not resumed.
refuses_another :
    (start_runbook hash (record book { version = "2" }) "r" true "e9" 9 (run hash book calls [])).0
    ≡ err contract_violation
unfolding program
refuses_another = refl

unfoldable ended : RunState
unfolding program
ended = elim (lookup "r" (run hash book calls [])) [
  | some s ↦ s
  | none ↦ first_state hash book "r" "e0" 1
]

found : lookup "r" (run hash book calls []) ≡ some ended
unfolding program ended
found = refl

run-IsSound_example : IsSound book ended
run-IsSound_example = run-IsSound hash book calls "r" found

abbrev at_start : RunState
at_start = record {
  run_id = "r";
  pipeline_name = "book";
  started_at = 1;
  state = running;
  runbook_hash = "1";
  current_node = "plan";
  current_entry_id = "e0";
  entries =
      (
        "e0",
        record {
          entry_id = "e0";
          node_id = "plan";
          entered_at = 1;
          checks = [];
          dynamic_checks = [];
          attempts = [];
        },
      )
      ∷ [];
  transitions = [];
}

abbrev results : List Evidence
results = record { check_id = "c"; type = CheckType.command; verdict = bad } ∷ []

refused : IsRefused book refuses "build" forward bad results at_start
unfolding program
refused = record {
  live = refl;
  found = refl;
  entry = _;
  entered = refl;
  node = plan;
  at = refl;
  refused = refl;
}

two_left : attempts_at forward refused.entry + 2 ≡ 2
unfolding program refused
two_left = refl

abbrev stored : Backend
stored = (at_start.run_id, at_start) ∷ []

go_all-blocks_example :
    let (answers, b') =
      go_all book refuses none at_start.run_id "build" (("e1", 2) ∷ ("e2", 3) ∷ []) stored in
    (answers ≡ ok (check_failed bad "plan" results) ∷ ok (check_failed bad "plan" results) ∷ [])
    × ((t : RunState) × (lookup at_start.run_id b' ≡ some t)
        × (t.current_node ≡ "plan")
        × (t.transitions ≡ [])
        × IsBlockedNext book refuses none at_start.run_id "build" forward bad results t b')
unfolding program
go_all-blocks_example =
    go_all-blocks book refuses none at_start.run_id "build" forward bad results
      (("e1", 2) ∷ ("e2", 3) ∷ []) stored at_start refused refl refl two_left

abbrev forth : Transition
forth = record {
  from_node = "plan";
  to_node = "build";
  from_entry = "e0";
  to_entry = "e1";
  checks = [];
  ts = 2;
}

abbrev back : Transition
back = record forth { from_node = "build"; to_node = "plan"; from_entry = "e1"; to_entry = "e2" }

-- With a tail of 0 the whole list comes back.
tail_zero : last_ones 0 (forth ∷ back ∷ []) ≡ forth ∷ back ∷ []
unfolding last_ones
tail_zero = refl
