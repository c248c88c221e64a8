-- ===== src/Workflow.antt =====
-- obase/workflow_engine.py: `execute`. The executor is a parameter. The tasks of a layer are gathered
-- before any result is stored, so each of them is given the outputs of the layers before.
pub mod Stored
pub mod Layers
pub mod Going
pub mod Sort
pub mod Counts
pub mod Steps
pub mod Order
pub mod Colors
pub mod Alarms
pub mod Complete
pub mod Acyclic
mod Tests
use obase.Base.{
  Bool, true, false, String, string_eq, List, [], ◌∷◌, map, Result, ok, err, ◌==◌, if◌then◌else◌,
}
use obase.Base.Dict.{Dict, insert}

pub data Outcome : Type 0 where
  returned : String → Outcome
  raised : String → Outcome

abbrev pub Outputs : Type 0
Outputs = Dict String Outcome

pub data Error : Type 0 where
  value_error : Error
  execution_failed : String → String → Error

abbrev pub Executor : Type 0
Executor = String → Outputs → Outcome

-- The results of a layer are stored in its order; with "rollback" the first exception ends the run,
-- and what was stored stays in the dict that the caller may have passed.
unfoldable pub store : Bool → List (String × Outcome) → Outputs → Result Error (Unit {0}) × Outputs
store rollback [] outputs = (ok tt, outputs)
store rollback ((node, returned r) ∷ results) outputs =
    store rollback results (insert node (returned r) outputs)
store true ((node, raised e) ∷ results) outputs = (err (execution_failed node e), outputs)
store false ((node, raised e) ∷ results) outputs =
    store false results (insert node (raised e) outputs)

abbrev pub gather : Executor → Outputs → List String → List (String × Outcome)
gather executor outputs layer = map (λ node. (node, executor node outputs)) layer

unfoldable pub run_layers :
    Bool → Executor → List (List String) → Outputs → Result Error (Unit {0}) × Outputs
unfolding store
run_layers rollback executor [] outputs = (ok tt, outputs)
run_layers rollback executor (layer ∷ layers) outputs =
    let (r, outputs') = store rollback (gather executor outputs layer) outputs in
    let rest = run_layers rollback executor layers outputs' in
    elim r [ ok _ ↦ rest | err e ↦ (err e, outputs') ]

unfoldable pub execute :
    Executor → String → List (List String) → Outputs → Result Error (Unit {0}) × Outputs
unfolding run_layers
execute executor on_error layers completed =
    if on_error == "rollback"
    then run_layers true executor layers completed
    else if on_error == "continue"
    then run_layers false executor layers completed
    else (err value_error, completed)
