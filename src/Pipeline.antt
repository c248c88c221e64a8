-- ===== src/Pipeline.antt =====
-- obase/orchestrator.py, the linear mode: `run_pipeline`. The functions of the stages are parameters;
-- the n-th call of one, from 0, in a run may come to anything. The trail, the cost tracker and the
-- pauses between attempts are left out; the file `run_state.json` holds the state last saved.
pub mod Saves
pub mod Attempts
pub mod Chain
mod Tests
use obase.Base.{
  ℕ, zero, suc, ◌+◌, Bool, true, false, not, ◌&&◌, Option, none, some, String, string_eq, List, [],
  ◌∷◌, ◌++◌, if◌then◌else◌, contains, map,
}
use obase.Base.Dict.{Dict, lookup, insert}

abbrev pub Data : Type 0
Data = Dict String String

-- What a call of a stage's function comes to: a dict or `None`, or an exception.
pub data Outcome : Type 0 where
  returned : Data → Outcome
  returned_none : Outcome
  pause_requested : Data → Outcome
  budget_exceeded : String → Outcome
  contract_violation : Outcome
  failed_with : String → Outcome

pub record Stage : Type 0 where
  pub name : String
  pub func : ℕ → Data → Outcome
  pub max_retries : ℕ
  pub input_keys : Option (List String)
  pub output_keys : Option (List String)

pub data Status : Type 0 where
  pending running paused failed completed : Status

pub data ErrorNote : Type 0 where
  attempt_failed : String → ℕ → String → ErrorNote
  over_budget : String → String → ErrorNote

-- The fields that the linear mode uses.
pub record RunState : Type 0 where
  pub run_id : String
  pub pipeline_name : String
  pub started_at : ℕ
  pub state : Status
  pub current_stage : Option String
  pub current_stage_index : ℕ
  pub paused_at_stage : Option String
  pub data_now : Data
  pub errors : List ErrorNote

-- The state in memory and the one last written.
pub record Run : Type 0 where
  pub now : RunState
  pub saved : RunState

abbrev pub save : RunState → Run
save s = record { now = s; saved = s }

-- `d.update(e)`
unfoldable pub update : Data → Data → Data
update d [] = d
update d ((k, v) ∷ e) = update (insert k v d) e

abbrev pub has_key : Data → String → Bool
has_key d k = elim (lookup k d) [ none ↦ false | some _ ↦ true ]

-- `{k: data[k] for k in keys if k in data}`, after the keys that are in `built`.
unfoldable pub filter_input : Data → Data → List String → Data
filter_input built d [] = built
filter_input built d (k ∷ ks) =
    filter_input (elim (lookup k d) [ none ↦ built | some v ↦ insert k v built ]) d ks

abbrev pub input_of : Stage → Data → Data
input_of stage d = elim stage.input_keys [ none ↦ d | some keys ↦ filter_input [] d keys ]

unfoldable pub has_extra : Data → List String → Bool
has_extra [] keys = false
has_extra ((k, _) ∷ d) keys = if contains keys k then has_extra d keys else true

unfoldable pub has_missing : Data → List String → Bool
has_missing d [] = false
has_missing d (k ∷ keys) = if has_key d k then has_missing d keys else true

-- The result has the keys that the stage declares.
unfoldable pub keeps_contract : Stage → Data → Bool
unfolding has_extra has_missing
keeps_contract stage result = elim stage.output_keys [
  | none ↦ true
  | some keys ↦ not (has_extra result keys) && not (has_missing result keys)
]

-- The attempts at a stage: after `attempts` failed ones, with `left` to go; and what `errors` is
-- then. `none` where all of them have failed.
unfoldable pub try_stage : Stage → Data → ℕ → ℕ → List ErrorNote → Option Outcome × List ErrorNote
try_stage stage input zero attempts errors = (none, errors)
try_stage stage input (suc left) attempts errors =
    let rest = λ (message : String).
      try_stage stage input left (suc attempts)
        (errors ++ attempt_failed stage.name (suc attempts) message ∷ []) in
    elim (stage.func attempts input) [
      | failed_with message ↦ rest message
      | returned d ↦ (some (returned d), errors)
      | returned_none ↦ (some returned_none, errors)
      | pause_requested d ↦ (some (pause_requested d), errors)
      | budget_exceeded message ↦ (some (budget_exceeded message), errors)
      | contract_violation ↦ (some contract_violation, errors)
    ]

-- The run goes on with the next stage, returns its state, or raises a contract violation.
pub data End : Type 0 where
  goes_on : Run → End
  returns : Run → End
  raises : Run → End

-- What follows the attempts.
unfoldable pub settle : Stage → Option Outcome → RunState → Run → End
unfolding update keeps_contract
settle stage (some (pause_requested d)) s r = returns (
    save (record s {
      data_now = update s.data_now d;
      state = paused;
      paused_at_stage = some stage.name;
    }))
settle stage (some (budget_exceeded message)) s r =
    returns
      (save (record s { state = failed; errors = s.errors ++ over_budget stage.name message ∷ [] }))
settle stage (some contract_violation) s r = raises (record r { now = s })
settle stage (some (returned d)) s r =
    if keeps_contract stage d
    then goes_on (save (record s { data_now = update s.data_now d }))
    else raises (record r { now = s })
settle stage _ s r = returns (save (record s { state = failed }))

unfoldable pub enter_stage : ℕ → Stage → RunState → RunState
enter_stage index stage s = record s {
  current_stage = some stage.name;
  current_stage_index = index;
}

-- One round of the loop over the stages.
unfoldable pub run_stage : ℕ → Stage → Run → End
unfolding try_stage settle enter_stage
run_stage index stage r =
    let r' : Run = save (enter_stage index stage r.now) in
    let (outcome, errors) =
      try_stage stage (input_of stage r'.now.data_now) (suc stage.max_retries) 0 r'.now.errors in
    settle stage outcome (record r'.now { errors = errors }) r'

unfoldable pub run_stages : ℕ → List Stage → Run → End
unfolding run_stage
run_stages index [] r = returns (save (record r.now { state = completed }))
run_stages index (stage ∷ stages) r = elim (run_stage index stage r) [
  | goes_on r' ↦ run_stages (suc index) stages r'
  | returns r' ↦ returns r'
  | raises r' ↦ raises r'
]

-- `pipeline.stages[index:]`
unfoldable pub drop : ℕ → List Stage → List Stage
drop zero stages = stages
drop (suc n) [] = []
drop (suc n) (stage ∷ stages) = drop n stages

unfoldable pub fresh_state : String → String → ℕ → Data → RunState
fresh_state run_id pipeline_name now initial = record {
  run_id = run_id;
  pipeline_name = pipeline_name;
  started_at = now;
  state = running;
  current_stage = none;
  current_stage_index = 0;
  paused_at_stage = none;
  data_now = initial;
  errors = [];
}

unfoldable pub resumed_state : RunState → RunState
resumed_state s = record s { state = running; paused_at_stage = none }

-- `run_pipeline` with `resume=False`, from the fresh state.
unfoldable pub start_pipeline : List Stage → RunState → End
unfolding run_stages
start_pipeline stages s = run_stages 0 stages (save s)

-- `run_pipeline` with `resume=True`, from the state that was saved.
unfoldable pub resume_pipeline : List Stage → RunState → End
unfolding run_stages drop resumed_state
resume_pipeline stages saved =
    run_stages saved.current_stage_index (drop saved.current_stage_index stages)
      (save (resumed_state saved))
