-- ===== src/Pipeline/Tests.antt =====
-- A pipeline of two stages, and the theorems at runs of it.
use obase.Base.{ℕ, zero, suc, ◌≡◌, ◌≤◌, ◌<◌, refl, none, some, Option, string_eq, [], ◌∷◌, arith}
use obase.Base.Dict.{lookup, insert}
use obase.Pipeline.{
  Data, Outcome, returned, pause_requested, failed_with, Stage, Status, paused, completed, running,
  RunState, Run, End, update, filter_input, has_extra, has_missing, keeps_contract, try_stage,
  settle, enter_stage, run_stage, run_stages, drop, returns, raises, goes_on, fresh_state,
  resumed_state, start_pipeline, resume_pipeline,
}
use obase.Pipeline.Saves.{IsSaved, pipeline-IsSaved}
use obase.Pipeline.Attempts.{HasFailed}
use obase.Pipeline.Chain.{IsChain, EndSays, pipeline-EndSays, chain-completes}

program : Unit {0}
unfolding lookup insert string_eq update filter_input has_extra has_missing keeps_contract try_stage
    settle enter_stage run_stage run_stages drop fresh_state resumed_state start_pipeline
    resume_pipeline
program = tt

-- A call that fails the first time.
abbrev fetch_once : ℕ → Data → Outcome
fetch_once zero d = failed_with "timeout"
fetch_once (suc n) d = returned (("page", "text") ∷ [])

abbrev fetch : Stage
fetch = record {
  name = "fetch";
  func = fetch_once;
  max_retries = 1;
  input_keys = some ("url" ∷ []);
  output_keys = some ("page" ∷ []);
}

abbrev review : Stage
review = record {
  name = "review";
  func = λ _ _. pause_requested (("asked", "yes") ∷ []);
  max_retries = 0;
  input_keys = none;
  output_keys = none;
}

abbrev initial : Data
initial = ("url", "u") ∷ []

abbrev start : RunState
start = record {
  run_id = "r";
  pipeline_name = "p";
  started_at = 5;
  state = running;
  current_stage = none;
  current_stage_index = 0;
  paused_at_stage = none;
  data_now = initial;
  errors = [];
}

abbrev waiting : RunState
waiting = record start {
  state = paused;
  current_stage = some "review";
  current_stage_index = 1;
  paused_at_stage = some "review";
}

abbrev status_of : End → Option (Status × Data)
status_of (goes_on r) = none
status_of (returns r) = some (r.saved.state, r.saved.data_now)
status_of (raises r) = none

-- The first attempt fails, the second returns, and the second stage pauses the run.
pauses_at_review :
    status_of (start_pipeline (fetch ∷ review ∷ []) start)
    ≡ some (paused, ("url", "u") ∷ ("page", "text") ∷ ("asked", "yes") ∷ [])
unfolding program
pauses_at_review = refl

pipeline-IsSaved_example :
    IsSaved
      (fetch ∷ review ∷ [])
      initial
      (start_pipeline (fetch ∷ review ∷ []) (fresh_state "r" "p" 5 initial))
    × IsSaved (drop 1 (fetch ∷ review ∷ [])) initial (resume_pipeline (fetch ∷ review ∷ []) waiting)
pipeline-IsSaved_example = pipeline-IsSaved (fetch ∷ review ∷ []) "r" "p" 5 initial waiting

pipeline-EndSays_example :
    EndSays (fetch ∷ []) initial (start_pipeline (fetch ∷ []) (fresh_state "r" "p" 5 initial))
    × EndSays (drop 1 (fetch ∷ [])) initial (resume_pipeline (fetch ∷ []) waiting)
pipeline-EndSays_example = pipeline-EndSays (fetch ∷ []) "r" "p" 5 initial waiting

abbrev fetched : Data
fetched = ("url", "u") ∷ ("page", "text") ∷ []

earlier_failed : (input : Data) (m : ℕ) → 0 ≤ m → m < 1 → HasFailed fetch input m
earlier_failed input zero above below = ("timeout", refl)
earlier_failed input (suc m) above below = absurd (omega arith)

chain : IsChain (fetch ∷ []) initial fetched
unfolding program
chain =
    (("page", "text") ∷ [], (1, omega arith, omega arith, refl, refl, earlier_failed _), refl, refl)

chain-completes_example :
    (r' : Run) × (run_stages 0 (fetch ∷ []) (record { now = start; saved = start }) ≡ returns r')
    × (r'.now.state ≡ completed)
    × (r'.now.data_now ≡ fetched)
chain-completes_example =
    chain-completes (fetch ∷ []) 0 (record { now = start; saved = start }) fetched chain
