-- ===== src/Pipeline/Saves.antt =====
-- What is on disk when a run ends.
use obase.Base.{
  ℕ, suc, ◌≡◌, ◌≢◌, refl, sym, ap, subst, true, false, Option, none, some, String, List, [], ◌∷◌,
  ◌++◌, arith, Bool-cases, inl, inr,
}
use obase.Pipeline.{
  Data, Outcome, returned, returned_none, pause_requested, budget_exceeded, contract_violation,
  failed_with, Stage, running, RunState, Run, keeps_contract, update, input_of, End, goes_on,
  returns, raises, settle, enter_stage, run_stage, run_stages, fresh_state, resumed_state,
  start_pipeline, resume_pipeline, drop,
}
use obase.Pipeline.Attempts.{IsFirst, TrySays, try_stage-TrySays}
use obase.Pipeline.Chain.{IsChain, RoundSays, run_stage-RoundSays}

abbrev pub Offends : Stage → Outcome → Type 0
Offends stage contract_violation = Unit
Offends stage (returned d) = keeps_contract stage d ≡ false
Offends stage _ = ⊥

-- The stage's first call on this data that does not fail violates the contract, by itself or by its
-- result.
abbrev pub IsOffending : Stage → Data → Type 0
IsOffending stage d =
    (o : Outcome) × IsFirst stage (input_of stage d) 0 (suc stage.max_retries) o × Offends stage o

-- A run that returns has left its state on disk and is over. One that raises is running on disk, with
-- what the stages before the offending one have made of the data at the start.
abbrev pub IsSaved : List Stage → Data → End → Type 0
IsSaved stages d (goes_on r) = ⊥
IsSaved stages d (returns r) = (r.saved ≡ r.now) × (r.now.state ≢ running)
IsSaved stages d (raises r) =
    (r.saved.state ≡ running)
    × (before : List Stage) × (stage : Stage) × (after : List Stage) × (stages
        ≡ before ++ stage ∷ after)
    × IsChain before d r.saved.data_now
    × IsOffending stage r.saved.data_now

-- One round, from this data on.
RoundIsSaved : Stage → Data → End → Type 0
RoundIsSaved stage d (goes_on r) = r.now.state ≡ running
RoundIsSaved stage d (returns r) = (r.saved ≡ r.now) × (r.now.state ≢ running)
RoundIsSaved stage d (raises r) =
    (r.saved.state ≡ running) × (r.saved.data_now ≡ d) × IsOffending stage d

settle-RoundIsSaved :
    (stage : Stage) (o : Option Outcome) (s : RunState) (r : Run)
    → TrySays stage (input_of stage s.data_now) 0 (suc stage.max_retries) o
    → s.state ≡ running
    → r.saved.state ≡ running
    → r.saved.data_now ≡ s.data_now
    → RoundIsSaved stage s.data_now (settle stage o s r)
unfolding settle RoundIsSaved TrySays
settle-RoundIsSaved stage none s r h live on_disk same = (refl, ground arith)
settle-RoundIsSaved stage (some (failed_with m)) s r h live on_disk same = (refl, ground arith)
settle-RoundIsSaved stage (some returned_none) s r h live on_disk same = (refl, ground arith)
settle-RoundIsSaved stage (some (pause_requested d)) s r h live on_disk same = (refl, ground arith)
settle-RoundIsSaved stage (some (budget_exceeded m)) s r h live on_disk same = (refl, ground arith)
settle-RoundIsSaved stage (some contract_violation) s r h live on_disk same =
    (on_disk, same, (contract_violation, h, tt))
settle-RoundIsSaved stage (some (returned d)) s r h live on_disk same =
    elim (Bool-cases (keeps_contract stage d)) [
      | inl kept ↦ rw (settle, kept) live
      | inr broken ↦ rw (settle, broken) (on_disk, same, (returned d, h, broken))
    ]

run_stage-RoundIsSaved :
    (index : ℕ) (stage : Stage) (r : Run)
    → r.now.state ≡ running
    → RoundIsSaved stage r.now.data_now (run_stage index stage r)
unfolding run_stage enter_stage
run_stage-RoundIsSaved index stage r live =
    settle-RoundIsSaved stage _ _ _
      (try_stage-TrySays stage (input_of stage r.now.data_now) (suc stage.max_retries) 0
        (suc stage.max_retries) r.now.errors (omega arith))
      live live refl

extend :
    (stage : Stage) (stages : List Stage) (d result : Data) (e : End)
    → IsFirst stage (input_of stage d) 0 (suc stage.max_retries) (returned result)
    → keeps_contract stage result ≡ true
    → IsSaved stages (update d result) e
    → IsSaved (stage ∷ stages) d e
extend stage stages d result (goes_on r) first kept h = h
extend stage stages d result (returns r) first kept h = h
extend stage stages d result (raises r) first kept (live, before, bad, after, is, chain, offends) =
    (
      live,
      stage ∷ before,
      bad,
      after,
      ap (λ ss. stage ∷ ss) is,
      (result, first, kept, chain),
      offends,
    )

run_stages-IsSaved :
    (stages : List Stage) (index : ℕ) (r : Run)
    → r.now.state ≡ running
    → IsSaved stages r.now.data_now (run_stages index stages r)
unfolding run_stages RoundIsSaved RoundSays
run_stages-IsSaved [] index r live = (refl, ground arith)
run_stages-IsSaved (stage ∷ stages) index r live =
    after (run_stage index stage r) (run_stage-RoundIsSaved index stage r live)
      (run_stage-RoundSays index stage r)
      (λ r' live'. run_stages-IsSaved stages (suc index) r' live')
  where
    after :
        (e : End)
        → RoundIsSaved stage r.now.data_now e
        → RoundSays stage r.now.data_now e
        → ((r' : Run)
            → r'.now.state ≡ running
            → IsSaved stages r'.now.data_now (run_stages (suc index) stages r'))
        → let next : End = elim e [
          | goes_on r' ↦ run_stages (suc index) stages r'
          | returns r' ↦ returns r'
          | raises r' ↦ raises r'
        ] in
          IsSaved (stage ∷ stages) r.now.data_now next
    after (goes_on r') live' (result, first, kept, same) rest =
        extend stage stages r.now.data_now result (run_stages (suc index) stages r') first kept (
          subst (λ (d : Data). IsSaved stages d (run_stages (suc index) stages r')) same
            (rest r' live'))
    after (returns r') h says rest = h
    after (raises r') (on_disk, same, offends) says rest = (
      on_disk,
      [],
      stage,
      stages,
      refl,
      sym same,
      subst (λ (d : Data). IsOffending stage d) (sym same) offends,
    )

-- A run that returns, fresh or resumed, returns the state that the disk holds, and that state is not
-- running. A run that raises has left on disk a state that is still running, with the data that the
-- stages before the offending one made of the data at the start: each one's first call that does not
-- fail returned a result that keeps its contract, and the offending one's violates it.
pub pipeline-IsSaved :
    (stages : List Stage) (run_id name : String) (now : ℕ) (initial : Data) (paused_run : RunState)
    → IsSaved stages initial (start_pipeline stages (fresh_state run_id name now initial))
      × IsSaved
          (drop paused_run.current_stage_index stages)
          paused_run.data_now
          (resume_pipeline stages paused_run)
unfolding start_pipeline resume_pipeline fresh_state resumed_state
pipeline-IsSaved stages run_id name now initial paused_run = (
  run_stages-IsSaved stages 0 _ refl,
  run_stages-IsSaved (drop paused_run.current_stage_index stages) paused_run.current_stage_index _
      refl,
)
