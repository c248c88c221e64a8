-- ===== src/Pipeline/Chain.antt =====
-- What a completed run has computed: each stage's result in turn.
use obase.Base.{
  ℕ, suc, ◌≡◌, ◌≢◌, refl, sym, subst, true, Option, none, some, String, List, [], ◌∷◌, arith,
  Bool-cases, inl, inr,
}
use obase.Pipeline.{
  Data, Outcome, returned, returned_none, pause_requested, budget_exceeded, contract_violation,
  failed_with, Stage, completed, RunState, Run, keeps_contract, update, input_of, try_stage, End,
  goes_on, returns, raises, settle, enter_stage, run_stage, run_stages, fresh_state, start_pipeline,
  resumed_state, resume_pipeline, drop,
}
use obase.Pipeline.Attempts.{IsFirst, TrySays, try_stage-TrySays, first_unique}

-- Each stage's result, from its first call that does not fail among at most `max_retries + 1`, obeys
-- the stage's contract and updates the data for the next.
abbrev pub IsChain : List Stage → Data → Data → Type 0
IsChain [] d d' = d ≡ d'
IsChain (stage ∷ stages) d d' =
    (result : Data) × IsFirst stage (input_of stage d) 0 (suc stage.max_retries) (returned result)
    × (keeps_contract stage result ≡ true)
    × IsChain stages (update d result) d'

-- A round that goes on has found a result; one that does not is not completed.
unfoldable pub RoundSays : Stage → Data → End → Type 0
RoundSays stage d (goes_on r) =
    (result : Data) × IsFirst stage (input_of stage d) 0 (suc stage.max_retries) (returned result)
    × (keeps_contract stage result ≡ true)
    × (r.now.data_now ≡ update d result)
RoundSays stage d (returns r) = r.now.state ≢ completed
RoundSays stage d (raises r) = Unit

settle-RoundSays :
    (stage : Stage) (o : Option Outcome) (s : RunState) (r : Run)
    → TrySays stage (input_of stage s.data_now) 0 (suc stage.max_retries) o
    → RoundSays stage s.data_now (settle stage o s r)
unfolding settle RoundSays TrySays
settle-RoundSays stage none s r h = ground arith
settle-RoundSays stage (some (failed_with m)) s r h = ground arith
settle-RoundSays stage (some returned_none) s r h = ground arith
settle-RoundSays stage (some (pause_requested d)) s r h = ground arith
settle-RoundSays stage (some (budget_exceeded m)) s r h = ground arith
settle-RoundSays stage (some contract_violation) s r h = tt
settle-RoundSays stage (some (returned d)) s r h = elim (Bool-cases (keeps_contract stage d)) [
  | inl kept ↦ rw (kept, settle) (d, h, kept, refl)
  | inr broken ↦ rw (broken, settle) tt
]

pub run_stage-RoundSays :
    (index : ℕ) (stage : Stage) (r : Run) → RoundSays stage r.now.data_now (run_stage index stage r)
unfolding run_stage enter_stage
run_stage-RoundSays index stage r = settle-RoundSays stage _ _ _ (
    try_stage-TrySays stage (input_of stage r.now.data_now) (suc stage.max_retries) 0
      (suc stage.max_retries) r.now.errors (omega arith))

-- A completed end holds data that a chain leads to.
abbrev pub EndSays : List Stage → Data → End → Type 0
EndSays stages d (goes_on r) = ⊥
EndSays stages d (returns r) = r.now.state ≡ completed → IsChain stages d r.now.data_now
EndSays stages d (raises r) = Unit

run_stages-EndSays :
    (stages : List Stage) (index : ℕ) (r : Run)
    → EndSays stages r.now.data_now (run_stages index stages r)
unfolding run_stages RoundSays
run_stages-EndSays [] index r = λ h. refl
run_stages-EndSays (stage ∷ stages) index r =
    after (run_stage index stage r) (run_stage-RoundSays index stage r)
      (λ r'. run_stages-EndSays stages (suc index) r')
  where
    extend :
        (e : End) (result : Data)
        → IsFirst stage (input_of stage r.now.data_now) 0 (suc stage.max_retries) (returned result)
        → keeps_contract stage result ≡ true
        → EndSays stages (update r.now.data_now result) e
        → EndSays (stage ∷ stages) r.now.data_now e
    extend (goes_on r') result first kept h = h
    extend (returns r') result first kept h = λ done. (result, first, kept, h done)
    extend (raises r') result first kept h = tt

    after :
        (e : End)
        → RoundSays stage r.now.data_now e
        → ((r' : Run) → EndSays stages r'.now.data_now (run_stages (suc index) stages r'))
        → let next : End = elim e [
          | goes_on r' ↦ run_stages (suc index) stages r'
          | returns r' ↦ returns r'
          | raises r' ↦ raises r'
        ] in
          EndSays (stage ∷ stages) r.now.data_now next
    after (goes_on r') (result, first, kept, same) rest =
        extend (run_stages (suc index) stages r') result first kept
          (subst (λ (d : Data). EndSays stages d (run_stages (suc index) stages r')) same (rest r'))
    after (returns r') h rest = λ done. absurd (h done)
    after (raises r') h rest = tt

-- A run that completes, fresh or resumed, has gone through its stages in order from where it started:
-- each stage's first call that does not fail, among at most `max_retries + 1`, returned a result that
-- keeps the stage's contract, and the data is what these results, one after the other, make of the
-- data at the start.
pub pipeline-EndSays :
    (stages : List Stage) (run_id name : String) (now : ℕ) (initial : Data) (paused_run : RunState)
    → EndSays stages initial (start_pipeline stages (fresh_state run_id name now initial))
      × EndSays
          (drop paused_run.current_stage_index stages)
          paused_run.data_now
          (resume_pipeline stages paused_run)
unfolding start_pipeline resume_pipeline fresh_state resumed_state
pipeline-EndSays stages run_id name now initial paused_run = (
  run_stages-EndSays stages 0 _,
  run_stages-EndSays (drop paused_run.current_stage_index stages) paused_run.current_stage_index _,
)

abbrev pub GoesOn : Data → End → Type 0
GoesOn d (goes_on r) = r.now.data_now ≡ d
GoesOn d _ = ⊥

GoesOn-end : (d : Data) (e : End) → GoesOn d e → (r : Run) × (e ≡ goes_on r) × (r.now.data_now ≡ d)
GoesOn-end d (goes_on r) h = (r, refl, h)
GoesOn-end d (returns r) h = elim h [ ]
GoesOn-end d (raises r) h = elim h [ ]

run_stage-good :
    (index : ℕ) (stage : Stage) (r : Run) (result : Data)
    → IsFirst stage (input_of stage r.now.data_now) 0 (suc stage.max_retries) (returned result)
    → keeps_contract stage result ≡ true
    → GoesOn (update r.now.data_now result) (run_stage index stage r)
unfolding run_stage enter_stage
run_stage-good index stage r result first kept =
    let input : Data = input_of stage r.now.data_now in
    let same : (try_stage stage input (suc stage.max_retries) 0 r.now.errors).0
        ≡ some (returned result) =
      first_unique stage input (suc stage.max_retries) _ (returned result)
        (try_stage-TrySays stage input (suc stage.max_retries) 0 (suc stage.max_retries)
          r.now.errors (omega arith))
        first in
    rw (same, settle, kept) refl

-- Where each stage in turn, on the data that the results before it make, has a first call that does
-- not fail, among at most `max_retries + 1`, and it returns a result that keeps the stage's contract,
-- the run completes and holds the data that all these results make.
pub chain-completes :
    (stages : List Stage) (index : ℕ) (r : Run) (d' : Data)
    → IsChain stages r.now.data_now d'
    → (r' : Run) × (run_stages index stages r ≡ returns r')
      × (r'.now.state ≡ completed)
      × (r'.now.data_now ≡ d')
unfolding run_stages
chain-completes [] index r d' same = (_, refl, refl, same)
chain-completes (stage ∷ stages) index r d' (result, first, kept, chain) =
    let (mid, goes, now) =
      GoesOn-end (update r.now.data_now result) (run_stage index stage r)
        (run_stage-good index stage r result first kept) in
    let (last, ends, done, holds) =
      chain-completes stages (suc index) mid d'
        (subst (λ (d : Data). IsChain stages d d') (sym now) chain) in
    (last, rw (goes, run_stages) ends, done, holds)
