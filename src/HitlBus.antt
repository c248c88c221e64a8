-- ===== src/HitlBus.antt =====
-- obase/hitl_signal_bus.py: the bus of approval requests and the interrupt signal. Each method runs
-- under the lock or without an await, so a history of calls is a list of them; waiting is two parts.
pub mod Decisions
pub mod Waiting
mod Tests
use obase.Base.{
  ℕ, Bool, true, false, not, Option, none, some, String, string_eq, List, [], ◌∷◌, ◌==◌, select,
  map, length, if◌then◌else◌,
}
use obase.Base.Dict.{Dict, lookup, insert}

pub data DecisionOutcome : Type 0 where
  approved rejected timed_out cancelled : DecisionOutcome

pub record ApprovalRequest : Type 0 where
  pub request_id : String
  pub scope : String
  pub summary : String
  pub created_at : ℕ
  pub decided_at : Option ℕ
  pub outcome : Option DecisionOutcome
  pub note : String
  pub event : Bool

pub record Bus : Type 0 where
  pub requests : Dict String ApprovalRequest
  pub interrupt : Bool
  pub interrupt_reason : String

unfoldable pub init : Bus
init = record { requests = []; interrupt = false; interrupt_reason = "" }

abbrev pub fresh_request : String → String → String → ℕ → ApprovalRequest
fresh_request id scope summary now = record {
  request_id = id;
  scope = scope;
  summary = summary;
  created_at = now;
  decided_at = none;
  outcome = none;
  note = "";
  event = false;
}

-- The id that the caller gives, if there is one and it is not empty, or the generated one.
abbrev pub choose_id : Option String → String → String
choose_id none generated = generated
choose_id (some id) generated = if id == "" then generated else id

unfoldable pub request_approval : Option String → String → String → String → ℕ → Bus → String × Bus
request_approval given generated scope summary now bus =
    let id = choose_id given generated in
    (id, record bus { requests = insert id (fresh_request id scope summary now) bus.requests })

abbrev pub is_pending : ApprovalRequest → Bool
is_pending r = elim r.outcome [ none ↦ true | some _ ↦ false ]

-- The request is found and undecided: it is decided and its event is set.
unfoldable pub decide : String → DecisionOutcome → String → ℕ → Bus → Bool × Bus
decide id outcome note now bus = elim (lookup id bus.requests) [
  | none ↦ (false, bus)
  | some r ↦
      if is_pending r
      then (
        true,
        record bus {
          requests =
              insert id
                (record r {
                  outcome = some outcome;
                  decided_at = some now;
                  note = note;
                  event = true;
                })
                bus.requests;
        },
      )
      else (false, bus)
]

abbrev pub approve : String → String → ℕ → Bus → Bool × Bus
approve id note now bus = decide id approved note now bus

abbrev pub reject : String → String → ℕ → Bus → Bool × Bus
reject id note now bus = decide id rejected note now bus

abbrev pub cancel : String → String → ℕ → Bus → Bool × Bus
cancel id note now bus = decide id cancelled note now bus

pub record Decision : Type 0 where
  pub request_id : String
  pub scope : String
  pub summary : String
  pub outcome : Option DecisionOutcome
  pub note : String
  pub created_at : ℕ
  pub decided_at : Option ℕ

abbrev pub decision_dict : ApprovalRequest → Decision
decision_dict r = record {
  request_id = r.request_id;
  scope = r.scope;
  summary = r.summary;
  outcome = r.outcome;
  note = r.note;
  created_at = r.created_at;
  decided_at = r.decided_at;
}

unfoldable pub get_request : String → Bus → Option Decision
get_request id bus = elim (lookup id bus.requests) [ none ↦ none | some r ↦ some (decision_dict r) ]

unfoldable pub list_pending : Bus → List Decision
list_pending bus = map (λ e. decision_dict e.1) (select (λ e. is_pending e.1) bus.requests)

unfoldable pub signal_interrupt : String → Bus → Bus
signal_interrupt reason bus = record bus { interrupt = true; interrupt_reason = reason }

unfoldable pub reset_interrupt : Bus → Bus
reset_interrupt bus = record bus { interrupt = false; interrupt_reason = "" }

pub record Health : Type 0 where
  pub pending_approvals : ℕ
  pub interrupted : Bool

unfoldable pub health : Bus → Health
unfolding list_pending
health bus = record { pending_approvals = length (list_pending bus); interrupted = bus.interrupt }
