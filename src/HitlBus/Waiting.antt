-- ===== src/HitlBus/Waiting.antt =====
-- obase/hitl_signal_bus.py: `wait_for_decision` and the functions that use the bound bus.
use obase.Base.{ℕ, Bool, true, false, Option, none, some, String, string_eq, Result, ok, err}
use obase.Base.Dict.{lookup}
use obase.HitlBus.{
  ApprovalRequest, Bus, Decision, is_pending, decision_dict, request_approval, signal_interrupt,
}

pub data WaitAnswer : Type 0 where
  unknown : String → WaitAnswer
  answered : Decision → WaitAnswer
  timed_out : ApprovalRequest → WaitAnswer

-- `wait_for_decision` up to its await: an answer, or the request object whose event is awaited.
pub data Waiting : Type 0 where
  answers : WaitAnswer → Waiting
  awaits : ApprovalRequest → Waiting

unfoldable pub wait_begin : String → Bus → Waiting
wait_begin id bus = elim (lookup id bus.requests) [
  | none ↦ answers (unknown id)
  | some r ↦ elim (is_pending r) [ true ↦ awaits r | false ↦ answers (answered (decision_dict r)) ]
]

-- What follows, with the same object as it then is: its event was set in time, or not.
unfoldable pub wait_end : Bool → ApprovalRequest → WaitAnswer
wait_end true r = answered (decision_dict r)
wait_end false r = timed_out r

-- The context variable and the thread's attribute.
pub record Bindings : Type 0 where
  pub current_bus : Option Bus
  pub local_bus : Option Bus

unfoldable pub get_bus : Bindings → Option Bus
get_bus b = elim b.current_bus [ some bus ↦ some bus | none ↦ b.local_bus ]

unfoldable pub bind_bus : Option Bus → Bindings → Bindings
bind_bus bus b = record { current_bus = bus; local_bus = bus }

-- `bus or get_bus()`
abbrev pub or_bound : Option Bus → Bindings → Option Bus
or_bound none b = get_bus b
or_bound (some bus) b = some bus

pub data Error : Type 0 where
  runtime_error : Error

-- The shortcuts, with the bus that they act on.
unfoldable pub request_here :
    Option Bus → Bindings → String → String → String → ℕ → Result Error (String × Bus)
unfolding get_bus
request_here given b generated scope summary now = elim (or_bound given b) [
  | none ↦ err runtime_error
  | some bus ↦ ok (request_approval none generated scope summary now bus)
]

unfoldable pub wait_here : Option Bus → Bindings → String → Result Error Waiting
unfolding get_bus wait_begin
wait_here given b id = elim (or_bound given b) [
  | none ↦ err runtime_error
  | some bus ↦ ok (wait_begin id bus)
]

unfoldable pub signal_here : String → Option Bus → Bindings → Option Bus
unfolding get_bus
signal_here reason given b = elim (or_bound given b) [
  | none ↦ none
  | some bus ↦ some (signal_interrupt reason bus)
]

unfoldable pub interrupted_here : Option Bus → Bindings → Bool
unfolding get_bus
interrupted_here given b = elim (or_bound given b) [ none ↦ false | some bus ↦ bus.interrupt ]
