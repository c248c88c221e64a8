-- ===== src/HitlBus/Tests.antt =====
-- Calls on a bus, and the theorem at them.
use obase.Base.{
  ok, err, ◌≡◌, ◌≢◌, refl, true, false, none, some, String, string_eq, List, [], ◌∷◌, arith,
}
use text.Mathlib.TextEquality.{eq_iff}
use obase.Base.Dict.{lookup, insert}
use obase.HitlBus.{
  Bus, ApprovalRequest, approved, rejected, cancelled, init, request_approval, decide,
  signal_interrupt, reset_interrupt, health, list_pending,
}
use obase.HitlBus.Decisions.{
  Call, requests_approval, decides, interrupts, run, apply, decided, first_decision_wins,
}
use obase.HitlBus.Waiting.{wait_here, answers, answered, wait_begin, get_bus, runtime_error}
use obase.HitlBus.{decision_dict}

program : Unit {0}
unfolding lookup insert string_eq init request_approval decide signal_interrupt reset_interrupt
    health list_pending run apply wait_here wait_begin get_bus
program = tt

abbrev asked : ApprovalRequest
asked = record {
  request_id = "a";
  scope = "deploy";
  summary = "s";
  created_at = 1;
  decided_at = none;
  outcome = none;
  note = "";
  event = false;
}

abbrev bus : Bus
bus = record { requests = ("a", asked) ∷ []; interrupt = false; interrupt_reason = "" }

from_init : run (requests_approval (some "a") "g" "deploy" "s" 1 ∷ []) init ≡ bus
unfolding program
from_init = refl

b_ne_a : ◌≢◌ {A = String} "b" "a"
b_ne_a = ground (arith, eq_iff "b" "a")

abbrev before : List Call
before = requests_approval none "b" "x" "y" 2 ∷ interrupts "stop" ∷ []

abbrev after : List Call
after = decides "a" rejected "no" 4 ∷ decides "b" approved "" 5 ∷ []

abbrev decided_first : Bus
decided_first = (decide "a" approved "fine" 3 (run before bus)).1

found : lookup "a" bus.requests ≡ some asked
unfolding program
found = refl

-- Who waits for a decided request is answered at once; without a bus nobody can wait.
answered_now :
    wait_here none (record { current_bus = none; local_bus = some decided_first }) "a"
    ≡ ok (answers (answered (decision_dict (decided approved "fine" 3 asked))))
unfolding program
answered_now = refl

no_bus : wait_here none (record { current_bus = none; local_bus = none }) "a" ≡ err runtime_error
unfolding program
no_bus = refl

-- A decided request that is requested again under its id is pending again.
request_forgets :
    (health (
      run
        (decides "a" approved "" 3 ∷ requests_approval (some "a") "g" "deploy" "s" 1 ∷ [])
        bus)).pending_approvals
    ≡ 1
unfolding program
request_forgets = refl

first_decision_wins_example :
    ((decide "a" approved "fine" 3 (run before bus)).0 ≡ true)
    × (lookup "a" (run after decided_first).requests ≡ some (decided approved "fine" 3 asked))
    × (decide "a" cancelled "late" 6 (run after decided_first) ≡ (false, run after decided_first))
first_decision_wins_example =
    first_decision_wins "a" before after bus asked approved cancelled "fine" "late" 3 6 found refl
      (b_ne_a, (tt, tt)) (tt, (tt, tt))
