-- ===== src/CostTracker/Tests.antt =====
-- Runs of the tracker, and its theorems at concrete inputs.
use obase.Base.{◌≡◌, refl, true, Option, none, some, String, string_eq, List, [], ◌∷◌, err}
use obase.CostTracker.{
  budget_exceeded, Key, PricingEntry, Tracker, find_price, register_pricing, init, charge,
  tracker_record, estimate, StepUsage, estimate_steps, record_both, record_tokens,
}
use obase.CostTracker.Books.{
  Op, usage, tokens, run, IsBalanced, run-IsBalanced, RecordSays, tracker_record-RecordSays,
}

program : Unit {0}
unfolding find_price register_pricing init charge tracker_record estimate estimate_steps record_both
    record_tokens run string_eq
program = tt

abbrev fast : Key
fast = record { category = "default"; provider = "fal"; model_or_tier = "fast"; unit = "second" }

abbrev table : List PricingEntry
table = record { key = fast; price_usd = 40 } ∷ []

-- A budget of 100 micro-dollars.
abbrev tracker : Tracker
tracker = record {
  table = table;
  budget = some 100;
  strict = true;
  trail = none;
  total_usd = 0;
  entries = [];
}

abbrev tier : Option String
tier = some "fast"

abbrev steps : List StepUsage
steps =
    record {
      step = "video";
      provider = "fal";
      usage = 10;
      unit = "second";
      tier = tier;
      category = "video";
    }
    ∷ record {
      step = "video";
      provider = "fal";
      usage = 5;
      unit = "second";
      tier = tier;
      category = "video";
    }
    ∷ []

register_one : register_pricing "fal" "second" 40 "default" tier [] ≡ table
unfolding program
register_one = refl

record_over : (tracker_record fast 3 tracker).0 ≡ err budget_exceeded
unfolding program
record_over = refl

steps_total : (estimate_steps steps tracker).total ≡ 600
unfolding program
steps_total = refl

ops : List Op
ops = usage fast 2 ∷ usage fast 3 ∷ tokens "p" "m" 4 5 ∷ []

run-IsBalanced_example : IsBalanced (run ops (init table (some 100) true none))
run-IsBalanced_example = run-IsBalanced ops table (some 100) true none

tracker_record-RecordSays_example : RecordSays fast 3 tracker (tracker_record fast 3 tracker)
tracker_record-RecordSays_example = tracker_record-RecordSays fast 3 tracker

abbrev slow : Key
slow = record fast { model_or_tier = "slow" }
