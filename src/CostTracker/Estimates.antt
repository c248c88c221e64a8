-- ===== src/CostTracker/Estimates.antt =====
-- `estimate` and `estimate_steps` against `record`.
use obase.Base.{ℕ, ◌+◌, ◌≡◌, refl, Option, String, string_eq, List, [], ◌∷◌, arith, ok}
use obase.Base.Dict.{Dict, lookup, insert}
use obase.CostTracker.{
  Tracker, or_default, default_name, tracker_record, estimate, StepUsage, CostBreakdown, or_zero,
  add_step, add_steps, estimate_steps,
}

-- A cost that `record` returns is the cost that `estimate` foretells for the same provider, tier,
-- category, unit and quantity.
pub record_estimate :
    (provider unit category : String) (tier : Option String) (quantity c : ℕ) (t : Tracker)
    → (tracker_record
        (record {
          category = category;
          provider = provider;
          model_or_tier = or_default tier;
          unit = unit;
        })
        quantity
        t).0
      ≡ ok c
    → estimate provider quantity category tier unit t ≡ c
unfolding tracker_record estimate
record_estimate provider unit category tier quantity c t h = ground arith

abbrev pub sum_values : Dict String ℕ → ℕ
sum_values [] = 0
sum_values ((_, n) ∷ d) = n + sum_values d

-- Adding to the value of a key adds to the sum of the values.
sum_values-insert :
    (k : String) (n : ℕ) (d : Dict String ℕ)
    → sum_values (insert k (or_zero (lookup k d) + n) d) ≡ sum_values d + n
unfolding insert lookup
sum_values-insert k n [] = omega arith
sum_values-insert k n ((j, m) ∷ d) = ground (arith, sum_values-insert k n d)

add_steps-sum :
    (t : Tracker) (steps : List StepUsage) (acc : CostBreakdown)
    → acc.total ≡ sum_values acc.per_step
    → (add_steps t steps acc).total ≡ sum_values (add_steps t steps acc).per_step
unfolding add_steps
add_steps-sum t [] acc h = h
add_steps-sum t (s ∷ steps) acc h =
    let n = estimate s.provider s.usage default_name s.tier s.unit t in
    add_steps-sum t steps (add_step t s acc)
      (omega (arith, h, sum_values-insert s.step n acc.per_step))

-- The total of a breakdown is the sum of its amounts by step, also where several steps share a name.
pub estimate_steps-sum :
    (steps : List StepUsage) (t : Tracker)
    → (estimate_steps steps t).total ≡ sum_values (estimate_steps steps t).per_step
unfolding estimate_steps
estimate_steps-sum steps t = add_steps-sum t steps (record { per_step = []; total = 0 }) refl

-- The steps with other categories.
abbrev pub recategorise : (StepUsage → String) → List StepUsage → List StepUsage
recategorise f [] = []
recategorise f (s ∷ steps) = record s { category = f s } ∷ recategorise f steps

add_steps-recategorised :
    (f : StepUsage → String) (t : Tracker) (steps : List StepUsage) (acc : CostBreakdown)
    → add_steps t (recategorise f steps) acc ≡ add_steps t steps acc
unfolding add_steps
add_steps-recategorised f t [] acc = refl
add_steps-recategorised f t (s ∷ steps) acc = add_steps-recategorised f t steps (add_step t s acc)

-- The categories of the steps make no difference to a breakdown: whatever they are changed to, the
-- estimate is the same.
pub estimate_steps-recategorised :
    (f : StepUsage → String) (steps : List StepUsage) (t : Tracker)
    → estimate_steps (recategorise f steps) t ≡ estimate_steps steps t
unfolding estimate_steps
estimate_steps-recategorised f steps t =
    add_steps-recategorised f t steps (record { per_step = []; total = 0 })
