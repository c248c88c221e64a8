-- ===== src/CostTracker.antt =====
-- obase/cost_tracker.py: the pricing table and the tracker that charges usage against a budget.
-- Amounts are whole micro-dollars and quantities whole units; the source uses floats.
pub mod Books
pub mod Pricing
pub mod Estimates
pub mod Tokens
mod Tests
use obase.Base.{
  ℕ, ◌+◌, ◌*◌, Bool, true, false, ◌&&◌, not, Option, none, some, String, string_eq, List, [], ◌∷◌,
  ◌++◌, ltb, leb, ◌==◌, if◌then◌else◌, first, select, Result, ok, err,
}
use obase.Base.Dict.{Dict, lookup, insert}

pub data Error : Type 0 where
  pricing_not_configured budget_exceeded : Error

-- What `lookup` compares: category, provider, model or tier, unit.
pub record Key : Type 0 where
  pub category : String
  pub provider : String
  pub model_or_tier : String
  pub unit : String

pub record PricingEntry : Type 0 where
  pub key : Key
  pub price_usd : ℕ

abbrev pub matches : Key → PricingEntry → Bool
matches k entry =
    entry.key.category == k.category
    && entry.key.provider == k.provider
    && entry.key.model_or_tier == k.model_or_tier
    && entry.key.unit == k.unit

-- `PricingTable.lookup`.
unfoldable pub find_price : Key → List PricingEntry → Option PricingEntry
find_price k entries = first (matches k) entries

-- `tier or "default"`: an empty tier counts as none.
abbrev pub default_name : String
default_name = "default"

abbrev pub empty_text : String
empty_text = ""

abbrev pub or_default : Option String → String
or_default none = default_name
or_default (some tier) = if tier == empty_text then default_name else tier

-- `register_pricing`: takes the entries with the key out, and adds the new one at the end.
unfoldable pub register_pricing :
    String → String → ℕ → String → Option String → List PricingEntry → List PricingEntry
register_pricing provider unit price_per_unit category tier entries =
    let k : Key = record {
      category = category;
      provider = provider;
      model_or_tier = or_default tier;
      unit = unit;
    } in
    select (λ e. not (matches k e)) entries ++ record { key = k; price_usd = price_per_unit } ∷ []

-- An item of `_entries`.
pub record Usage : Type 0 where
  pub key : Key
  pub quantity : ℕ
  pub cost_usd : ℕ

-- The tracker; `trail` lists the keys of the `pricing_missing` events, if a trail is attached.
pub record Tracker : Type 0 where
  pub table : List PricingEntry
  pub budget : Option ℕ
  pub strict : Bool
  pub trail : Option (List Key)
  pub total_usd : ℕ
  pub entries : List Usage

unfoldable pub init : List PricingEntry → Option ℕ → Bool → Option (List Key) → Tracker
init table budget strict trail = record {
  table = table;
  budget = budget;
  strict = strict;
  trail = trail;
  total_usd = 0;
  entries = [];
}

abbrev pub exceeds : Option ℕ → ℕ → Bool
exceeds none total = false
exceeds (some budget) total = ltb budget total

-- Adds the cost to the total and appends the entry.
abbrev pub post : Key → ℕ → ℕ → Tracker → Tracker
post k quantity cost t = record t {
  total_usd = t.total_usd + cost;
  entries = t.entries ++ record { key = k; quantity = quantity; cost_usd = cost } ∷ [];
}

unfoldable pub check_budget : Tracker → Result Error (Unit {0})
check_budget t = if exceeds t.budget t.total_usd then err budget_exceeded else ok tt

-- The end of `record`: the entry is posted before the budget is compared.
unfoldable pub charge : Key → ℕ → ℕ → Tracker → Result Error ℕ × Tracker
charge k quantity cost t =
    let t' = post k quantity cost t in
    (if exceeds t'.budget t'.total_usd then err budget_exceeded else ok cost, t')

abbrev pub emit : Key → Option (List Key) → Option (List Key)
emit k none = none
emit k (some events) = some (events ++ k ∷ [])

-- `CostTracker.record`.
unfoldable pub tracker_record : Key → ℕ → Tracker → Result Error ℕ × Tracker
unfolding charge find_price
tracker_record k quantity t = elim (find_price k t.table) [
  | none ↦
      if t.strict
      then (err pricing_not_configured, t)
      else charge k quantity 0 (record t { trail = emit k t.trail })
  | some entry ↦ charge k quantity (entry.price_usd * quantity) t
]

-- `CostTracker.estimate`.
unfoldable pub estimate : String → ℕ → String → Option String → String → Tracker → ℕ
unfolding find_price
estimate provider usage category tier unit t =
    let k : Key = record {
      category = category;
      provider = provider;
      model_or_tier = or_default tier;
      unit = unit;
    } in
    elim (find_price k t.table) [ none ↦ 0 | some entry ↦ entry.price_usd * usage ]

pub record StepUsage : Type 0 where
  pub step : String
  pub provider : String
  pub usage : ℕ
  pub unit : String
  pub tier : Option String
  pub category : String

pub record CostBreakdown : Type 0 where
  pub per_step : Dict String ℕ
  pub total : ℕ

abbrev pub or_zero : Option ℕ → ℕ
or_zero none = 0
or_zero (some n) = n

-- The body of the loop of `estimate_steps`: the category argument is left at its default.
abbrev pub add_step : Tracker → StepUsage → CostBreakdown → CostBreakdown
add_step t s acc =
    let cost = estimate s.provider s.usage default_name s.tier s.unit t in
    record acc {
      per_step = insert s.step (or_zero (lookup s.step acc.per_step) + cost) acc.per_step;
      total = acc.total + cost;
    }

unfoldable pub add_steps : Tracker → List StepUsage → CostBreakdown → CostBreakdown
unfolding estimate
add_steps t [] acc = acc
add_steps t (s ∷ steps) acc = add_steps t steps (add_step t s acc)

unfoldable pub estimate_steps : List StepUsage → Tracker → CostBreakdown
unfolding add_steps
estimate_steps steps t = add_steps t steps (record { per_step = []; total = 0 })

-- `record_cost`, over the tracker that the context holds.
unfoldable pub record_cost : Key → ℕ → Option Tracker → Result Error ℕ × Option Tracker
unfolding tracker_record
record_cost k quantity none = (ok 0, none)
record_cost k quantity (some t) = let (r, t') = tracker_record k quantity t in (r, some t')

-- One pass of the loop of `record_tokens`, over the running total. An exception other than
-- `PricingNotConfiguredError` leaves the loop.
unfoldable pub record_unit : Key → ℕ → ℕ → ℕ → Tracker → Result Error ℕ × Tracker
unfolding tracker_record
record_unit k quantity fallback_rate total t =
    if leb quantity 0
    then (ok total, t)
    else let (r, t') = tracker_record k quantity t in
      elim r [
        | ok cost ↦ (ok (total + cost), t')
        | err pricing_not_configured ↦
            let cost = quantity * fallback_rate in (ok (total + cost), post k quantity cost t')
        | err budget_exceeded ↦ (err budget_exceeded, t')
      ]

abbrev pub token_key : String → String → String → Key
token_key provider model_or_tier unit = record {
  category = "llm";
  provider = provider;
  model_or_tier = model_or_tier;
  unit = unit;
}

-- 3e-6 and 15e-6 dollars for a token.
abbrev pub in_rate : ℕ
in_rate = 3

abbrev pub out_rate : ℕ
out_rate = 15

-- The second pass, unless the first has raised.
abbrev pub second_pass : String → String → ℕ → Result Error ℕ × Tracker → Result Error ℕ × Tracker
second_pass provider model_or_tier out_tokens (ok total, t) =
    record_unit (token_key provider model_or_tier "out") out_tokens out_rate total t
second_pass provider model_or_tier out_tokens (err e, t) = (err e, t)

-- The loop of two passes, for a bound tracker.
unfoldable pub record_both : String → String → ℕ → ℕ → Tracker → Result Error ℕ × Tracker
unfolding record_unit
record_both provider model_or_tier in_tokens out_tokens t =
    second_pass provider model_or_tier out_tokens
      (record_unit (token_key provider model_or_tier "in") in_tokens in_rate 0 t)

-- `record_tokens`, over the tracker that the context holds.
unfoldable pub record_tokens :
    String → String → ℕ → ℕ → Option Tracker → Result Error ℕ × Option Tracker
unfolding record_both
record_tokens provider model_or_tier in_tokens out_tokens none = (ok 0, none)
record_tokens provider model_or_tier in_tokens out_tokens (some t) =
    let (r, t') = record_both provider model_or_tier in_tokens out_tokens t in (r, some t')
