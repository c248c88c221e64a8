-- ===== src/CostTracker/Books.antt =====
-- The total is the sum of the entries, whatever is recorded and however the calls end.
use obase.Base.{
  ℕ, ◌+◌, ◌*◌, ◌≡◌, refl, Bool, true, false, Option, none, String, List, [], ◌∷◌, ◌++◌, arith,
  Result, ok, err, if◌then◌else◌, length, length-append, Option-cases, inl, inr, Bool-cases,
}
use obase.CostTracker.{
  Error, budget_exceeded, pricing_not_configured, Key, PricingEntry, Usage, Tracker, find_price,
  init, exceeds, post, charge, tracker_record, record_unit, emit, record_both, token_key, in_rate,
  out_rate, second_pass,
}

pub sum_costs : List Usage → ℕ
sum_costs [] = 0
sum_costs (u ∷ us) = u.cost_usd + sum_costs us

sum_costs-snoc :
    (us : List Usage) (u : Usage) → sum_costs (us ++ u ∷ []) ≡ sum_costs us + u.cost_usd
unfolding sum_costs
sum_costs-snoc [] u = omega arith
sum_costs-snoc (v ∷ us) u = omega (arith, sum_costs-snoc us u)

abbrev pub IsBalanced : Tracker → Type 0
IsBalanced t = t.total_usd ≡ sum_costs t.entries

post-IsBalanced : (k : Key) (q cost : ℕ) (t : Tracker) → IsBalanced t → IsBalanced (post k q cost t)
post-IsBalanced k q cost t b =
    let u : Usage = record { key = k; quantity = q; cost_usd = cost } in
    omega (arith, sum_costs-snoc t.entries u)

tracker_record-IsBalanced :
    (k : Key) (q : ℕ) (t : Tracker) → IsBalanced t → IsBalanced (tracker_record k q t).1
unfolding tracker_record
tracker_record-IsBalanced k q t b = elim (Option-cases (find_price k t.table)) [
  | inl missing ↦ ground (arith, post-IsBalanced k q 0 t b)
  | inr (entry, found) ↦ ground (arith, post-IsBalanced k q (entry.price_usd * q) t b)
]

record_unit-IsBalanced :
    (k : Key) (q rate total : ℕ) (t : Tracker)
    → IsBalanced t
    → IsBalanced (record_unit k q rate total t).1
unfolding record_unit
record_unit-IsBalanced k q rate total t b =
    let b' = tracker_record-IsBalanced k q t b in
    let t' = (tracker_record k q t).1 in ground (arith, b', post-IsBalanced k q (q * rate) t' b')

record_both-IsBalanced :
    (provider model : String) (i o : ℕ) (t : Tracker)
    → IsBalanced t
    → IsBalanced (record_both provider model i o t).1
unfolding record_both
record_both-IsBalanced provider model i o t b =
    let k_in = token_key provider model "in" in
    let b' = record_unit-IsBalanced k_in i in_rate 0 t b in
    let (r, t') = record_unit k_in i in_rate 0 t in go r t' b'
  where
    go :
        (r : Result Error ℕ) (t' : Tracker)
        → IsBalanced t'
        → IsBalanced (second_pass provider model o (r, t')).1
    go (ok total) t' b' =
        record_unit-IsBalanced (token_key provider model "out") o out_rate total t' b'
    go (err e) t' b' = b'

-- A call through the context's tracker, by a caller that goes on after an exception.
pub data Op : Type 0 where
  usage : Key → ℕ → Op
  tokens : String → String → ℕ → ℕ → Op

unfoldable pub run : List Op → Tracker → Tracker
run [] t = t
run (usage k q ∷ ops) t = run ops (tracker_record k q t).1
run (tokens provider model i o ∷ ops) t = run ops (record_both provider model i o t).1

run-IsBalanced_from : (ops : List Op) (t : Tracker) → IsBalanced t → IsBalanced (run ops t)
unfolding run
run-IsBalanced_from [] t b = b
run-IsBalanced_from (usage k q ∷ ops) t b =
    run-IsBalanced_from ops _ (tracker_record-IsBalanced k q t b)
run-IsBalanced_from (tokens provider model i o ∷ ops) t b =
    run-IsBalanced_from ops _ (record_both-IsBalanced provider model i o t b)

-- After any row of cost and token records on a new tracker, those that raise included, the total
-- is the sum of the costs of the entries.
pub run-IsBalanced :
    (ops : List Op) (table : List PricingEntry) (budget : Option ℕ) (strict : Bool)
    (trail : Option (List Key))
    → IsBalanced (run ops (init table budget strict trail))
unfolding init sum_costs
run-IsBalanced ops table budget strict trail =
    run-IsBalanced_from ops (init table budget strict trail) refl

-- What each ending of `record` says.
abbrev pub RecordSays : Key → ℕ → Tracker → Result Error ℕ × Tracker → Type 0
RecordSays k q t (ok cost, t') =
    (t'.total_usd ≡ t.total_usd + cost)
    × (t'.entries ≡ t.entries ++ record { key = k; quantity = q; cost_usd = cost } ∷ [])
    × (exceeds t'.budget t'.total_usd ≡ false)
RecordSays k q t (err budget_exceeded, t') =
    (exceeds t'.budget t'.total_usd ≡ true) × (length t'.entries ≡ length t.entries + 1)
RecordSays k q t (err pricing_not_configured, t') =
    (t' ≡ t) × (t.strict ≡ true) × (find_price k t.table ≡ none)

charge-RecordSays :
    (k : Key) (q c : ℕ) (t : Tracker) (trail : Option (List Key))
    → RecordSays k q t (charge k q c (record t { trail = trail }))
unfolding charge
charge-RecordSays k q c t trail = elim (Bool-cases (exceeds t.budget (t.total_usd + c))) [
  | inl over ↦ rw over (over, length-append t.entries _)
  | inr within ↦ rw within (refl, refl, within)
]

unpriced-RecordSays :
    (k : Key) (q : ℕ) (t : Tracker)
    → find_price k t.table ≡ none
    → (strict : Bool) → t.strict ≡ strict
    → RecordSays k q t (
        if strict
        then (err pricing_not_configured, t)
        else charge k q 0 (record t { trail = emit k t.trail }))
unpriced-RecordSays k q t missing true strict = (refl, strict, missing)
unpriced-RecordSays k q t missing false lenient = charge-RecordSays k q 0 t (emit k t.trail)

-- How a call of `record` ends says what it did: a value is the cost that was added, with its entry,
-- and the total is within the budget; `BudgetExceeded` means that one entry was added and the total
-- has passed the budget; `PricingNotConfiguredError` means that nothing changed, that the tracker
-- is strict and that the key has no price.
pub tracker_record-RecordSays :
    (k : Key) (q : ℕ) (t : Tracker) → RecordSays k q t (tracker_record k q t)
unfolding tracker_record
tracker_record-RecordSays k q t = elim (Option-cases (find_price k t.table)) [
  | inl missing ↦ rw (missing, tracker_record) (unpriced-RecordSays k q t missing t.strict refl)
  | inr (entry, found) ↦
      rw (found, tracker_record) (charge-RecordSays k q (entry.price_usd * q) t t.trail)
]
