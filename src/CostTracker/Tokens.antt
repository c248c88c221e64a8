-- ===== src/CostTracker/Tokens.antt =====
-- `record_tokens` where the model has no price.
use obase.Base.{ℕ, ◌+◌, ◌*◌, ◌≡◌, true, none, String, arith, ok, err}
use obase.CostTracker.{
  Key, Tracker, find_price, pricing_not_configured, tracker_record, record_unit, token_key, in_rate,
  out_rate, record_both,
}

strict_raises :
    (k : Key) (q : ℕ) (t : Tracker)
    → t.strict ≡ true
    → find_price k t.table ≡ none
    → tracker_record k q t ≡ (err pricing_not_configured, t)
unfolding tracker_record
strict_raises k q t s h = ground arith

fallback :
    (k : Key) (q rate total : ℕ) (t : Tracker)
    → t.strict ≡ true
    → find_price k t.table ≡ none
    → ((record_unit k q rate total t).0 ≡ ok (total + q * rate))
      × ((record_unit k q rate total t).1.total_usd ≡ t.total_usd + q * rate)
      × ((record_unit k q rate total t).1.strict ≡ true)
      × ((record_unit k q rate total t).1.table ≡ t.table)
unfolding record_unit
fallback k q rate total t s h = ground (arith, strict_raises k q t s h)

-- On a strict tracker without prices for the model's tokens, a token record is charged at the
-- default rates, 3 and 15 micro-dollars for a token in and out, and never raises, whatever the
-- budget and however far the total is past it.
pub record_both_unpriced :
    (provider model : String) (i o : ℕ) (t : Tracker)
    → t.strict ≡ true
    → find_price (token_key provider model "in") t.table ≡ none
    → find_price (token_key provider model "out") t.table ≡ none
    → ((record_both provider model i o t).0 ≡ ok (i * 3 + o * 15))
      × ((record_both provider model i o t).1.total_usd ≡ t.total_usd + i * 3 + o * 15)
unfolding record_both
record_both_unpriced provider model i o t s no_in no_out =
    let k_in = token_key provider model "in" in
    let k_out = token_key provider model "out" in
    let first = fallback k_in i in_rate 0 t s no_in in
    ground (arith, first, fallback k_out o out_rate (i * 3) (record_unit k_in i in_rate 0 t).1)
