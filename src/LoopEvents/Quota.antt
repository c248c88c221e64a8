-- ===== src/LoopEvents/Quota.antt =====
-- obase/loop_event_store.py: `QuotaTracker`. Each method gives its result, the tracker afterwards and
-- the events that it appends to the store, in order; amounts of money are integers of one unit.
use obase.Base.{
  ℕ, ◌+◌, ◌-◌, Bool, true, false, Option, none, some, String, List, [], ◌∷◌, ◌++◌, ltb,
  if◌then◌else◌, Result, ok, err,
}
use obase.Base.Int.{ℤ, pos, negsuc}

pub data Error : Type 0 where
  value_error pause_requested budget_exceeded : Error

pub record Entry : Type 0 where
  pub cost : ℕ
  pub note : String
  pub spent : ℕ
  pub ts : ℕ

-- The payloads: cost, spent, budget and note; spent and budget; note, spent and budget. The goal's id,
-- which is the same in all, is left out.
pub data QuotaEvent : Type 0 where
  quota_consumed : ℕ → ℕ → ℕ → String → QuotaEvent
  quota_paused : ℕ → ℕ → QuotaEvent
  quota_resumed : String → ℕ → ℕ → QuotaEvent

pub record QuotaTracker : Type 0 where
  pub budget : ℕ
  pub has_store : Bool
  pub auto_pause : Bool
  pub spent : ℕ
  pub paused : Bool
  pub entries : List Entry

abbrev pub Effect : Type 0 → Type 0
Effect A = Result Error A × QuotaTracker × List QuotaEvent

unfoldable pub init : ℤ → Bool → Bool → Result Error QuotaTracker
init (negsuc _) has_store auto_pause = err value_error
init (pos budget) has_store auto_pause = ok (record {
  budget = budget;
  has_store = has_store;
  auto_pause = auto_pause;
  spent = 0;
  paused = false;
  entries = [];
})

-- `remaining_usd`; subtraction on ℕ stops at 0 as `max(0.0, …)` does.
abbrev pub remaining : QuotaTracker → ℕ
remaining q = q.budget - q.spent

abbrev pub emits : QuotaTracker → QuotaEvent → List QuotaEvent
emits q e = if q.has_store then e ∷ [] else []

-- `record_usage` from the addition on.
unfoldable pub consume : ℕ → String → ℕ → QuotaTracker → Effect ℕ
consume cost note now q =
    let spent = q.spent + cost in
    let q' : QuotaTracker = record q {
      spent = spent;
      entries = q.entries ++ record { cost = cost; note = note; spent = spent; ts = now } ∷ [];
    } in
    let consumed = emits q (quota_consumed cost spent q.budget note) in
    if ltb q.budget spent
    then if q.auto_pause
      then (
        err budget_exceeded,
        record q' { paused = true },
        consumed ++ emits q (quota_paused spent q.budget),
      )
      else (err budget_exceeded, q', consumed)
    else (ok spent, q', consumed)

unfoldable pub record_usage : ℤ → String → ℕ → QuotaTracker → Effect ℕ
unfolding consume
record_usage (negsuc _) note now q = (err value_error, q, [])
record_usage (pos cost) note now q =
    if q.paused then (err pause_requested, q, []) else consume cost note now q

unfoldable pub check : QuotaTracker → Result Error (Unit {0})
check q = if ltb q.budget q.spent then err budget_exceeded else ok tt

-- `resume` once the new budget is set.
abbrev pub unpause : String → QuotaTracker → Effect (Unit {0})
unpause note q =
    if q.paused
    then (ok tt, record q { paused = false }, emits q (quota_resumed note q.spent q.budget))
    else (ok tt, q, [])

unfoldable pub resume : Option ℤ → String → QuotaTracker → Effect (Unit {0})
resume none note q = unpause note q
resume (some (negsuc _)) note q = (err value_error, q, [])
resume (some (pos budget)) note q = unpause note (record q { budget = budget })

abbrev pub keep_or {ℓ} : {A : Type ℓ} → A → Option A → A
keep_or a none = a
keep_or a (some b) = b

-- `restore`: what was set before a ValueError stays set.
unfoldable pub restore :
    ℤ → Option ℤ → Option Bool → QuotaTracker → Result Error (Unit {0}) × QuotaTracker
restore (negsuc _) budget paused q = (err value_error, q)
restore (pos spent) none paused q =
    (ok tt, record q { spent = spent; paused = keep_or q.paused paused })
restore (pos spent) (some (negsuc _)) paused q = (err value_error, record q { spent = spent })
restore (pos spent) (some (pos budget)) paused q =
    (ok tt, record q { spent = spent; budget = budget; paused = keep_or q.paused paused })
