-- ===== src/LoopEvents/View.antt =====
-- The event log is the source of truth: the tracker is what its events come to.
use obase.Base.{
  ℕ, ◌+◌, ◌≡◌, refl, sym, ap, subst, ◌∙◌, Bool, true, false, Option, none, some, String, string_eq,
  nat_eq, List, [], ◌∷◌, ◌++◌, ltb, Bool-cases, inl, inr,
}
use obase.Base.Int.{ℤ, pos, negsuc}
use obase.LoopEvents.Quota.{
  QuotaEvent, quota_consumed, quota_paused, quota_resumed, QuotaTracker, Entry, Effect, consume,
  record_usage, unpause, resume,
}

-- What a reader of the log knows of the quota.
pub record View : Type 0 where
  pub spent : ℕ
  pub paused : Bool

unfoldable pub step : QuotaEvent → View → View
step (quota_consumed cost spent budget note) w = record w { spent = spent }
step (quota_paused spent budget) w = record { spent = spent; paused = true }
step (quota_resumed note spent budget) w = record { spent = spent; paused = false }

unfoldable pub project : List QuotaEvent → View → View
unfolding step
project [] w = w
project (e ∷ events) w = project events (step e w)

abbrev pub view : QuotaTracker → View
view q = record { spent = q.spent; paused = q.paused }

pub data Call : Type 0 where
  records : ℤ → String → ℕ → Call
  resumes : Option ℤ → String → Call

abbrev pub after : {A : Type 0} → Effect A → QuotaTracker × List QuotaEvent
after (r, q, events) = (q, events)

unfoldable pub apply : Call → QuotaTracker → QuotaTracker × List QuotaEvent
unfolding record_usage resume
apply (records cost note now) q = after (record_usage cost note now q)
apply (resumes budget note) q = after (resume budget note q)

-- The tracker after some calls, and all events of theirs.
unfoldable pub run : List Call → QuotaTracker → QuotaTracker × List QuotaEvent
unfolding apply
run [] q = (q, [])
run (c ∷ calls) q =
    let (q', events) = apply c q in let (q'', later) = run calls q' in (q'', events ++ later)

project-append :
    (xs ys : List QuotaEvent) (w : View) → project (xs ++ ys) w ≡ project ys (project xs w)
unfolding project
project-append [] ys w = refl
project-append (x ∷ xs) ys w = project-append xs ys (step x w)

-- One call: its events take the view to the view afterwards.
Steps : QuotaTracker → QuotaTracker × List QuotaEvent → Type 0
Steps q (q', events) = (q'.has_store ≡ true) × (project events (view q) ≡ view q')

-- A tracker that writes to a store.
abbrev pub stored : ℕ → Bool → ℕ → Bool → List Entry → QuotaTracker
stored budget auto_pause spent paused entries = record {
  budget = budget;
  has_store = true;
  auto_pause = auto_pause;
  spent = spent;
  paused = paused;
  entries = entries;
}

consume-Steps :
    (cost now : ℕ) (note : String) (budget : ℕ) (auto_pause : Bool) (spent : ℕ) (paused : Bool)
    (entries : List Entry)
    → let q = stored budget auto_pause spent paused entries in
      Steps q (after (consume cost note now q))
unfolding consume Steps project step
consume-Steps cost now note budget true spent paused entries =
    elim (Bool-cases (ltb budget (spent + cost))) [
      | inr within ↦ rw (consume, within) (refl, refl)
      | inl over ↦ rw (consume, over) (refl, refl)
    ]
consume-Steps cost now note budget false spent paused entries =
    elim (Bool-cases (ltb budget (spent + cost))) [
      | inr within ↦ rw (consume, within) (refl, refl)
      | inl over ↦ rw (consume, over) (refl, refl)
    ]

unpause-Steps :
    (note : String) (old budget : ℕ) (auto_pause : Bool) (spent : ℕ) (paused : Bool)
    (entries : List Entry)
    → Steps
        (stored old auto_pause spent paused entries)
        (after (unpause note (stored budget auto_pause spent paused entries)))
unfolding Steps project step
unpause-Steps note old budget auto_pause spent true entries = (refl, refl)
unpause-Steps note old budget auto_pause spent false entries = (refl, refl)

apply-Steps :
    (c : Call) (budget : ℕ) (auto_pause : Bool) (spent : ℕ) (paused : Bool) (entries : List Entry)
    → let q = stored budget auto_pause spent paused entries in Steps q (apply c q)
unfolding apply record_usage resume Steps project
apply-Steps (records (negsuc n) note now) budget auto_pause spent paused entries = (refl, refl)
apply-Steps (records (pos cost) note now) budget auto_pause spent true entries = (refl, refl)
apply-Steps (records (pos cost) note now) budget auto_pause spent false entries =
    consume-Steps cost now note budget auto_pause spent false entries
apply-Steps (resumes none note) budget auto_pause spent paused entries =
    unpause-Steps note budget budget auto_pause spent paused entries
apply-Steps (resumes (some (negsuc n)) note) budget auto_pause spent paused entries = (refl, refl)
apply-Steps (resumes (some (pos new)) note) budget auto_pause spent paused entries =
    unpause-Steps note budget new auto_pause spent paused entries

apply-Steps_any : (c : Call) (q : QuotaTracker) → q.has_store ≡ true → Steps q (apply c q)
apply-Steps_any c q there =
    subst (λ (b : Bool). Steps (record q { has_store = b }) (apply c (record q { has_store = b })))
      (sym there) (apply-Steps c q.budget q.auto_pause q.spent q.paused q.entries)

pub run-project :
    (calls : List Call) (q : QuotaTracker)
    → q.has_store ≡ true
    → let (q', events) = run calls q in project events (view q) ≡ view q'
unfolding run Steps project
run-project [] q there = refl
run-project (c ∷ calls) q there =
    let (there', here) = apply-Steps_any c q there in
    let (q', events) = apply c q in
    let (q'', later) = run calls q' in
    project-append events later (view q) ∙ ap (project later) here ∙ run-project calls q' there'
