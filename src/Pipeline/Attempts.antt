-- ===== src/Pipeline/Attempts.antt =====
-- The attempts at one stage: the first call that does not fail decides.
use obase.Base.{
  ℕ, zero, suc, ◌+◌, ◌≡◌, ◌≤◌, ◌<◌, ◌⊎◌, refl, sym, ap, ◌∙◌, subst, Bool, true, false, Option, none,
  some, String, List, [], ◌∷◌, ◌++◌, arith, inl, inr,
}
use mathlib.Core.Bool.{false≢true}
use obase.Pipeline.{
  Data, Outcome, returned, returned_none, pause_requested, budget_exceeded, contract_violation,
  failed_with, Stage, ErrorNote, attempt_failed, try_stage,
}

abbrev pub HasFailed : Stage → Data → ℕ → Type 0
HasFailed stage input m = (message : String) × (stage.func m input ≡ failed_with message)

abbrev pub is_failure : Outcome → Bool
is_failure (failed_with _) = true
is_failure _ = false

-- The first of the calls from `start` to before `stop` that does not fail comes to `o`.
abbrev pub IsFirst : Stage → Data → ℕ → ℕ → Outcome → Type 0
IsFirst stage input start stop o =
    (n : ℕ) × (start ≤ n)
    × (n < stop)
    × (stage.func n input ≡ o)
    × (is_failure o ≡ false)
    × ((m : ℕ) → start ≤ m → m < n → HasFailed stage input m)

unfoldable pub TrySays : Stage → Data → ℕ → ℕ → Option Outcome → Type 0
TrySays stage input start stop none = (m : ℕ) → start ≤ m → m < stop → HasFailed stage input m
TrySays stage input start stop (some o) = IsFirst stage input start stop o

TrySays-step :
    (stage : Stage) (input : Data) (start stop : ℕ) (o : Option Outcome)
    → HasFailed stage input start
    → TrySays stage input (suc start) stop o
    → TrySays stage input start stop o
unfolding TrySays
TrySays-step stage input start stop none failure h = λ m above below. elim (split start m above) [
  | inl same ↦ subst (HasFailed stage input) same failure
  | inr more ↦ h m more below
]
  where
    split : (a b : ℕ) → a ≤ b → (a ≡ b) ⊎ (suc a ≤ b)
    split a b h = ground arith
TrySays-step stage input start stop (some o) failure (n, above, below, at, good, before) = (
  n,
  omega arith,
  below,
  at,
  good,
  λ m above' below'. elim (split start m above') [
    | inl same ↦ subst (HasFailed stage input) same failure
    | inr more ↦ before m more below'
  ],
)
  where
    split : (a b : ℕ) → a ≤ b → (a ≡ b) ⊎ (suc a ≤ b)
    split a b h = ground arith

first_now :
    (stage : Stage) (input : Data) (start stop : ℕ) (o : Outcome)
    → start < stop
    → stage.func start input ≡ o
    → is_failure o ≡ false
    → TrySays stage input start stop (some o)
unfolding TrySays
first_now stage input start stop o room at good =
    (start, omega arith, room, at, good, λ m above below. absurd (omega arith))

pub try_stage-TrySays :
    (stage : Stage) (input : Data) (left attempts stop : ℕ) (errors : List ErrorNote)
    → attempts + left ≡ stop
    → TrySays stage input attempts stop (try_stage stage input left attempts errors).0
unfolding try_stage TrySays
try_stage-TrySays stage input zero attempts stop errors ends = λ m above below. absurd (omega arith)
try_stage-TrySays stage input (suc left) attempts stop errors ends =
    by_outcome (stage.func attempts input) refl (λ message.
      try_stage-TrySays stage input left (suc attempts) stop
        (errors ++ attempt_failed stage.name (suc attempts) message ∷ []) (omega arith))
  where
    by_outcome :
        (o : Outcome)
        → stage.func attempts input ≡ o
        → ((message : String)
            → TrySays stage input
                (suc attempts)
                stop
                (try_stage stage input left
                  (suc attempts)
                  (errors ++ attempt_failed stage.name (suc attempts) message ∷ [])).0)
        → TrySays stage input attempts stop (try_stage stage input (suc left) attempts errors).0
    by_outcome (failed_with message) at rest =
        rw (at, try_stage) (TrySays-step stage input attempts stop _ (message, at) (rest message))
    by_outcome (returned d) at rest =
        rw (at, try_stage) (first_now stage input attempts stop _ (omega (arith, ends)) at refl)
    by_outcome returned_none at rest =
        rw (at, try_stage) (first_now stage input attempts stop _ (omega (arith, ends)) at refl)
    by_outcome (pause_requested d) at rest =
        rw (at, try_stage) (first_now stage input attempts stop _ (omega (arith, ends)) at refl)
    by_outcome (budget_exceeded e) at rest =
        rw (at, try_stage) (first_now stage input attempts stop _ (omega (arith, ends)) at refl)
    by_outcome contract_violation at rest =
        rw (at, try_stage) (first_now stage input attempts stop _ (omega (arith, ends)) at refl)

-- There is one first call that does not fail, so the attempts come to what it came to.
pub first_unique :
    (stage : Stage) (input : Data) (stop : ℕ) (x : Option Outcome) (o : Outcome)
    → TrySays stage input 0 stop x
    → IsFirst stage input 0 stop o
    → x ≡ some o
unfolding TrySays
first_unique stage input stop none o all (n, above, below, at, good, before) =
    let (message, failure) = all n above below in
    absurd (false≢true (sym good ∙ ap is_failure (sym at ∙ failure)))
first_unique stage input stop (some x) o (m, above', below', at', good', before')
      (n, above, below, at, good, before) =
    elim (which m n) [
      | inl (inl less) ↦
          let (message, failure) = before m above' less in
          absurd (false≢true (sym good' ∙ ap is_failure (sym at' ∙ failure)))
      | inl (inr more) ↦
          let (message, failure) = before' n above more in
          absurd (false≢true (sym good ∙ ap is_failure (sym at ∙ failure)))
      | inr same ↦ ap some (sym at' ∙ ap (λ k. stage.func k input) same ∙ at)
    ]
  where
    which : (a b : ℕ) → ((a < b) ⊎ (b < a)) ⊎ (a ≡ b)
    which a b = ground arith
