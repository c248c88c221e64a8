-- ===== src/Runbook/History.antt =====
-- obase/orchestrator.py: `runbook_history`.
use obase.Base.{
  ℕ, zero, suc, ◌-◌, ◌≡◌, refl, ap, ◌∙◌, List, [], ◌∷◌, ◌++◌, String, length, length-append, Result,
  ok, ◌>>=◌, arith,
}
use obase.Runbook.State.{Transition, Error, Backend, require_state}

unfoldable pub drop : ℕ → List Transition → List Transition
drop zero ts = ts
drop (suc n) [] = []
drop (suc n) (t ∷ ts) = drop n ts

-- `transitions[-tail:]`; `-0` is 0, so that a tail of 0 is the whole list.
unfoldable pub last_ones : ℕ → List Transition → List Transition
unfolding drop
last_ones zero ts = ts
last_ones (suc n) ts = drop (length ts - suc n) ts

unfoldable pub runbook_history : String → ℕ → Backend → Result Error (List Transition)
unfolding require_state last_ones
runbook_history run_id tail b = require_state run_id b >>= λ s. ok (last_ones tail s.transitions)

drop-append : (xs ys : List Transition) → drop (length xs) (xs ++ ys) ≡ ys
unfolding drop
drop-append [] ys = refl
drop-append (x ∷ xs) ys = drop-append xs ys

-- The history with a tail from 1 on is the last that many transitions, whatever came before them.
pub last_ones-append :
    (xs ys : List Transition) (n : ℕ) → length ys ≡ suc n → last_ones (suc n) (xs ++ ys) ≡ ys
unfolding last_ones
last_ones-append xs ys n same =
    ap (λ k. drop k (xs ++ ys)) (omega (arith, length-append xs ys, same)) ∙ drop-append xs ys
