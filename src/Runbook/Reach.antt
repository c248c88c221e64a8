-- ===== src/Runbook/Reach.antt =====
-- What any sequence of calls for the runs of one runbook leaves in a backend.
use obase.Base.{
  ℕ, ◌≡◌, refl, Bool, true, false, Option, some, String, string_eq, List, [], ◌∷◌, Result, ok, err,
  ◌⊎◌, Option-cases, arith, inl, inr,
}
use obase.Base.Dict.{lookup, lookup-insert_self, AllValues, insert-AllValues, lookup-AllValues}
use obase.Runbook.State.{
  Check, Runbook, RunState, Backend, save, require_state, fresh_entry, first_state, start_runbook,
}
use obase.Runbook.Goto.{entry_of, Runner, runbook_goto, register_dynamic_check}
use obase.Runbook.Walk.{IsSound, go_from-keep, entry_of-node, entry-IsSound}

-- The calls that change a backend: with the run, the new entry's id and the clock.
pub data Call : Type 0 where
  starts : String → Bool → String → ℕ → Call
  goes : Runner → Option (String → Bool) → String → ℕ → String → String → Call
  adds_check : String → Check → Call

unfoldable pub apply : (Runbook → String) → Runbook → Call → Backend → Backend
apply hash runbook (starts run_id resume id now) b =
    (start_runbook hash runbook run_id resume id now b).1
apply hash runbook (goes runner hooks id now run_id target) b =
    (runbook_goto runbook runner hooks id now run_id target b).1
apply hash runbook (adds_check run_id check) b = (register_dynamic_check run_id check b).1

unfoldable pub run : (Runbook → String) → Runbook → List Call → Backend → Backend
run hash runbook [] b = b
run hash runbook (call ∷ calls) b = run hash runbook calls (apply hash runbook call b)

AllSound : Runbook → Backend → Type 0
AllSound runbook b = AllValues (IsSound runbook) b

first_state-IsSound :
    (hash : Runbook → String) (runbook : Runbook) (run_id id : String) (now : ℕ)
    → IsSound runbook (first_state hash runbook run_id id now)
unfolding first_state
first_state-IsSound hash runbook run_id id now = record {
  walk = refl;
  here = (fresh_entry id runbook.initial now, (lookup-insert_self id _ [], refl));
  ended = λ h. ground (arith, h);
}

start-AllSound :
    (hash : Runbook → String) (runbook : Runbook) (run_id : String) (resume : Bool) (id : String)
    (now : ℕ) (b : Backend)
    → AllSound runbook b
    → AllSound runbook (start_runbook hash runbook run_id resume id now b).1
unfolding start_runbook AllSound save
start-AllSound hash runbook run_id false id now b all =
    insert-AllValues (IsSound runbook) _ _ b (first_state-IsSound hash runbook run_id id now) all
start-AllSound hash runbook run_id true id now b all = elim (Option-cases (lookup run_id b)) [
  | inl new ↦
      rw (new, start_runbook)
        (insert-AllValues (IsSound runbook) _ _ b (first_state-IsSound hash runbook run_id id now)
          all)
  | inr (s, old) ↦ rw (old, start_runbook) all
]

goto-AllSound :
    (runbook : Runbook) (runner : Runner) (hooks : Option (String → Bool)) (id : String) (now : ℕ)
    (run_id target : String) (b : Backend)
    → AllSound runbook b
    → AllSound runbook (runbook_goto runbook runner hooks id now run_id target b).1
unfolding runbook_goto AllSound require_state
goto-AllSound runbook runner hooks id now run_id target b all =
    elim (Option-cases (lookup run_id b)) [
      | inl unknown ↦ rw (unknown, runbook_goto, require_state) all
      | inr (s, found) ↦
          rw (found, runbook_goto, require_state)
            (go_from-keep runbook runner hooks id now target s b
              (lookup-AllValues (IsSound runbook) run_id b all found) all)
    ]

Result-cases : {E A : Type 0} (r : Result E A) → ((e : E) × (r ≡ err e)) ⊎ ((a : A) × (r ≡ ok a))
Result-cases (ok a) = inr (a, refl)
Result-cases (err e) = inl (e, refl)

check-AllSound :
    (runbook : Runbook) (run_id : String) (check : Check) (b : Backend)
    → AllSound runbook b
    → AllSound runbook (register_dynamic_check run_id check b).1
unfolding register_dynamic_check AllSound require_state save
check-AllSound runbook run_id check b all = elim (Option-cases (lookup run_id b)) [
  | inl unknown ↦ rw (unknown, register_dynamic_check, require_state) all
  | inr (s, found) ↦
      let sound : IsSound runbook s = lookup-AllValues (IsSound runbook) run_id b all found in
      elim (Result-cases (entry_of s)) [
        | inl (e, lost) ↦ rw (found, register_dynamic_check, require_state, lost) all
        | inr (entry, entered) ↦
            rw (found, register_dynamic_check, require_state, entered)
              (insert-AllValues (IsSound runbook) s.run_id _ b
                (entry-IsSound runbook s _ (entry_of-node runbook s entered sound) sound) all)
      ]
]

apply-AllSound :
    (hash : Runbook → String) (runbook : Runbook) (call : Call) (b : Backend)
    → AllSound runbook b
    → AllSound runbook (apply hash runbook call b)
unfolding apply
apply-AllSound hash runbook (starts run_id resume id now) b all =
    start-AllSound hash runbook run_id resume id now b all
apply-AllSound hash runbook (goes runner hooks id now run_id target) b all =
    goto-AllSound runbook runner hooks id now run_id target b all
apply-AllSound hash runbook (adds_check run_id check) b all =
    check-AllSound runbook run_id check b all

run-AllSound :
    (hash : Runbook → String) (runbook : Runbook) (calls : List Call) (b : Backend)
    → AllSound runbook b
    → AllSound runbook (run hash runbook calls b)
unfolding run
run-AllSound hash runbook [] b all = all
run-AllSound hash runbook (call ∷ calls) b all =
    run-AllSound hash runbook calls (apply hash runbook call b)
      (apply-AllSound hash runbook call b all)

-- In every backend that calls for the runs of a runbook lead to from an empty one, with any checks,
-- hooks and interleaving of runs, each run's transitions are a walk along edges from the initial node
-- to its current node, its current entry is there and is of that node, and a completed run is in a
-- node that no edge leaves.
pub run-IsSound :
    (hash : Runbook → String) (runbook : Runbook) (calls : List Call) (run_id : String)
    {s : RunState}
    → lookup run_id (run hash runbook calls []) ≡ some s
    → IsSound runbook s
unfolding AllSound
run-IsSound hash runbook calls run_id found =
    lookup-AllValues (IsSound runbook) run_id _ (run-AllSound hash runbook calls [] tt) found
