-- ===== src/Runbook/Saved.antt =====
-- The states that `runbook_goto` saves.
use obase.Base.{
  ℕ, ◌+◌, ◌≡◌, ◌≢◌, refl, subst, some, String, string_eq, List, [], ◌∷◌, ◌++◌, exists, arith,
  if◌then◌else◌,
}
use obase.Base.Dict.{lookup, insert, lookup-insert, lookup-insert_self}
use obase.Runbook.State.{
  Edge, Runbook, Evidence, RunEntry, RunState, completed, Backend, save, fresh_entry,
}
use obase.Runbook.Goto.{leaves, edge_key, attempts_at, note_failure, enter}

-- The run is where it was, with one attempt more at the edge and the results added to its entry.
abbrev pub IsNoted : Edge → RunEntry → List Evidence → RunState → RunState → Type 0
IsNoted edge entry done s t =
    (t.current_node ≡ s.current_node)
    × (t.current_entry_id ≡ s.current_entry_id)
    × (t.state ≡ s.state)
    × (t.transitions ≡ s.transitions)
    × ((id : String) → id ≢ s.current_entry_id → lookup id t.entries ≡ lookup id s.entries)
    × (entry' : RunEntry) × (lookup s.current_entry_id t.entries ≡ some entry')
    × (entry'.checks ≡ entry.checks ++ done)
    × (entry'.dynamic_checks ≡ entry.dynamic_checks)
    × (lookup (edge_key edge) entry'.attempts ≡ some (attempts_at edge entry + 1))
    × ((key : String)
        → key ≢ edge_key edge
        → lookup key entry'.attempts ≡ lookup key entry.attempts)

-- The run is in the target, with a new entry and one transition more; it is completed if no edge
-- leaves the target and keeps its state otherwise.
abbrev pub IsEntered :
    Runbook → String → ℕ → Edge → String → List Evidence → RunState → RunState → Type 0
IsEntered runbook id now edge target done s t =
    (t.current_node ≡ target)
    × (t.current_entry_id ≡ id)
    × (t.state ≡ (if exists (leaves target) runbook.edges then s.state else completed))
    × (t.transitions
        ≡ s.transitions
          ++ record {
            from_node = edge.from_node;
            to_node = target;
            from_entry = s.current_entry_id;
            to_entry = id;
            checks = done;
            ts = now;
          }
            ∷ [])
    × (lookup id t.entries
        ≡ some (record {
          entry_id = id;
          node_id = target;
          entered_at = now;
          checks = [];
          dynamic_checks = [];
          attempts = [];
        }))
    × ((other : String) → other ≢ id → lookup other t.entries ≡ lookup other s.entries)

-- The state of this run has been replaced, and that of no other run.
abbrev pub IsSavedAs : (RunState → Type 0) → RunState → Backend → Backend → Type 0
IsSavedAs P s b b' =
    (t : RunState) × (lookup s.run_id b' ≡ some t)
    × P t
    × ((other : String) → other ≢ s.run_id → lookup other b' ≡ lookup other b)

pub save-IsSavedAs :
    (P : RunState → Type 0) (s t : RunState) (b : Backend)
    → t.run_id ≡ s.run_id
    → P t
    → IsSavedAs P s b (save t b)
unfolding save
save-IsSavedAs P s t b same h = (
  t,
  subst (λ i. lookup i (insert t.run_id t b) ≡ some t) same (lookup-insert_self t.run_id t b),
  h,
  λ other differ. ground (arith, lookup-insert other t.run_id t b, differ, same),
)

pub note_failure-IsNoted :
    (edge : Edge) (entry : RunEntry) (done : List Evidence) (s : RunState)
    → IsNoted edge entry done s (note_failure edge entry done s)
unfolding note_failure
note_failure-IsNoted edge entry done s =
    let more = attempts_at edge entry + 1 in
    let entry' : RunEntry = record entry {
      attempts = insert (edge_key edge) more entry.attempts;
      checks = entry.checks ++ done;
    } in
    (
      refl,
      refl,
      refl,
      refl,
      λ id differ. ground (arith, lookup-insert id s.current_entry_id entry' s.entries, differ),
      entry',
      lookup-insert_self s.current_entry_id entry' s.entries,
      refl,
      refl,
      lookup-insert_self (edge_key edge) more entry.attempts,
      λ key differ. ground (arith, lookup-insert key (edge_key edge) more entry.attempts, differ),
    )

pub enter-IsEntered :
    (runbook : Runbook) (id : String) (now : ℕ) (edge : Edge) (target : String)
    (done : List Evidence) (s : RunState)
    → IsEntered runbook id now edge target done s (enter runbook id now edge target done s)
unfolding enter
enter-IsEntered runbook id now edge target done s = (
  refl,
  refl,
  refl,
  refl,
  lookup-insert_self id _ s.entries,
  λ other differ.
      ground (arith, lookup-insert other id (fresh_entry id target now) s.entries, differ),
)

pub run_id_noted :
    (edge : Edge) (entry : RunEntry) (done : List Evidence) (s : RunState)
    → (note_failure edge entry done s).run_id ≡ s.run_id
unfolding note_failure
run_id_noted edge entry done s = refl

pub run_id_entered :
    (runbook : Runbook) (id : String) (now : ℕ) (edge : Edge) (target : String)
    (done : List Evidence) (s : RunState)
    → (enter runbook id now edge target done s).run_id ≡ s.run_id
unfolding enter
run_id_entered runbook id now edge target done s = refl
