-- ===== src/Runbook/Walk.antt =====
-- The states that a backend keeps: each run has walked along edges of its runbook.
use obase.Base.{
  ℕ, ◌≡◌, refl, sym, ◌∙◌, subst, Bool, true, false, Option, some, String, string_eq, List, [], ◌∷◌,
  ◌++◌, arith, leb, first, exists, Result, ok, err, ◌>>=◌, Option-cases, Bool-cases, inl, inr,
}
use obase.Base.Dict.{lookup, insert, lookup-insert_self, AllValues, insert-AllValues}
use mathlib.Core.Option.{some-injective}
use obase.Runbook.State.{
  Edge, Node, Runbook, Evidence, RunEntry, RunState, Transition, running, completed, Error, Backend,
  save, fresh_entry,
}
use obase.Runbook.Goto.{
  entry_of, node_of, leads, leaves, find_edge, Runner, Checked, all_passed, failed_at, raised,
  run_checks, run_hook, Answer, attempts_at, note_failure, enter, transfer, after_checks, try_edge,
  is_running, go_from, keep,
}

-- Consecutive transitions, from one node to another, each along an edge.
abbrev pub IsWalk : Runbook → List Transition → String → String → Type 0
IsWalk runbook [] a b = a ≡ b
IsWalk runbook (t ∷ ts) a b =
    (t.from_node ≡ a)
    × (exists (leads t.from_node t.to_node) runbook.edges ≡ true)
    × IsWalk runbook ts t.to_node b

abbrev pub IsHere : RunState → RunEntry → Type 0
IsHere s entry =
    (lookup s.current_entry_id s.entries ≡ some entry) × (entry.node_id ≡ s.current_node)

pub record IsSound (runbook : Runbook) (s : RunState) : Type 0 where
  pub walk : IsWalk runbook s.transitions runbook.initial s.current_node
  pub here : (entry : RunEntry) × IsHere s entry
  pub ended : s.state ≡ completed → exists (leaves s.current_node) runbook.edges ≡ false

IsWalk-snoc :
    (runbook : Runbook) (ts : List Transition) (a b : String) (t : Transition)
    → IsWalk runbook ts a b
    → t.from_node ≡ b
    → exists (leads t.from_node t.to_node) runbook.edges ≡ true
    → IsWalk runbook (ts ++ t ∷ []) a t.to_node
IsWalk-snoc runbook [] a b t w from edge = (from ∙ sym w, edge, refl)
IsWalk-snoc runbook (u ∷ ts) a b t (at, known, w) from edge =
    (at, known, IsWalk-snoc runbook ts u.to_node b t w from edge)

first-exists :
    {A : Type 0} (p : A → Bool) (xs : List A) (x : A)
    → first p xs ≡ some x
    → (exists p xs ≡ true) × (p x ≡ true)
first-exists p [] x h = absurd (ground (arith, h))
first-exists p (y ∷ xs) x h = elim (Bool-cases (p y)) [
  | inl hit ↦ (rw hit refl, ground (arith, hit, h))
  | inr miss ↦ let (some_hit, hit) = first-exists p xs x (rw miss at h) in (rw miss some_hit, hit)
]

leads-from : (a b : String) (e : Edge) → leads a b e ≡ true → (e.from_node ≡ a) × (e.to_node ≡ b)
leads-from a b e h = (ground (arith, h), ground (arith, h))

-- A predicate of the state that a call saves.
Saved : (RunState → Type 0) → Result Error (Answer × RunState) → Type 0
Saved P (err e) = Unit
Saved P (ok (answer, s)) = P s

bind-Saved :
    {A : Type 0} (P : RunState → Type 0) (r : Result Error A)
    (f : A → Result Error (Answer × RunState))
    → ((a : A) → r ≡ ok a → Saved P (f a))
    → Saved P (r >>= f)
unfolding Saved
bind-Saved P (ok a) f h = h a refl
bind-Saved P (err e) f h = tt

enter-IsSound :
    (runbook : Runbook) (new_id : String) (now : ℕ) (edge : Edge) (target : String)
    (done : List Evidence) (s : RunState)
    → find_edge runbook s.current_node target ≡ some edge
    → s.state ≡ running
    → IsSound runbook s
    → IsSound runbook (enter runbook new_id now edge target done s)
unfolding enter
enter-IsSound runbook new_id now edge target done s found live sound =
    let (known, hit) = first-exists (leads s.current_node target) runbook.edges edge found in
    let (from, to) = leads-from s.current_node target edge hit in
    record {
      walk =
          IsWalk-snoc runbook s.transitions runbook.initial s.current_node _ sound.walk from
            (rw from known);
      here = (fresh_entry new_id target now, (lookup-insert_self new_id _ s.entries, refl));
      ended = λ h. ground (arith, h, live);
    }

transfer-Saved :
    (runbook : Runbook) (hooks : Option (String → Bool)) (new_id : String) (now : ℕ) (edge : Edge)
    (target : String) (node : Node) (done : List Evidence) (s : RunState)
    → find_edge runbook s.current_node target ≡ some edge
    → s.state ≡ running
    → IsSound runbook s
    → Saved (IsSound runbook) (transfer runbook hooks new_id now edge target node done s)
unfolding transfer Saved
transfer-Saved runbook hooks new_id now edge target node done s found live sound =
    bind-Saved (IsSound runbook) (run_hook hooks node.out_hook) _ (λ _ _.
      bind-Saved (IsSound runbook) (run_hook hooks edge.hook) _ (λ _ _.
        bind-Saved (IsSound runbook) (node_of runbook target) _ (λ target_node _.
          bind-Saved (IsSound runbook) (run_hook hooks target_node.in_hook) _
            (λ _ _. enter-IsSound runbook new_id now edge target done s found live sound))))

entry_of-here :
    (s : RunState) {entry : RunEntry}
    → entry_of s ≡ ok entry
    → lookup s.current_entry_id s.entries ≡ some entry
entry_of-here s h = ground (arith, h)

-- A change of the current entry that keeps its node keeps the state sound.
pub entry-IsSound :
    (runbook : Runbook) (s : RunState) (entry : RunEntry)
    → entry.node_id ≡ s.current_node
    → IsSound runbook s
    → IsSound runbook (record s { entries = insert s.current_entry_id entry s.entries })
entry-IsSound runbook s entry at sound = record {
  walk = sound.walk;
  here = (entry, (lookup-insert_self s.current_entry_id entry s.entries, at));
  ended = sound.ended;
}

pub entry_of-node :
    (runbook : Runbook) (s : RunState) {entry : RunEntry}
    → entry_of s ≡ ok entry
    → IsSound runbook s
    → entry.node_id ≡ s.current_node
entry_of-node runbook s {entry} h sound =
    let (other, (found, at)) = sound.here in
    subst (λ (e : RunEntry). e.node_id ≡ s.current_node)
      (some-injective _ _ (sym found ∙ entry_of-here s h)) at

try_edge-Saved :
    (runbook : Runbook) (runner : Runner) (hooks : Option (String → Bool)) (new_id : String)
    (now : ℕ) (target : String) (s : RunState) (edge : Edge)
    → find_edge runbook s.current_node target ≡ some edge
    → s.state ≡ running
    → IsSound runbook s
    → Saved (IsSound runbook) (try_edge runbook runner hooks new_id now target s edge)
unfolding try_edge Saved after_checks note_failure
try_edge-Saved runbook runner hooks new_id now target s edge found live sound =
    bind-Saved (IsSound runbook) (entry_of s) _ (λ entry entered.
      elim (Bool-cases (leb edge.max_attempts (attempts_at edge entry))) [
        | inl over ↦
            rw over
              (record { walk = sound.walk; here = sound.here; ended = λ h. ground (arith, h) })
        | inr under ↦ rw under (
            bind-Saved (IsSound runbook) (node_of runbook s.current_node) _ (λ node _.
              after node entry (entry_of-node runbook s entered sound)
                (run_checks runner [] (node.before_transfer ++ entry.dynamic_checks))))
      ])
  where
    after :
        (node : Node) (entry : RunEntry)
        → entry.node_id ≡ s.current_node
        → (c : Checked)
        → Saved (IsSound runbook) (after_checks runbook hooks new_id now edge target node entry s c)
    after node entry at raised = tt
    after node entry at (failed_at v done) = entry-IsSound runbook s _ at sound
    after node entry at (all_passed done) =
        transfer-Saved runbook hooks new_id now edge target node done s found live sound

pub go_from-keep :
    (runbook : Runbook) (runner : Runner) (hooks : Option (String → Bool)) (new_id : String)
    (now : ℕ) (target : String) (s : RunState) (b : Backend)
    → IsSound runbook s
    → AllValues (IsSound runbook) b
    → AllValues (IsSound runbook) (keep (go_from runbook runner hooks new_id now target s) b).1
unfolding go_from save Saved
go_from-keep runbook runner hooks new_id now target s b sound all =
    elim (Bool-cases (is_running s.state)) [
      | inr halted ↦ rw (halted, go_from) all
      | inl live ↦ elim (Option-cases (find_edge runbook s.current_node target)) [
        | inl nothing ↦ rw (live, go_from, nothing) all
        | inr (edge, found) ↦
            rw (live, go_from, found)
              (saved (try_edge runbook runner hooks new_id now target s edge) (
                try_edge-Saved runbook runner hooks new_id now target s edge found
                  (ground (arith, live)) sound))
      ]
    ]
  where
    saved :
        (r : Result Error (Answer × RunState))
        → Saved (IsSound runbook) r
        → AllValues (IsSound runbook) (keep (r >>= λ a. ok (a.0, some a.1)) b).1
    saved (err e) h = all
    saved (ok (answer, t)) h = insert-AllValues (IsSound runbook) t.run_id t b h all
