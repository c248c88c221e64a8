-- ===== src/Runbook/Gate.antt =====
-- What `runbook_goto` answers on each of its branches, and the state that it saves.
use obase.Base.{
  ℕ, ◌≡◌, ◌≤◌, ◌<◌, ◌⊎◌, refl, sym, subst, Bool, false, Option, none, some, String, string_eq, List,
  [], ◌++◌, arith, leb, leb→le, leb→gt, Result, ok, err, ◌>>=◌, ◌==◌, Option-cases, Bool-cases, inl,
  inr,
}
use obase.Base.Dict.{lookup}
use obase.Base.Members.{In}
use obase.Runbook.State.{
  Check, Edge, Node, Runbook, Evidence, RunEntry, RunState, blocked, Error, key_error, check_raised,
  hook_raised,
}
use obase.Runbook.Checks.{ArePassed, IsFirstFailure, ChecksSay, run_checks-ChecksSay}
use obase.Runbook.Goto.{
  entry_of, node_of, find_edge, attempts_at, Runner, Checked, all_passed, failed_at, raised,
  run_hook, Answer, invalid_state, no_edge, max_attempts_exceeded, check_failed, moved,
  note_failure, enter, transfer, after_checks, try_edge, is_running, go_from,
}

-- The edge, entry and node that a transition from `s` goes by.
pub record Way (runbook : Runbook) (s : RunState) (target : String) : Type 0 where
  pub edge : Edge
  pub entry : RunEntry
  pub found : find_edge runbook s.current_node target ≡ some edge
  pub entered : entry_of s ≡ ok entry

abbrev pub checks_of : Node → RunEntry → List Check
checks_of node entry = node.before_transfer ++ entry.dynamic_checks

-- What has raised: a missing entry or node, a check that was to be asked, or a hook.
abbrev pub Fails : Runbook → Runner → Option (String → Bool) → String → RunState → Error → Type 0
Fails runbook runner hooks target s key_error =
    (lookup s.current_entry_id s.entries ≡ none)
    ⊎ (lookup s.current_node runbook.nodes ≡ none)
    ⊎ (lookup target runbook.nodes ≡ none)
Fails runbook runner hooks target s check_raised =
    (way : Way runbook s target) × (node : Node) × (node_of runbook s.current_node ≡ ok node)
    × (c : Check) × In c (checks_of node way.entry)
    × (runner c ≡ none)
Fails runbook runner hooks target s hook_raised =
    (runs : String → Bool) × (hook : String) × (hooks ≡ some runs) × (runs hook ≡ false)
Fails runbook runner hooks target s _ = ⊥

-- What the answer of `runbook_goto` tells, and the state that is saved with it.
abbrev pub GotoSays :
    Runbook → Runner → String → ℕ → String → RunState → Answer → Option RunState → Type 0
GotoSays runbook runner id now target s (invalid_state status) t =
    (s.state ≡ status) × (is_running status ≡ false) × (t ≡ none)
GotoSays runbook runner id now target s no_edge t =
    (find_edge runbook s.current_node target ≡ none) × (t ≡ none)
GotoSays runbook runner id now target s max_attempts_exceeded t =
    (way : Way runbook s target) × (way.edge.max_attempts ≤ attempts_at way.edge way.entry)
    × (t ≡ some (record s { state = blocked }))
GotoSays runbook runner id now target s (check_failed v stay done) t =
    (way : Way runbook s target) × (node : Node) × (node_of runbook s.current_node ≡ ok node)
    × (attempts_at way.edge way.entry < way.edge.max_attempts)
    × IsFirstFailure runner (checks_of node way.entry) v done
    × (stay ≡ s.current_node)
    × (t ≡ some (note_failure way.edge way.entry done s))
GotoSays runbook runner id now target s (moved from to new_id prompt) t =
    (way : Way runbook s target) × (node : Node) × (node_of runbook s.current_node ≡ ok node)
    × (attempts_at way.edge way.entry < way.edge.max_attempts)
    × (from ≡ way.edge.from_node)
    × (to ≡ target)
    × (new_id ≡ id)
    × (done : List Evidence) × ArePassed runner (checks_of node way.entry) done
    × (t ≡ some (enter runbook id now way.edge target done s))

unfoldable pub Says :
    (Error → Type 0)
    → (Answer → Option RunState → Type 0)
    → Result Error (Answer × Option RunState)
    → Type 0
Says E P (err e) = E e
Says E P (ok (a, t)) = P a t

-- A result of the later parts, whose state is always saved.
Goes :
    (Error → Type 0)
    → (Answer → Option RunState → Type 0)
    → Result Error (Answer × RunState)
    → Type 0
Goes E P (err e) = E e
Goes E P (ok (a, t)) = P a (some t)

bind-Goes :
    {A : Type 0} (E : Error → Type 0) (P : Answer → Option RunState → Type 0) (r : Result Error A)
    (f : A → Result Error (Answer × RunState))
    → ((e : Error) → r ≡ err e → E e)
    → ((a : A) → r ≡ ok a → Goes E P (f a))
    → Goes E P (r >>= f)
unfolding Goes
bind-Goes E P (ok a) f bad h = h a refl
bind-Goes E P (err e) f bad h = bad e refl

Goes-Says :
    (E : Error → Type 0) (P : Answer → Option RunState → Type 0)
    (r : Result Error (Answer × RunState))
    → Goes E P r
    → Says E P (r >>= λ a. ok (a.0, some a.1))
unfolding Goes Says
Goes-Says E P (ok (a, t)) h = h
Goes-Says E P (err e) h = h

entry_of-err :
    (s : RunState) (e : Error)
    → entry_of s ≡ err e
    → (e ≡ key_error) × (lookup s.current_entry_id s.entries ≡ none)
entry_of-err s e h = elim (Option-cases (lookup s.current_entry_id s.entries)) [
  | inl nothing ↦ (ground (arith, h, nothing), nothing)
  | inr (entry, there) ↦ absurd (ground (arith, h, there))
]

node_of-err :
    (runbook : Runbook) (id : String) (e : Error)
    → node_of runbook id ≡ err e
    → (e ≡ key_error) × (lookup id runbook.nodes ≡ none)
node_of-err runbook id e h = elim (Option-cases (lookup id runbook.nodes)) [
  | inl nothing ↦ (ground (arith, h, nothing), nothing)
  | inr (node, there) ↦ absurd (ground (arith, h, there))
]

run_hook-err :
    (hooks : Option (String → Bool)) (hook : Option String) (e : Error)
    → run_hook hooks hook ≡ err e
    → (e ≡ hook_raised)
      × ((runs : String → Bool) × (h : String) × (hooks ≡ some runs) × (runs h ≡ false))
run_hook-err none hook e h = absurd (ground (arith, h))
run_hook-err (some runs) none e h = absurd (ground (arith, h))
run_hook-err (some runs) (some hook) e h = elim (Bool-cases (hook == "")) [
  | inl blank ↦ absurd (fine (rw blank at h))
  | inr named ↦ elim (Bool-cases (runs hook)) [
    | inl good ↦ absurd (fine (rw (named, good) at h))
    | inr bad ↦ (sym (raises (rw (named, bad) at h)), (runs, hook, refl, bad))
  ]
]
  where
    fine : ◌≡◌ {A = Result Error (Unit {0})} (ok tt) (err e) → ⊥
    fine h = ground (arith, h)

    raises : ◌≡◌ {A = Result Error (Unit {0})} (err hook_raised) (err e) → hook_raised ≡ e
    raises h = ground (arith, h)

transfer-Goes :
    (runbook : Runbook) (runner : Runner) (hooks : Option (String → Bool)) (id : String) (now : ℕ)
    (target : String) (s : RunState) (way : Way runbook s target) (node : Node)
    (done : List Evidence)
    → node_of runbook s.current_node ≡ ok node
    → attempts_at way.edge way.entry < way.edge.max_attempts
    → ArePassed runner (checks_of node way.entry) done
    → Goes
        (Fails runbook runner hooks target s)
        (GotoSays runbook runner id now target s)
        (transfer runbook hooks id now way.edge target node done s)
unfolding Goes transfer
transfer-Goes runbook runner hooks id now target s way node done at under pass =
    let P = GotoSays runbook runner id now target s in
    let E = Fails runbook runner hooks target s in
    let hook_fails : (hook : Option String) (e : Error) → run_hook hooks hook ≡ err e → E e =
      λ hook e h. let (is, why) = run_hook-err hooks hook e h in subst E (sym is) why in
    bind-Goes E P (run_hook hooks node.out_hook) _ (hook_fails node.out_hook) (λ _ _.
      bind-Goes E P (run_hook hooks way.edge.hook) _ (hook_fails way.edge.hook) (λ _ _.
        bind-Goes E P (node_of runbook target) _
          (λ e h.
            let (is, missing) = node_of-err runbook target e h in
            subst E (sym is) (inr (inr missing)))
          (λ target_node _.
            bind-Goes E P (run_hook hooks target_node.in_hook) _ (hook_fails target_node.in_hook)
              (λ _ _. (way, node, at, under, refl, refl, refl, done, pass, refl)))))

after-Goes :
    (runbook : Runbook) (runner : Runner) (hooks : Option (String → Bool)) (id : String) (now : ℕ)
    (target : String) (s : RunState) (way : Way runbook s target) (node : Node)
    → node_of runbook s.current_node ≡ ok node
    → attempts_at way.edge way.entry < way.edge.max_attempts
    → (c : Checked) → ChecksSay runner (checks_of node way.entry) [] c
    → Goes
        (Fails runbook runner hooks target s)
        (GotoSays runbook runner id now target s)
        (after_checks runbook hooks id now way.edge target node way.entry s c)
unfolding Goes after_checks ChecksSay
after-Goes runbook runner hooks id now target s way node at under raised (c, among, broken) =
    (way, node, at, c, among, broken)
after-Goes runbook runner hooks id now target s way node at under (failed_at v done) (new, is, h) =
    (
      way,
      node,
      at,
      under,
      subst (IsFirstFailure runner (checks_of node way.entry) v) (sym is) h,
      refl,
      refl,
    )
after-Goes runbook runner hooks id now target s way node at under (all_passed done) (new, is, h) =
    transfer-Goes runbook runner hooks id now target s way node done at under
      (subst (ArePassed runner (checks_of node way.entry)) (sym is) h)

try_edge-Goes :
    (runbook : Runbook) (runner : Runner) (hooks : Option (String → Bool)) (id : String) (now : ℕ)
    (target : String) (s : RunState) (edge : Edge)
    → find_edge runbook s.current_node target ≡ some edge
    → Goes
        (Fails runbook runner hooks target s)
        (GotoSays runbook runner id now target s)
        (try_edge runbook runner hooks id now target s edge)
unfolding Goes try_edge
try_edge-Goes runbook runner hooks id now target s edge found =
    let P = GotoSays runbook runner id now target s in
    let E = Fails runbook runner hooks target s in
    bind-Goes E P (entry_of s) _
      (λ e h. let (is, missing) = entry_of-err s e h in subst E (sym is) (inl missing))
      (λ entry entered.
        let way : Way runbook s target = record {
          edge = edge;
          entry = entry;
          found = found;
          entered = entered;
        } in
        elim (Bool-cases (leb edge.max_attempts (attempts_at edge entry))) [
          | inl over ↦ rw over (way, leb→le _ _ over, refl)
          | inr under ↦ rw under (
              bind-Goes E P (node_of runbook s.current_node) _
                (λ e h.
                  let (is, missing) = node_of-err runbook s.current_node e h in
                  subst E (sym is) (inr (inl missing)))
                (λ node at.
                  after-Goes runbook runner hooks id now target s way node at (leb→gt _ _ under) _
                    (run_checks-ChecksSay runner (checks_of node entry) [])))
        ])

-- What `go_from` answers and has saved.
pub goto-GotoSays :
    (runbook : Runbook) (runner : Runner) (hooks : Option (String → Bool)) (id : String) (now : ℕ)
    (target : String) (s : RunState)
    → Says
        (Fails runbook runner hooks target s)
        (GotoSays runbook runner id now target s)
        (go_from runbook runner hooks id now target s)
unfolding Says go_from
goto-GotoSays runbook runner hooks id now target s = elim (Bool-cases (is_running s.state)) [
  | inr halted ↦ rw (halted, go_from) (refl, halted, refl)
  | inl live ↦ elim (Option-cases (find_edge runbook s.current_node target)) [
    | inl nothing ↦ rw (live, go_from, nothing) (nothing, refl)
    | inr (edge, found) ↦
        rw (live, go_from, found)
          (Goes-Says (Fails runbook runner hooks target s) (GotoSays runbook runner id now target s)
            (try_edge runbook runner hooks id now target s edge)
            (try_edge-Goes runbook runner hooks id now target s edge found))
  ]
]
