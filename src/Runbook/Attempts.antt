-- ===== src/Runbook/Attempts.antt =====
-- A transition that its checks refuse again and again.
use obase.Base.{
  ℕ, ◌+◌, ◌≡◌, ◌<◌, refl, ap, Bool, true, false, Option, some, String, string_eq, List, [], ◌∷◌,
  ◌++◌, map, arith, leb, length, Result, ok,
}
use obase.Base.Dict.{lookup, insert, lookup-insert_self}
use obase.Runbook.State.{
  Edge, Node, Runbook, Verdict, Evidence, RunEntry, RunState, running, blocked, Error, Backend,
  save, require_state,
}
use obase.Runbook.Goto.{
  entry_of, node_of, find_edge, edge_key, attempts_at, Runner, failed_at, run_checks, Answer,
  invalid_state, max_attempts_exceeded, check_failed, note_failure, after_checks, try_edge,
  is_running, go_from, runbook_goto,
}

-- Everything that a transition needs is there, and its checks refuse it.
pub record IsRefused (runbook : Runbook) (runner : Runner) (target : String) (edge : Edge)
    (v : Verdict) (done : List Evidence) (s : RunState) : Type 0 where
  pub live : s.state ≡ running
  pub found : find_edge runbook s.current_node target ≡ some edge
  pub entry : RunEntry
  pub entered : lookup s.current_entry_id s.entries ≡ some entry
  pub node : Node
  pub at : lookup s.current_node runbook.nodes ≡ some node
  pub refused :
      run_checks runner [] (node.before_transfer ++ entry.dynamic_checks) ≡ failed_at v done

-- A call on a stored run that answers and saves.
runbook_goto-step :
    (runbook : Runbook) (runner : Runner) (hooks : Option (String → Bool)) (run_id target : String)
    (id : String) (now : ℕ) (b : Backend) (s t : RunState) (answer : Answer)
    → lookup run_id b ≡ some s
    → t.run_id ≡ run_id
    → go_from runbook runner hooks id now target s ≡ ok (answer, some t)
    → runbook_goto runbook runner hooks id now run_id target b ≡ (ok answer, insert run_id t b)
unfolding runbook_goto require_state save
runbook_goto-step runbook runner hooks run_id target id now b s t answer stored same step =
    rw (runbook_goto, require_state, stored, step, save) (ap (λ i. (ok answer, insert i t b)) same)

-- `runbook_goto` to the same target again and again, with each call's new id and clock.
unfoldable pub go_all :
    Runbook
    → Runner
    → Option (String → Bool)
    → String
    → String
    → List (String × ℕ)
    → Backend
    → List (Result Error Answer) × Backend
unfolding runbook_goto
go_all runbook runner hooks run_id target [] b = ([], b)
go_all runbook runner hooks run_id target ((id, now) ∷ tries) b =
    let r = runbook_goto runbook runner hooks id now run_id target b in
    let rest = go_all runbook runner hooks run_id target tries r.1 in (r.0 ∷ rest.0, rest.1)

-- A blocked run stays as it is.
go_all-blocked :
    (runbook : Runbook) (runner : Runner) (hooks : Option (String → Bool)) (run_id target : String)
    (tries : List (String × ℕ)) (b : Backend) (s : RunState)
    → lookup run_id b ≡ some s
    → s.state ≡ blocked
    → go_all runbook runner hooks run_id target tries b
      ≡ (map (λ _. ok (invalid_state blocked)) tries, b)
unfolding go_all runbook_goto require_state go_from
go_all-blocked runbook runner hooks run_id target [] b s stored stopped = refl
go_all-blocked runbook runner hooks run_id target ((id, now) ∷ tries) b s stored stopped =
    let halted : is_running s.state ≡ false = rw stopped refl in
    let step : runbook_goto runbook runner hooks id now run_id target b
        ≡ (ok (invalid_state blocked), b) =
      rw (runbook_goto, require_state, stored, go_from, halted)
        (ap (λ status. (ok (invalid_state status), b)) stopped) in
    let rest = go_all-blocked runbook runner hooks run_id target tries b s stored stopped in
    rw (go_all, step, rest) refl

go_from-Refused :
    (runbook : Runbook) (runner : Runner) (hooks : Option (String → Bool)) (target : String)
    (edge : Edge) (v : Verdict) (done : List Evidence) (id : String) (now : ℕ) (s : RunState)
    (h : IsRefused runbook runner target edge v done s)
    → attempts_at edge h.entry < edge.max_attempts
    → go_from runbook runner hooks id now target s
      ≡ ok (check_failed v s.current_node done, some (note_failure edge h.entry done s))
unfolding go_from try_edge after_checks
go_from-Refused runbook runner hooks target edge v done id now s h under =
    let live : is_running s.state ≡ true = rw h.live refl in
    let entered : entry_of s ≡ ok h.entry = ground (arith, h.entered) in
    let at : node_of runbook s.current_node ≡ ok h.node = ground (arith, h.at) in
    let left : leb edge.max_attempts (attempts_at edge h.entry) ≡ false = ground (arith, under) in
    rw (go_from, live, h.found, try_edge, entered, left, at, h.refused, after_checks) refl

-- No attempt is left: neither the checks nor the hooks are asked.
go_from-over :
    (runbook : Runbook) (runner runner' : Runner) (hooks : Option (String → Bool)) (target : String)
    (edge : Edge) (v : Verdict) (done : List Evidence) (id : String) (now : ℕ) (s : RunState)
    (h : IsRefused runbook runner target edge v done s)
    → attempts_at edge h.entry ≡ edge.max_attempts
    → go_from runbook runner' hooks id now target s
      ≡ ok (max_attempts_exceeded, some (record s { state = blocked }))
unfolding go_from try_edge
go_from-over runbook runner runner' hooks target edge v done id now s h over =
    let live : is_running s.state ≡ true = rw h.live refl in
    let entered : entry_of s ≡ ok h.entry = ground (arith, h.entered) in
    let left : leb edge.max_attempts (attempts_at edge h.entry) ≡ true = ground (arith, over) in
    rw (go_from, live, h.found, try_edge, entered, left) refl

module _ (runbook : Runbook) (runner : Runner) (hooks : Option (String → Bool))
    (run_id target : String) (edge : Edge) (v : Verdict) (done : List Evidence) where
  abbrev pub Refused : RunState → Type 0
  Refused s = IsRefused runbook runner target edge v done s

  noted : RunEntry → RunEntry
  noted entry = record entry {
    attempts = insert (edge_key edge) (attempts_at edge entry + 1) entry.attempts;
    checks = entry.checks ++ done;
  }

  attempts-noted : (entry : RunEntry) → attempts_at edge (noted entry) ≡ attempts_at edge entry + 1
  unfolding noted attempts_at
  attempts-noted entry =
      rw
        (
          attempts_at,
          lookup-insert_self (edge_key edge) (attempts_at edge entry + 1) entry.attempts,
        )
        refl

  note_failure-Refused :
      (s : RunState) (h : Refused s)
      → (h' : Refused (note_failure edge h.entry done s)) × (attempts_at edge h'.entry
          ≡ attempts_at edge h.entry + 1)
  unfolding note_failure noted
  note_failure-Refused s h = (
    record {
      live = h.live;
      found = h.found;
      entry = noted h.entry;
      entered = lookup-insert_self s.current_entry_id (noted h.entry) s.entries;
      node = h.node;
      at = h.at;
      refused = h.refused;
    },
    attempts-noted h.entry,
  )

  -- The run in the state `t` is blocked by the next call to the target, and is then left alone.
  abbrev pub IsBlockedNext : RunState → Backend → Type 0
  IsBlockedNext t b =
      let b' = insert run_id (record t { state = blocked }) b in
      ((runner' : Runner) (hooks' : Option (String → Bool)) (id : String) (now : ℕ)
        → runbook_goto runbook runner' hooks' id now run_id target b
          ≡ (ok max_attempts_exceeded, b'))
      × ((runner' : Runner) (hooks' : Option (String → Bool)) (target' : String)
            (later : List (String × ℕ))
          → go_all runbook runner' hooks' run_id target' later b'
            ≡ (map (λ _. ok (invalid_state blocked)) later, b'))

  -- A transition whose checks refuse it is refused as often as attempts are left, each time in the
  -- same node and with the same verdict. The call after that blocks the run, with the same answer
  -- whatever the checks and hooks would say or raise, and all calls after it, to any target, find the
  -- run blocked and change nothing.
  pub go_all-blocks :
      (tries : List (String × ℕ)) (b : Backend) (s : RunState) (h : Refused s)
      → lookup run_id b ≡ some s
      → s.run_id ≡ run_id
      → attempts_at edge h.entry + length tries ≡ edge.max_attempts
      → let (answers, b') = go_all runbook runner hooks run_id target tries b in
        (answers ≡ map (λ _. ok (check_failed v s.current_node done)) tries)
        × ((t : RunState) × (lookup run_id b' ≡ some t)
            × (t.current_node ≡ s.current_node)
            × (t.transitions ≡ s.transitions)
            × IsBlockedNext t b')
  unfolding go_all note_failure
  go_all-blocks [] b s h stored same over = (
    refl,
    (
      s,
      stored,
      refl,
      refl,
      (
        λ runner' hooks' id now.
            runbook_goto-step runbook runner' hooks' run_id target id now b s
              (record s { state = blocked }) max_attempts_exceeded stored same
              (go_from-over runbook runner runner' hooks' target edge v done id now s h
                (omega (arith, over))),
        λ runner' hooks' target' later.
            go_all-blocked runbook runner' hooks' run_id target' later
              (insert run_id (record s { state = blocked }) b) (record s { state = blocked })
              (lookup-insert_self run_id (record s { state = blocked }) b) refl,
      ),
    ),
  )
  go_all-blocks ((id, now) ∷ tries) b s h stored same left =
      let under : attempts_at edge h.entry < edge.max_attempts = omega (arith, left) in
      let s' = note_failure edge h.entry done s in
      let (h', more) = note_failure-Refused s h in
      let step : runbook_goto runbook runner hooks id now run_id target b
          ≡ (ok (check_failed v s.current_node done), insert run_id s' b) =
        runbook_goto-step runbook runner hooks run_id target id now b s s'
          (check_failed v s.current_node done) stored same
          (go_from-Refused runbook runner hooks target edge v done id now s h under) in
      let (answers, rest) =
        go_all-blocks tries (insert run_id s' b) s' h' (lookup-insert_self run_id s' b) same
          (omega (arith, left, more)) in
      rw (go_all, step) (ap (λ rs. ok (check_failed v s.current_node done) ∷ rs) answers, rest)
