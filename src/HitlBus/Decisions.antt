-- ===== src/HitlBus/Decisions.antt =====
-- A request is decided once, whatever other calls come between.
use obase.Base.{
  ℕ, ◌≡◌, ◌≢◌, refl, sym, ap, subst, ◌∙◌, Bool, true, false, Option, none, some, String, string_eq,
  List, [], ◌∷◌, All, arith, Option-cases, Bool-cases, inl, inr,
}
use obase.Base.Dict.{Dict, lookup, insert, lookup-insert, lookup-insert_self}
use obase.HitlBus.{
  DecisionOutcome, ApprovalRequest, Bus, is_pending, choose_id, request_approval, decide,
  signal_interrupt, reset_interrupt,
}

-- The calls that change the bus.
pub data Call : Type 0 where
  requests_approval : Option String → String → String → String → ℕ → Call
  decides : String → DecisionOutcome → String → ℕ → Call
  interrupts : String → Call
  resets : Call

unfoldable pub apply : Call → Bus → Bus
apply (requests_approval given generated scope summary now) bus =
    (request_approval given generated scope summary now bus).1
apply (decides id outcome note now) bus = (decide id outcome note now bus).1
apply (interrupts reason) bus = signal_interrupt reason bus
apply resets bus = reset_interrupt bus

unfoldable pub run : List Call → Bus → Bus
run [] bus = bus
run (c ∷ calls) bus = run calls (apply c bus)

-- The call does not make a request under this id.
abbrev pub KeepsRequest : String → Call → Type 0
KeepsRequest id (requests_approval given generated _ _ _) = choose_id given generated ≢ id
KeepsRequest id _ = Unit

-- Nor does it decide that request.
abbrev pub IsElsewhere : String → Call → Type 0
IsElsewhere id (requests_approval given generated _ _ _) = choose_id given generated ≢ id
IsElsewhere id (decides other _ _ _) = other ≢ id
IsElsewhere id _ = Unit

request_elsewhere :
    (id other : String) (r : ApprovalRequest) (d : Dict String ApprovalRequest)
    → other ≢ id
    → lookup id (insert other r d) ≡ lookup id d
request_elsewhere id other r d away = ground (arith, lookup-insert id other r d, away)

decide_elsewhere :
    (id other : String) (outcome : DecisionOutcome) (note : String) (now : ℕ) (bus : Bus)
    → other ≢ id
    → lookup id (decide other outcome note now bus).1.requests ≡ lookup id bus.requests
unfolding decide
decide_elsewhere id other outcome note now bus away =
    elim (Option-cases (lookup other bus.requests)) [
      | inl unknown ↦ rw (unknown, decide) refl
      | inr (r, found) ↦ elim (Bool-cases (is_pending r)) [
        | inl opened ↦ rw (found, decide, opened) (request_elsewhere id other _ bus.requests away)
        | inr closed ↦ rw (found, decide, closed) refl
      ]
    ]

apply_elsewhere :
    (id : String) (c : Call) (bus : Bus)
    → IsElsewhere id c
    → lookup id (apply c bus).requests ≡ lookup id bus.requests
unfolding apply request_approval signal_interrupt reset_interrupt
apply_elsewhere id (requests_approval given generated scope summary now) bus away =
    request_elsewhere id (choose_id given generated) _ bus.requests away
apply_elsewhere id (decides other outcome note now) bus away =
    decide_elsewhere id other outcome note now bus away
apply_elsewhere id (interrupts reason) bus away = refl
apply_elsewhere id resets bus away = refl

run_elsewhere :
    (id : String) (calls : List Call) (bus : Bus)
    → All (IsElsewhere id) calls
    → lookup id (run calls bus).requests ≡ lookup id bus.requests
unfolding run
run_elsewhere id [] bus away = refl
run_elsewhere id (c ∷ calls) bus away =
    run_elsewhere id calls (apply c bus) away.1 ∙ apply_elsewhere id c bus away.0

decide_closed :
    (id : String) (outcome : DecisionOutcome) (note : String) (now : ℕ) (bus : Bus)
    (r : ApprovalRequest)
    → lookup id bus.requests ≡ some r
    → is_pending r ≡ false
    → decide id outcome note now bus ≡ (false, bus)
unfolding decide
decide_closed id outcome note now bus r found closed = rw (found, decide, closed) refl

apply_decided :
    (id : String) (c : Call) (bus : Bus) (r : ApprovalRequest)
    → KeepsRequest id c
    → lookup id bus.requests ≡ some r
    → is_pending r ≡ false
    → lookup id (apply c bus).requests ≡ some r
unfolding apply request_approval signal_interrupt reset_interrupt
apply_decided id (requests_approval given generated scope summary now) bus r away found closed =
    request_elsewhere id (choose_id given generated) _ bus.requests away ∙ found
apply_decided id (decides other outcome note now) bus r away found closed =
    elim (string_eq.dec other id) [
      | yes same ↦
          subst (λ (o : String). lookup id (decide o outcome note now bus).1.requests ≡ some r)
            (sym same)
            (ap (λ (b : Bool × Bus). lookup id b.1.requests)
                (decide_closed id outcome note now bus r found closed)
              ∙ found)
      | no differ ↦ decide_elsewhere id other outcome note now bus differ ∙ found
    ]
apply_decided id (interrupts reason) bus r away found closed = found
apply_decided id resets bus r away found closed = found

run_decided :
    (id : String) (calls : List Call) (bus : Bus) (r : ApprovalRequest)
    → All (KeepsRequest id) calls
    → lookup id bus.requests ≡ some r
    → is_pending r ≡ false
    → lookup id (run calls bus).requests ≡ some r
unfolding run
run_decided id [] bus r away found closed = found
run_decided id (c ∷ calls) bus r away found closed =
    run_decided id calls (apply c bus) r away.1 (apply_decided id c bus r away.0 found closed)
      closed

abbrev pub decided : DecisionOutcome → String → ℕ → ApprovalRequest → ApprovalRequest
decided outcome note now r = record r {
  outcome = some outcome;
  decided_at = some now;
  note = note;
  event = true;
}

decide_open :
    (id : String) (outcome : DecisionOutcome) (note : String) (now : ℕ) (bus : Bus)
    (r : ApprovalRequest)
    → lookup id bus.requests ≡ some r
    → r.outcome ≡ none
    → ((decide id outcome note now bus).0 ≡ true)
      × (lookup id (decide id outcome note now bus).1.requests ≡ some (decided outcome note now r))
unfolding decide
decide_open id outcome note now bus r found undecided =
    let opened : is_pending r ≡ true = ground (arith, undecided) in
    rw (found, decide, opened)
      (refl, lookup-insert_self id (decided outcome note now r) bus.requests)

-- The first decision of a request wins: after any calls that leave it alone the decision succeeds;
-- then, as long as no request is made under the same id, the request holds it after any calls,
-- and every other decision of it is refused and changes nothing.
pub first_decision_wins :
    (id : String) (before after : List Call) (bus : Bus) (r : ApprovalRequest)
    (outcome other : DecisionOutcome) (note remark : String) (now later : ℕ)
    → lookup id bus.requests ≡ some r
    → r.outcome ≡ none
    → All (IsElsewhere id) before
    → All (KeepsRequest id) after
    → let first = decide id outcome note now (run before bus) in
      let last = run after first.1 in
      (first.0 ≡ true)
      × (lookup id last.requests ≡ some (decided outcome note now r))
      × (decide id other remark later last ≡ (false, last))
first_decision_wins id before after bus r outcome other note remark now later found undecided away
      keeps =
    let here = run_elsewhere id before bus away ∙ found in
    let first = decide id outcome note now (run before bus) in
    let (good, entry) = decide_open id outcome note now (run before bus) r here undecided in
    let final = run_decided id after first.1 (decided outcome note now r) keeps entry refl in
    (
      good,
      final,
      decide_closed id other remark later (run after first.1) (decided outcome note now r) final
          refl,
    )
