-- ===== src/Team/Tests.antt =====
-- Runs of the registry, and its theorems at concrete inputs.
use obase.Base.{
  ℕ, zero, suc, ◌≡◌, ◌≢◌, refl, ap, true, false, some, none, String, string_eq, List, [], ◌∷◌, map,
  All, ok, err, ◌==◌, arith,
}
use obase.Base.Dict.{insert, erase, lookup}
use obase.Team.Store.{
  TeamMember, Task, Message, Store, MemberKw, make_team_member, make_team_config, make_task,
  create_team, join, add_member, leave, remove_member, list_members, get_leader_name, add_task,
  get_tasks, update_first, update_task, lock_task, value_error, cleanup,
}
use obase.Team.Inbox.{
  inbox, make_message, send_message, insert_sorted, sorted, consumed, unlink_all, receive_messages,
  proceed, broadcast_to, broadcast,
}
use obase.Team.Lead.{adds, removes, change, change_all, HasLead}
use obase.Team.Ids.{unary, unary-injective}
use obase.Team.Broadcast.{IsSent, others, broadcast_delivers}

program : Unit {0}
unfolding string_eq insert erase lookup make_team_member make_team_config make_task create_team join
    add_member leave cleanup remove_member add_task get_tasks update_first update_task lock_task
    make_message send_message insert_sorted sorted consumed unlink_all receive_messages proceed
    broadcast_to broadcast change change_all
program = tt

abbrev nobody : Store
nobody = record { configs = []; tasks = []; inboxes = [] }

abbrev plain : MemberKw
plain = record { user = none; agent_id = none; agent_type = none; joined_at = none }

abbrev founded : Store
founded = (create_team "core" "" "" 0 "t0" nobody).1

abbrev three : Store
three =
    change_all "core"
      (adds "ann" plain "a1" "t1" ∷ adds "bob" plain "b1" "t2" ∷ adds "cat" plain "c1" "t3" ∷ [])
      founded

create_twice : (create_team "core" "" "" 0 "t1" founded).0 ≡ err value_error
unfolding program
create_twice = refl

first_leads : get_leader_name "core" three ≡ some "ann"
unfolding program
first_leads = refl

-- Once the lead is removed, nobody leads, also after another member joins.
lead_gone :
    get_leader_name "core"
      (change_all "core" (removes "ann" ∷ adds "dan" plain "d1" "t4" ∷ []) three)
    ≡ none
unfolding program
lead_gone = refl

abbrev fresh : ℕ → String
fresh zero = "z"
fresh (suc zero) = "a"
fresh n = "m"

abbrev sent : Store
sent = (broadcast "core" "ann" "go" fresh "t5" three).1

broadcast_bob :
    inbox "core" "bob" sent
    ≡ ("z", make_message "ann" (some "bob") (some "go") "broadcast" none "z" "t5") ∷ []
unfolding program
broadcast_bob = refl

broadcast_ann : inbox "core" "ann" sent ≡ []
unfolding program
broadcast_ann = refl

abbrev to_bob : String → Message
to_bob content = make_message "ann" (some "bob") (some content) "message" none content "t6"

abbrev two_for_bob : Store
two_for_bob =
    (send_message "core" (to_bob "a") "x" "t6"
      (send_message "core" (to_bob "b") "x" "t6" three).1).1

cleanup_none : cleanup "other" nobody ≡ (true, nobody)
unfolding program
cleanup_none = refl

-- Messages come by the names of their files, and a limit of 0 takes one.
receive_by_name :
    map (λ m. m.content) (receive_messages "core" "bob" 10 two_for_bob).0 ≡ some "a" ∷ some "b" ∷ []
unfolding program
receive_by_name = refl

receive_zero : map (λ m. m.content) (receive_messages "core" "bob" 0 two_for_bob).0 ≡ some "a" ∷ []
unfolding program
receive_zero = refl

-- A second message with the same request id replaces the first.
send_same_id :
    map
      (λ f. f.1.content)
      (inbox "core" "bob"
        (send_message "core"
          (record (to_bob "b") { request_id = some "a" })
          "x"
          "t7"
          two_for_bob).1)
    ≡ some "b" ∷ some "b" ∷ []
unfolding program
send_same_id = refl

send_nowhere :
    (send_message "core" (record (to_bob "b") { to = none }) "x" "t7" nobody).0 ≡ err value_error
unfolding program
send_nowhere = refl

abbrev with_task : Store
with_task =
    (add_task "core" "fix" (λ t. record t { priority = "high"; subject = "no" }) "t-1" "t8" three).1

abbrev the_task : Task
the_task = record (make_task "fix" "t-1" "t8") { priority = "high" }

tasks_there : get_tasks "core" (some "pending") with_task ≡ the_task ∷ []
unfolding program
tasks_there = refl

update_missing : (update_task "core" "t-2" (λ t. t) "t9" with_task).0 ≡ false
unfolding program
update_missing = refl

three_led : HasLead "core" "a1" three
unfolding program
three_led = (_, refl, refl)

a_name : (◌≢◌ {A = String} "a1" "")
unfolding program
a_name h = ground (arith, ap (λ (s : String). s == "") h)

three_named : All (λ (m : TeamMember). m.name ≢ "") (list_members "core" three)
unfolding program
three_named = (
  λ h. ground (arith, ap (λ (s : String). s == "") h),
  (
    λ h. ground (arith, ap (λ (s : String). s == "") h),
    (λ h. ground (arith, ap (λ (s : String). s == "") h), tt),
  ),
)

broadcast_delivers_example :
    let (r, s') = broadcast "core" "ann" "go" unary "t5" three in
    (msgs : List Message) × (r ≡ ok msgs)
    × (map (λ m. m.to) msgs ≡ map (λ m. some m.name) (others "ann" (list_members "core" three)))
    × All (IsSent "core" "ann" "go" unary "t5" s') msgs
broadcast_delivers_example =
    broadcast_delivers "core" "ann" "go" unary "t5" three unary-injective three_named
