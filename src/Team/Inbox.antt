-- ===== src/Team/Inbox.antt =====
-- obase/team_registry.py: `make_message`, `send_message`, `receive_messages` and `broadcast`.
use obase.Base.{
  ℕ, suc, ◌+◌, Bool, true, false, Option, none, some, String, string_eq, List, [], ◌∷◌, map, leb,
  Result, ok, err, ◌==◌, if◌then◌else◌,
}
use obase.Base.Dict.{Dict, lookup, insert, erase}
use Prim.Native.String.{compare, ◌++◌ as join}
use text.Mathlib.Text.{is_le}
use obase.Capability.Tokens.{default}
use obase.Team.Store.{TeamMember, Message, Inbox, Store, Error, value_error, list_members}

abbrev pub inboxes_of : String → Store → Dict String Inbox
inboxes_of team s = default [] (lookup team s.inboxes)

-- The messages that wait for an agent.
abbrev pub inbox : String → String → Store → Inbox
inbox team agent s = default [] (lookup agent (inboxes_of team s))

abbrev pub set_inbox : String → String → Inbox → Store → Store
set_inbox team agent box s = record s {
  inboxes = insert team (insert agent box (inboxes_of team s)) s.inboxes;
}

abbrev pub or_fresh : Option String → String → String
or_fresh none fresh = fresh
or_fresh (some s) fresh = if s == "" then fresh else s

unfoldable pub make_message :
    String → Option String → Option String → String → Option String → String → String → Message
make_message sender to content msg_type request_id fresh now = record {
  msg_type = msg_type;
  sender = sender;
  to = to;
  content = content;
  request_id = some (or_fresh request_id fresh);
  timestamp = some now;
}

-- What `send_message` completes a message with.
abbrev pub completed : Message → String → String → Message
completed msg fresh now = record msg {
  request_id = some (default fresh msg.request_id);
  timestamp = some (default now msg.timestamp);
}

unfoldable pub send_message :
    String → Message → String → String → Store → Result Error Message × Store
send_message team msg fresh now s =
    let to = default "" msg.to in
    if to == ""
    then (err value_error, s)
    else let msg' = completed msg fresh now in
      let id = default fresh msg.request_id in
      (ok msg', set_inbox team to (insert id msg' (inbox team to s)) s)

-- Files in the order of their names.
abbrev pub comes_before : String × Message → String × Message → Bool
comes_before a b = is_le (compare (join a.0 ".json") (join b.0 ".json"))

unfoldable pub insert_sorted : String × Message → List (String × Message) → List (String × Message)
insert_sorted f [] = f ∷ []
insert_sorted f (g ∷ files) =
    let rest = insert_sorted f files in if comes_before f g then f ∷ g ∷ files else g ∷ rest

unfoldable pub sorted : List (String × Message) → List (String × Message)
unfolding insert_sorted
sorted [] = []
sorted (f ∷ files) = insert_sorted f (sorted files)

-- The loop of `receive_messages`, after some messages.
unfoldable pub consumed : ℕ → ℕ → List (String × Message) → List (String × Message)
consumed limit got [] = []
consumed limit got (f ∷ files) =
    let rest = consumed limit (got + 1) files in f ∷ (if leb limit (got + 1) then [] else rest)

unfoldable pub unlink_all : List (String × Message) → Inbox → Inbox
unfolding erase
unlink_all [] box = box
unlink_all ((id, msg) ∷ files) box = unlink_all files (erase id box)

unfoldable pub receive_messages : String → String → ℕ → Store → List Message × Store
unfolding sorted consumed unlink_all
receive_messages team agent limit s =
    let box = inbox team agent s in
    let files = consumed limit 0 (sorted box) in
    (map (λ f. f.1) files, set_inbox team agent (unlink_all files box) s)

-- The rest of the loop of `broadcast`, after one message was sent or its send raised.
unfoldable pub proceed :
    Result Error Message × Store
    → (Store → Result Error (List Message) × Store)
    → Result Error (List Message) × Store
proceed (err e, s) rest = (err e, s)
proceed (ok msg, s) rest =
    let (r, s') = rest s in (elim r [ err e ↦ err e | ok msgs ↦ ok (msg ∷ msgs) ], s')

abbrev pub mail : String → String → (ℕ → String) → String → ℕ → TeamMember → Message
mail sender content fresh now n m =
    make_message sender (some m.name) (some content) "broadcast" none (fresh n) now

-- The loop of `broadcast`; the ids and the time of its messages are `fresh n` and `now`.
unfoldable pub broadcast_to :
    String
    → String
    → String
    → (ℕ → String)
    → String
    → ℕ
    → List TeamMember
    → Store
    → Result Error (List Message) × Store
unfolding make_message send_message proceed
broadcast_to team sender content fresh now n [] s = (ok [], s)
broadcast_to team sender content fresh now n (m ∷ members) s = elim (m.name == sender) [
  | true ↦ broadcast_to team sender content fresh now n members s
  | false ↦
      proceed (send_message team (mail sender content fresh now n m) (fresh n) now s)
        (λ s'. broadcast_to team sender content fresh now (suc n) members s')
]

unfoldable pub broadcast :
    String → String → String → (ℕ → String) → String → Store → Result Error (List Message) × Store
unfolding broadcast_to
broadcast team sender content fresh now s =
    broadcast_to team sender content fresh now 0 (list_members team s) s
