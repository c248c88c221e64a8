-- ===== src/Team/Broadcast.antt =====
-- What a broadcast leaves in the inboxes.
use obase.Base.{
  ℕ, suc, ◌≤◌, ◌≡◌, ◌≢◌, ◌⊎◌, refl, sym, ap, ◌∙◌, subst, Bool, true, false, not, some, String,
  string_eq, List, [], ◌∷◌, map, select, All, Result, ok, err, ◌==◌, if◌then◌else◌, arith,
  Bool-cases, inl, inr, le_refl,
}
use obase.Base.Dict.{lookup, insert, lookup-insert, lookup-insert_self}
use obase.Capability.Tokens.{default}
use obase.Team.Store.{TeamMember, Message, Inbox, Store, Error, list_members}
use obase.Team.Inbox.{
  inboxes_of, inbox, set_inbox, make_message, send_message, broadcast_to, broadcast, mail, proceed,
}

inbox-set_inbox :
    (team agent other : String) (box : Inbox) (s : Store)
    → inbox team other (set_inbox team agent box s)
      ≡ (if other == agent then box else inbox team other s)
inbox-set_inbox team agent other box s =
    ap (λ o. default [] (lookup other (default [] o)))
      (lookup-insert_self team (insert agent box (inboxes_of team s)) s.inboxes)
    ∙ ap (default []) (lookup-insert other agent box (inboxes_of team s))
    ∙ pull (other == agent)
  where
    pull :
        (b : Bool)
        → default [] (if b then some box else lookup other (inboxes_of team s))
          ≡ (if b then box else inbox team other s)
    pull true = refl
    pull false = refl

-- The message waits for whom it names, under its id.
abbrev pub IsDelivered : String → Store → Message → Type 0
IsDelivered team s msg =
    (to id : String) × (msg.to ≡ some to)
    × (msg.request_id ≡ some id)
    × (lookup id (inbox team to s) ≡ some msg)

-- One message of a broadcast.
send-mail :
    (team sender content : String) (fresh : ℕ → String) (now : String) (n : ℕ) (m : TeamMember)
    (s : Store)
    → m.name ≢ ""
    → let msg = mail sender content fresh now n m in
      send_message team msg (fresh n) now s
      ≡ (ok msg, set_inbox team m.name (insert (fresh n) msg (inbox team m.name s)) s)
unfolding send_message make_message
send-mail team sender content fresh now n m s full = elim (Bool-cases (m.name == "")) [
  | inl empty ↦ absurd (full (ground (arith, empty)))
  | inr named ↦ rw (send_message, named) refl
]

-- It leaves what waits under other ids.
lookup-set_inbox :
    (team agent other id key : String) (msg : Message) (s : Store)
    → id ≢ key
    → lookup id (inbox team other (set_inbox team agent (insert key msg (inbox team agent s)) s))
      ≡ lookup id (inbox team other s)
lookup-set_inbox team agent other id key msg s differ =
    ap (lookup id) (inbox-set_inbox team agent other (insert key msg (inbox team agent s)) s)
    ∙ pick (Bool-cases (other == agent))
  where
    pick :
        (other == agent ≡ true) ⊎ (other == agent ≡ false)
        → lookup id
            (if other == agent then insert key msg (inbox team agent s) else inbox team other s)
          ≡ lookup id (inbox team other s)
    pick (inr apart) = rw apart refl
    pick (inl same) = rw same (
        lookup-insert id key msg (inbox team agent s)
        ∙ ground (arith, differ)
        ∙ ap (λ a. lookup id (inbox team a s)) (sym (the_same same)))
      where
        the_same : other == agent ≡ true → other ≡ agent
        the_same h = ground (arith, h)

abbrev pub others : String → List TeamMember → List TeamMember
others sender members = select (λ m. not (m.name == sender)) members

module _ (team sender content : String) (fresh : ℕ → String) (now : String) where
  abbrev pub IsSent : Store → Message → Type 0
  IsSent s msg = IsDelivered team s msg × (msg.content ≡ some content)

  -- Ids that the rest of the broadcast does not draw are left alone.
  Keeps : ℕ → Store → Store → Type 0
  Keeps n s s' =
      (agent id : String)
      → ((k : ℕ) → n ≤ k → id ≢ fresh k)
      → lookup id (inbox team agent s') ≡ lookup id (inbox team agent s)

  BroadcastSays : ℕ → List TeamMember → Store → Result Error (List Message) × Store → Type 0
  BroadcastSays n members s (r, s') =
      (msgs : List Message) × (r ≡ ok msgs)
      × (map (λ m. m.to) msgs ≡ map (λ m. some m.name) (others sender members))
      × All (IsSent s') msgs
      × Keeps n s s'

  broadcast_to-BroadcastSays :
      ((j k : ℕ) → fresh j ≡ fresh k → j ≡ k)
      → (n : ℕ) (members : List TeamMember) (s : Store) → All (λ m. m.name ≢ "") members
      → BroadcastSays n members s (broadcast_to team sender content fresh now n members s)
  unfolding broadcast_to make_message proceed BroadcastSays Keeps
  broadcast_to-BroadcastSays inj n [] s named = ([], refl, refl, tt, λ agent id h. refl)
  broadcast_to-BroadcastSays inj n (m ∷ members) s (full, named) =
      elim (Bool-cases (m.name == sender)) [
        | inl self ↦ rw (broadcast_to, self) (broadcast_to-BroadcastSays inj n members s named)
        | inr other ↦
            rw (broadcast_to, other)
              (subst
                (λ x.
                  BroadcastTo (
                    proceed x
                      (λ s'. broadcast_to team sender content fresh now (suc n) members s')))
                (sym (send-mail team sender content fresh now n m s full))
                (followed (broadcast_to team sender content fresh now (suc n) members s')
                  (broadcast_to-BroadcastSays inj (suc n) members s' named)))
      ]
    where
      msg : Message
      msg = mail sender content fresh now n m

      s' : Store
      s' = set_inbox team m.name (insert (fresh n) msg (inbox team m.name s)) s

      BroadcastTo : Result Error (List Message) × Store → Type 0
      BroadcastTo out =
          (msgs : List Message) × (out.0 ≡ ok msgs)
          × (map (λ m. m.to) msgs ≡ some m.name ∷ map (λ m. some m.name) (others sender members))
          × All (IsSent out.1) msgs
          × Keeps n s out.1

      followed :
          (out : Result Error (List Message) × Store)
          → BroadcastSays (suc n) members s' out
          → BroadcastTo (elim out.0 [ err e ↦ err e | ok msgs ↦ ok (msg ∷ msgs) ], out.1)
      followed (r, s'') (msgs, is, tos, sent, keeps) = (
        msg ∷ msgs,
        rw is refl,
        ap (λ ts. some m.name ∷ ts) tos,
        (
          (
            (
              m.name,
              fresh n,
              refl,
              refl,
              keeps m.name (fresh n) (λ k later same. absurd (omega (arith, later, inj n k same)))
                  ∙ ap (lookup (fresh n)) (
                      inbox-set_inbox team m.name m.name
                        (insert (fresh n) msg (inbox team m.name s)) s)
                  ∙ mine,
            ),
            refl,
          ),
          sent,
        ),
        λ agent id h.
            keeps agent id (λ k later. h k (omega (arith, later)))
            ∙ lookup-set_inbox team m.name agent id (fresh n) msg s (h n (le_refl n)),
      )
        where
          mine :
              lookup (fresh n) (
                if m.name == m.name
                then insert (fresh n) msg (inbox team m.name s)
                else inbox team m.name s)
              ≡ some msg
          mine = ground (arith, lookup-insert_self (fresh n) msg (inbox team m.name s))

  -- A broadcast in a team of named members, whose messages get different ids, goes well: it returns one
  -- message for each member but the sender, in the order of the members, and each of them waits in
  -- the inbox of the member that it is to, under its id and with the content.
  pub broadcast_delivers :
      (s : Store)
      → ((j k : ℕ) → fresh j ≡ fresh k → j ≡ k)
      → All (λ m. m.name ≢ "") (list_members team s)
      → let (r, s') = broadcast team sender content fresh now s in
        (msgs : List Message) × (r ≡ ok msgs)
        × (map (λ m. m.to) msgs ≡ map (λ m. some m.name) (others sender (list_members team s)))
        × All (IsSent s') msgs
  unfolding broadcast BroadcastSays
  broadcast_delivers s inj named =
      let (msgs, is, tos, sent, keeps) =
        broadcast_to-BroadcastSays inj 0 (list_members team s) s named in
      (msgs, is, tos, sent)
