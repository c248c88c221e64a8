-- ===== src/Team/Lead.antt =====
-- The lead of a team.
use obase.Base.{◌≡◌, ◌≢◌, sym, ◌∙◌, some, String, string_eq, List, [], ◌∷◌, arith}
use obase.Base.Dict.{lookup-insert_self}
use obase.Team.Store.{
  TeamMember, TeamConfig, Store, MemberKw, make_team_member, join, leave, get_team, add_member,
  remove_member,
}

pub data Change : Type 0 where
  adds : String → MemberKw → String → String → Change
  removes : String → Change

unfoldable pub change : String → Change → Store → Store
change team (adds name kw fresh now) s = (add_member team name kw fresh now s).1
change team (removes name) s = (remove_member team name s).1

unfoldable pub change_all : String → List Change → Store → Store
unfolding change
change_all team [] s = s
change_all team (c ∷ changes) s = change_all team changes (change team c s)

-- The team has this lead's id.
abbrev pub HasLead : String → String → Store → Type 0
HasLead team lead s = (cfg : TeamConfig) × (get_team team s ≡ some cfg) × (cfg.lead_agent_id ≡ lead)

join-lead :
    (m : TeamMember) (cfg : TeamConfig)
    → cfg.lead_agent_id ≢ ""
    → (join m cfg).lead_agent_id ≡ cfg.lead_agent_id
unfolding join
join-lead m cfg full = ground (arith, full)

change-HasLead :
    (team lead : String) (c : Change) (s : Store)
    → lead ≢ ""
    → HasLead team lead s
    → HasLead team lead (change team c s)
unfolding change add_member remove_member leave
change-HasLead team lead (adds name kw fresh now) s full (cfg, there, is) =
    let m = make_team_member name kw fresh now in
    rw (change, add_member, there)
      (
        join m cfg,
        lookup-insert_self team (join m cfg) s.configs,
        join-lead m cfg (λ e. full (sym is ∙ e)) ∙ is,
      )
change-HasLead team lead (removes name) s full (cfg, there, is) =
    rw (change, remove_member, there)
      (leave name cfg, lookup-insert_self team (leave name cfg) s.configs, is)

-- A team that once has a lead's id keeps it, whatever members are added and removed: removing the lead
-- makes nobody else the lead.
pub change_all-HasLead :
    (team lead : String) (changes : List Change) (s : Store)
    → lead ≢ ""
    → HasLead team lead s
    → HasLead team lead (change_all team changes s)
unfolding change_all
change_all-HasLead team lead [] s full h = h
change_all-HasLead team lead (c ∷ changes) s full h =
    change_all-HasLead team lead changes (change team c s) full
      (change-HasLead team lead c s full h)
