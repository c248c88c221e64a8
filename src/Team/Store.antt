-- ===== src/Team/Store.antt =====
-- obase/team_registry.py: `TeamRegistry` on the JSON files of its directory, which hold what was saved in
-- them. Names are plain names of files. Ids and times are what is drawn at each call; a member's and a
-- message's extra keys and a task's metadata are left out.
use obase.Base.{
  ℕ, Bool, true, false, not, Option, none, some, String, string_eq, List, [], ◌∷◌, ◌++◌, map,
  length, select, first, ltb, Result, ok, err, ◌==◌, if◌then◌else◌,
}
use obase.Base.Dict.{Dict, lookup, insert, erase}
use obase.Capability.Tokens.{default}

pub record TeamMember : Type 0 where
  pub name : String
  pub user : String
  pub agent_id : String
  pub agent_type : String
  pub joined_at : String

pub record TeamConfig : Type 0 where
  pub name : String
  pub description : String
  pub lead_agent_id : String
  pub created_at : String
  pub members : List TeamMember
  pub budget_cents : ℕ

pub record Task : Type 0 where
  pub id : String
  pub subject : String
  pub description : String
  pub status : String
  pub priority : String
  pub owner : String
  pub locked_by : String
  pub locked_at : String
  pub blocks : List String
  pub blocked_by : List String
  pub started_at : String
  pub created_at : String
  pub updated_at : String

pub record Message : Type 0 where
  pub msg_type : String
  pub sender : String
  pub to : Option String
  pub content : Option String
  pub request_id : Option String
  pub timestamp : Option String

-- The messages of an agent by their request ids, which name the files.
abbrev pub Inbox : Type 0
Inbox = Dict String Message

pub record Store : Type 0 where
  pub configs : Dict String TeamConfig
  pub tasks : Dict String (List Task)
  pub inboxes : Dict String (Dict String Inbox)

pub data Error : Type 0 where
  value_error : Error

-- What a caller of `make_team_member` may set.
pub record MemberKw : Type 0 where
  pub user : Option String
  pub agent_id : Option String
  pub agent_type : Option String
  pub joined_at : Option String

unfoldable pub make_team_member : String → MemberKw → String → String → TeamMember
make_team_member name kw fresh now = record {
  name = name;
  user = default "" kw.user;
  agent_id = default fresh kw.agent_id;
  agent_type = default "general-purpose" kw.agent_type;
  joined_at = default now kw.joined_at;
}

unfoldable pub make_team_config : String → String → String → ℕ → String → TeamConfig
make_team_config name description lead budget now = record {
  name = name;
  description = description;
  lead_agent_id = lead;
  created_at = now;
  members = [];
  budget_cents = budget;
}

unfoldable pub make_task : String → String → String → Task
make_task subject fresh now = record {
  id = fresh;
  subject = subject;
  description = "";
  status = "pending";
  priority = "medium";
  owner = "";
  locked_by = "";
  locked_at = "";
  blocks = [];
  blocked_by = [];
  started_at = "";
  created_at = now;
  updated_at = now;
}

unfoldable pub create_team :
    String → String → String → ℕ → String → Store → Result Error TeamConfig × Store
unfolding make_team_config
create_team name description lead budget now s = elim (lookup name s.configs) [
  | some cfg ↦ (err value_error, s)
  | none ↦
      let cfg = make_team_config name description lead budget now in
      (ok cfg, record s { configs = insert name cfg s.configs })
]

abbrev pub get_team : String → Store → Option TeamConfig
get_team name s = lookup name s.configs

-- The new member, and the lead's id if there was none.
unfoldable pub join : TeamMember → TeamConfig → TeamConfig
join member cfg = record cfg {
  members = cfg.members ++ member ∷ [];
  lead_agent_id = if cfg.lead_agent_id == "" then member.agent_id else cfg.lead_agent_id;
}

unfoldable pub add_member :
    String → String → MemberKw → String → String → Store → Result Error TeamMember × Store
unfolding make_team_member join
add_member team name kw fresh now s = elim (get_team team s) [
  | none ↦ (err value_error, s)
  | some cfg ↦
      let member = make_team_member name kw fresh now in
      (ok member, record s { configs = insert team (join member cfg) s.configs })
]

unfoldable pub leave : String → TeamConfig → TeamConfig
leave name cfg = record cfg { members = select (λ m. not (m.name == name)) cfg.members }

unfoldable pub remove_member : String → String → Store → Bool × Store
unfolding leave
remove_member team name s = elim (get_team team s) [
  | none ↦ (false, s)
  | some cfg ↦
      let cfg' = leave name cfg in
      (
        ltb (length cfg'.members) (length cfg.members),
        record s { configs = insert team cfg' s.configs },
      )
]

abbrev members_of : Option TeamConfig → List TeamMember
members_of none = []
members_of (some cfg) = cfg.members

abbrev pub list_members : String → Store → List TeamMember
list_members team s = members_of (get_team team s)

abbrev pub leader_of : Option TeamConfig → Option String
leader_of none = none
leader_of (some cfg) = elim (first (λ m. m.agent_id == cfg.lead_agent_id) cfg.members) [
  | none ↦ none
  | some m ↦ some m.name
]

abbrev pub get_leader_name : String → Store → Option String
get_leader_name team s = leader_of (get_team team s)

abbrev pub tasks_of : String → Store → List Task
tasks_of team s = default [] (lookup team s.tasks)

-- The keywords are a change of the task, which may not change its subject.
unfoldable pub add_task : String → String → (Task → Task) → String → String → Store → Task × Store
unfolding make_task
add_task team subject kw fresh now s =
    let task = record (kw (make_task subject fresh now)) { subject = subject } in
    (task, record s { tasks = insert team (tasks_of team s ++ task ∷ []) s.tasks })

unfoldable pub get_tasks : String → Option String → Store → List Task
get_tasks team none s = tasks_of team s
get_tasks team (some status) s =
    if status == "" then tasks_of team s else select (λ t. t.status == status) (tasks_of team s)

-- The loop of `update_task`: the tasks with the first of that id changed, `none` where there is none.
unfoldable pub update_first : String → (Task → Task) → String → List Task → Option (List Task)
update_first id fields now [] = none
update_first id fields now (t ∷ tasks) =
    let rest = update_first id fields now tasks in
    if t.id == id
    then some (record (fields t) { updated_at = now } ∷ tasks)
    else elim rest [ none ↦ none | some tasks' ↦ some (t ∷ tasks') ]

unfoldable pub update_task : String → String → (Task → Task) → String → Store → Bool × Store
unfolding update_first
update_task team id fields now s = elim (update_first id fields now (tasks_of team s)) [
  | none ↦ (false, s)
  | some tasks ↦ (true, record s { tasks = insert team tasks s.tasks })
]

abbrev pub lock_fields : String → String → String → Task → Task
lock_fields agent at started t = record t {
  status = "in_progress";
  locked_by = agent;
  locked_at = at;
  started_at = started;
}

-- The clock is read three times.
unfoldable pub lock_task :
    String → String → String → String → String → String → Store → Bool × Store
unfolding update_task
lock_task team id agent at started now s = update_task team id (lock_fields agent at started) now s

-- The directories of the teams, in the order that the file system gives; here that of the dict.
abbrev pub list_teams : Store → List TeamConfig
list_teams s = map (λ p. p.1) s.configs

-- The directory is there in any case, since `_team_dir` makes it.
unfoldable pub cleanup : String → Store → Bool × Store
unfolding erase
cleanup team s = (
  true,
  record {
    configs = erase team s.configs;
    tasks = erase team s.tasks;
    inboxes = erase team s.inboxes;
  },
)
