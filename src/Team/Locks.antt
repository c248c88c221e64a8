-- ===== src/Team/Locks.antt =====
-- What a lock of a task does.
use obase.Base.{◌≡◌, ◌≢◌, Bool, some, String, string_eq, List, select, first, ◌==◌}
use obase.Team.Store.{Task, Store, lock_fields}

abbrev pub has_id : String → Task → Bool
has_id id t = t.id == id

-- The first task of an id is changed, and none of another id.
abbrev IsUpdate : String → Task → List Task → List Task → Type 0
IsUpdate id t' tasks tasks' =
    (first (has_id id) tasks' ≡ some t')
    × ((other : String) → other ≢ id → select (has_id other) tasks' ≡ select (has_id other) tasks)

-- The task as `lock_task` leaves it.
abbrev pub locked : String → String → String → String → Task → Task
locked agent at started now t = record (lock_fields agent at started t) { updated_at = now }
