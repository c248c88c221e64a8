-- ===== src/Team.antt =====
-- obase/team_registry.py: teams, their members, tasks and inboxes.
pub mod Store
pub mod Inbox
pub mod Lead
pub mod Locks
pub mod Broadcast
mod Ids
mod Tests
