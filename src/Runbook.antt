-- ===== src/Runbook.antt =====
-- obase/orchestrator.py, the graph mode: runbooks, the state of a run and the backends that keep it
-- (State), and `runbook_goto` with the functions beside it (Goto).
pub mod State
pub mod Goto
pub mod Walk
pub mod Reach
pub mod Checks
pub mod Gate
pub mod Saved
pub mod Kept
pub mod Attempts
pub mod History
mod Tests
