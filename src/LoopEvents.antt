-- ===== src/LoopEvents.antt =====
-- obase/loop_event_store.py: the append-only event log with its hash chain (Log, Migrate) and the
-- quota tracker that writes to it (Quota).
pub mod Log
pub mod Migrate
pub mod Quota
pub mod Chain
pub mod Tamper
pub mod Dedupe
pub mod Rechain
pub mod View
pub mod Refine
mod Tests
