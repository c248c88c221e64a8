-- ===== src/Executor.antt =====
-- obase/hardened_executor.py with obase/resource_limits.py and obase/zero_egress_sandbox.py: a function
-- or a command run behind a capability token, a resource envelope, a breaker, a limiter, a honeypot and
-- an action log.
pub mod Status
pub mod Envelope
pub mod Sandbox
pub mod Probe
pub mod Records
pub mod Execute
pub mod Guarded
pub mod Audited
pub mod Bait
pub mod Subprocess
pub mod Started
pub mod Limits
pub mod Secrets
mod Tests
