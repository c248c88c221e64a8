-- ===== src/Executor/Status.antt =====
-- The statuses of `ExecutionResult` and `SandboxResult`: "ok", "denied", "blocked", "timeout",
-- "honeypot_trip" and "error".

pub data Status : Type 0 where
  succeeded refused blocked timed_out honeypot_trip failed : Status
