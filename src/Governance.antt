-- ===== src/Governance.antt =====
-- obase/tool_governance.py: redaction of payloads, tool and server specifications, grants.
pub mod Redact
pub mod Clean
pub mod Specs
pub mod Owned
mod Tests
