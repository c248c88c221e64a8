-- ===== src/Capability.antt =====
-- obase/permission_contract.py: capability tokens, their verification and revocation. HMAC, base64 and
-- JSON are parameters: `sign`, `encode` and `decode`.
pub mod Split
pub mod Tokens
pub mod Verified
pub mod Matching
mod Tests
