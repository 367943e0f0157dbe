-- ===== src/Pairing.antt =====
-- components/management_session/src/aiqa_pairing_lifecycle.c: who may pair, when, and how often.
pub mod State
pub mod Refresh
pub mod Code
pub mod Ops
pub mod Invariant
pub mod Keeps
pub mod Quiet
pub mod Attempts
pub mod Create
pub mod Expiry
mod Tests
