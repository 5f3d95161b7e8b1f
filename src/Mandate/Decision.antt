-- ===== src/Mandate/Decision.antt =====
-- packages/mandate/src/decision.ts: what is recorded and signed of a decision, and how it is verified.
pub mod Record
pub mod Verify
pub mod Replay
pub mod Authority
pub mod Examples
