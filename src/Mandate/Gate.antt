-- ===== src/Mandate/Gate.antt =====
-- packages/mandate/src/gate.ts: the policy gate, its rules one by one, and what its verdict means.
pub mod Rules
pub mod Evaluate
pub mod Terms
pub mod Verdict
pub mod Limits
pub mod Fresh
pub mod Meaning
pub mod Authority
pub mod Approvals
pub mod Samples
pub mod Examples
