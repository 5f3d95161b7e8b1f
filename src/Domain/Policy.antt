-- ===== src/Domain/Policy.antt =====
-- packages/domain/src/policy-engine.ts: the policy of an organization, evaluated on a payout.
pub mod Types
pub mod Evaluate
pub mod Meaning
pub mod Examples
