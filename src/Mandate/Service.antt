-- ===== src/Mandate/Service.antt =====
-- packages/mandate/src/service: the gate as a service over stores, and the lifecycle of mandates and
-- approvals.
pub mod Ports
pub mod World
pub mod Store
pub mod Assess
pub mod Branches
pub mod Evaluate
pub mod Resolve
pub mod Audit
pub mod Draft
pub mod Lifecycle
pub mod ApprovalDecision
pub mod Same
pub mod Assessed
pub mod Effects
pub mod Carried
pub mod Refused
pub mod Answered
pub mod Budget
pub mod Limits
pub mod Extends
pub mod Steady
pub mod System
pub mod Spending
pub mod Settling
pub mod Invariant
pub mod Idempotence
pub mod Revocation
pub mod Issue
pub mod Sound
pub mod Soundness
pub mod Examples
