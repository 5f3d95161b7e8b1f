-- ===== src/Domain.antt =====
-- packages/domain: the lifecycle of a payout, its policy and the permissions of its users.
pub mod PayoutStatus
pub mod Lifecycle
pub mod Rbac
pub mod Duties
pub mod Policy
