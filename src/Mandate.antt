-- ===== src/Mandate.antt =====
-- The package packages/mandate: the signed mandate, the policy gate and the decision record.
pub mod Types
pub mod Records
pub mod Documents
pub mod Resource
pub mod Schema
pub mod Crypto
pub mod OwnerApproval
pub mod Chain
pub mod Gate
pub mod Decision
pub mod Service
