-- ===== src/Mandate/Service/Store.antt =====
-- packages/mandate/src/service/memory.ts: the in-memory stores.
pub mod Table
pub mod Mandates
pub mod Decisions
pub mod Spend
pub mod Approvals
