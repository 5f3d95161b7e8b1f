-- ===== src/Mandate/Chain.antt =====
-- packages/mandate/src/mandate.ts: hashing a mandate, appending the links of its delegation chain,
-- and verifying the chain.
pub mod Roles
pub mod Verify
pub mod Shape
pub mod Signing
pub mod Examples
