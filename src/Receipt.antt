-- ===== src/Receipt.antt =====
-- packages/receipt/src: the Merkle trees over receipts.
pub mod Merkle
pub mod Inclusion
pub mod Examples
