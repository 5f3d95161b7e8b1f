-- ===== src/Voucher.antt =====
-- packages/x402-client/src: payment vouchers, signed under a mandate.
pub mod Ledger
pub mod Charging
pub mod Encoding
pub mod Signer
pub mod Request
pub mod Charged
pub mod Runs
pub mod Creation
pub mod Created
pub mod Wallet
pub mod Examples
