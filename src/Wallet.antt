-- ===== src/Wallet.antt =====
-- The wallet (package wallet).
pub mod Factoid
pub mod Transactions
pub mod Building
pub mod Signing
pub mod Frames
pub mod Totals
pub mod Fees
pub mod Signatures
