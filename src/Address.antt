-- ===== src/Address.antt =====
-- Factom addresses (addresses.go, rcd.go): the printed strings, the key pairs behind them, and the
-- mnemonics that they are derived from.
pub mod Checksum
pub mod Strings
pub mod EcAddress
pub mod Rcd
pub mod FactoidAddress
pub mod Mnemonic
