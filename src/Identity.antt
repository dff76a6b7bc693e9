-- ===== src/Identity.antt =====
-- Identities (identity.go): a chain that lists public keys by priority, and the entries that
-- replace keys, assign attributes and endorse them.
pub mod Chains
pub mod Keys
pub mod Active
pub mod Entries
