-- ===== src/WalletDatabase.antt =====
-- The key-value store of a wallet (wallet/walletDBO.go): the seed from which addresses and identity
-- keys are derived, and their tables. factomd's database overlay and encoding/gob are parameters.
pub mod Seed
pub mod Tables
pub mod Next
pub mod Vault
pub mod Laws
pub mod Refinement
pub mod Holding
pub mod Removing
pub mod Commands
pub mod Sequences
pub mod Opening
pub mod Opened
use factom.Base.{
  ℕ, zero, suc, ◌+◌, ◌-◌, ◌*◌, ◌/◌, ◌%◌, ◌^◌, ◌≤◌, ◌<◌, ◌≡◌, ◌≢◌, ◌↔◌, ◌⊎◌, ◌∙◌, inl, inr, refl,
  sym, ap, Bool, true, false, not, ◌&&◌, ◌||◌, Option, none, some, List, [], ◌∷◌, ◌++◌, map,
  append_assoc, append-nil, arith, Bytes, codes, length, take, drop, replicate, copy, bytes_eq, ltb,
  leb, ◌==◌, if◌then◌else◌, Result, ok, err, Error, ◌>>=◌, ◌>>◌, fail_if, All, IsByte, Bool-cases,
  Option-cases, length-append,
}

-- `databaseOverlay.Overlay`: a bucket, a key and the bytes that `MarshalBinary` gives. What is read
-- is handed to the `UnmarshalBinary` of a new value.
pub record Overlay : Type 1 where
  pub DB : Type 0
  -- `Get`; a missing key is a nil value.
  pub get : DB → Bytes → Bytes → Result (Option Bytes)
  -- `PutInBatch` of one record, `Delete`, and `FetchAllBlocksFromBucket`
  pub put : DB → Bytes → Bytes → Bytes → Result (Unit {0}) × DB
  pub delete : DB → Bytes → Bytes → Result (Unit {0}) × DB
  pub fetch_all : DB → Bytes → Result (List Bytes)

unfoldable pub fc_db_prefix : Bytes
fc_db_prefix = codes "Factoids"

unfoldable pub ec_db_prefix : Bytes
ec_db_prefix = codes "Entry Credits"

unfoldable pub seed_db_key : Bytes
seed_db_key = codes "DB Seed"

unfoldable pub identity_db_prefix : Bytes
identity_db_prefix = codes "Identities"
