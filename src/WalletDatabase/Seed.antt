-- ===== src/WalletDatabase/Seed.antt =====
-- The seed of a wallet and its counters (wallet/walletDBO.go).
use factom.Base.{and_then, ℕ, ◌+◌, ◌%◌, ◌^◌, Option, none, some, Bytes, Result, ok, ◌>>=◌}
use factom.Crypto.{Crypto}
use factom.Address.FactoidAddress.{FactoidAddress}
use factom.Address.EcAddress.{EcAddress}
use factom.IdentityKey.{IdentityKey}
use factom.Address.Mnemonic.{
  Bip, make_bip44_factoid_address, make_bip44_ec_address, make_bip44_identity_key,
}
use factom.WalletDatabase.{Overlay, seed_db_key}

-- `DBSeed`; the indices are a uint32 each.
pub record DbSeed : Type 0 where
  pub mnemonic_seed : Bytes
  pub next_factoid_address_index : ℕ
  pub next_ec_address_index : ℕ
  pub next_identity_key_index : ℕ

-- encoding/gob of a `DBSeedBase`, whose encoding does not fail.
pub record Gob : Type 0 where
  pub encode : DbSeed → Bytes
  pub decode : Bytes → Result DbSeed

module _ (c : Crypto) (bip : Bip) where
  -- `NextFCTAddress`, `NextECAddress` and `NextIdentityKey`: the seed afterwards stands beside what
  -- is made of it. An error leaves it as it was.
  unfoldable pub next_fct_address : DbSeed → Result (FactoidAddress × DbSeed)
  next_fct_address e = do
    add ←
        make_bip44_factoid_address c bip e.mnemonic_seed bip.first_hardened_child 0
          e.next_factoid_address_index
    ok (add, record e { next_factoid_address_index = (e.next_factoid_address_index + 1) % 2 ^ 32 })

  unfoldable pub next_ec_address : DbSeed → Result (EcAddress × DbSeed)
  next_ec_address e = do
    add ←
        make_bip44_ec_address c bip e.mnemonic_seed bip.first_hardened_child 0
          e.next_ec_address_index
    ok (add, record e { next_ec_address_index = (e.next_ec_address_index + 1) % 2 ^ 32 })

  unfoldable pub next_identity_key : DbSeed → Result (IdentityKey × DbSeed)
  next_identity_key e = do
    add ←
        make_bip44_identity_key c bip e.mnemonic_seed bip.first_hardened_child 0
          e.next_identity_key_index
    ok (add, record e { next_identity_key_index = (e.next_identity_key_index + 1) % 2 ^ 32 })

-- `NewRandomSeed`, of the mnemonic that `bip39.NewMnemonic` makes of 16 random bytes; its failure,
-- at which the source panics, is an error.
unfoldable pub new_random_seed : Result Bytes → Result DbSeed
new_random_seed mnemonic = do
  m ← mnemonic
  ok (record {
    mnemonic_seed = m;
    next_factoid_address_index = 0;
    next_ec_address_index = 0;
    next_identity_key_index = 0;
  })

module _ (store : Overlay) (gob : Gob) where
  -- `InsertDBSeed`
  unfoldable pub insert_db_seed : DbSeed → store.DB → Result (Unit {0}) × store.DB
  insert_db_seed seed db = store.put db seed_db_key seed_db_key (gob.encode seed)

  -- `GetDBSeed`
  unfoldable pub get_db_seed : store.DB → Result (Option DbSeed)
  get_db_seed db = do
    found ← store.get db seed_db_key seed_db_key
    elim found [ none ↦ ok none | some b ↦ gob.decode b >>= λ seed. ok (some seed) ]

  -- The seed that is made when there is none.
  unfoldable pub create_db_seed : Result Bytes → store.DB → Result DbSeed × store.DB
  create_db_seed mnemonic db =
      and_then (new_random_seed mnemonic, db)
        (λ seed db1. and_then (insert_db_seed seed db1) (λ _ db2. (ok seed, db2)))

  -- `GetOrCreateDBSeed`, with the mnemonic of a new seed.
  unfoldable pub get_or_create_db_seed : Result Bytes → store.DB → Result DbSeed × store.DB
  get_or_create_db_seed mnemonic db =
      and_then (get_db_seed db, db)
        (λ found db1. elim found [
          | none ↦ create_db_seed mnemonic db1
          | some seed ↦ (ok seed, db1)
        ])
