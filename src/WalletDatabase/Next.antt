-- ===== src/WalletDatabase/Next.antt =====
-- The next address or identity key of a wallet: made, counted and stored (wallet/walletDBO.go, and
-- the `Generate` functions of wallet/database.go, which return them).
use factom.Base.{and_then, none, some, Bytes, Result, ok, err, Error, ◌>>=◌}
use factom.Crypto.{Crypto}
use factom.Address.FactoidAddress.{FactoidAddress}
use factom.Address.EcAddress.{EcAddress}
use factom.IdentityKey.{IdentityKey}
use factom.Address.Mnemonic.{Bip}
use factom.WalletDatabase.{Overlay}
use factom.WalletDatabase.Seed.{
  DbSeed, Gob, get_or_create_db_seed, get_db_seed, insert_db_seed, next_fct_address,
  next_ec_address, next_identity_key,
}
use factom.WalletDatabase.Tables.{insert_fct_address, insert_ec_address, insert_identity_key}

module _ (store : Overlay) (gob : Gob) (c : Crypto) (bip : Bip) (mnemonic : Result Bytes) where
  -- What the three have in common: the seed, what is made of it, and both stored.
  unfoldable pub get_next :
      {A : Type 0}
      → (DbSeed → Result (A × DbSeed))
      → (A → store.DB → Result (Unit {0}) × store.DB)
      → store.DB
      → Result A × store.DB
  get_next make insert db = and_then (get_or_create_db_seed store gob mnemonic db) (λ seed db1.
      and_then (make seed, db1)
        (λ made db2.
          and_then (insert_db_seed store gob made.1 db2)
            (λ _ db3. and_then (insert made.0 db3) (λ _ db4. (ok made.0, db4)))))

  -- `GetNextECAddress`, `GetNextFCTAddress` and `GetNextIdentityKey`
  unfoldable pub get_next_ec_address : store.DB → Result EcAddress × store.DB
  get_next_ec_address = get_next (next_ec_address c bip) (insert_ec_address store c)

  unfoldable pub get_next_fct_address : store.DB → Result FactoidAddress × store.DB
  get_next_fct_address = get_next (next_fct_address c bip) (insert_fct_address store c)

  unfoldable pub get_next_identity_key : store.DB → Result IdentityKey × store.DB
  get_next_identity_key = get_next (next_identity_key c bip) (insert_identity_key store c)

  -- `GetSeed`, which reads the mnemonic of a nil pointer when there is no seed.
  unfoldable pub get_seed : store.DB → Result Bytes
  get_seed db = do
    seed ← get_db_seed store gob db
    elim seed [ none ↦ err Error.nil_dereference | some e ↦ ok e.mnemonic_seed ]
