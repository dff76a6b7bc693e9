-- ===== src/WalletDatabase/Opening.antt =====
-- Opening a wallet (the constructors of wallet/walletDBO.go and wallet/database.go). The file system
-- and the databases behind an overlay are a parameter.
use factom.Base.{and_then, Bool, true, false, Option, none, some, [], Bytes, Result, ok, err, Error}
use factom.Base.{path_is_directory}
use factom.Wallet.Factoid.{Factoid}
use factom.Wallet.Transactions.{Txs}
use factom.WalletDatabase.{Overlay}
use factom.WalletDatabase.Seed.{Gob, get_or_create_db_seed}

-- What `os.Stat` tells of a path.
pub data PathInfo : Type 0 where
  found : (is_dir : Bool) → PathInfo
  not_found : PathInfo
  stat_failed : Error → PathInfo

-- factomd's and securedb's databases, each in an overlay. A nil database comes with an error. Where
-- opening a file panics, and the program exits, there is no result.
pub record Drivers (DB : Type 0) : Type 0 where
  pub stat : Bytes → PathInfo
  -- `mapdb.MapDB`
  pub map_db : DB
  -- `NewLevelMapHybridDB`, to make a new one or not
  pub level_map_hybrid_db : Bytes → Bool → Result DB
  pub bolt_map_hybrid_db : Bytes → Option DB
  -- `securedb.NewEncryptedDB` of kind Bolt, by the password
  pub encrypted_db : Bytes → Bytes → Option (Result DB)

module _ {DB : Type 0} (d : Drivers DB) where
  -- `NewLevelDB`
  unfoldable pub new_level_db : Bytes → Result DB
  new_level_db path = elim (d.level_map_hybrid_db path false) [
    | ok db ↦ ok db
    | err _ ↦ d.level_map_hybrid_db path true
  ]

  -- `CreateEncryptedBoltDB`: the checks of the path. A directory that cannot be made is no error.
  unfoldable pub create_encrypted_bolt_db : Bytes → Result (Unit {0})
  create_encrypted_bolt_db path = elim (d.stat path) [
    | found is_dir ↦ elim is_dir [ true ↦ err path_is_directory | false ↦ ok tt ]
    | not_found ↦ ok tt
    | stat_failed e ↦ err e
  ]

  -- `NewBoltDB`, whose checks are the same.
  unfoldable pub new_bolt_db : Bytes → Option (Result DB)
  new_bolt_db path = elim (create_encrypted_bolt_db path) [
    | err e ↦ some (err e)
    | ok _ ↦ elim (d.bolt_map_hybrid_db path) [ none ↦ none | some db ↦ some (ok db) ]
  ]

  -- `NewEncryptedBoltDB`, with `OpenEncryptedBoltDB`.
  unfoldable pub new_encrypted_bolt_db : Bytes → Bytes → Option (Result DB)
  new_encrypted_bolt_db path password = elim (create_encrypted_bolt_db path) [
    | err e ↦ some (err e)
    | ok _ ↦ d.encrypted_db path password
  ]

-- `Wallet`, but for the cache, which is set later.
pub record Wallet (DB : Type 0) (f : Factoid) : Type 0 where
  pub overlay : Option DB
  pub encrypted : Bool
  pub db_path : Bytes
  pub transactions : Txs f

module _ (store : Overlay) (gob : Gob) (mnemonic : Result Bytes) where
  -- `InitWallet`; `GetOrCreateDBSeed` returns no nil without an error.
  unfoldable pub init_wallet : store.DB → Result (Unit {0}) × store.DB
  init_wallet db = and_then (get_or_create_db_seed store gob mnemonic db) (λ seed db1. (ok tt, db1))

module _ (store : Overlay) (gob : Gob) (mnemonic : Result Bytes) (f : Factoid) where
  -- How the constructors end: the wallet on its database, whose seed is read or made.
  unfoldable pub start_wallet : Bool → Bytes → store.DB → Result (Wallet store.DB f)
  start_wallet encrypted path db =
      let (started, db1) = init_wallet store gob mnemonic db in
      elim started [
        | err e ↦ err e
        | ok _ ↦ ok (record {
          overlay = some db1;
          encrypted = encrypted;
          db_path = path;
          transactions = [];
        })
      ]

  unfoldable pub start_opened : Bool → Bytes → Result store.DB → Result (Wallet store.DB f)
  start_opened encrypted path (err e) = err e
  start_opened encrypted path (ok db) = start_wallet encrypted path db

  unfoldable pub start_unless_exited :
      Bool → Bytes → Option (Result store.DB) → Option (Result (Wallet store.DB f))
  start_unless_exited encrypted path none = none
  start_unless_exited encrypted path (some opened) = some (start_opened encrypted path opened)

module _ (store : Overlay) (gob : Gob) (mnemonic : Result Bytes) (f : Factoid)
    (d : Drivers store.DB) where
  -- `NewOrOpenLevelDBWallet`
  unfoldable pub new_or_open_level_db_wallet : Bytes → Result (Wallet store.DB f)
  new_or_open_level_db_wallet path =
      start_opened store gob mnemonic f false [] (new_level_db d path)

  -- `NewOrOpenBoltDBWallet`
  unfoldable pub new_or_open_bolt_db_wallet : Bytes → Option (Result (Wallet store.DB f))
  new_or_open_bolt_db_wallet path =
      start_unless_exited store gob mnemonic f false [] (new_bolt_db d path)

  -- `NewMapDBWallet`
  unfoldable pub new_map_db_wallet : Result (Wallet store.DB f)
  new_map_db_wallet = start_wallet store gob mnemonic f false [] d.map_db

  -- `NewEncryptedBoltDBWallet`
  unfoldable pub new_encrypted_bolt_db_wallet : Bytes → Bytes → Option (Result (Wallet store.DB f))
  new_encrypted_bolt_db_wallet path password =
      start_unless_exited store gob mnemonic f true path (new_encrypted_bolt_db d path password)

  -- `NewEncryptedBoltDBWalletAwaitingPassphrase`
  unfoldable pub new_encrypted_bolt_db_wallet_awaiting_passphrase : Bytes → Wallet store.DB f
  new_encrypted_bolt_db_wallet_awaiting_passphrase path = record {
    overlay = none;
    encrypted = true;
    db_path = path;
    transactions = [];
  }
