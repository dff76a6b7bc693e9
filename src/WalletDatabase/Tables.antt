-- ===== src/WalletDatabase/Tables.antt =====
-- The tables of addresses and identity keys (wallet/walletDBO.go).
use factom.Base.{
  and_then, Bool, true, false, ◌&&◌, ◌||◌, none, some, List, [], ◌∷◌, Bytes, replicate, ltb, ◌==◌,
  if◌then◌else◌, Result, ok, err, Error, ◌>>=◌,
}
use factom.Crypto.{Crypto}
use factom.Address.FactoidAddress
use factom.Address.EcAddress
use factom.IdentityKey
use factom.Address.FactoidAddress.{FactoidAddress}
use factom.Address.EcAddress.{EcAddress}
use factom.IdentityKey.{IdentityKey}
use factom.WalletDatabase.{Overlay, fc_db_prefix, ec_db_prefix, identity_db_prefix}

-- `strings.Compare(a, b) < 0`
unfoldable pub before : Bytes → Bytes → Bool
before s [] = false
before [] (b ∷ t) = true
before (a ∷ s) (b ∷ t) = let rest = before s t in ltb a b || a == b && rest

-- `sort.Sort` by what the values print.
unfoldable pub insert_sorted {ℓ} : {A : Type ℓ} → (A → Bytes) → A → List A → List A
insert_sorted name a [] = a ∷ []
insert_sorted name a (b ∷ list) =
    let rest = insert_sorted name a list in
    if before (name b) (name a) then b ∷ rest else a ∷ b ∷ list

unfoldable pub sort_by {ℓ} : {A : Type ℓ} → (A → Bytes) → List A → List A
sort_by name [] = []
sort_by name (a ∷ list) = insert_sorted name a (sort_by name list)

-- `FetchAllBlocksFromBucket` stops at the first value that is not read.
unfoldable pub read_all : {A : Type 0} → (Bytes → Result A) → List Bytes → Result (List A)
read_all unmarshal [] = ok []
read_all unmarshal (b ∷ values) = do
  a ← unmarshal b
  rest ← read_all unmarshal values
  ok (a ∷ rest)

module _ (store : Overlay) {A : Type 0} (unmarshal : Bytes → Result A) (missing : Error)
    (bucket : Bytes) where
  -- A getter: the value of a key that must be there.
  unfoldable pub get_from : Bytes → store.DB → Result A
  get_from key db = do
    found ← store.get db bucket key
    elim found [ none ↦ err missing | some b ↦ unmarshal b ]

  -- A removal: of a key that must be there, and twice, to flush the file.
  unfoldable pub remove_from : Bytes → store.DB → Result (Unit {0}) × store.DB
  remove_from key db =
      and_then (get_from key db, db)
        (λ _ db1. and_then (store.delete db1 bucket key) (λ _ db2. store.delete db2 bucket key))

module _ (store : Overlay) (c : Crypto) where
  -- `InsertECAddress`, `GetECAddress` and `GetAllECAddresses`
  unfoldable pub insert_ec_address : EcAddress → store.DB → Result (Unit {0}) × store.DB
  insert_ec_address e db =
      store.put db ec_db_prefix (EcAddress.pub_string c e) (EcAddress.marshal_binary e)

  unfoldable pub get_ec_address : Bytes → store.DB → Result EcAddress
  get_ec_address =
      get_from store (EcAddress.unmarshal_binary c none) Error.no_such_address ec_db_prefix

  unfoldable pub get_all_ec_addresses : store.DB → Result (List EcAddress)
  get_all_ec_addresses db = do
    values ← store.fetch_all db ec_db_prefix
    list ← read_all (EcAddress.unmarshal_binary c (some (replicate 64 0))) values
    ok (sort_by (EcAddress.pub_string c) list)

  -- `InsertFCTAddress`, `GetFCTAddress` and `GetAllFCTAddresses`
  unfoldable pub insert_fct_address : FactoidAddress → store.DB → Result (Unit {0}) × store.DB
  insert_fct_address e db =
      store.put db fc_db_prefix (FactoidAddress.public_string c e) (FactoidAddress.marshal_binary e)

  unfoldable pub get_fct_address : Bytes → store.DB → Result FactoidAddress
  get_fct_address =
      get_from store (FactoidAddress.unmarshal_binary c none) Error.no_such_address fc_db_prefix

  unfoldable pub get_all_fct_addresses : store.DB → Result (List FactoidAddress)
  get_all_fct_addresses db = do
    values ← store.fetch_all db fc_db_prefix
    list ← read_all (FactoidAddress.unmarshal_binary c (some (replicate 64 0))) values
    ok (sort_by (FactoidAddress.public_string c) list)

  -- `InsertIdentityKey`, `GetIdentityKey` and `GetAllIdentityKeys`
  unfoldable pub insert_identity_key : IdentityKey → store.DB → Result (Unit {0}) × store.DB
  insert_identity_key e db =
      store.put db identity_db_prefix (IdentityKey.pub_string c e) (IdentityKey.marshal_binary e)

  unfoldable pub get_identity_key : Bytes → store.DB → Result IdentityKey
  get_identity_key =
      get_from store (IdentityKey.unmarshal_binary c none) Error.no_such_identity_key
        identity_db_prefix

  unfoldable pub get_all_identity_keys : store.DB → Result (List IdentityKey)
  get_all_identity_keys db = do
    values ← store.fetch_all db identity_db_prefix
    list ← read_all (IdentityKey.unmarshal_binary c (some (replicate 64 0))) values
    ok (sort_by (IdentityKey.pub_string c) list)

  -- `RemoveAddress`
  unfoldable pub remove_address : Bytes → store.DB → Result (Unit {0}) × store.DB
  remove_address [] db = (ok tt, db)
  remove_address (b ∷ s) db =
      if b == b'F'
      then remove_from store (FactoidAddress.unmarshal_binary c none) Error.no_such_address
          fc_db_prefix (b ∷ s) db
      else if b == b'E'
      then remove_from store (EcAddress.unmarshal_binary c none) Error.no_such_address ec_db_prefix
          (b ∷ s) db
      else (err Error.unknown_address_type, db)

  -- `RemoveIdentityKey`
  unfoldable pub remove_identity_key : Bytes → store.DB → Result (Unit {0}) × store.DB
  remove_identity_key [] db = (ok tt, db)
  remove_identity_key (b ∷ s) db =
      remove_from store (IdentityKey.unmarshal_binary c none) Error.no_such_identity_key
        identity_db_prefix (b ∷ s) db

  -- `GetAllAddresses` of wallet/database.go
  unfoldable pub get_all_addresses : store.DB → Result (List FactoidAddress × List EcAddress)
  get_all_addresses db = do
    fcs ← get_all_fct_addresses db
    ecs ← get_all_ec_addresses db
    ok (fcs, ecs)
