-- ===== src/WalletApi/Addresses.antt =====
-- The handlers of addresses, and the backup (wallet/wsapi/wsapi.go).
use factom.Base.{
  invalid_address_type, not_imported, internal, internally, and_then, invalid_params, Bool, true,
  List, [], ◌∷◌, ◌++◌, map, Bytes, Result, ok, err, ◌>>=◌,
}
use factom.Crypto.{Crypto}
use factom.Address.FactoidAddress
use factom.Address.EcAddress
use factom.IdentityKey
use factom.Address.FactoidAddress.{FactoidAddress}
use factom.Address.EcAddress.{EcAddress}
use factom.IdentityKey.{IdentityKey}
use factom.Address.Mnemonic.{Bip, make_factoid_address_from_koinify}
use factom.Address.Strings.{address_string_type, factoid_pub, factoid_sec, ec_pub, ec_sec}
use factom.Rpc.Keys.{AddressResponse, WalletBackup}
use factom.WalletDatabase.{Overlay}
use factom.WalletDatabase.Seed.{Gob}
use factom.WalletDatabase.Tables.{
  insert_fct_address, insert_ec_address, get_fct_address, get_ec_address, get_all_addresses,
  get_all_identity_keys, remove_address,
}
use factom.WalletDatabase.Next.{get_next_fct_address, get_next_ec_address, get_seed}

-- `if err := json.Unmarshal(params, req); err != nil { return nil, newInvalidParamsError() }`
unfoldable pub read_params : {A : Type 0} → Result A → Result A
read_params (ok a) = ok a
read_params (err e) = err invalid_params

-- A call of the wallet, whose error becomes an internal error.
unfoldable pub of_wallet : {A S : Type 0} → Result A × S → Result A × S
of_wallet r = (internally r.0, r.1)

module _ (c : Crypto) where
  -- `mkAddressResponse`, by the two kinds of address
  unfoldable pub mk_factoid_response : FactoidAddress → AddressResponse
  mk_factoid_response a = record {
    public = FactoidAddress.public_string c a;
    secret = FactoidAddress.sec_string c a;
  }

  unfoldable pub mk_ec_response : EcAddress → AddressResponse
  mk_ec_response a = record { public = EcAddress.pub_string c a; secret = EcAddress.sec_string c a }

  unfoldable pub identity_key_response : IdentityKey → AddressResponse
  identity_key_response k = record {
    public = IdentityKey.pub_string c k;
    secret = IdentityKey.sec_string c k;
  }

  -- The loops over both kinds of address.
  unfoldable pub address_responses : List FactoidAddress × List EcAddress → List AddressResponse
  address_responses r = map mk_factoid_response r.0 ++ map mk_ec_response r.1

module _ (store : Overlay) (gob : Gob) (c : Crypto) (bip : Bip) (mnemonic : Result Bytes) where
  -- `handleRemoveAddress`
  unfoldable pub handle_remove_address : Result Bytes → store.DB → Result Bool × store.DB
  handle_remove_address req db =
      and_then (read_params req, db)
        (λ address db1.
          and_then (of_wallet (remove_address store c address db1)) (λ _ db2. (ok true, db2)))

  -- `handleAddress`
  unfoldable pub handle_address : Result Bytes → store.DB → Result AddressResponse
  handle_address req db = do
    address ← read_params req
    elim (address_string_type c address) [
      | ec_pub ↦ internally (get_ec_address store c address db) >>= λ e. ok (mk_ec_response c e)
      | factoid_pub ↦
          internally (get_fct_address store c address db) >>= λ f. ok (mk_factoid_response c f)
      | _ ↦ err (internal invalid_address_type)
    ]

  -- `handleAllAddresses`
  unfoldable pub handle_all_addresses : store.DB → Result (List AddressResponse)
  handle_all_addresses db = do
    r ← internally (get_all_addresses store c db)
    ok (address_responses c r)

  -- `handleGenerateFactoidAddress` and `handleGenerateECAddress`
  unfoldable pub handle_generate_factoid_address : store.DB → Result AddressResponse × store.DB
  handle_generate_factoid_address db =
      and_then (of_wallet (get_next_fct_address store gob c bip mnemonic db))
        (λ a db1. (ok (mk_factoid_response c a), db1))

  unfoldable pub handle_generate_ec_address : store.DB → Result AddressResponse × store.DB
  handle_generate_ec_address db =
      and_then (of_wallet (get_next_ec_address store gob c bip mnemonic db))
        (λ a db1. (ok (mk_ec_response c a), db1))

  -- One address of `handleImportAddresses`.
  unfoldable pub import_address : Bytes → store.DB → Result AddressResponse × store.DB
  import_address secret db = elim (address_string_type c secret) [
    | factoid_sec ↦
        and_then (internally (FactoidAddress.get_factoid_address c secret), db)
          (λ f db1.
            and_then (of_wallet (insert_fct_address store c f db1))
              (λ _ db2. (ok (mk_factoid_response c f), db2)))
    | ec_sec ↦
        and_then (internally (EcAddress.get_ec_address c secret), db)
          (λ e db1.
            and_then (of_wallet (insert_ec_address store c e db1))
              (λ _ db2. (ok (mk_ec_response c e), db2)))
    | _ ↦ (err (internal not_imported), db)
  ]

  -- The loop of `handleImportAddresses`: what was stored before an error stays.
  unfoldable pub import_each : List Bytes → store.DB → Result (List AddressResponse) × store.DB
  import_each [] db = (ok [], db)
  import_each (secret ∷ secrets) db =
      and_then (import_address secret db)
        (λ a db1. and_then (import_each secrets db1) (λ rest db2. (ok (a ∷ rest), db2)))

  -- `handleImportAddresses`
  unfoldable pub handle_import_addresses :
      Result (List Bytes) → store.DB → Result (List AddressResponse) × store.DB
  handle_import_addresses req db = and_then (read_params req, db) import_each

  -- `handleImportKoinify`
  unfoldable pub handle_import_koinify : Result Bytes → store.DB → Result AddressResponse × store.DB
  handle_import_koinify req db =
      and_then (read_params req, db)
        (λ words db1.
          and_then (internally (make_factoid_address_from_koinify c bip words), db1)
            (λ f db2.
              and_then (of_wallet (insert_fct_address store c f db2))
                (λ _ db3. (ok (mk_factoid_response c f), db3))))

  -- `handleWalletBackup`
  unfoldable pub handle_wallet_backup : store.DB → Result WalletBackup
  handle_wallet_backup db = do
    seed ← internally (get_seed store gob c bip mnemonic db)
    r ← internally (get_all_addresses store c db)
    keys ← internally (get_all_identity_keys store c db)
    ok (record {
      seed = seed;
      addresses = address_responses c r;
      identity_keys = map (identity_key_response c) keys;
    })
