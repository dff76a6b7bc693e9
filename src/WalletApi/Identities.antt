-- ===== src/WalletApi/Identities.antt =====
-- The handlers of identity keys (wallet/wsapi/wsapi.go).
use factom.Base.{and_then, internally, Bool, true, List, [], ◌∷◌, map, Bytes, Result, ok, ◌>>=◌}
use factom.Crypto.{Crypto}
use factom.IdentityKey
use factom.IdentityKey.{IdentityKey}
use factom.Address.Mnemonic.{Bip}
use factom.Rpc.Keys.{AddressResponse}
use factom.WalletDatabase.{Overlay}
use factom.WalletDatabase.Seed.{Gob}
use factom.WalletDatabase.Tables.{
  insert_identity_key, get_identity_key, get_all_identity_keys, remove_identity_key,
}
use factom.WalletDatabase.Next.{get_next_identity_key}
use factom.WalletApi.Addresses.{read_params, of_wallet, identity_key_response}

module _ (store : Overlay) (gob : Gob) (c : Crypto) (bip : Bip) (mnemonic : Result Bytes) where
  -- `handleIdentityKey`
  unfoldable pub handle_identity_key : Result Bytes → store.DB → Result AddressResponse
  handle_identity_key req db = do
    public ← read_params req
    k ← internally (get_identity_key store c public db)
    ok (identity_key_response c k)

  -- `handleAllIdentityKeys`
  unfoldable pub handle_all_identity_keys : store.DB → Result (List AddressResponse)
  handle_all_identity_keys db = do
    keys ← internally (get_all_identity_keys store c db)
    ok (map (identity_key_response c) keys)

  -- The loop of `handleImportIdentityKeys`, which returns each private string as it was given: what
  -- was stored before an error stays.
  unfoldable pub import_each_key : List Bytes → store.DB → Result (List AddressResponse) × store.DB
  import_each_key [] db = (ok [], db)
  import_each_key (secret ∷ secrets) db =
      and_then (internally (IdentityKey.get_identity_key c secret), db)
        (λ k db1. and_then (of_wallet (insert_identity_key store c k db1)) (λ _ db2.
          and_then (import_each_key secrets db2) (λ rest db3.
            (ok (record { public = IdentityKey.pub_string c k; secret = secret } ∷ rest), db3))))

  -- `handleImportIdentityKeys`
  unfoldable pub handle_import_identity_keys :
      Result (List Bytes) → store.DB → Result (List AddressResponse) × store.DB
  handle_import_identity_keys req db = and_then (read_params req, db) import_each_key

  -- `handleGenerateIdentityKey`
  unfoldable pub handle_generate_identity_key : store.DB → Result AddressResponse × store.DB
  handle_generate_identity_key db =
      and_then (of_wallet (get_next_identity_key store gob c bip mnemonic db))
        (λ k db1. (ok (identity_key_response c k), db1))

  -- `handleRemoveIdentityKey`
  unfoldable pub handle_remove_identity_key : Result Bytes → store.DB → Result Bool × store.DB
  handle_remove_identity_key req db =
      and_then (read_params req, db)
        (λ public db1.
          and_then (of_wallet (remove_identity_key store c public db1)) (λ _ db2. (ok true, db2)))
