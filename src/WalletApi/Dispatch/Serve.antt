-- ===== src/WalletApi/Dispatch/Serve.antt =====
-- Serving a request: the method's handler on the wallet's state.
use factom.Base.{Result, ℕ, true, false, Option, none, some, Bytes, ok, err, ◌>>=◌}
use factom.Base.{wallet_is_locked, method_not_found}
use factom.WalletApi.Lock.{is_locked}
use factom.WalletApi.Transactions.{
  handle_new_transaction, handle_delete_transaction, handle_tmp_transactions,
  handle_transaction_hash, handle_add_input, handle_add_output, handle_add_ec_output,
  handle_add_fee, handle_sub_fee, handle_sign_transaction, handle_compose_transaction,
}
use factom.WalletApi.Addresses.{
  handle_address, handle_all_addresses, handle_generate_ec_address, handle_generate_factoid_address,
  handle_import_addresses, handle_import_koinify, handle_wallet_backup, handle_remove_address,
}
use factom.WalletApi.Identities.{
  handle_identity_key, handle_all_identity_keys, handle_import_identity_keys,
  handle_generate_identity_key, handle_remove_identity_key,
}
use factom.WalletApi.Composing.{handle_compose_chain, handle_compose_entry}
use factom.WalletApi.Composing.Identities.{
  handle_compose_identity_chain, handle_compose_identity_key_replacement,
  handle_compose_identity_attribute, handle_compose_identity_attribute_endorsement,
}
use factom.WalletApi.Balances.{handle_wallet_balances}
use factom.WalletApi.ActiveKeys.{handle_active_identity_keys}
use factom.WalletApi.Dispatch.{
  Env, address_response, multi_address_response, wallet_backup_response, transaction_response,
  multi_transaction_response, deleted_response, hash_response, request_response, entry_response,
  simple_response, balance_response, active_keys_response,
}
use factom.WalletApi.Dispatch.Methods.{
  Method, method_of, address_method, all_addresses_method, generate_ec_address_method,
  generate_factoid_address_method, import_addresses_method, import_koinify_method,
  wallet_backup_method, transactions_method, new_transaction_method, delete_transaction_method,
  tmp_transactions_method, transaction_hash_method, add_input_method, add_output_method,
  add_ec_output_method, add_fee_method, sub_fee_method, sign_transaction_method,
  compose_transaction_method, remove_address_method, properties_method, compose_chain_method,
  compose_entry_method, get_height_method, wallet_balances_method, identity_key_method,
  all_identity_keys_method, import_identity_keys_method, generate_identity_key_method,
  remove_identity_key_method, active_identity_keys_method, compose_identity_chain_method,
  compose_identity_key_replacement_method, compose_identity_attribute_method,
  compose_identity_attribute_endorsement_method, unlock_wallet_method,
}
use factom.WalletApi.Dispatch.State.{
  Call, WalletState, Served, read_from, on_db, of_db, sources_of, on_transactions, on_count,
  serve_height, serve_properties, serve_transactions, serve_unlock,
}

module _ (env : Env) where
  -- The name of a `transactionRequest`.
  unfoldable pub name_of : Option Bytes → Result Bytes
  name_of params = do r ← read_from env.readers.transaction params; ok r.0

  -- `handleActiveIdentityKeys` does not touch the wallet.
  unfoldable pub serve_active_keys : Option Bytes → WalletState env → Option (Served env)
  serve_active_keys params s =
      elim (handle_active_identity_keys env.crypto env.reader env.heights env.initial_keys
        env.chain_fuel (read_from env.readers.active_keys params)) [
          | none ↦ none
          | some r ↦ some (r >>= λ k. ok (active_keys_response k), s)
        ]

  -- The cases of a wallet that is not locked; its database is open.
  unfoldable pub serve_method : ℕ → Method → Option Bytes → WalletState env → Option (Served env)
  serve_method now address_method params s = some (
      (of_db env address_response (
          handle_address env.store env.gob env.crypto env.bip env.mnemonic
            (read_from env.readers.address params)))
        s)
  serve_method now all_addresses_method params s = some (
      (of_db env multi_address_response
          (handle_all_addresses env.store env.gob env.crypto env.bip env.mnemonic))
        s)
  serve_method now generate_ec_address_method params s = some (
      (on_db env address_response
          (handle_generate_ec_address env.store env.gob env.crypto env.bip env.mnemonic))
        s)
  serve_method now generate_factoid_address_method params s = some (
      (on_db env address_response
          (handle_generate_factoid_address env.store env.gob env.crypto env.bip env.mnemonic))
        s)
  serve_method now import_addresses_method params s = some (
      (on_db env multi_address_response (
          handle_import_addresses env.store env.gob env.crypto env.bip env.mnemonic
            (read_from env.readers.addresses params)))
        s)
  serve_method now import_koinify_method params s = some (
      (on_db env address_response (
          handle_import_koinify env.store env.gob env.crypto env.bip env.mnemonic
            (read_from env.readers.words params)))
        s)
  serve_method now wallet_backup_method params s = some (
      (of_db env wallet_backup_response
          (handle_wallet_backup env.store env.gob env.crypto env.bip env.mnemonic))
        s)
  serve_method now new_transaction_method params s = some (
      (on_transactions env transaction_response
          (λ src. handle_new_transaction env.factoid env.view env.crypto src now (name_of params)))
        s)
  serve_method now delete_transaction_method params s = some (
      (on_transactions env deleted_response
          (λ src. handle_delete_transaction env.factoid env.view env.crypto src (name_of params)))
        s)
  serve_method now tmp_transactions_method params s = some (
      (on_transactions env multi_transaction_response
          (λ src txs. (ok (handle_tmp_transactions env.factoid env.view env.crypto src txs), txs)))
        s)
  serve_method now transaction_hash_method params s = some (
      (on_transactions env hash_response (λ src txs.
          (handle_transaction_hash env.factoid env.view env.crypto src (name_of params) txs, txs)))
        s)
  serve_method now add_input_method params s = some (
      (on_transactions env transaction_response (λ src.
          handle_add_input env.factoid env.view env.crypto src
            (read_from env.readers.transaction_value params)))
        s)
  serve_method now add_output_method params s = some (
      (on_transactions env transaction_response (λ src.
          handle_add_output env.factoid env.view env.crypto src
            (read_from env.readers.transaction_value params)))
        s)
  serve_method now add_ec_output_method params s = some (
      (on_transactions env transaction_response (λ src.
          handle_add_ec_output env.factoid env.view env.crypto src
            (read_from env.readers.transaction_value params)))
        s)
  serve_method now add_fee_method params s = some (
      (on_transactions env transaction_response (λ src.
          handle_add_fee env.factoid env.view env.crypto src
            (read_from env.readers.transaction_address params)))
        s)
  serve_method now sub_fee_method params s = some (
      (on_transactions env transaction_response (λ src.
          handle_sub_fee env.factoid env.view env.crypto src
            (read_from env.readers.transaction_address params)))
        s)
  serve_method now sign_transaction_method params s = some (
      (on_transactions env transaction_response (λ src.
          handle_sign_transaction env.factoid env.view env.crypto src
            (read_from env.readers.transaction params)))
        s)
  serve_method now compose_transaction_method params s = some (
      on_count env request_response
        (λ db count.
          handle_compose_transaction env.factoid env.view env.crypto (sources_of env db) count
            (name_of params) s.transactions)
        s)
  serve_method now remove_address_method params s = some (
      (on_db env simple_response (
          handle_remove_address env.store env.gob env.crypto env.bip env.mnemonic
            (read_from env.readers.address params)))
        s)
  serve_method now compose_chain_method params s = some (
      (on_count env entry_response (λ db.
          handle_compose_chain env.factomd_request env.json env.store env.crypto now db
            (read_from env.readers.chain params)))
        s)
  serve_method now compose_entry_method params s = some (
      (on_count env entry_response (λ db.
          handle_compose_entry env.factomd_request env.json env.store env.crypto now db
            (read_from env.readers.entry params)))
        s)
  serve_method now wallet_balances_method params s = some (
      (of_db env balance_response (
          handle_wallet_balances env.beyond env.post env.read_balances env.server env.store
            env.crypto))
        s)
  serve_method now identity_key_method params s = some (
      (of_db env address_response (
          handle_identity_key env.store env.gob env.crypto env.bip env.mnemonic
            (read_from env.readers.public_key params)))
        s)
  serve_method now all_identity_keys_method params s = some (
      (of_db env multi_address_response
          (handle_all_identity_keys env.store env.gob env.crypto env.bip env.mnemonic))
        s)
  serve_method now import_identity_keys_method params s = some (
      (on_db env multi_address_response (
          handle_import_identity_keys env.store env.gob env.crypto env.bip env.mnemonic
            (read_from env.readers.secrets params)))
        s)
  serve_method now generate_identity_key_method params s = some (
      (on_db env address_response
          (handle_generate_identity_key env.store env.gob env.crypto env.bip env.mnemonic))
        s)
  serve_method now remove_identity_key_method params s = some (
      (on_db env simple_response (
          handle_remove_identity_key env.store env.gob env.crypto env.bip env.mnemonic
            (read_from env.readers.public_key params)))
        s)
  serve_method now compose_identity_chain_method params s = some (
      (on_count env entry_response (λ db.
          handle_compose_identity_chain env.factomd_request env.json env.store env.crypto now db
            env.keys_json (read_from env.readers.identity_chain params)))
        s)
  serve_method now compose_identity_key_replacement_method params s = some (
      (on_count env entry_response (λ db.
          handle_compose_identity_key_replacement env.factomd_request env.json env.store env.crypto
            now db (read_from env.readers.key_replacement params)))
        s)
  serve_method now compose_identity_attribute_method params s = some (
      (on_count env entry_response (λ db.
          handle_compose_identity_attribute env.factomd_request env.json env.store env.crypto now db
            env.attributes_json (read_from env.readers.attribute params)))
        s)
  serve_method now compose_identity_attribute_endorsement_method params s = some (
      (on_count env entry_response (λ db.
          handle_compose_identity_attribute_endorsement env.factomd_request env.json env.store
            env.crypto now db (read_from env.readers.endorsement params)))
        s)
  serve_method now transactions_method params s = serve_transactions env params s
  serve_method now properties_method params s = some (serve_properties env s)
  serve_method now get_height_method params s = some (serve_height env s)
  serve_method now active_identity_keys_method params s = serve_active_keys params s
  serve_method now unlock_wallet_method params s = some (serve_unlock env now params s)

  -- The cases of a locked wallet.
  unfoldable pub serve_locked :
      ℕ → Option Method → Option Bytes → WalletState env → Option (Served env)
  serve_locked now (some get_height_method) params s = some (serve_height env s)
  serve_locked now (some properties_method) params s = some (serve_properties env s)
  serve_locked now (some transactions_method) params s = serve_transactions env params s
  serve_locked now (some unlock_wallet_method) params s = some (serve_unlock env now params s)
  serve_locked now _ params s = some (err wallet_is_locked, s)

  -- `handleV2Request`, up to the answer that it marshals.
  unfoldable pub serve : Call → WalletState env → Option (Served env)
  serve call s =
      elim (is_locked env.store env.gob env.secure env.mnemonic env.encrypted call.now s.overlay) [
        | true ↦ serve_locked call.now (method_of call.method) call.params s
        | false ↦ elim (method_of call.method) [
          | none ↦ some (err method_not_found, s)
          | some m ↦ serve_method call.now m call.params s
        ]
      ]
