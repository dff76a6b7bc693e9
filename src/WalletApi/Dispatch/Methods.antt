-- ===== src/WalletApi/Dispatch/Methods.antt =====
-- The methods of the wallet's API (the cases of `handleV2Request` of wallet/wsapi/wsapi.go).
use factom.Base.{Bool, true, false, Option, none, some, [], ◌∷◌, Bytes, codes}
use factom.Base.Dict.{Dict, lookup}

pub data Method : Type 0 where
  address_method all_addresses_method generate_ec_address_method : Method
  generate_factoid_address_method import_addresses_method import_koinify_method : Method
  wallet_backup_method transactions_method new_transaction_method delete_transaction_method : Method
  tmp_transactions_method transaction_hash_method add_input_method add_output_method : Method
  add_ec_output_method add_fee_method sub_fee_method sign_transaction_method : Method
  compose_transaction_method remove_address_method properties_method compose_chain_method : Method
  compose_entry_method get_height_method wallet_balances_method identity_key_method : Method
  all_identity_keys_method import_identity_keys_method generate_identity_key_method : Method
  remove_identity_key_method active_identity_keys_method compose_identity_chain_method : Method
  compose_identity_key_replacement_method compose_identity_attribute_method : Method
  compose_identity_attribute_endorsement_method unlock_wallet_method : Method

-- The strings of the cases, in their order.
unfoldable pub methods : Dict Method
methods =
    (codes "address", address_method)
    ∷ (codes "all-addresses", all_addresses_method)
    ∷ (codes "generate-ec-address", generate_ec_address_method)
    ∷ (codes "generate-factoid-address", generate_factoid_address_method)
    ∷ (codes "import-addresses", import_addresses_method)
    ∷ (codes "import-koinify", import_koinify_method)
    ∷ (codes "wallet-backup", wallet_backup_method)
    ∷ (codes "transactions", transactions_method)
    ∷ (codes "new-transaction", new_transaction_method)
    ∷ (codes "delete-transaction", delete_transaction_method)
    ∷ (codes "tmp-transactions", tmp_transactions_method)
    ∷ (codes "transaction-hash", transaction_hash_method)
    ∷ (codes "add-input", add_input_method)
    ∷ (codes "add-output", add_output_method)
    ∷ (codes "add-ec-output", add_ec_output_method)
    ∷ (codes "add-fee", add_fee_method)
    ∷ (codes "sub-fee", sub_fee_method)
    ∷ (codes "sign-transaction", sign_transaction_method)
    ∷ (codes "compose-transaction", compose_transaction_method)
    ∷ (codes "remove-address", remove_address_method)
    ∷ (codes "properties", properties_method)
    ∷ (codes "compose-chain", compose_chain_method)
    ∷ (codes "compose-entry", compose_entry_method)
    ∷ (codes "get-height", get_height_method)
    ∷ (codes "wallet-balances", wallet_balances_method)
    ∷ (codes "identity-key", identity_key_method)
    ∷ (codes "all-identity-keys", all_identity_keys_method)
    ∷ (codes "import-identity-keys", import_identity_keys_method)
    ∷ (codes "generate-identity-key", generate_identity_key_method)
    ∷ (codes "remove-identity-key", remove_identity_key_method)
    ∷ (codes "active-identity-keys", active_identity_keys_method)
    ∷ (codes "compose-identity-chain", compose_identity_chain_method)
    ∷ (codes "compose-identity-key-replacement", compose_identity_key_replacement_method)
    ∷ (codes "compose-identity-attribute", compose_identity_attribute_method)
    ∷ (
      codes "compose-identity-attribute-endorsement",
      compose_identity_attribute_endorsement_method,
    )
    ∷ (codes "unlock-wallet", unlock_wallet_method)
    ∷ []

-- The case of a method, or none.
unfoldable pub method_of : Bytes → Option Method
method_of name = lookup name methods

-- The cases that are open while the wallet is locked.
unfoldable pub is_open : Method → Bool
is_open get_height_method = true
is_open properties_method = true
is_open transactions_method = true
is_open unlock_wallet_method = true
is_open _ = false

-- Whether a method is one of them.
unfoldable pub is_open_name : Bytes → Bool
is_open_name name = elim (method_of name) [ none ↦ false | some m ↦ is_open m ]
