-- ===== src/WalletApi/Composing/Identities.antt =====
-- The handlers that compose the requests of an identity (wallet/wsapi/wsapi.go).
use factom.Base.{ℕ, Bool, Option, none, some, List, [], ◌∷◌, Bytes, Result, ok, err, Error}
use factom.Base.{and_then, internally, no_signer_key, attribute_key_nil, attribute_value_nil}
use factom.Crypto.{Crypto}
use factom.IdentityKey.{IdentityKey}
use factom.Identity.Chains.{new_identity_chain}
use factom.Identity.Entries.{
  new_identity_key_replacement_entry, new_identity_attribute_entry,
  new_identity_attribute_endorsement_entry,
}
use factom.Rpc.Request.{Json2Request}
use factom.Rpc.Client.{Json2Response, Unmarshal}
use factom.WalletDatabase.{Overlay}
use factom.WalletDatabase.Tables.{get_ec_address, get_identity_key}
use factom.WalletApi.Addresses.{read_params}
use factom.WalletApi.Composing.{
  EntryResponse, check_chain, check_entry, compose_chain, compose_entry,
}

-- Their requests of structs.go.
pub record IdentityChainRequest : Type 0 where
  pub name : List Bytes
  pub pub_keys : List Bytes
  pub ec_pub : Bytes
  pub force : Bool

pub record IdentityKeyReplacementRequest : Type 0 where
  pub chain_id : Bytes
  pub old_key : Bytes
  pub new_key : Bytes
  pub signer_key : Bytes
  pub ec_pub : Bytes
  pub force : Bool

-- `IdentityAttribute` of identity.go: JSON values, of which only nil is told apart.
pub record IdentityAttribute : Type 0 where
  pub key : Option Bytes
  pub value : Option Bytes

pub record IdentityAttributeRequest : Type 0 where
  pub receiver_chain_id : Bytes
  pub destination_chain_id : Bytes
  pub attributes : List IdentityAttribute
  pub signer_key : Bytes
  pub signer_chain_id : Bytes
  pub ec_pub : Bytes
  pub force : Bool

pub record IdentityAttributeEndorsementRequest : Type 0 where
  pub destination_chain_id : Bytes
  pub entry_hash : Bytes
  pub signer_key : Bytes
  pub signer_chain_id : Bytes
  pub ec_pub : Bytes
  pub force : Bool

-- The loop over the attributes.
unfoldable pub check_attributes : List IdentityAttribute → Result (Unit {0})
check_attributes [] = ok tt
check_attributes (a ∷ attributes) =
    let rest = check_attributes attributes in
    elim a.key [
      | none ↦ err (Error.internal attribute_key_nil)
      | some _ ↦ elim a.value [ none ↦ err (Error.internal attribute_value_nil) | some _ ↦ rest ]
    ]

-- The signer's key, whose error is replaced.
unfoldable pub signer_key_of : (store : Overlay) → Crypto → store.DB → Bytes → Result IdentityKey
signer_key_of store c db public = elim (get_identity_key store c public db) [
  | ok k ↦ ok k
  | err _ ↦ err (Error.internal no_signer_key)
]

module _ (factomd_request : Json2Request → Result Json2Response) (json : Unmarshal)
    (store : Overlay) (c : Crypto) (now : ℕ) (db : store.DB) where
  -- `handleComposeIdentityChain`; the first parameter prints the keys of the identity.
  unfoldable pub handle_compose_identity_chain :
      (List Bytes → Bytes) → Result IdentityChainRequest → ℕ → Result EntryResponse × ℕ
  handle_compose_identity_chain keys_json params count =
      and_then (read_params params, count)
        (λ req n.
          and_then (internally (get_ec_address store c req.ec_pub db), n)
            (λ ec n1.
              and_then (internally (new_identity_chain c keys_json req.name req.pub_keys), n1)
                (λ chain n2.
                  and_then (check_chain factomd_request json req.force req.ec_pub chain n2)
                    (λ _ n3. compose_chain c now chain ec n3))))

  -- `handleComposeIdentityKeyReplacement`
  unfoldable pub handle_compose_identity_key_replacement :
      Result IdentityKeyReplacementRequest → ℕ → Result EntryResponse × ℕ
  handle_compose_identity_key_replacement params count =
      and_then (read_params params, count)
        (λ req n.
          and_then (signer_key_of store c db req.signer_key, n)
            (λ signer n1.
              and_then (internally (get_ec_address store c req.ec_pub db), n1)
                (λ ec n2.
                  and_then
                    (
                      internally (
                          new_identity_key_replacement_entry c req.chain_id req.old_key req.new_key
                            signer),
                      n2,
                    )
                    (λ e n3.
                      and_then (check_entry factomd_request json req.force req.ec_pub e n3)
                        (λ _ n4. compose_entry c now e ec n4)))))

  -- `handleComposeIdentityAttribute`; the first parameter prints the attributes.
  unfoldable pub handle_compose_identity_attribute :
      (List IdentityAttribute → Result Bytes)
      → Result IdentityAttributeRequest
      → ℕ
      → Result EntryResponse × ℕ
  handle_compose_identity_attribute attributes_json params count =
      and_then (read_params params, count)
        (λ req n.
          and_then (signer_key_of store c db req.signer_key, n)
            (λ signer n1.
              and_then (check_attributes req.attributes, n1)
                (λ _ n2.
                  and_then (internally (attributes_json req.attributes), n2)
                    (λ text n3.
                      let e =
                        new_identity_attribute_entry c req.receiver_chain_id
                          req.destination_chain_id text signer req.signer_chain_id in
                      and_then (internally (get_ec_address store c req.ec_pub db), n3)
                        (λ ec n4.
                          and_then (check_entry factomd_request json req.force req.ec_pub e n4)
                            (λ _ n5. compose_entry c now e ec n5))))))

  -- `handleComposeIdentityAttributeEndorsement`
  unfoldable pub handle_compose_identity_attribute_endorsement :
      Result IdentityAttributeEndorsementRequest → ℕ → Result EntryResponse × ℕ
  handle_compose_identity_attribute_endorsement params count =
      and_then (read_params params, count)
        (λ req n.
          and_then (signer_key_of store c db req.signer_key, n)
            (λ signer n1.
              let e =
                new_identity_attribute_endorsement_entry c req.destination_chain_id req.entry_hash
                  signer req.signer_chain_id in
              and_then (internally (get_ec_address store c req.ec_pub db), n1)
                (λ ec n2.
                  and_then (check_entry factomd_request json req.force req.ec_pub e n2)
                    (λ _ n3. compose_entry c now e ec n3))))
