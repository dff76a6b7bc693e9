-- ===== src/WalletApi/Composing/Valid.antt =====
-- The attributes and endorsements that the wallet's API composes are valid.
use factom.Base.{
  ℕ, ◌≡◌, ◌≢◌, inl, inr, refl, Bool, true, none, List, [], ◌∷◌, Bytes, length, Result, ok, All,
  Option-cases,
}
use factom.Base.{and_then, internally, and_then-ok}
use factom.Crypto.{Crypto, IsLawful}
use factom.Address.EcAddress.{EcAddress}
use factom.IdentityKey.{IdentityKey, make_identity_key}
use factom.Entry.{Entry}
use factom.Identity.Entries.{
  new_identity_attribute_entry, new_identity_attribute_endorsement_entry, is_valid_attribute,
  is_valid_endorsement,
}
use factom.Identity.Entries.Valid.{
  new_identity_attribute_entry-valid, new_identity_attribute_endorsement_entry-valid,
}
use factom.Rpc.Request.{Json2Request}
use factom.Rpc.Client.{Json2Response, Unmarshal}
use factom.WalletDatabase.{Overlay}
use factom.WalletDatabase.Tables.{get_ec_address, get_identity_key}
use factom.WalletApi.Addresses.{read_params}
use factom.WalletApi.Composing.{EntryResponse, check_entry, compose_entry}
use factom.WalletApi.Composing.Identities.{
  IdentityAttribute, IdentityAttributeRequest, IdentityAttributeEndorsementRequest, signer_key_of,
  check_attributes, handle_compose_identity_attribute,
  handle_compose_identity_attribute_endorsement,
}
use factom.WalletApi.Composing.Paid.{PaysForEntry, internally-eq-ok, compose_entry-PaysForEntry}

signer_key_of-held :
    (store : Overlay) (c : Crypto) (db : store.DB) (public : Bytes) {k : IdentityKey}
    → get_identity_key store c public db ≡ ok k
    → signer_key_of store c db public ≡ ok k
unfolding signer_key_of
signer_key_of-held store c db public held = rw (signer_key_of, held) refl

-- The loop accepts attributes that all have a key and a value.
check_attributes-All :
    (attributes : List IdentityAttribute)
    → check_attributes attributes ≡ ok tt
    → All (λ a. (a.key ≢ none) × (a.value ≢ none)) attributes
unfolding check_attributes
check_attributes-All [] h = tt
check_attributes-All (a ∷ attributes) h = elim (Option-cases a.key) [
  | inl missing ↦ let failed = rw (check_attributes, missing) at h in cc
  | inr (key, hk) ↦ elim (Option-cases a.value) [
    | inl missing ↦ let failed = rw (check_attributes, hk, missing) at h in cc
    | inr (value, hv) ↦
        let rest = rw (check_attributes, hk, hv) at h in
        ((λ no. absurd cc, λ no. absurd cc), check_attributes-All attributes rest)
  ]
]

module _ (factomd_request : Json2Request → Result Json2Response) (json : Unmarshal)
    (store : Overlay) {c : Crypto} (laws : IsLawful c) (now : ℕ) (db : store.DB) where
  -- What follows an entry that is made.
  checked-PaysForEntry :
      (force : Bool) (ecpub : Bytes) (e : Entry) (count : ℕ) {r : EntryResponse}
      → (and_then
          (internally (get_ec_address store c ecpub db), count)
          (λ ec n.
            and_then
              (check_entry factomd_request json force ecpub e n)
              (λ _ n1. compose_entry c now e ec n1))).0
        ≡ ok r
      → (ec : EcAddress) × (get_ec_address store c ecpub db ≡ ok ec) × PaysForEntry c now e ec r
  checked-PaysForEntry force ecpub e count h =
      let (ec, held, next) =
        and_then-ok (internally (get_ec_address store c ecpub db), count) _ h in
      let h1 = rw next at h in
      let checks = check_entry factomd_request json force ecpub e count in
      let (_, _, next1) = and_then-ok checks _ h1 in
      (ec, internally-eq-ok _ held, compose_entry-PaysForEntry c now e ec checks.1 (rw next1 at h1))

  -- An endorsement that the wallet answers is valid and signed by the key that was asked for, for
  -- the entry hash that was given, on the chain that was named, and paid for by the address of the
  -- wallet, if the key was made from a private key and the id of the signer's chain has 64
  -- characters.
  handle_compose_identity_attribute_endorsement-valid :
      (sec : Bytes) {k : IdentityKey} (req : IdentityAttributeEndorsementRequest) (count : ℕ)
      {r : EntryResponse}
      → make_identity_key c sec ≡ ok k
      → get_identity_key store c req.signer_key db ≡ ok k
      → length req.signer_chain_id ≡ 64
      → (handle_compose_identity_attribute_endorsement factomd_request json store c now db
          (ok req)
          count).0
        ≡ ok r
      → (e : Entry) × (ec : EcAddress) × (get_ec_address store c req.ec_pub db ≡ ok ec)
        × PaysForEntry c now e ec r
        × (e.chain_id ≡ req.destination_chain_id)
        × (e.content ≡ req.entry_hash)
        × (is_valid_endorsement c e ≡ true)
  unfolding handle_compose_identity_attribute_endorsement read_params and_then signer_key_of
      new_identity_attribute_endorsement_entry
  handle_compose_identity_attribute_endorsement-valid sec {k} req count made held long h =
      let e =
        new_identity_attribute_endorsement_entry c req.destination_chain_id req.entry_hash k
          req.signer_chain_id in
      let (ec, owned, pays) =
        checked-PaysForEntry req.force req.ec_pub e count
          (rw (signer_key_of-held store c db req.signer_key held) at h) in
      (
        e,
        ec,
        owned,
        pays,
        refl,
        refl,
        new_identity_attribute_endorsement_entry-valid laws sec made req.destination_chain_id
            req.entry_hash req.signer_chain_id long,
      )

  -- An attribute that the wallet answers is valid and signed by the key that was asked for; it
  -- prints the attributes that were given, each with a key and a value, on the chain that was named,
  -- and is paid for by the address of the wallet, if the key was made from a private key and the ids
  -- of the chains of the receiver and of the signer have 64 characters.
  pub handle_compose_identity_attribute-valid :
      (attributes_json : List IdentityAttribute → Result Bytes) (sec : Bytes) {k : IdentityKey}
      (req : IdentityAttributeRequest) (count : ℕ) {r : EntryResponse}
      → make_identity_key c sec ≡ ok k
      → get_identity_key store c req.signer_key db ≡ ok k
      → length req.receiver_chain_id ≡ 64
      → length req.signer_chain_id ≡ 64
      → (handle_compose_identity_attribute factomd_request json store c now db attributes_json
          (ok req)
          count).0
        ≡ ok r
      → (e : Entry) × (ec : EcAddress) × (get_ec_address store c req.ec_pub db ≡ ok ec)
        × PaysForEntry c now e ec r
        × (e.chain_id ≡ req.destination_chain_id)
        × (attributes_json req.attributes ≡ ok e.content)
        × All (λ a. (a.key ≢ none) × (a.value ≢ none)) req.attributes
        × (is_valid_attribute c e ≡ true)
  unfolding handle_compose_identity_attribute read_params and_then signer_key_of
      new_identity_attribute_entry
  handle_compose_identity_attribute-valid attributes_json sec {k} req count made held long long' h =
      let h1 = rw (signer_key_of-held store c db req.signer_key held) at h in
      let (_, named, next) = and_then-ok (check_attributes req.attributes, count) _ h1 in
      let h2 = rw next at h1 in
      let (text, printed, next1) =
        and_then-ok (internally (attributes_json req.attributes), count) _ h2 in
      let e =
        new_identity_attribute_entry c req.receiver_chain_id req.destination_chain_id text k
          req.signer_chain_id in
      let (ec, owned, pays) = checked-PaysForEntry req.force req.ec_pub e count (rw next1 at h2) in
      (
        e,
        ec,
        owned,
        pays,
        refl,
        internally-eq-ok _ printed,
        check_attributes-All req.attributes named,
        new_identity_attribute_entry-valid laws sec made req.receiver_chain_id
            req.destination_chain_id text req.signer_chain_id long long',
      )
