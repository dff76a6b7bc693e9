-- ===== src/Identity/Chains.antt =====
-- The chain of a new identity (identity.go).
use factom.Base.{
  ◌≡◌, refl, sym, ap, Bool, true, false, not, List, [], ◌∷◌, ◌++◌, Bytes, codes, Result, ok, Error,
  ◌>>=◌, ◌>>◌, fail_if, All,
}
use factom.Base.Hex.{encode_to_string}
use factom.Crypto.{Crypto}
use factom.IdentityKey.Strings.{
  IdentityKeyStringType, id_pub, id_sec, invalid_identity_key, identity_key_string_type,
}
use factom.Entry.{Entry}
use factom.Chain.{Chain, new_chain, ext_id_hashes}

-- What the loop of `GetIdentityChainID` writes to the outer hash.
unfoldable part_hashes : Crypto → List Bytes → Bytes
part_hashes c [] = []
part_hashes c (part ∷ name) = c.sha256 part ++ part_hashes c name

-- `GetIdentityChainID`
unfoldable get_identity_chain_id : Crypto → List Bytes → Bytes
unfolding part_hashes
get_identity_chain_id c name = encode_to_string (c.sha256 (part_hashes c name))

-- `IdentityKeyStringType(key) == IDPub`
abbrev pub is_id_pub : IdentityKeyStringType → Bool
is_id_pub id_pub = true
is_id_pub id_sec = false
is_id_pub invalid_identity_key = false

-- The loop over the keys of `NewIdentityChain`.
unfoldable check_keys : Crypto → List Bytes → Result (List Bytes)
check_keys c [] = ok []
check_keys c (key ∷ keys) = do
  fail_if (not (is_id_pub (identity_key_string_type c key))) (Error.not_identity_public key)
  rest ← check_keys c keys
  ok (key ∷ rest)

-- `NewIdentityChain`. The parameter is encoding/json's print of the version and the keys.
unfoldable pub new_identity_chain :
    Crypto → (List Bytes → Bytes) → List Bytes → List Bytes → Result Chain
unfolding check_keys
new_identity_chain c keys_json name keys = do
  public_keys ← check_keys c keys
  let e : Entry = record {
    chain_id = [];
    ext_ids = codes "IdentityChain" ∷ name;
    content = keys_json public_keys;
  }
  ok (new_chain c e)

part_hashes-ext_id_hashes :
    (c : Crypto) (name : List Bytes) → part_hashes c name ≡ ext_id_hashes c name
unfolding part_hashes ext_id_hashes
part_hashes-ext_id_hashes c [] = refl
part_hashes-ext_id_hashes c (part ∷ name) =
    ap (λ x. c.sha256 part ++ x) (part_hashes-ext_id_hashes c name)

-- The loop keeps all keys if each is a public identity key.
check_keys-eq :
    (c : Crypto) (keys : List Bytes)
    → All (λ k. identity_key_string_type c k ≡ id_pub) keys
    → check_keys c keys ≡ ok keys
unfolding check_keys
check_keys-eq c [] h = refl
check_keys-eq c (key ∷ keys) (hk, h) = rw (hk, check_keys-eq c keys h)

-- The chain of an identity is named by `GetIdentityChainID` of the name with "IdentityChain" before
-- it, if every key is a public identity key; the keys are then what is printed in its first entry.
new_identity_chain-get_identity_chain_id :
    (c : Crypto) (keys_json : List Bytes → Bytes) (name keys : List Bytes)
    → All (λ k. identity_key_string_type c k ≡ id_pub) keys
    → (chain : Chain) × (new_identity_chain c keys_json name keys ≡ ok chain)
      × (chain.chain_id ≡ get_identity_chain_id c (codes "IdentityChain" ∷ name))
      × (chain.first_entry.content ≡ keys_json keys)
unfolding new_identity_chain get_identity_chain_id new_chain
new_identity_chain-get_identity_chain_id c keys_json name keys h =
    let tag = codes "IdentityChain" in
    let e : Entry = record { chain_id = []; ext_ids = tag ∷ name; content = keys_json keys } in
    (
      new_chain c e,
      rw (check_keys-eq c keys h),
      ap (λ x. encode_to_string (c.sha256 x)) (sym (part_hashes-ext_id_hashes c (tag ∷ name))),
      refl,
    )
