-- ===== src/Identity/Entries/Valid.antt =====
-- The entries that an identity's key signs are valid, and a replacement takes effect.
use factom.Address.Checksum.{key-decoded}
use factom.IdentityKey.RoundTrip.{identity_string_types, make_identity_key-eq-ok}
use factom.IdentityKey.Strings.{id_pub_prefix, id_pub, identity_key_string_type}
use factom.Identity.Entries.{
  new_identity_attribute_endorsement_entry, new_identity_attribute_entry, is_valid_attribute,
  is_valid_endorsement,
}
use factom.Crypto.{IsLawful, Crypto}
use factom.Base.{
  bytes_eq, ◌≡◌, refl, ap, true, [], ◌∷◌, ◌++◌, arith, Bytes, length, take, replicate, copy, ok,
  length-append,
}
use factom.IdentityKey
use factom.IdentityKey.{make_identity_key, IdentityKey}
use factom.Identity.Keys.{key_of_string}

copy_whole : (dst src : Bytes) → length src ≡ length dst → copy dst src ≡ src
copy_whole [] [] h = refl
copy_whole [] (s ∷ src) h = cc
copy_whole (d ∷ dst) [] h = cc
copy_whole (d ∷ dst) (s ∷ src) h = ap (λ x. s ∷ x) (copy_whole dst src (omega (arith, h)))

module _ {c : Crypto} (laws : IsLawful c) (sec : Bytes) {k : IdentityKey}
    (made : make_identity_key c sec ≡ ok k) where
  sign-verifies : (msg : Bytes) → c.verify k.public_key msg (IdentityKey.sign c k msg) ≡ true
  unfolding make_identity_key IdentityKey.sign
  sign-verifies msg =
      let array = copy (replicate 64 0) (take 32 sec) in
      let b : IdentityKey = record {
        public_key = c.get_public_key array;
        secret = c.filled_private_key array;
      } in
      let e : b ≡ k = ground (arith, made) in rw (← e) (laws.verify-sign array msg)

  -- The key string of a key reads as the key.
  key_of_string-pub_string : key_of_string c (IdentityKey.pub_string c k) ≡ k.public_key
  unfolding key_of_string IdentityKey.pub_string
  key_of_string-pub_string =
      let (_, _, full, _) = make_identity_key-eq-ok laws sec made in
      let whole =
        key-decoded laws 5 37 id_pub_prefix k.public_key refl
          (omega (arith, length-append id_pub_prefix k.public_key, full)) in
      rw whole (copy_whole (replicate 32 0) k.public_key full)

  pub_string_type : identity_key_string_type c (IdentityKey.pub_string c k) ≡ id_pub
  pub_string_type =
      let (_, _, full, full') = make_identity_key-eq-ok laws sec made in
      (identity_string_types laws k full full').0

  -- An attribute that a key signs is valid, if the ids of the chains of the receiver and of the
  -- signer have 64 characters.
  pub new_identity_attribute_entry-valid :
      (receiver destination attributes_json signer_chain_id : Bytes)
      → length receiver ≡ 64
      → length signer_chain_id ≡ 64
      → is_valid_attribute c
          (new_identity_attribute_entry c receiver destination attributes_json k signer_chain_id)
        ≡ true
  unfolding is_valid_attribute new_identity_attribute_entry bytes_eq
  new_identity_attribute_entry-valid receiver destination attributes_json signer_chain_id hr hs =
      let message = (receiver ++ destination) ++ c.sha256 attributes_json in
      let whole =
        copy_whole (replicate 64 0) (IdentityKey.sign c k message)
          (unfold IdentityKey.sign in laws.length-sign k.secret message) in
      rw (hr, hs, pub_string_type, key_of_string-pub_string, whole) (sign-verifies message)

  -- An endorsement that a key signs is valid, if the id of the signer's chain has 64 characters.
  pub new_identity_attribute_endorsement_entry-valid :
      (destination entry_hash signer_chain_id : Bytes)
      → length signer_chain_id ≡ 64
      → is_valid_endorsement c
          (new_identity_attribute_endorsement_entry c destination entry_hash k signer_chain_id)
        ≡ true
  unfolding is_valid_endorsement new_identity_attribute_endorsement_entry bytes_eq
  new_identity_attribute_endorsement_entry-valid destination entry_hash signer_chain_id hs =
      let message = destination ++ entry_hash in
      let whole =
        copy_whole (replicate 64 0) (IdentityKey.sign c k message)
          (unfold IdentityKey.sign in laws.length-sign k.secret message) in
      rw (hs, pub_string_type, key_of_string-pub_string, whole) (sign-verifies message)
