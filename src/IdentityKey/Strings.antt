-- ===== src/IdentityKey/Strings.antt =====
-- `IdentityKeyStringType` and `IsValidIdentityKey` (identityKeys.go).
use factom.Base.{
  length-take, length-append, bytes_eq_sound, length-drop, arith, ◌==◌, false, take, ◌++◌, ◌≢◌,
  bytes_eq, drop, not, true, [], ◌↔◌, ◌-◌, if◌then◌else◌, ℕ, ◌≡◌, ◌∷◌, Bool, length, Bytes,
}
use factom.Crypto.{Crypto, IsLawful, shad}
use factom.Address.Checksum.{
  check_agrees, length-decoded, prefix-decoded, checksummed, checksum_length,
}

pub data IdentityKeyStringType : Type 0 where
  invalid_identity_key id_pub id_sec : IdentityKeyStringType

abbrev id_key_length : ℕ
id_key_length = 41

abbrev pub id_key_prefix_length : ℕ
id_key_prefix_length = 5

abbrev pub id_key_body_length : ℕ
id_key_body_length = id_key_length - checksum_length

abbrev pub id_pub_prefix : Bytes
id_pub_prefix = 0x03 ∷ 0x45 ∷ 0xef ∷ 0x9d ∷ 0xe0 ∷ []

abbrev pub id_sec_prefix : Bytes
id_sec_prefix = 0x03 ∷ 0x45 ∷ 0xf3 ∷ 0xd0 ∷ 0xd6 ∷ []

-- The `switch` on the prefix.
unfoldable pub id_prefix_type : Bytes → IdentityKeyStringType
id_prefix_type prefix =
    if bytes_eq prefix id_pub_prefix
    then id_pub
    else if bytes_eq prefix id_sec_prefix
    then id_sec
    else invalid_identity_key

unfoldable pub identity_key_string_type : Crypto → Bytes → IdentityKeyStringType
unfolding id_prefix_type
identity_key_string_type c s =
    let p = c.base58_decode s in
    if not (length p == id_key_length)
    then invalid_identity_key
    else let body = take id_key_body_length p in
      let check = drop (id_key_length - checksum_length) p in
      if not (bytes_eq (take checksum_length (shad c body)) check)
      then invalid_identity_key
      else id_prefix_type (take id_key_prefix_length p)

-- The `switch` whose default returns false.
unfoldable known_id_prefix : Bytes → Bool
known_id_prefix prefix =
    if bytes_eq prefix id_pub_prefix
    then true
    else if bytes_eq prefix id_sec_prefix
    then true
    else false

unfoldable pub is_valid_identity_key : Crypto → Bytes → Bool
unfolding known_id_prefix
is_valid_identity_key c s =
    let p = c.base58_decode s in
    if not (length p == id_key_length)
    then false
    else if not (known_id_prefix (take id_key_prefix_length p))
    then false
    else let body = take id_key_body_length p in
      let check = drop (id_key_length - checksum_length) p in
      if bytes_eq (take checksum_length (shad c body)) check then true else false

-- A string is a valid identity key exactly when it has one of the two types: the two functions test
-- the length, the prefix and the checksum in different orders, and agree on every string.
is_valid_identity_key-iff-typed :
    (c : Crypto) (s : Bytes)
    → (is_valid_identity_key c s ≡ true) ↔ (identity_key_string_type c s ≢ invalid_identity_key)
unfolding is_valid_identity_key identity_key_string_type
is_valid_identity_key-iff-typed c s = (λ h. ground arith, λ h. ground arith)

module _ {c : Crypto} (laws : IsLawful c) where
  -- A prefix and 32 bytes, printed with their checksum, have the type that the prefix stands for.
  pub identity_key_string_type-checksummed :
      (prefix key : Bytes)
      → length prefix ≡ id_key_prefix_length
      → length key ≡ 32
      → identity_key_string_type c (checksummed c (prefix ++ key)) ≡ id_prefix_type prefix
  unfolding identity_key_string_type
  identity_key_string_type-checksummed prefix key hp hk =
      let e : length (prefix ++ key) ≡ 37 = omega (arith, length-append prefix key) in
      rw (prefix-decoded laws 5 prefix key hp)
        (ground (arith, length-decoded laws 37 _ e, check_agrees laws 37 _ e))

module _ (c : Crypto) (s : Bytes) where
  -- The tests that `GetIdentityKey` makes single out one type.
  pub id_sec_iff : (identity_key_string_type c s ≡ id_sec) ↔ (
      (is_valid_identity_key c s ≡ true)
      × (bytes_eq (take id_key_prefix_length (c.base58_decode s)) id_sec_prefix ≡ true))
  unfolding is_valid_identity_key identity_key_string_type
  id_sec_iff =
      let p = take id_key_prefix_length (c.base58_decode s) in
      (
        λ h. (ground arith, ground arith),
        λ h.
            ground
              (arith, h.0, h.1, bytes_eq_sound p id_sec_prefix, bytes_eq_sound p id_pub_prefix),
      )

  pub length-key_of_valid :
      is_valid_identity_key c s ≡ true
      → length (drop id_key_prefix_length (take id_key_body_length (c.base58_decode s))) ≡ 32
  unfolding is_valid_identity_key
  length-key_of_valid h =
      let p = c.base58_decode s in
      let long : length p ≡ 41 = ground arith in
      omega (arith, length-drop 5 (take 37 p), length-take 37 p (omega arith))

  -- A public identity key string holds a prefix, a key of 32 bytes and a checksum.
  length-key_of_public :
      identity_key_string_type c s ≡ id_pub
      → length (drop id_key_prefix_length (take id_key_body_length (c.base58_decode s))) ≡ 32
  unfolding identity_key_string_type
  length-key_of_public h =
      let p = c.base58_decode s in
      let long : length p ≡ 41 = ground arith in
      omega (arith, length-drop 5 (take 37 p), length-take 37 p (omega arith))
