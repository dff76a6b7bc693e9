-- ===== src/Address/Strings.antt =====
-- `AddressStringType` and `IsValidAddress` (addresses.go).
use factom.Base.{
  length-take, bytes_eq_sound, length-drop, length-append, ◌++◌, ℕ, ◌-◌, ◌≡◌, ◌≢◌, ◌↔◌, Bool, true,
  false, not, Bytes, ◌∷◌, [], length, take, drop, bytes_eq, ◌==◌, if◌then◌else◌, arith,
}
use factom.Crypto.{Crypto, IsLawful, shad}
use factom.Address.Checksum.{
  prefix-decoded, checksum_length, checksummed, length-decoded, check_agrees,
}

pub data AddressStringType : Type 0 where
  invalid_address factoid_pub factoid_sec ec_pub ec_sec : AddressStringType

abbrev address_length : ℕ
address_length = 38

abbrev pub prefix_length : ℕ
prefix_length = 2

abbrev pub body_length : ℕ
body_length = address_length - checksum_length

abbrev pub ec_pub_prefix : Bytes
ec_pub_prefix = 0x59 ∷ 0x2a ∷ []

abbrev pub ec_sec_prefix : Bytes
ec_sec_prefix = 0x5d ∷ 0xb6 ∷ []

abbrev pub fc_pub_prefix : Bytes
fc_pub_prefix = 0x5f ∷ 0xb1 ∷ []

abbrev pub fc_sec_prefix : Bytes
fc_sec_prefix = 0x64 ∷ 0x78 ∷ []

-- The `switch` on the prefix.
unfoldable pub prefix_type : Bytes → AddressStringType
prefix_type prefix =
    if bytes_eq prefix ec_pub_prefix
    then ec_pub
    else if bytes_eq prefix ec_sec_prefix
    then ec_sec
    else if bytes_eq prefix fc_pub_prefix
    then factoid_pub
    else if bytes_eq prefix fc_sec_prefix
    then factoid_sec
    else invalid_address

unfoldable pub address_string_type : Crypto → Bytes → AddressStringType
unfolding prefix_type
address_string_type c s =
    let p = c.base58_decode s in
    if not (length p == address_length)
    then invalid_address
    else let body = take body_length p in
      let check = drop (address_length - checksum_length) p in
      if not (bytes_eq (take checksum_length (shad c body)) check)
      then invalid_address
      else prefix_type (take prefix_length p)

-- The `switch` whose default returns false.
unfoldable known_prefix : Bytes → Bool
known_prefix prefix =
    if bytes_eq prefix ec_pub_prefix
    then true
    else if bytes_eq prefix ec_sec_prefix
    then true
    else if bytes_eq prefix fc_pub_prefix
    then true
    else if bytes_eq prefix fc_sec_prefix
    then true
    else false

unfoldable pub is_valid_address : Crypto → Bytes → Bool
unfolding known_prefix
is_valid_address c s =
    let p = c.base58_decode s in
    if not (length p == address_length)
    then false
    else if not (known_prefix (take prefix_length p))
    then false
    else let body = take body_length p in
      let check = drop (address_length - checksum_length) p in
      if bytes_eq (take checksum_length (shad c body)) check then true else false

-- An address is valid exactly when it has one of the four types: the two functions test the length,
-- the prefix and the checksum in different orders, and agree on every string.
is_valid_address-iff-typed :
    (c : Crypto) (s : Bytes)
    → (is_valid_address c s ≡ true) ↔ (address_string_type c s ≢ invalid_address)
unfolding is_valid_address address_string_type
is_valid_address-iff-typed c s = (λ h. ground arith, λ h. ground arith)

module _ {c : Crypto} (laws : IsLawful c) where
  -- A prefix and 32 bytes, printed with their checksum, have the type that the prefix stands for.
  pub address_string_type-checksummed :
      (prefix key : Bytes)
      → length prefix ≡ prefix_length
      → length key ≡ 32
      → address_string_type c (checksummed c (prefix ++ key)) ≡ prefix_type prefix
  unfolding address_string_type
  address_string_type-checksummed prefix key hp hk =
      let e : length (prefix ++ key) ≡ 34 = omega (arith, length-append prefix key) in
      rw (prefix-decoded laws 2 prefix key hp)
        (ground (arith, length-decoded laws 34 _ e, check_agrees laws 34 _ e))

-- The tests that the four getters make single out one type each.
module _ (c : Crypto) (s : Bytes) where
  pub ec_sec_iff : (address_string_type c s ≡ ec_sec) ↔ (
      (is_valid_address c s ≡ true)
      × (bytes_eq (take prefix_length (c.base58_decode s)) ec_sec_prefix ≡ true))
  unfolding is_valid_address address_string_type
  ec_sec_iff =
      let p = take prefix_length (c.base58_decode s) in
      (
        λ h. (ground arith, ground arith),
        λ h.
            ground
              (arith, h.0, h.1, bytes_eq_sound p ec_sec_prefix, bytes_eq_sound p ec_pub_prefix),
      )

  pub factoid_sec_iff : (address_string_type c s ≡ factoid_sec) ↔ (
      (is_valid_address c s ≡ true)
      × (bytes_eq (take prefix_length (c.base58_decode s)) fc_sec_prefix ≡ true))
  unfolding is_valid_address address_string_type
  factoid_sec_iff =
      let p = take prefix_length (c.base58_decode s) in
      (
        λ h. (ground arith, ground arith),
        λ h. ground (
          arith,
          bytes_eq_sound p fc_sec_prefix,
          bytes_eq_sound p ec_pub_prefix,
          bytes_eq_sound p ec_sec_prefix,
          bytes_eq_sound p fc_pub_prefix,
        ),
      )

  pub length-key_of_valid :
      is_valid_address c s ≡ true
      → length (drop prefix_length (take body_length (c.base58_decode s))) ≡ 32
  unfolding is_valid_address
  length-key_of_valid h =
      let p = c.base58_decode s in
      let long : length p ≡ 38 = ground arith in
      omega (arith, length-drop 2 (take 34 p), length-take 34 p (omega arith))
