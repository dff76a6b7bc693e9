-- ===== src/IdentityKey.antt =====
-- Identity keys (identityKeys.go). `Pub` and `Sec` point to arrays of 32 and 64 bytes; every key
-- that the package builds has both.
pub mod Strings
pub mod RoundTrip
use mathlib.Core.Option
use factom.Base.{
  Option, some, Bytes, ◌++◌, length, take, drop, replicate, copy, bytes_eq, ltb, ◌==◌, Result, ok,
  Error, ◌>>=◌, fail_if, ◌>>◌, not,
}
use factom.Crypto.{Crypto}
use factom.Address.Checksum.{checksummed}
use Strings.{
  id_pub_prefix, id_sec_prefix, id_key_prefix_length, id_key_body_length, is_valid_identity_key,
}

pub record IdentityKey : Type 0 where
  pub public_key : Bytes
  pub secret : Bytes

-- `NewIdentityKey`
unfoldable pub new_identity_key : IdentityKey
new_identity_key = record { public_key = replicate 32 0; secret = replicate 64 0 }

-- `UnmarshalBinaryData`, on a receiver whose `Sec` is the array given or nil; it overwrites `Pub`.
-- The result is the receiver afterwards and the bytes left over; an error leaves it as it was.
unfoldable pub unmarshal_binary_data : Crypto → Option Bytes → Bytes → Result (IdentityKey × Bytes)
unmarshal_binary_data c old bytes = do
  fail_if (ltb (length bytes) 32) Error.secret_length
  let sec = copy (Option.get_or old (replicate 64 0)) (take 32 bytes)
  ok (
    record { public_key = c.get_public_key sec; secret = c.filled_private_key sec },
    drop 32 bytes,
  )

-- `UnmarshalBinary`
unfoldable pub unmarshal_binary : Crypto → Option Bytes → Bytes → Result IdentityKey
unfolding unmarshal_binary_data
unmarshal_binary c old bytes = do r ← unmarshal_binary_data c old bytes; ok r.0

-- `MarshalBinary`
unfoldable pub marshal_binary : IdentityKey → Bytes
marshal_binary k = take 32 k.secret

-- `MakeIdentityKey`
unfoldable pub make_identity_key : Crypto → Bytes → Result IdentityKey
unfolding unmarshal_binary new_identity_key
make_identity_key c sec = do
  fail_if (not (length sec == 32)) Error.secret_length
  unmarshal_binary c (some new_identity_key.secret) sec

-- `GetIdentityKey`
unfoldable pub get_identity_key : Crypto → Bytes → Result IdentityKey
unfolding make_identity_key
get_identity_key c s = do
  fail_if (not (is_valid_identity_key c s)) Error.invalid_identity_private
  let p = c.base58_decode s
  fail_if (not (bytes_eq (take id_key_prefix_length p) id_sec_prefix))
      Error.invalid_identity_private
  make_identity_key c (drop id_key_prefix_length (take id_key_body_length p))

-- `PubString`, which `String` also returns, and `SecString`.
unfoldable pub pub_string : Crypto → IdentityKey → Bytes
pub_string c k = checksummed c (id_pub_prefix ++ k.public_key)

unfoldable pub sec_string : Crypto → IdentityKey → Bytes
sec_string c k = checksummed c (id_sec_prefix ++ take 32 k.secret)

-- `Sign`
unfoldable pub sign : Crypto → IdentityKey → Bytes → Bytes
sign c k msg = c.sign k.secret msg
