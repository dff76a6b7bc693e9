-- ===== src/Address/EcAddress.antt =====
-- Entry credit addresses (addresses.go). `Pub` and `Sec` point to arrays of 32 and 64 bytes; every
-- address that the package builds has both.
pub mod RoundTrip
use mathlib.Core.Option
use factom.Base.{
  Option, some, Bytes, ◌++◌, length, take, drop, replicate, copy, bytes_eq, ltb, ◌==◌, not, Result,
  ok, Error, ◌>>=◌, fail_if, ◌>>◌,
}
use factom.Crypto.{Crypto}
use factom.Address.Checksum.{checksummed}
use factom.Address.Strings.{
  ec_pub_prefix, ec_sec_prefix, prefix_length, body_length, is_valid_address,
}

pub record EcAddress : Type 0 where
  pub public_key : Bytes
  pub secret : Bytes

-- `NewECAddress`
unfoldable new_ec_address : EcAddress
new_ec_address = record { public_key = replicate 32 0; secret = replicate 64 0 }

-- `UnmarshalBinaryData`, on a receiver whose `Sec` is the array given or nil; it overwrites `Pub`.
-- The result is the receiver afterwards and the bytes left over; an error leaves it as it was.
unfoldable pub unmarshal_binary_data : Crypto → Option Bytes → Bytes → Result (EcAddress × Bytes)
unmarshal_binary_data c old bytes = do
  fail_if (ltb (length bytes) 32) Error.secret_length
  let sec = copy (Option.get_or old (replicate 64 0)) (take 32 bytes)
  ok (
    record { public_key = c.get_public_key sec; secret = c.filled_private_key sec },
    drop 32 bytes,
  )

-- `UnmarshalBinary`
unfoldable pub unmarshal_binary : Crypto → Option Bytes → Bytes → Result EcAddress
unfolding unmarshal_binary_data
unmarshal_binary c old bytes = do r ← unmarshal_binary_data c old bytes; ok r.0

-- `MarshalBinary`
unfoldable pub marshal_binary : EcAddress → Bytes
marshal_binary a = take 32 a.secret

-- `MakeECAddress`
unfoldable pub make_ec_address : Crypto → Bytes → Result EcAddress
unfolding unmarshal_binary new_ec_address
make_ec_address c sec = do
  fail_if (not (length sec == 32)) Error.secret_length
  unmarshal_binary c (some new_ec_address.secret) sec

-- `GetECAddress`: `p[PrefixLength:BodyLength]` is the key.
unfoldable pub get_ec_address : Crypto → Bytes → Result EcAddress
unfolding make_ec_address
get_ec_address c s = do
  fail_if (not (is_valid_address c s)) Error.invalid_address
  let p = c.base58_decode s
  fail_if (not (bytes_eq (take prefix_length p) ec_sec_prefix)) Error.invalid_ec_private
  make_ec_address c (drop prefix_length (take body_length p))

-- `PubString`, which `String` also returns, and `SecString`.
unfoldable pub pub_string : Crypto → EcAddress → Bytes
pub_string c a = checksummed c (ec_pub_prefix ++ a.public_key)

unfoldable pub sec_string : Crypto → EcAddress → Bytes
sec_string c a = checksummed c (ec_sec_prefix ++ take 32 a.secret)

-- `Sign`
unfoldable pub sign : Crypto → EcAddress → Bytes → Bytes
sign c a msg = c.sign a.secret msg
