-- ===== src/Address/FactoidAddress.antt =====
-- Factoid addresses (addresses.go). The RCD of an address is an `RCD1`.
pub mod RoundTrip
use mathlib.Core.Option
use factom.Base.{
  Option, some, Bytes, ◌++◌, length, take, drop, replicate, copy, bytes_eq, ltb, ◌==◌, Result, ok,
  Error, ◌>>=◌, fail_if, ◌>>◌, not,
}
use factom.Crypto.{Crypto}
use factom.Address.Checksum.{checksummed}
use factom.Address.Strings.{
  fc_pub_prefix, fc_sec_prefix, prefix_length, body_length, is_valid_address,
}
use factom.Address.Rcd
use factom.Address.Rcd.{Rcd1, new_rcd1}

pub record FactoidAddress : Type 0 where
  pub rcd : Rcd1
  pub secret : Bytes

-- `NewFactoidAddress`
unfoldable new_factoid_address : FactoidAddress
unfolding new_rcd1
new_factoid_address = record { rcd = new_rcd1; secret = replicate 64 0 }

-- `UnmarshalBinaryData`, on a receiver whose `Sec` is the array given or nil; it overwrites `RCD`.
-- The result is the receiver afterwards and the bytes left over; an error leaves it as it was.
unfoldable pub unmarshal_binary_data :
    Crypto → Option Bytes → Bytes → Result (FactoidAddress × Bytes)
unmarshal_binary_data c old bytes = do
  fail_if (ltb (length bytes) 32) Error.secret_length
  let sec = copy (Option.get_or old (replicate 64 0)) (take 32 bytes)
  ok (
    record {
      rcd = record { public_key = c.get_public_key sec };
      secret = c.filled_private_key sec;
    },
    drop 32 bytes,
  )

-- `UnmarshalBinary`
unfoldable pub unmarshal_binary : Crypto → Option Bytes → Bytes → Result FactoidAddress
unfolding unmarshal_binary_data
unmarshal_binary c old bytes = do r ← unmarshal_binary_data c old bytes; ok r.0

-- `MarshalBinary`
unfoldable pub marshal_binary : FactoidAddress → Bytes
marshal_binary a = take 32 a.secret

-- `MakeFactoidAddress`
unfoldable pub make_factoid_address : Crypto → Bytes → Result FactoidAddress
unfolding unmarshal_binary new_factoid_address
make_factoid_address c sec = do
  fail_if (not (length sec == 32)) Error.secret_length
  unmarshal_binary c (some new_factoid_address.secret) sec

-- `GetFactoidAddress`
unfoldable pub get_factoid_address : Crypto → Bytes → Result FactoidAddress
unfolding make_factoid_address
get_factoid_address c s = do
  fail_if (not (is_valid_address c s)) Error.invalid_address
  let p = c.base58_decode s
  fail_if (not (bytes_eq (take prefix_length p) fc_sec_prefix)) Error.invalid_factoid_private
  make_factoid_address c (drop prefix_length (take body_length p))

-- `RCDHash`
unfoldable pub rcd_hash : Crypto → FactoidAddress → Bytes
rcd_hash c a = Rcd.hash c a.rcd

-- `String`, the public address, and `SecString`.
unfoldable pub public_string : Crypto → FactoidAddress → Bytes
public_string c a = checksummed c (fc_pub_prefix ++ rcd_hash c a)

unfoldable pub sec_string : Crypto → FactoidAddress → Bytes
sec_string c a = checksummed c (fc_sec_prefix ++ take 32 a.secret)
