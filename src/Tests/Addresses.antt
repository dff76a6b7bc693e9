-- ===== src/Tests/Addresses.antt =====
-- Addresses and identity keys, made from one private key and read back.
use factom.Base.{◌≡◌, refl, ◌++◌, replicate, ok}
use factom.Tests.{toy_crypto, seed}
use factom.Address.EcAddress
use factom.Address.FactoidAddress
use factom.IdentityKey
use factom.Address.EcAddress.{EcAddress}
use factom.Address.FactoidAddress.{FactoidAddress}
use factom.IdentityKey.{IdentityKey}

abbrev pub ec_address : EcAddress
ec_address = record { public_key = seed; secret = seed ++ replicate 32 0 }

pub ec_address-made : EcAddress.make_ec_address toy_crypto seed ≡ ok ec_address
unfolding EcAddress.make_ec_address
ec_address-made = refl

abbrev pub factoid_address : FactoidAddress
factoid_address = record { rcd = record { public_key = seed }; secret = seed ++ replicate 32 0 }

pub factoid_address-made : FactoidAddress.make_factoid_address toy_crypto seed ≡ ok factoid_address
unfolding FactoidAddress.make_factoid_address
factoid_address-made = refl

abbrev pub identity_key : IdentityKey
identity_key = record { public_key = seed; secret = seed ++ replicate 32 0 }

pub identity_key-made : IdentityKey.make_identity_key toy_crypto seed ≡ ok identity_key
unfolding IdentityKey.make_identity_key
identity_key-made = refl
