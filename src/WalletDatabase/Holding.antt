-- ===== src/WalletDatabase/Holding.antt =====
-- What the insertions of the database do, on the vault.
use factom.Base.{◌≡◌, refl, Option, none, Bytes, bytes_eq, ok}
use factom.Crypto.{Crypto}
use factom.Address.FactoidAddress
use factom.Address.EcAddress
use factom.IdentityKey
use factom.Address.FactoidAddress.{FactoidAddress}
use factom.Address.EcAddress.{EcAddress}
use factom.IdentityKey.{IdentityKey}
use factom.WalletDatabase.{Overlay, seed_db_key, fc_db_prefix, ec_db_prefix, identity_db_prefix}
use factom.WalletDatabase.Seed.{DbSeed, Gob}
use factom.WalletDatabase.Tables.{insert_fct_address, insert_ec_address, insert_identity_key}
use factom.WalletDatabase.Vault.{Vault, hold_factoid, hold_entry_credit, hold_identity}
use factom.WalletDatabase.Laws.{IsReliable, put-IsTable, put_elsewhere-IsTable}
use factom.WalletDatabase.Refinement.{Refines, AreAlike}

module _ {store : Overlay} {contents : store.DB → Bytes → Bytes → Option Bytes}
    (laws : IsReliable store contents) (gob : Gob)
    (decode-encode : (s : DbSeed) → gob.decode (gob.encode s) ≡ ok s) (c : Crypto) where
  pub insert_fct_address-AreAlike :
      (a : FactoidAddress) (db : store.DB) (v : Vault)
      → FactoidAddress.unmarshal_binary c none (FactoidAddress.marshal_binary a) ≡ ok a
      → Refines laws gob decode-encode c db v
      → AreAlike laws gob decode-encode c
          (insert_fct_address store c a db)
          (ok tt, hold_factoid c a v)
  unfolding insert_fct_address hold_factoid bytes_eq seed_db_key fc_db_prefix ec_db_prefix
      identity_db_prefix
  insert_fct_address-AreAlike a db v read holds = (
    laws.put-ok db fc_db_prefix (FactoidAddress.public_string c a)
        (FactoidAddress.marshal_binary a),
    record {
      seed =
          rw
            (laws.contents-put db fc_db_prefix (FactoidAddress.public_string c a)
              (FactoidAddress.marshal_binary a) seed_db_key seed_db_key)
            holds.seed;
      factoids =
          put-IsTable laws (FactoidAddress.unmarshal_binary c none) fc_db_prefix db
            (FactoidAddress.public_string c a) (FactoidAddress.marshal_binary a) holds.factoids
            read;
      entry_credits =
          put_elsewhere-IsTable laws (EcAddress.unmarshal_binary c none) ec_db_prefix db
            fc_db_prefix (FactoidAddress.public_string c a) (FactoidAddress.marshal_binary a) refl
            holds.entry_credits;
      identities =
          put_elsewhere-IsTable laws (IdentityKey.unmarshal_binary c none) identity_db_prefix db
            fc_db_prefix (FactoidAddress.public_string c a) (FactoidAddress.marshal_binary a) refl
            holds.identities;
    },
  )

  pub insert_ec_address-AreAlike :
      (a : EcAddress) (db : store.DB) (v : Vault)
      → EcAddress.unmarshal_binary c none (EcAddress.marshal_binary a) ≡ ok a
      → Refines laws gob decode-encode c db v
      → AreAlike laws gob decode-encode c
          (insert_ec_address store c a db)
          (ok tt, hold_entry_credit c a v)
  unfolding insert_ec_address hold_entry_credit bytes_eq seed_db_key fc_db_prefix ec_db_prefix
      identity_db_prefix
  insert_ec_address-AreAlike a db v read holds = (
    laws.put-ok db ec_db_prefix (EcAddress.pub_string c a) (EcAddress.marshal_binary a),
    record {
      seed =
          rw
            (laws.contents-put db ec_db_prefix (EcAddress.pub_string c a)
              (EcAddress.marshal_binary a) seed_db_key seed_db_key)
            holds.seed;
      factoids =
          put_elsewhere-IsTable laws (FactoidAddress.unmarshal_binary c none) fc_db_prefix db
            ec_db_prefix (EcAddress.pub_string c a) (EcAddress.marshal_binary a) refl
            holds.factoids;
      entry_credits =
          put-IsTable laws (EcAddress.unmarshal_binary c none) ec_db_prefix db
            (EcAddress.pub_string c a) (EcAddress.marshal_binary a) holds.entry_credits read;
      identities =
          put_elsewhere-IsTable laws (IdentityKey.unmarshal_binary c none) identity_db_prefix db
            ec_db_prefix (EcAddress.pub_string c a) (EcAddress.marshal_binary a) refl
            holds.identities;
    },
  )

  pub insert_identity_key-AreAlike :
      (a : IdentityKey) (db : store.DB) (v : Vault)
      → IdentityKey.unmarshal_binary c none (IdentityKey.marshal_binary a) ≡ ok a
      → Refines laws gob decode-encode c db v
      → AreAlike laws gob decode-encode c
          (insert_identity_key store c a db)
          (ok tt, hold_identity c a v)
  unfolding insert_identity_key hold_identity bytes_eq seed_db_key fc_db_prefix ec_db_prefix
      identity_db_prefix
  insert_identity_key-AreAlike a db v read holds = (
    laws.put-ok db identity_db_prefix (IdentityKey.pub_string c a) (IdentityKey.marshal_binary a),
    record {
      seed =
          rw
            (laws.contents-put db identity_db_prefix (IdentityKey.pub_string c a)
              (IdentityKey.marshal_binary a) seed_db_key seed_db_key)
            holds.seed;
      factoids =
          put_elsewhere-IsTable laws (FactoidAddress.unmarshal_binary c none) fc_db_prefix db
            identity_db_prefix (IdentityKey.pub_string c a) (IdentityKey.marshal_binary a) refl
            holds.factoids;
      entry_credits =
          put_elsewhere-IsTable laws (EcAddress.unmarshal_binary c none) ec_db_prefix db
            identity_db_prefix (IdentityKey.pub_string c a) (IdentityKey.marshal_binary a) refl
            holds.entry_credits;
      identities =
          put-IsTable laws (IdentityKey.unmarshal_binary c none) identity_db_prefix db
            (IdentityKey.pub_string c a) (IdentityKey.marshal_binary a) holds.identities read;
    },
  )
