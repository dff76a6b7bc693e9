-- ===== src/WalletDatabase/Removing.antt =====
-- What the removals and the getters of the database do, on the vault.
use mathlib.Core.Path.{subst}
use factom.Base.{
  and_then, Result-cases, ◌≡◌, inl, inr, refl, ap, Option, none, some, [], ◌∷◌, Bytes, bytes_eq,
  ◌==◌, Result, ok, err, Error, Bool-cases,
}
use factom.Crypto.{Crypto}
use factom.Address.FactoidAddress
use factom.Address.EcAddress
use factom.IdentityKey
use factom.Address.FactoidAddress.{FactoidAddress}
use factom.Address.EcAddress.{EcAddress}
use factom.IdentityKey.{IdentityKey}
use factom.WalletDatabase.{Overlay, seed_db_key, fc_db_prefix, ec_db_prefix, identity_db_prefix}
use factom.WalletDatabase.Seed.{DbSeed, Gob}
use factom.WalletDatabase.Tables.{remove_identity_key, remove_address, get_from, remove_from}
use factom.WalletDatabase.Vault.{forget_identity, forget_address, Vault, set_at, present, taken_out}
use factom.WalletDatabase.Laws.{
  IsReliable, read_at, IsTable, delete-IsTable, set_at-twice, delete_elsewhere-IsTable,
}
use factom.WalletDatabase.Refinement.{Refines, AreAlike, then-AreAlike}

module _ {store : Overlay} {contents : store.DB → Bytes → Bytes → Option Bytes}
    (laws : IsReliable store contents) (gob : Gob)
    (decode-encode : (s : DbSeed) → gob.decode (gob.encode s) ≡ ok s) (c : Crypto) where
  delete_factoids-Refines :
      (k : Bytes) (db : store.DB) (v : Vault)
      → Refines laws gob decode-encode c db v
      → Refines laws gob decode-encode c
          (store.delete db fc_db_prefix k).1
          (record v { factoids = set_at k none v.factoids })
  unfolding bytes_eq seed_db_key fc_db_prefix ec_db_prefix identity_db_prefix
  delete_factoids-Refines k db v holds = record {
    seed = rw (laws.contents-delete db fc_db_prefix k seed_db_key seed_db_key) holds.seed;
    factoids =
        delete-IsTable laws (FactoidAddress.unmarshal_binary c none) fc_db_prefix db k
          holds.factoids;
    entry_credits =
        delete_elsewhere-IsTable laws (EcAddress.unmarshal_binary c none) ec_db_prefix db
          fc_db_prefix k refl holds.entry_credits;
    identities =
        delete_elsewhere-IsTable laws (IdentityKey.unmarshal_binary c none) identity_db_prefix db
          fc_db_prefix k refl holds.identities;
  }

  twice_factoids-Refines :
      (k : Bytes) (db : store.DB) (v : Vault)
      → Refines laws gob decode-encode c db v
      → Refines laws gob decode-encode c
          (store.delete (store.delete db fc_db_prefix k).1 fc_db_prefix k).1
          (record v { factoids = set_at k none v.factoids })
  twice_factoids-Refines k db v holds =
      subst
        (λ f.
          Refines laws gob decode-encode c
            (store.delete (store.delete db fc_db_prefix k).1 fc_db_prefix k).1
            (record v { factoids = f }))
        (set_at-twice k v.factoids)
        (delete_factoids-Refines k _ _ (delete_factoids-Refines k db v holds))

  delete_entry_credits-Refines :
      (k : Bytes) (db : store.DB) (v : Vault)
      → Refines laws gob decode-encode c db v
      → Refines laws gob decode-encode c
          (store.delete db ec_db_prefix k).1
          (record v { entry_credits = set_at k none v.entry_credits })
  unfolding bytes_eq seed_db_key fc_db_prefix ec_db_prefix identity_db_prefix
  delete_entry_credits-Refines k db v holds = record {
    seed = rw (laws.contents-delete db ec_db_prefix k seed_db_key seed_db_key) holds.seed;
    factoids =
        delete_elsewhere-IsTable laws (FactoidAddress.unmarshal_binary c none) fc_db_prefix db
          ec_db_prefix k refl holds.factoids;
    entry_credits =
        delete-IsTable laws (EcAddress.unmarshal_binary c none) ec_db_prefix db k
          holds.entry_credits;
    identities =
        delete_elsewhere-IsTable laws (IdentityKey.unmarshal_binary c none) identity_db_prefix db
          ec_db_prefix k refl holds.identities;
  }

  twice_entry_credits-Refines :
      (k : Bytes) (db : store.DB) (v : Vault)
      → Refines laws gob decode-encode c db v
      → Refines laws gob decode-encode c
          (store.delete (store.delete db ec_db_prefix k).1 ec_db_prefix k).1
          (record v { entry_credits = set_at k none v.entry_credits })
  twice_entry_credits-Refines k db v holds =
      subst
        (λ f.
          Refines laws gob decode-encode c
            (store.delete (store.delete db ec_db_prefix k).1 ec_db_prefix k).1
            (record v { entry_credits = f }))
        (set_at-twice k v.entry_credits)
        (delete_entry_credits-Refines k _ _ (delete_entry_credits-Refines k db v holds))

  delete_identities-Refines :
      (k : Bytes) (db : store.DB) (v : Vault)
      → Refines laws gob decode-encode c db v
      → Refines laws gob decode-encode c
          (store.delete db identity_db_prefix k).1
          (record v { identities = set_at k none v.identities })
  unfolding bytes_eq seed_db_key fc_db_prefix ec_db_prefix identity_db_prefix
  delete_identities-Refines k db v holds = record {
    seed = rw (laws.contents-delete db identity_db_prefix k seed_db_key seed_db_key) holds.seed;
    factoids =
        delete_elsewhere-IsTable laws (FactoidAddress.unmarshal_binary c none) fc_db_prefix db
          identity_db_prefix k refl holds.factoids;
    entry_credits =
        delete_elsewhere-IsTable laws (EcAddress.unmarshal_binary c none) ec_db_prefix db
          identity_db_prefix k refl holds.entry_credits;
    identities =
        delete-IsTable laws (IdentityKey.unmarshal_binary c none) identity_db_prefix db k
          holds.identities;
  }

  twice_identities-Refines :
      (k : Bytes) (db : store.DB) (v : Vault)
      → Refines laws gob decode-encode c db v
      → Refines laws gob decode-encode c
          (store.delete (store.delete db identity_db_prefix k).1 identity_db_prefix k).1
          (record v { identities = set_at k none v.identities })
  twice_identities-Refines k db v holds =
      subst
        (λ f.
          Refines laws gob decode-encode c
            (store.delete (store.delete db identity_db_prefix k).1 identity_db_prefix k).1
            (record v { identities = f }))
        (set_at-twice k v.identities)
        (delete_identities-Refines k _ _ (delete_identities-Refines k db v holds))

  present_read :
      {A : Type 0} (unmarshal : Bytes → Result A) (missing : Error) (found : Option Bytes)
      (o : Option A)
      → read_at unmarshal found ≡ ok o
      → (elim found as (λ _. Result A) [ none ↦ err missing | some b ↦ unmarshal b ])
        ≡ present missing o
  unfolding read_at present
  present_read unmarshal missing none none h = refl
  present_read unmarshal missing none (some a) h = cc
  present_read unmarshal missing (some b) o h =
      elim (Result-cases (unmarshal b)) as (λ _. unmarshal b ≡ present missing o) [
        | inr (e, failed) ↦ let h' : err e ≡ ok o = rw failed at h in cc
        | inl (a, is) ↦
            let read : ok (some a) ≡ ok o = rw is at h in
            let h' : some a ≡ o = cc in rw is (ap (present missing) h')
      ]

  -- A getter, on a table.
  pub get_from-present :
      {A : Type 0} (unmarshal : Bytes → Result A) (missing : Error) (b : Bytes)
      (f : Bytes → Option A) (db : store.DB) (k : Bytes)
      → IsTable laws unmarshal b f db
      → get_from store unmarshal missing b k db ≡ present missing (f k)
  unfolding get_from
  get_from-present unmarshal missing b f db k table =
      rw (get_from, laws.get-contents db b k)
        (present_read unmarshal missing (contents db b k) (f k) (table k))

  and_then_done :
      {A B : Type 0} (x : Result A × store.DB) (next : A → store.DB → Result B × store.DB) {a : A}
      → x.0 ≡ ok a
      → and_then x next ≡ next a x.1
  unfolding and_then
  and_then_done x next h = ap (λ r. and_then (r, x.1) next) h

  -- A removal, of a table that is emptied of the key by two deletions.
  remove_from-AreAlike :
      {A : Type 0} (unmarshal : Bytes → Result A) (missing : Error) (b : Bytes)
      (f : Bytes → Option A) (k : Bytes) (db : store.DB) (v after : Vault)
      → IsTable laws unmarshal b f db
      → Refines laws gob decode-encode c db v
      → Refines laws gob decode-encode c (store.delete (store.delete db b k).1 b k).1 after
      → AreAlike laws gob decode-encode c
          (remove_from store unmarshal missing b k db)
          (taken_out missing (f k) after v)
  unfolding remove_from taken_out and_then
  remove_from-AreAlike unmarshal missing b f k db v after table holds emptied =
      rw (remove_from, taken_out, get_from-present unmarshal missing b f db k table)
        (then-AreAlike laws gob decode-encode c (present missing (f k)) db v _ _ holds (λ a is.
          rw
            (and_then_done (store.delete db b k) (λ _ db2. store.delete db2 b k)
              (laws.delete-ok db b k))
            (laws.delete-ok (store.delete db b k).1 b k, emptied)))

  pub remove_address-AreAlike :
      (s : Bytes) (db : store.DB) (v : Vault)
      → Refines laws gob decode-encode c db v
      → AreAlike laws gob decode-encode c (remove_address store c s db) (forget_address s v)
  unfolding remove_address forget_address
  remove_address-AreAlike [] db v holds = (refl, holds)
  remove_address-AreAlike (b ∷ s) db v holds =
      elim (Bool-cases (b == b'F'))
        as (λ _.
          AreAlike laws gob decode-encode c (remove_address store c (b ∷ s) db)
            (forget_address (b ∷ s) v)) [
              | inl f ↦ rw f (
                  remove_from-AreAlike (FactoidAddress.unmarshal_binary c none)
                    Error.no_such_address fc_db_prefix v.factoids (b ∷ s) db v
                    (record v { factoids = set_at (b ∷ s) none v.factoids }) holds.factoids holds
                    (twice_factoids-Refines (b ∷ s) db v holds))
              | inr not_f ↦
                  elim (Bool-cases (b == b'E'))
                    as (λ _.
                      AreAlike laws gob decode-encode c (remove_address store c (b ∷ s) db)
                        (forget_address (b ∷ s) v)) [
                          | inl e ↦
                              rw (not_f, e)
                                (remove_from-AreAlike (EcAddress.unmarshal_binary c none)
                                  Error.no_such_address ec_db_prefix v.entry_credits (b ∷ s) db v
                                  (record v { entry_credits = set_at (b ∷ s) none v.entry_credits })
                                  holds.entry_credits holds
                                  (twice_entry_credits-Refines (b ∷ s) db v holds))
                          | inr not_e ↦ rw (not_f, not_e) (refl, holds)
                        ]
            ]

  pub remove_identity_key-AreAlike :
      (s : Bytes) (db : store.DB) (v : Vault)
      → Refines laws gob decode-encode c db v
      → AreAlike laws gob decode-encode c (remove_identity_key store c s db) (forget_identity s v)
  unfolding remove_identity_key forget_identity
  remove_identity_key-AreAlike [] db v holds = (refl, holds)
  remove_identity_key-AreAlike (b ∷ s) db v holds =
      remove_from-AreAlike (IdentityKey.unmarshal_binary c none) Error.no_such_identity_key
        identity_db_prefix v.identities (b ∷ s) db v
        (record v { identities = set_at (b ∷ s) none v.identities }) holds.identities holds
        (twice_identities-Refines (b ∷ s) db v holds)
