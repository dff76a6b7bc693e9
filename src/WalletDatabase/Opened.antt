-- ===== src/WalletDatabase/Opened.antt =====
-- What a wallet that has been opened holds and answers.
use factom.Base.{
  err, Result, ◌≡◌, ◌⊎◌, ◌∙◌, inl, inr, refl, Bool, true, false, Option, some, List, [], Bytes, ok,
  Option-cases,
}
use factom.Crypto.{Crypto, IsLawful}
use factom.Address.Mnemonic.{Bip}
use factom.Base.{and_then}
use factom.Wallet.Factoid.{Factoid}
use factom.WalletDatabase.{Overlay}
use factom.WalletDatabase.Seed.{DbSeed, Gob, get_or_create_db_seed, new_random_seed}
use factom.WalletDatabase.Vault.{Vault, seed_of, Command}
use factom.WalletDatabase.Laws.{IsReliable}
use factom.WalletDatabase.Refinement.{Refines, get_or_create_db_seed-AreAlike}
use factom.WalletDatabase.Sequences.{AreStorable, run_all, perform_all, run_all-Refines}
use factom.WalletDatabase.Opening.{
  init_wallet, Drivers, found, not_found, start_wallet, start_opened, start_unless_exited,
  new_encrypted_bolt_db_wallet, new_encrypted_bolt_db, create_encrypted_bolt_db,
}

-- A vault has a seed, or gets one.
seed_of-ok : (m : Bytes) (v : Vault) → (seed : DbSeed) × ((seed_of (ok m) v).0 ≡ ok seed)
unfolding seed_of new_random_seed and_then
seed_of-ok m v = elim (Option-cases v.seed) [
  | inl nothing ↦ (
    record {
      mnemonic_seed = m;
      next_factoid_address_index = 0;
      next_ec_address_index = 0;
      next_identity_key_index = 0;
    },
    rw nothing refl,
  )
  | inr (s, has) ↦ (s, rw has refl)
]

-- A seed that is read or made starts the wallet.
seeded :
    {A S : Type 0} (x : Result A × S) {a : A}
    → x.0 ≡ ok a
    → and_then x (λ _ s. (ok tt, s)) ≡ (ok tt, x.1)
unfolding and_then
seeded (ok a, s) h = refl
seeded (err e, s) h = cc

module _ {store : Overlay} {contents : store.DB → Bytes → Bytes → Option Bytes}
    (laws : IsReliable store contents) (gob : Gob)
    (decode-encode : (s : DbSeed) → gob.decode (gob.encode s) ≡ ok s) (c : Crypto) (m : Bytes)
    (f : Factoid) where
  -- A wallet whose seed is there is on its database.
  start_wallet-init :
      (encrypted : Bool) (path : Bytes) (db : store.DB) {db1 : store.DB}
      → init_wallet store gob (ok m) db ≡ (ok tt, db1)
      → start_wallet store gob (ok m) f encrypted path db
        ≡ ok (record {
          overlay = some db1;
          encrypted = encrypted;
          db_path = path;
          transactions = [];
        })
  unfolding start_wallet
  start_wallet-init encrypted path db h = rw (start_wallet, h, h) refl

  -- A wallet is started on any database that holds a vault, and then holds it with a seed.
  start_wallet-Refines :
      (encrypted : Bool) (path : Bytes) (db : store.DB) (v : Vault)
      → Refines laws gob decode-encode c db v
      → (db1 : store.DB) × (start_wallet store gob (ok m) f encrypted path db
          ≡ ok (record {
            overlay = some db1;
            encrypted = encrypted;
            db_path = path;
            transactions = [];
          }))
        × Refines laws gob decode-encode c db1 (seed_of (ok m) v).1
  unfolding init_wallet
  start_wallet-Refines encrypted path db v holds =
      let (seed, made) = seed_of-ok m v in
      let (same, after) =
        get_or_create_db_seed-AreAlike laws gob decode-encode c (ok m) db v holds in
      let r = get_or_create_db_seed store gob (ok m) db in
      let started : r.0 ≡ ok seed = same ∙ made in
      (r.1, start_wallet-init encrypted path db (seeded r started), after)

  module _ (bip : Bip) (d : Drivers store.DB) where
    -- A wallet in an encrypted file, whose path is no directory and whose database opens with the
    -- password and holds a vault, is opened, and answers any sequence of commands as the vault does
    -- once it has a seed, which is a new one only if it had none. It then holds what the vault holds.
    pub new_encrypted_bolt_db_wallet-Refines :
        IsLawful c
        → (path password : Bytes) (db : store.DB) (v : Vault) (commands : List Command)
        → (d.stat path ≡ found false) ⊎ (d.stat path ≡ not_found)
        → d.encrypted_db path password ≡ some (ok db)
        → Refines laws gob decode-encode c db v
        → AreStorable laws gob decode-encode c bip (ok m) commands
        → (db1 : store.DB) × (new_encrypted_bolt_db_wallet store gob (ok m) f d path password
            ≡ some (
                ok (record {
                  overlay = some db1;
                  encrypted = true;
                  db_path = path;
                  transactions = [];
                })))
          × ((run_all c bip (ok m) store gob commands db1).0
              ≡ (perform_all c bip (ok m) commands (seed_of (ok m) v).1).0)
          × Refines laws gob decode-encode c
              (run_all c bip (ok m) store gob commands db1).1
              (perform_all c bip (ok m) commands (seed_of (ok m) v).1).1
    unfolding new_encrypted_bolt_db_wallet new_encrypted_bolt_db create_encrypted_bolt_db
        start_unless_exited start_opened
    new_encrypted_bolt_db_wallet-Refines lawful path password db v commands allowed opened holds
          storable =
        let (db1, started, after) = start_wallet-Refines true path db v holds in
        let (same, after') =
          run_all-Refines laws gob decode-encode c bip (ok m) lawful commands db1 _ storable
            after in
        let passed : create_encrypted_bolt_db d path ≡ ok tt = elim allowed [
          | inl file ↦ rw (create_encrypted_bolt_db, file) refl
          | inr missing ↦ rw (create_encrypted_bolt_db, missing) refl
        ] in
        (db1, rw (new_encrypted_bolt_db, passed, opened, started) refl, same, after')
