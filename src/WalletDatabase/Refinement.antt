-- ===== src/WalletDatabase/Refinement.antt =====
-- The wallet's database does what a vault does.
use factom.Base.{
  and_then, ◌≡◌, ◌∙◌, inl, inr, refl, ap, Option, none, some, Bytes, bytes_eq, Result, ok, err,
  ◌>>=◌, Option-cases,
}
use mathlib.Core.Path.{subst}
use factom.Crypto.{Crypto}
use factom.Address.FactoidAddress
use factom.Address.EcAddress
use factom.IdentityKey
use factom.Address.FactoidAddress.{FactoidAddress}
use factom.Address.EcAddress.{EcAddress}
use factom.IdentityKey.{IdentityKey}
use factom.WalletDatabase.{Overlay, seed_db_key, fc_db_prefix, ec_db_prefix, identity_db_prefix}
use factom.WalletDatabase.Seed.{
  DbSeed, Gob, insert_db_seed, get_db_seed, get_or_create_db_seed, create_db_seed, new_random_seed,
}
use factom.WalletDatabase.Vault.{Vault, seed_of}
use factom.WalletDatabase.Laws.{IsReliable, read_at, IsTable, put_elsewhere-IsTable}

module _ {store : Overlay} {contents : store.DB → Bytes → Bytes → Option Bytes}
    (laws : IsReliable store contents) (gob : Gob)
    (decode-encode : (s : DbSeed) → gob.decode (gob.encode s) ≡ ok s) (c : Crypto) where
  -- The store holds what the vault holds.
  pub record Refines (db : store.DB) (v : Vault) : Type 0 where
    pub seed : read_at gob.decode (contents db seed_db_key seed_db_key) ≡ ok v.seed
    pub factoids : IsTable laws (FactoidAddress.unmarshal_binary c none) fc_db_prefix v.factoids db
    pub entry_credits :
        IsTable laws (EcAddress.unmarshal_binary c none) ec_db_prefix v.entry_credits db
    pub identities :
        IsTable laws (IdentityKey.unmarshal_binary c none) identity_db_prefix v.identities db

  -- The same result, and the same contents.
  abbrev pub AreAlike : {A : Type 0} → Result A × store.DB → Result A × Vault → Type 0
  AreAlike x y = (x.0 ≡ y.0) × Refines x.1 y.1

  pub then-AreAlike :
      {A B : Type 0} (r : Result A) (db : store.DB) (v : Vault)
      (f : A → store.DB → Result B × store.DB) (g : A → Vault → Result B × Vault)
      → Refines db v
      → ((a : A) → r ≡ ok a → AreAlike (f a db) (g a v))
      → AreAlike (and_then (r, db) f) (and_then (r, v) g)
  unfolding and_then
  then-AreAlike (err e) db v f g holds next = (refl, holds)
  then-AreAlike (ok a) db v f g holds next = next a refl

  pub and_then-AreAlike :
      {A B : Type 0} (x : Result A × store.DB) (y : Result A × Vault)
      (f : A → store.DB → Result B × store.DB) (g : A → Vault → Result B × Vault)
      → AreAlike x y
      → ((a : A) → x.0 ≡ ok a → Refines x.1 y.1 → AreAlike (f a x.1) (g a y.1))
      → AreAlike (and_then x f) (and_then y g)
  and_then-AreAlike x y f g (same, holds) next =
      subst (λ r. AreAlike (and_then x f) (and_then (r, y.1) g)) same
        (then-AreAlike x.0 x.1 y.1 f g holds (λ a is. next a is holds))

  -- The seed.
  pub insert_db_seed-AreAlike :
      (s : DbSeed) (db : store.DB) (v : Vault)
      → Refines db v
      → AreAlike (insert_db_seed store gob s db) (ok tt, record v { seed = some s })
  unfolding insert_db_seed read_at bytes_eq seed_db_key fc_db_prefix ec_db_prefix identity_db_prefix
  insert_db_seed-AreAlike s db v holds = (
    laws.put-ok db seed_db_key seed_db_key (gob.encode s),
    record {
      seed = rw (
        laws.contents-put db seed_db_key seed_db_key (gob.encode s) seed_db_key seed_db_key,
        decode-encode s,
      );
      factoids =
          put_elsewhere-IsTable laws (FactoidAddress.unmarshal_binary c none) fc_db_prefix db
            seed_db_key seed_db_key (gob.encode s) refl holds.factoids;
      entry_credits =
          put_elsewhere-IsTable laws (EcAddress.unmarshal_binary c none) ec_db_prefix db seed_db_key
            seed_db_key (gob.encode s) refl holds.entry_credits;
      identities =
          put_elsewhere-IsTable laws (IdentityKey.unmarshal_binary c none) identity_db_prefix db
            seed_db_key seed_db_key (gob.encode s) refl holds.identities;
    },
  )

  read_seed :
      (found : Option Bytes)
      → (elim found as (λ _. Result (Option DbSeed)) [
        | none ↦ ok none
        | some b ↦ gob.decode b >>= λ seed. ok (some seed)
      ])
        ≡ read_at gob.decode found
  unfolding read_at
  read_seed none = refl
  read_seed (some b) = refl

  get_db_seed-Refines :
      (db : store.DB) (v : Vault) → Refines db v → get_db_seed store gob db ≡ ok v.seed
  unfolding get_db_seed
  get_db_seed-Refines db v holds =
      rw (get_db_seed, laws.get-contents db seed_db_key seed_db_key)
        (read_seed (contents db seed_db_key seed_db_key) ∙ holds.seed)

  create_db_seed-AreAlike :
      (mnemonic : Result Bytes) (db : store.DB) (v : Vault)
      → Refines db v
      → AreAlike (create_db_seed store gob mnemonic db) (
          and_then
            (new_random_seed mnemonic, v)
            (λ seed v1. (ok seed, record v1 { seed = some seed })))
  unfolding create_db_seed and_then
  create_db_seed-AreAlike mnemonic db v holds =
      then-AreAlike (new_random_seed mnemonic) db v _ _ holds (λ s is.
        and_then-AreAlike (insert_db_seed store gob s db) (ok tt, record v { seed = some s }) _
          (λ _ v1. (ok s, v1)) (insert_db_seed-AreAlike s db v holds) (λ _ _ after. (refl, after)))

  pub get_or_create_db_seed-AreAlike :
      (mnemonic : Result Bytes) (db : store.DB) (v : Vault)
      → Refines db v
      → AreAlike (get_or_create_db_seed store gob mnemonic db) (seed_of mnemonic v)
  unfolding and_then get_or_create_db_seed seed_of
  get_or_create_db_seed-AreAlike mnemonic db v holds =
      elim (Option-cases v.seed)
        as (λ _. AreAlike (get_or_create_db_seed store gob mnemonic db) (seed_of mnemonic v)) [
          | inl nothing ↦
              rw
                (
                  get_or_create_db_seed,
                  get_db_seed-Refines db v holds ∙ ap ok nothing,
                  seed_of,
                  nothing,
                )
                (create_db_seed-AreAlike mnemonic db v holds)
          | inr (s, has) ↦
              rw (get_or_create_db_seed, get_db_seed-Refines db v holds ∙ ap ok has, seed_of, has)
                (refl, holds)
        ]
