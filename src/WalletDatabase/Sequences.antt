-- ===== src/WalletDatabase/Sequences.antt =====
-- Every sequence of commands on the wallet's database is answered as by a vault, and what is
-- generated is found again.
use mathlib.Core.Path.{subst}
use factom.Base.{
  and_then-ok, and_then, ok-injective, bytes_eq_refl, ◌≡◌, ◌∙◌, refl, sym, ap, Option, none, some,
  List, [], ◌∷◌, Bytes, Result, ok, Error,
}
use factom.Crypto.{Crypto, IsLawful}
use factom.Address.FactoidAddress
use factom.Address.FactoidAddress.{FactoidAddress}
use factom.Address.Mnemonic.{Bip}
use factom.WalletDatabase.{Overlay, fc_db_prefix}
use factom.WalletDatabase.Seed.{DbSeed, Gob, next_fct_address}
use factom.WalletDatabase.Tables.{get_fct_address, insert_fct_address}
use factom.WalletDatabase.Next.{get_next_fct_address}
use factom.WalletDatabase.Vault.{
  Vault, Command, Reply, run, perform, present, set_at, seed_of, derive, hold_factoid,
}
use factom.WalletDatabase.Laws.{IsReliable}
use factom.WalletDatabase.Refinement.{Refines}
use factom.WalletDatabase.Holding.{insert_fct_address-AreAlike}
use factom.WalletDatabase.Removing.{get_from-present}
use factom.WalletDatabase.Commands.{
  IsStorable, run-Refines, get_next-AreAlike, next_fct_address-marshal_binary,
}

module _ (c : Crypto) (bip : Bip) (mnemonic : Result Bytes) where
  unfoldable pub run_all :
      (store : Overlay) → Gob → List Command → store.DB → List (Result Reply) × store.DB
  run_all store gob [] db = ([], db)
  run_all store gob (command ∷ commands) db =
      let first = run c bip mnemonic store gob command db in
      let rest = run_all store gob commands first.1 in (first.0 ∷ rest.0, rest.1)

  unfoldable pub perform_all : List Command → Vault → List (Result Reply) × Vault
  perform_all [] v = ([], v)
  perform_all (command ∷ commands) v =
      let first = perform c bip mnemonic command v in
      let rest = perform_all commands first.1 in (first.0 ∷ rest.0, rest.1)

-- What `derive` returns is held by the vault.
derive-held :
    {A : Type 0} (mnemonic : Result Bytes) (make : DbSeed → Result (A × DbSeed))
    (hold : A → Vault → Vault) (v : Vault) {a : A}
    → (derive mnemonic make hold v).0 ≡ ok a
    → (w : Vault) × ((derive mnemonic make hold v).1 ≡ hold a w)
unfolding derive and_then
derive-held mnemonic make hold v {a} h =
    let derived = λ (s : DbSeed) (v1 : Vault).
      and_then (make s, v1)
        (λ made v2. (ok made.0, hold made.0 (record v2 { seed = some made.1 }))) in
    let (s, is, step) = and_then-ok (seed_of mnemonic v) derived h in
    let h' : (derived s (seed_of mnemonic v).1).0 ≡ ok a = ap (λ r. r.0) (sym step) ∙ h in
    let (made, is', step') = and_then-ok (make s, (seed_of mnemonic v).1) _ h' in
    let same : made.0 ≡ a = ok-injective (ap (λ r. r.0) (sym step') ∙ h') in
    let w : Vault = record (seed_of mnemonic v).1 { seed = some made.1 } in
    (w, ap (λ r. r.1) (step ∙ step') ∙ ap (λ x. hold x w) same)

module _ {store : Overlay} {contents : store.DB → Bytes → Bytes → Option Bytes}
    (laws : IsReliable store contents) (gob : Gob)
    (decode-encode : (s : DbSeed) → gob.decode (gob.encode s) ≡ ok s) (c : Crypto) (bip : Bip)
    (mnemonic : Result Bytes) where
  abbrev pub AreStorable : List Command → Type 0
  AreStorable [] = Unit
  AreStorable (command ∷ commands) =
      IsStorable laws gob decode-encode c bip mnemonic command × AreStorable commands

  -- On a reliable store any sequence of commands -- to make the next address or identity key of the
  -- seed, to import, find and remove them -- is answered as the same sequence on a vault, which
  -- holds a seed and three tables, and leaves the store with what the vault then holds: if it does
  -- before, and what is imported is read back from its binary form.
  pub run_all-Refines :
      IsLawful c
      → (commands : List Command) (db : store.DB) (v : Vault) → AreStorable commands
      → Refines laws gob decode-encode c db v
      → ((run_all c bip mnemonic store gob commands db).0
          ≡ (perform_all c bip mnemonic commands v).0)
        × Refines laws gob decode-encode c
            (run_all c bip mnemonic store gob commands db).1
            (perform_all c bip mnemonic commands v).1
  unfolding run_all perform_all
  run_all-Refines lawful [] db v storable holds = (refl, holds)
  run_all-Refines lawful (command ∷ commands) db v (storable, rest) holds =
      let (same, after) =
        run-Refines laws gob decode-encode c bip mnemonic lawful command db v storable holds in
      let (same', after') = run_all-Refines lawful commands _ _ rest after in
      (λ i. same i ∷ same' i, after')

  -- On a reliable store a factoid address that is generated is found under its public string,
  -- whole, private key included.
  pub get_next_fct_address-found :
      IsLawful c
      → (db : store.DB) (v : Vault) {a : FactoidAddress} {db' : store.DB}
      → Refines laws gob decode-encode c db v
      → get_next_fct_address store gob c bip mnemonic db ≡ (ok a, db')
      → get_fct_address store c (FactoidAddress.public_string c a) db' ≡ ok a
  unfolding get_next_fct_address get_fct_address hold_factoid set_at present
  get_next_fct_address-found lawful db v {a} {db'} holds made =
      let (same, after) =
        get_next-AreAlike laws gob decode-encode c bip mnemonic (next_fct_address c bip)
          (insert_fct_address store c) (hold_factoid c)
          (λ s m d w is held.
            insert_fct_address-AreAlike laws gob decode-encode c m.0 d w
              (next_fct_address-marshal_binary bip c lawful s is) held)
          db v holds in
      let (w, held) =
        derive-held mnemonic (next_fct_address c bip) (hold_factoid c) v
          (sym same ∙ ap (λ r. r.0) made) in
      let after' : Refines laws gob decode-encode c db' (hold_factoid c a w) =
        subst (λ d. Refines laws gob decode-encode c d (hold_factoid c a w)) (ap (λ r. r.1) made)
          (subst
            (λ x.
              Refines laws gob decode-encode c (get_next_fct_address store gob c bip mnemonic db).1
                x)
            held after) in
      get_from-present laws gob decode-encode c (FactoidAddress.unmarshal_binary c none)
        Error.no_such_address fc_db_prefix (hold_factoid c a w).factoids db'
        (FactoidAddress.public_string c a) after'.factoids
      ∙ rw (bytes_eq_refl (FactoidAddress.public_string c a)) refl
