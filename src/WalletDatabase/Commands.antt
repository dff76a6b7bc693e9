-- ===== src/WalletDatabase/Commands.antt =====
-- Every sequence of commands on the wallet's database is answered as by a vault.
use factom.Base.{
  and_then, ok-injective, >>=-eq-ok, ◌≡◌, refl, ap, Option, none, some, Bytes, Result, ok, Error,
}
use mathlib.Core.Path.{subst}
use factom.Crypto.{Crypto, IsLawful}
use factom.Address.FactoidAddress
use factom.Address.EcAddress
use factom.IdentityKey
use factom.Address.FactoidAddress.{FactoidAddress}
use factom.Address.EcAddress.{EcAddress}
use factom.IdentityKey.{IdentityKey}
use factom.Address.FactoidAddress.RoundTrip.{make_factoid_address-marshal_binary}
use factom.Address.EcAddress.RoundTrip.{make_ec_address-marshal_binary}
use factom.IdentityKey.RoundTrip.{make_identity_key-marshal_binary}
use factom.Address.Mnemonic.{
  Bip, factom_factoids, factom_entry_credits, factom_identity, parse_and_validate_mnemonic,
  make_bip44_factoid_address, make_bip44_ec_address, make_bip44_identity_key,
}
use factom.WalletDatabase.{Overlay, fc_db_prefix, ec_db_prefix, identity_db_prefix}
use factom.WalletDatabase.Seed.{
  DbSeed, Gob, insert_db_seed, get_or_create_db_seed, next_fct_address, next_ec_address,
  next_identity_key,
}
use factom.WalletDatabase.Tables.{insert_fct_address, insert_ec_address, insert_identity_key}
use factom.WalletDatabase.Next.{get_next}
use factom.WalletDatabase.Vault.{
  Vault, Command, Reply, replied, run, perform, seed_of, derive, hold_factoid, hold_entry_credit,
  hold_identity, next_factoid, next_entry_credit, next_identity, import_factoid,
  import_entry_credit, import_identity, find_factoid, find_entry_credit, find_identity, remove,
  remove_identity, done, factoid, entry_credit, identity,
}
use factom.WalletDatabase.Laws.{IsReliable}
use factom.WalletDatabase.Refinement.{
  Refines, AreAlike, then-AreAlike, and_then-AreAlike, insert_db_seed-AreAlike,
  get_or_create_db_seed-AreAlike,
}
use factom.WalletDatabase.Holding.{
  insert_fct_address-AreAlike, insert_ec_address-AreAlike, insert_identity_key-AreAlike,
}
use factom.WalletDatabase.Removing.{
  get_from-present, remove_address-AreAlike, remove_identity_key-AreAlike,
}

-- A key made of a mnemonic is made of the key of a child.
module _ (bip : Bip) (c : Crypto) where
  pub next_fct_address-marshal_binary :
      (laws : IsLawful c) (s : DbSeed) {made : FactoidAddress × DbSeed}
      → next_fct_address c bip s ≡ ok made
      → FactoidAddress.unmarshal_binary c none (FactoidAddress.marshal_binary made.0) ≡ ok made.0
  unfolding next_fct_address make_bip44_factoid_address
  next_fct_address-marshal_binary laws s {made} h =
      let (a, e1, e2) =
        >>=-eq-ok
          (unfold next_fct_address in
            make_bip44_factoid_address c bip s.mnemonic_seed bip.first_hardened_child 0
              s.next_factoid_address_index)
          _ h in
      let (checked, e3, e4) = >>=-eq-ok (parse_and_validate_mnemonic c bip s.mnemonic_seed) _ e1 in
      let (child, e5, e6) =
        >>=-eq-ok
          (bip.new_key_from_mnemonic checked factom_factoids bip.first_hardened_child 0
            s.next_factoid_address_index)
          _ e4 in
      let same : a ≡ made.0 = ap (λ p. p.0) (ok-injective e2) in
      subst (λ x. FactoidAddress.unmarshal_binary c none (FactoidAddress.marshal_binary x) ≡ ok x)
        same (make_factoid_address-marshal_binary laws (bip.key_bytes child) e6)

  next_ec_address-marshal_binary :
      (laws : IsLawful c) (s : DbSeed) {made : EcAddress × DbSeed}
      → next_ec_address c bip s ≡ ok made
      → EcAddress.unmarshal_binary c none (EcAddress.marshal_binary made.0) ≡ ok made.0
  unfolding next_ec_address make_bip44_ec_address
  next_ec_address-marshal_binary laws s {made} h =
      let (a, e1, e2) =
        >>=-eq-ok
          (unfold next_ec_address in
            make_bip44_ec_address c bip s.mnemonic_seed bip.first_hardened_child 0
              s.next_ec_address_index)
          _ h in
      let (checked, e3, e4) = >>=-eq-ok (parse_and_validate_mnemonic c bip s.mnemonic_seed) _ e1 in
      let (child, e5, e6) =
        >>=-eq-ok
          (bip.new_key_from_mnemonic checked factom_entry_credits bip.first_hardened_child 0
            s.next_ec_address_index)
          _ e4 in
      let same : a ≡ made.0 = ap (λ p. p.0) (ok-injective e2) in
      subst (λ x. EcAddress.unmarshal_binary c none (EcAddress.marshal_binary x) ≡ ok x) same
        (make_ec_address-marshal_binary laws (bip.key_bytes child) e6)

  next_identity_key-marshal_binary :
      (laws : IsLawful c) (s : DbSeed) {made : IdentityKey × DbSeed}
      → next_identity_key c bip s ≡ ok made
      → IdentityKey.unmarshal_binary c none (IdentityKey.marshal_binary made.0) ≡ ok made.0
  unfolding next_identity_key make_bip44_identity_key
  next_identity_key-marshal_binary laws s {made} h =
      let (a, e1, e2) =
        >>=-eq-ok
          (unfold next_identity_key in
            make_bip44_identity_key c bip s.mnemonic_seed bip.first_hardened_child 0
              s.next_identity_key_index)
          _ h in
      let (checked, e3, e4) = >>=-eq-ok (parse_and_validate_mnemonic c bip s.mnemonic_seed) _ e1 in
      let (child, e5, e6) =
        >>=-eq-ok
          (bip.new_key_from_mnemonic checked factom_identity bip.first_hardened_child 0
            s.next_identity_key_index)
          _ e4 in
      let same : a ≡ made.0 = ap (λ p. p.0) (ok-injective e2) in
      subst (λ x. IdentityKey.unmarshal_binary c none (IdentityKey.marshal_binary x) ≡ ok x) same
        (make_identity_key-marshal_binary laws (bip.key_bytes child) e6)

module _ {store : Overlay} {contents : store.DB → Bytes → Bytes → Option Bytes}
    (laws : IsReliable store contents) (gob : Gob)
    (decode-encode : (s : DbSeed) → gob.decode (gob.encode s) ≡ ok s) (c : Crypto) (bip : Bip)
    (mnemonic : Result Bytes) where
  pub get_next-AreAlike :
      {A : Type 0} (make : DbSeed → Result (A × DbSeed))
      (insert : A → store.DB → Result (Unit {0}) × store.DB) (hold : A → Vault → Vault)
      → ((s : DbSeed) (made : A × DbSeed) (db : store.DB) (v : Vault)
          → make s ≡ ok made
          → Refines laws gob decode-encode c db v
          → AreAlike laws gob decode-encode c (insert made.0 db) (ok tt, hold made.0 v))
      → (db : store.DB) (v : Vault) → Refines laws gob decode-encode c db v
      → AreAlike laws gob decode-encode c
          (get_next store gob c bip mnemonic make insert db)
          (derive mnemonic make hold v)
  unfolding get_next derive and_then
  get_next-AreAlike make insert hold holding db v holds =
      and_then-AreAlike laws gob decode-encode c (get_or_create_db_seed store gob mnemonic db)
        (seed_of mnemonic v) _ _
        (get_or_create_db_seed-AreAlike laws gob decode-encode c mnemonic db v holds)
        (λ s is holds1.
          then-AreAlike laws gob decode-encode c (make s) _ _ _ _ holds1 (λ made is_made.
            and_then-AreAlike laws gob decode-encode c (insert_db_seed store gob made.1 _)
              (ok tt, record (seed_of mnemonic v).1 { seed = some made.1 }) _
              (λ _ v2. (ok made.0, hold made.0 v2))
              (insert_db_seed-AreAlike laws gob decode-encode c made.1 _ _ holds1)
              (λ _ _ holds2.
                and_then-AreAlike laws gob decode-encode c (insert made.0 _) (ok tt, hold made.0 _)
                  _ (λ _ v3. (ok made.0, v3)) (holding s made _ _ is_made holds2)
                  (λ _ _ holds3. (refl, holds3)))))

  -- What is imported was made from a key: a new value reads its binary form.
  abbrev pub IsStorable : Command → Type 0
  IsStorable (import_factoid a) =
      FactoidAddress.unmarshal_binary c none (FactoidAddress.marshal_binary a) ≡ ok a
  IsStorable (import_entry_credit a) =
      EcAddress.unmarshal_binary c none (EcAddress.marshal_binary a) ≡ ok a
  IsStorable (import_identity k) =
      IdentityKey.unmarshal_binary c none (IdentityKey.marshal_binary k) ≡ ok k
  IsStorable command = Unit

  replied-AreAlike :
      {A : Type 0} (reply : A → Reply) (x : Result A × store.DB) (y : Result A × Vault)
      → AreAlike laws gob decode-encode c x y
      → AreAlike laws gob decode-encode c (replied reply x) (replied reply y)
  unfolding replied
  replied-AreAlike reply x y alike =
      and_then-AreAlike laws gob decode-encode c x y _ _ alike (λ a is holds. (refl, holds))

  pub run-Refines :
      IsLawful c
      → (command : Command) (db : store.DB) (v : Vault) → IsStorable command
      → Refines laws gob decode-encode c db v
      → AreAlike laws gob decode-encode c
          (run c bip mnemonic store gob command db)
          (perform c bip mnemonic command v)
  unfolding run perform factom.WalletDatabase.Next.get_next_fct_address derive
      factom.WalletDatabase.Next.get_next_ec_address and_then
      factom.WalletDatabase.Next.get_next_identity_key seed_of insert_fct_address replied
      hold_factoid factom.WalletDatabase.Tables.get_fct_address
      factom.WalletDatabase.Tables.get_from factom.WalletDatabase.Tables.get_ec_address
      factom.WalletDatabase.Tables.get_identity_key
  run-Refines lawful next_factoid db v storable holds = replied-AreAlike factoid _ _ (
      get_next-AreAlike (next_fct_address c bip) (insert_fct_address store c) (hold_factoid c)
        (λ s made d w is held.
          insert_fct_address-AreAlike laws gob decode-encode c made.0 d w
            (next_fct_address-marshal_binary bip c lawful s is) held)
        db v holds)
  run-Refines lawful next_entry_credit db v storable holds = replied-AreAlike entry_credit _ _ (
      get_next-AreAlike (next_ec_address c bip) (insert_ec_address store c) (hold_entry_credit c)
        (λ s made d w is held.
          insert_ec_address-AreAlike laws gob decode-encode c made.0 d w
            (next_ec_address-marshal_binary bip c lawful s is) held)
        db v holds)
  run-Refines lawful next_identity db v storable holds = replied-AreAlike identity _ _ (
      get_next-AreAlike (next_identity_key c bip) (insert_identity_key store c) (hold_identity c)
        (λ s made d w is held.
          insert_identity_key-AreAlike laws gob decode-encode c made.0 d w
            (next_identity_key-marshal_binary bip c lawful s is) held)
        db v holds)
  run-Refines lawful (import_factoid a) db v storable holds =
      replied-AreAlike (λ _. done) _ (ok tt, _)
        (insert_fct_address-AreAlike laws gob decode-encode c a db v storable holds)
  run-Refines lawful (import_entry_credit a) db v storable holds =
      replied-AreAlike (λ _. done) _ (ok tt, _)
        (insert_ec_address-AreAlike laws gob decode-encode c a db v storable holds)
  run-Refines lawful (import_identity k) db v storable holds =
      replied-AreAlike (λ _. done) _ (ok tt, _)
        (insert_identity_key-AreAlike laws gob decode-encode c k db v storable holds)
  run-Refines lawful (find_factoid s) db v storable holds = replied-AreAlike factoid _ _ (
    get_from-present laws gob decode-encode c (FactoidAddress.unmarshal_binary c none)
        Error.no_such_address fc_db_prefix v.factoids db s holds.factoids,
    holds,
  )
  run-Refines lawful (find_entry_credit s) db v storable holds = replied-AreAlike entry_credit _ _ (
    get_from-present laws gob decode-encode c (EcAddress.unmarshal_binary c none)
        Error.no_such_address ec_db_prefix v.entry_credits db s holds.entry_credits,
    holds,
  )
  run-Refines lawful (find_identity s) db v storable holds = replied-AreAlike identity _ _ (
    get_from-present laws gob decode-encode c (IdentityKey.unmarshal_binary c none)
        Error.no_such_identity_key identity_db_prefix v.identities db s holds.identities,
    holds,
  )
  run-Refines lawful (remove s) db v storable holds =
      replied-AreAlike (λ _. done) _ _
        (remove_address-AreAlike laws gob decode-encode c s db v holds)
  run-Refines lawful (remove_identity s) db v storable holds =
      replied-AreAlike (λ _. done) _ _
        (remove_identity_key-AreAlike laws gob decode-encode c s db v holds)
