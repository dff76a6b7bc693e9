-- ===== src/WalletDatabase/Vault.antt =====
-- What the wallet's database promises, without the store and its bytes: a vault holds a seed, and
-- the addresses and keys by what they print. Also the commands on the database that answer to it.
use factom.Base.{
  and_then, Option, none, some, [], ◌∷◌, Bytes, bytes_eq, ◌==◌, if◌then◌else◌, Result, ok, err,
  Error,
}
use factom.Crypto.{Crypto}
use factom.Address.FactoidAddress
use factom.Address.EcAddress
use factom.IdentityKey
use factom.Address.FactoidAddress.{FactoidAddress}
use factom.Address.EcAddress.{EcAddress}
use factom.IdentityKey.{IdentityKey}
use factom.Address.Mnemonic.{Bip}
use factom.WalletDatabase.{Overlay}
use factom.WalletDatabase.Seed.{
  DbSeed, Gob, new_random_seed, next_fct_address, next_ec_address, next_identity_key,
}
use factom.WalletDatabase.Next.{get_next_fct_address, get_next_ec_address, get_next_identity_key}
use factom.WalletDatabase.Tables.{
  insert_fct_address, insert_ec_address, insert_identity_key, get_fct_address, get_ec_address,
  get_identity_key, remove_address, remove_identity_key,
}

pub record Vault : Type 0 where
  pub seed : Option DbSeed
  pub factoids : Bytes → Option FactoidAddress
  pub entry_credits : Bytes → Option EcAddress
  pub identities : Bytes → Option IdentityKey

unfoldable pub set_at : {A : Type 0} → Bytes → Option A → (Bytes → Option A) → Bytes → Option A
set_at k a f j = if bytes_eq k j then a else f j

pub data Command : Type 0 where
  next_factoid next_entry_credit next_identity : Command
  import_factoid : FactoidAddress → Command
  import_entry_credit : EcAddress → Command
  import_identity : IdentityKey → Command
  find_factoid find_entry_credit find_identity remove remove_identity : Bytes → Command

pub data Reply : Type 0 where
  done : Reply
  factoid : FactoidAddress → Reply
  entry_credit : EcAddress → Reply
  identity : IdentityKey → Reply

unfoldable pub replied : {A S : Type 0} → (A → Reply) → Result A × S → Result Reply × S
replied reply r = and_then r (λ a s. (ok (reply a), s))

module _ (c : Crypto) (bip : Bip) (mnemonic : Result Bytes) where
  -- A command on the database.
  unfoldable pub run : (store : Overlay) → Gob → Command → store.DB → Result Reply × store.DB
  run store gob next_factoid db = replied factoid (get_next_fct_address store gob c bip mnemonic db)
  run store gob next_entry_credit db =
      replied entry_credit (get_next_ec_address store gob c bip mnemonic db)
  run store gob next_identity db =
      replied identity (get_next_identity_key store gob c bip mnemonic db)
  run store gob (import_factoid a) db = replied (λ _. done) (insert_fct_address store c a db)
  run store gob (import_entry_credit a) db = replied (λ _. done) (insert_ec_address store c a db)
  run store gob (import_identity k) db = replied (λ _. done) (insert_identity_key store c k db)
  run store gob (find_factoid s) db = replied factoid (get_fct_address store c s db, db)
  run store gob (find_entry_credit s) db = replied entry_credit (get_ec_address store c s db, db)
  run store gob (find_identity s) db = replied identity (get_identity_key store c s db, db)
  run store gob (remove s) db = replied (λ _. done) (remove_address store c s db)
  run store gob (remove_identity s) db = replied (λ _. done) (remove_identity_key store c s db)

module _ (mnemonic : Result Bytes) where
  -- The seed of a vault, or a new one.
  unfoldable pub seed_of : Vault → Result DbSeed × Vault
  seed_of v = elim v.seed [
    | some seed ↦ (ok seed, v)
    | none ↦
        and_then (new_random_seed mnemonic, v)
          (λ seed v1. (ok seed, record v1 { seed = some seed }))
  ]

  unfoldable pub derive :
      {A : Type 0} → (DbSeed → Result (A × DbSeed)) → (A → Vault → Vault) → Vault → Result A × Vault
  derive make hold v = and_then (seed_of v) (λ seed v1.
      and_then (make seed, v1)
        (λ made v2. (ok made.0, hold made.0 (record v2 { seed = some made.1 }))))

module _ (c : Crypto) where
  unfoldable pub hold_factoid : FactoidAddress → Vault → Vault
  hold_factoid a v = record v {
    factoids = set_at (FactoidAddress.public_string c a) (some a) v.factoids;
  }

  unfoldable pub hold_entry_credit : EcAddress → Vault → Vault
  hold_entry_credit a v = record v {
    entry_credits = set_at (EcAddress.pub_string c a) (some a) v.entry_credits;
  }

  unfoldable pub hold_identity : IdentityKey → Vault → Vault
  hold_identity k v = record v {
    identities = set_at (IdentityKey.pub_string c k) (some k) v.identities;
  }

-- A value that must be there, and a removal of it.
unfoldable pub present : {A : Type 0} → Error → Option A → Result A
present missing none = err missing
present missing (some a) = ok a

unfoldable pub taken_out :
    {A : Type 0} → Error → Option A → Vault → Vault → Result (Unit {0}) × Vault
taken_out missing found after v = and_then (present missing found, v) (λ _ v1. (ok tt, after))

unfoldable pub forget_address : Bytes → Vault → Result (Unit {0}) × Vault
forget_address [] v = (ok tt, v)
forget_address (b ∷ s) v =
    if b == b'F'
    then taken_out Error.no_such_address (v.factoids (b ∷ s))
        (record v { factoids = set_at (b ∷ s) none v.factoids }) v
    else if b == b'E'
    then taken_out Error.no_such_address (v.entry_credits (b ∷ s))
        (record v { entry_credits = set_at (b ∷ s) none v.entry_credits }) v
    else (err Error.unknown_address_type, v)

unfoldable pub forget_identity : Bytes → Vault → Result (Unit {0}) × Vault
forget_identity [] v = (ok tt, v)
forget_identity (b ∷ s) v =
    taken_out Error.no_such_identity_key (v.identities (b ∷ s))
      (record v { identities = set_at (b ∷ s) none v.identities }) v

module _ (c : Crypto) (bip : Bip) (mnemonic : Result Bytes) where
  -- A command on a vault.
  unfoldable pub perform : Command → Vault → Result Reply × Vault
  perform next_factoid v =
      replied factoid (derive mnemonic (next_fct_address c bip) (hold_factoid c) v)
  perform next_entry_credit v =
      replied entry_credit (derive mnemonic (next_ec_address c bip) (hold_entry_credit c) v)
  perform next_identity v =
      replied identity (derive mnemonic (next_identity_key c bip) (hold_identity c) v)
  perform (import_factoid a) v = (ok done, hold_factoid c a v)
  perform (import_entry_credit a) v = (ok done, hold_entry_credit c a v)
  perform (import_identity k) v = (ok done, hold_identity c k v)
  perform (find_factoid s) v = replied factoid (present Error.no_such_address (v.factoids s), v)
  perform (find_entry_credit s) v =
      replied entry_credit (present Error.no_such_address (v.entry_credits s), v)
  perform (find_identity s) v =
      replied identity (present Error.no_such_identity_key (v.identities s), v)
  perform (remove s) v = replied (λ _. done) (forget_address s v)
  perform (remove_identity s) v = replied (λ _. done) (forget_identity s v)
