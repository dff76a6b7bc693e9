-- ===== src/Tests/Storing.antt =====
-- A store as a function, and keys that are derived by their index.
use factom.Base.{
  and_then, ◌^◌, ◌≡◌, refl, ◌&&◌, Option, none, some, List, [], ◌∷◌, Bytes, codes, replicate,
  bytes_eq, if◌then◌else◌, Result, ok, err, Error,
}
use factom.Tests.{seed, toy_crypto, toy_crypto-IsLawful}
use factom.Tests.Addresses.{factoid_address, factoid_address-made, ec_address, ec_address-made}
use factom.Address.FactoidAddress
use factom.Address.FactoidAddress.{FactoidAddress}
use factom.Address.Mnemonic.{Bip}
use factom.WalletDatabase.{Overlay}
use factom.WalletApi.Addresses.{handle_all_addresses}
use factom.WalletApi.RoundTrip.{handle_all_addresses-fetched}
use factom.Rpc.Keys.{AddressResponse, sort_fetched}
use factom.WalletDatabase.Seed.{DbSeed, Gob}
use factom.WalletDatabase.Tables.{get_fct_address, get_all_addresses}
use factom.WalletDatabase.Next.{get_next_fct_address}
use factom.WalletDatabase.Vault.{
  Vault, Command, next_factoid, import_factoid, find_factoid, remove, next_identity,
}
use factom.WalletDatabase.Laws.{IsReliable}
use factom.WalletDatabase.Refinement.{Refines}
use factom.WalletDatabase.Sequences.{
  run_all, perform_all, run_all-Refines, get_next_fct_address-found,
}

abbrev pub Contents : Type 0
Contents = Bytes → Bytes → Option Bytes

abbrev set_in : Contents → Bytes → Bytes → Option Bytes → Contents
set_in db b k x b1 j = if bytes_eq b b1 && bytes_eq k j then x else db b1 j

abbrev pub toy_store : Overlay
toy_store = record {
  DB = Contents;
  get = λ db b k. ok (db b k);
  put = λ db b k x. (ok tt, set_in db b k (some x));
  delete = λ db b k. (ok tt, set_in db b k none);
  fetch_all = λ db b. ok [];
}

pub toy_store-IsReliable : IsReliable toy_store (λ db. db)
toy_store-IsReliable = record {
  get-contents = λ db b k. refl;
  put-ok = λ db b k x. refl;
  contents-put = λ db b k x b1 j. refl;
  delete-ok = λ db b k. refl;
  contents-delete = λ db b k b1 j. refl;
}

abbrev decode_seed : Bytes → Result DbSeed
decode_seed (f ∷ e ∷ i ∷ m) = ok (record {
  mnemonic_seed = m;
  next_factoid_address_index = f;
  next_ec_address_index = e;
  next_identity_key_index = i;
})
decode_seed s = err Error.hex_length

abbrev pub toy_gob : Gob
toy_gob = record {
  encode = λ s.
      s.next_factoid_address_index ∷ s.next_ec_address_index ∷ s.next_identity_key_index
      ∷ s.mnemonic_seed;
  decode = decode_seed;
}

abbrev pub toy_bip : Bip
toy_bip = record {
  mnemonic_to_byte_array = λ m. ok m;
  new_seed = λ m p. ok m;
  Key = Bytes;
  key_bytes = λ k. k;
  new_master_key = λ s. ok s;
  new_child_key = λ k n. ok (replicate 32 n);
  first_hardened_child = 2 ^ 31;
  new_key_from_mnemonic = λ m coin account chain address. ok (replicate 32 address);
}

abbrev pub words : Result Bytes
words = ok (codes "a b c d e f g h i j k l")

abbrev pub no_contents : Contents
no_contents b k = none

abbrev pub empty_vault : Vault
empty_vault = record {
  seed = none;
  factoids = λ k. none;
  entry_credits = λ k. none;
  identities = λ k. none;
}

pub empty_vault-Refines :
    Refines toy_store-IsReliable toy_gob (λ s. refl) toy_crypto no_contents empty_vault
unfolding factom.WalletDatabase.Laws.read_at
empty_vault-Refines = record {
  seed = refl;
  factoids = λ j. refl;
  entry_credits = λ j. refl;
  identities = λ j. refl;
}

abbrev address : Bytes
address = FactoidAddress.public_string toy_crypto factoid_address

abbrev commands : List Command
commands =
    next_factoid
    ∷ next_identity
    ∷ next_factoid
    ∷ import_factoid factoid_address
    ∷ find_factoid address
    ∷ remove address
    ∷ find_factoid address
    ∷ []

run_all-Refines_example :
    ((run_all toy_crypto toy_bip words toy_store toy_gob commands no_contents).0
      ≡ (perform_all toy_crypto toy_bip words commands empty_vault).0)
    × Refines toy_store-IsReliable toy_gob
        (λ s. refl)
        toy_crypto
        (run_all toy_crypto toy_bip words toy_store toy_gob commands no_contents).1
        (perform_all toy_crypto toy_bip words commands empty_vault).1
unfolding FactoidAddress.unmarshal_binary FactoidAddress.marshal_binary
run_all-Refines_example =
    run_all-Refines toy_store-IsReliable toy_gob (λ s. refl) toy_crypto toy_bip words
      toy_crypto-IsLawful commands no_contents empty_vault
      (tt, (tt, (tt, (refl, (tt, (tt, (tt, tt))))))) empty_vault-Refines

abbrev first_address : FactoidAddress
first_address = record { rcd = record { public_key = replicate 32 0 }; secret = replicate 64 0 }

abbrev after_first : Contents
after_first = (get_next_fct_address toy_store toy_gob toy_crypto toy_bip words no_contents).1

first_made :
    get_next_fct_address toy_store toy_gob toy_crypto toy_bip words no_contents
    ≡ (ok first_address, after_first)
unfolding get_next_fct_address factom.WalletDatabase.Next.get_next and_then
    factom.WalletDatabase.Seed.get_or_create_db_seed factom.WalletDatabase.Seed.get_db_seed
    factom.WalletDatabase.Seed.create_db_seed factom.WalletDatabase.Seed.new_random_seed
    factom.WalletDatabase.Seed.insert_db_seed factom.WalletDatabase.Seed.next_fct_address
    factom.Address.Mnemonic.make_bip44_factoid_address
    factom.Address.Mnemonic.parse_and_validate_mnemonic factom.Address.Mnemonic.fields_after
    factom.Address.Mnemonic.is_space FactoidAddress.make_factoid_address
    factom.WalletDatabase.Tables.insert_fct_address
first_made = refl

get_next_fct_address-found_example :
    get_fct_address toy_store toy_crypto
      (FactoidAddress.public_string toy_crypto first_address)
      after_first
    ≡ ok first_address
get_next_fct_address-found_example =
    get_next_fct_address-found toy_store-IsReliable toy_gob (λ s. refl) toy_crypto toy_bip words
      toy_crypto-IsLawful no_contents empty_vault empty_vault-Refines first_made

-- A store with one value in each bucket.
abbrev full_store : Overlay
full_store = record toy_store { fetch_all = λ db b. ok (seed ∷ []) }

all_read :
    get_all_addresses full_store toy_crypto no_contents ≡ ok (factoid_address ∷ [], ec_address ∷ [])
unfolding get_all_addresses factom.WalletDatabase.Tables.get_all_fct_addresses
    factom.WalletDatabase.Tables.read_all FactoidAddress.unmarshal_binary
    factom.WalletDatabase.Tables.get_all_ec_addresses factom.Address.EcAddress.unmarshal_binary
    factom.WalletDatabase.Tables.sort_by factom.WalletDatabase.Tables.insert_sorted
all_read = refl

handle_all_addresses-fetched_example :
    (responses : List AddressResponse) × (handle_all_addresses full_store toy_gob toy_crypto toy_bip
        words no_contents
      ≡ ok responses)
    × (sort_fetched toy_crypto responses ≡ ok (factoid_address ∷ [], ec_address ∷ []))
handle_all_addresses-fetched_example =
    handle_all_addresses-fetched toy_crypto-IsLawful full_store toy_gob toy_bip words no_contents
      (factoid_address ∷ []) (ec_address ∷ [])
      (((seed, factoid_address-made), tt), ((seed, ec_address-made), tt)) all_read
