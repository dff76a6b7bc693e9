-- ===== src/Tests/Opening.antt =====
-- A wallet file whose database opens with one password.
use factom.Base.{
  ◌≡◌, inl, refl, true, false, some, List, [], ◌∷◌, Bytes, codes, bytes_eq, if◌then◌else◌, ok, err,
  Error,
}
use factom.Tests.{toy_crypto, toy_crypto-IsLawful}
use factom.Tests.Wallets.{toy_factoid}
use factom.Tests.Storing.{
  Contents, toy_store, toy_store-IsReliable, toy_gob, toy_bip, no_contents, empty_vault,
  empty_vault-Refines,
}
use factom.WalletDatabase.Vault.{Command, next_factoid, next_identity, seed_of}
use factom.WalletDatabase.Refinement.{Refines}
use factom.WalletDatabase.Sequences.{run_all, perform_all}
use factom.WalletDatabase.Opening.{Drivers, found, new_encrypted_bolt_db_wallet}
use factom.WalletDatabase.Opened.{new_encrypted_bolt_db_wallet-Refines}

abbrev one_password : Drivers Contents
one_password = record {
  stat = λ path. found false;
  map_db = no_contents;
  level_map_hybrid_db = λ path create. ok no_contents;
  bolt_map_hybrid_db = λ path. some no_contents;
  encrypted_db = λ path password.
      some (if bytes_eq password (codes "pass") then ok no_contents else err Error.hex_length);
}

abbrev path : Bytes
path = codes "wallet.db"

abbrev mnemonic : Bytes
mnemonic = codes "a b c d e f g h i j k l"

abbrev two_new : List Command
two_new = next_factoid ∷ next_identity ∷ []

new_encrypted_bolt_db_wallet-Refines_example :
    (db1 : Contents) × (new_encrypted_bolt_db_wallet toy_store toy_gob
        (ok mnemonic)
        toy_factoid
        one_password
        path
        (codes "pass")
      ≡ some
          (ok (record { overlay = some db1; encrypted = true; db_path = path; transactions = [] })))
    × ((run_all toy_crypto toy_bip (ok mnemonic) toy_store toy_gob two_new db1).0
        ≡ (perform_all toy_crypto toy_bip
            (ok mnemonic)
            two_new
            (seed_of (ok mnemonic) empty_vault).1).0)
    × Refines toy_store-IsReliable toy_gob
        (λ s. refl)
        toy_crypto
        (run_all toy_crypto toy_bip (ok mnemonic) toy_store toy_gob two_new db1).1
        (perform_all toy_crypto toy_bip
          (ok mnemonic)
          two_new
          (seed_of (ok mnemonic) empty_vault).1).1
unfolding bytes_eq
new_encrypted_bolt_db_wallet-Refines_example =
    new_encrypted_bolt_db_wallet-Refines toy_store-IsReliable toy_gob (λ s. refl) toy_crypto
      mnemonic toy_factoid toy_bip one_password toy_crypto-IsLawful path (codes "pass") no_contents
      empty_vault two_new (inl refl) refl empty_vault-Refines (tt, (tt, tt))
