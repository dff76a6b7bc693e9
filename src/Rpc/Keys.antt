-- ===== src/Rpc/Keys.antt =====
-- The calls of wallet.go: the addresses and identity keys of a wallet over the API.
use factom.Base.{
  ℕ, ◌%◌, ◌^◌, Bool, List, [], ◌∷◌, ◌++◌, Bytes, codes, if◌then◌else◌, Result, ok, err, Error,
  ◌>>=◌,
}
use factom.Base.Int.{ℤ, word64}
use factom.Crypto.{Crypto}
use factom.Entry.{Entry}
use factom.Chain.{Chain}
use factom.Address.FactoidAddress.{FactoidAddress, get_factoid_address}
use factom.Address.EcAddress.{EcAddress, get_ec_address}
use factom.IdentityKey.{IdentityKey, get_identity_key}
use factom.Address.Strings.{address_string_type, factoid_pub, factoid_sec, ec_pub, ec_sec}
use factom.IdentityKey.Strings.{identity_key_string_type, id_pub}
use factom.Wallet.Transactions.{is_factoid_pub, is_ec_pub}
use factom.Rpc.Request.{
  Json2Request, no_params, import_request, import_koinify_request, import_keys_request,
  address_request, public_request, passphrase_request, compose_entry_request, compose_chain_request,
}
use factom.Rpc.Server.{Servers, World, ask}

pub record AddressResponse : Type 0 where
  pub public : Bytes
  pub secret : Bytes

-- `walletBackupResponse`
pub record WalletBackup : Type 0 where
  pub seed : Bytes
  pub addresses : List AddressResponse
  pub identity_keys : List AddressResponse

-- What encoding/json makes of the results.
pub record KeysJson : Type 0 where
  pub backup : Bytes → Result WalletBackup
  pub address : Bytes → Result AddressResponse
  -- the fields `Addresses` and `IdentityKeys`
  pub addresses : Bytes → Result (List AddressResponse)
  pub identity_keys : Bytes → Result (List AddressResponse)
  -- the fields `Height` and `UnlockedUntil`
  pub height : Bytes → Result ℤ
  pub unlocked_until : Bytes → Result ℤ
  -- the fields `Commit` and `Reveal`
  pub commit_reveal : Bytes → Result (Json2Request × Json2Request)

-- `fmt.Sprintln` of a string.
abbrev line : Bytes → Bytes
line s = s ++ 10 ∷ []

-- The loops of `BackupWallet`.
unfoldable print_keys : List AddressResponse → Bytes
print_keys [] = []
print_keys (k ∷ keys) = line k.public ++ line k.secret ++ line [] ++ print_keys keys

unfoldable print_backup : WalletBackup → Bytes
print_backup w = line w.seed ++ line [] ++ print_keys w.addresses ++ print_keys w.identity_keys

module _ (c : Crypto) where
  -- An address of either kind, put before the others.
  unfoldable pub with_factoid :
      Bytes
      → Result (List FactoidAddress × List EcAddress)
      → Result (List FactoidAddress × List EcAddress)
  with_factoid secret rest = do f ← get_factoid_address c secret; r ← rest; ok (f ∷ r.0, r.1)

  unfoldable pub with_ec :
      Bytes
      → Result (List FactoidAddress × List EcAddress)
      → Result (List FactoidAddress × List EcAddress)
  with_ec secret rest = do e ← get_ec_address c secret; r ← rest; ok (r.0, e ∷ r.1)

  -- The loop of `ImportAddresses`, by the types of the private strings.
  unfoldable sort_imported : List AddressResponse → Result (List FactoidAddress × List EcAddress)
  sort_imported [] = ok ([], [])
  sort_imported (a ∷ addresses) =
      let rest = sort_imported addresses in
      elim (address_string_type c a.secret) [
        | factoid_sec ↦ with_factoid a.secret rest
        | ec_sec ↦ with_ec a.secret rest
        | _ ↦ err Error.unrecognized_address
      ]

  -- The loop of `FetchAddresses`, by the types of the public strings.
  unfoldable pub sort_fetched : List AddressResponse → Result (List FactoidAddress × List EcAddress)
  sort_fetched [] = ok ([], [])
  sort_fetched (a ∷ addresses) =
      let rest = sort_fetched addresses in
      elim (address_string_type c a.public) [
        | factoid_pub ↦ with_factoid a.secret rest
        | ec_pub ↦ with_ec a.secret rest
        | _ ↦ err Error.invalid_address
      ]

  -- The loops of `ImportIdentityKeys` and `FetchIdentityKeys`.
  unfoldable read_keys : List AddressResponse → Result (List IdentityKey)
  read_keys [] = ok []
  read_keys (k ∷ keys) = do
    key ← get_identity_key c k.secret
    rest ← read_keys keys
    ok (key ∷ rest)

  unfoldable read_public_keys : List AddressResponse → Result (List IdentityKey)
  read_public_keys [] = ok []
  read_public_keys (k ∷ keys) =
      let rest = read_public_keys keys in
      elim (identity_key_string_type c k.public) [
        | id_pub ↦ get_identity_key c k.secret >>= λ key. rest >>= λ more. ok (key ∷ more)
        | _ ↦ err Error.not_a_public_identity_key
      ]

module _ (servers : Servers) (json : KeysJson) (c : Crypto) where
  -- `BackupWallet`
  unfoldable backup_wallet : World → Result Bytes × World
  backup_wallet =
      ask servers (codes "wallet-backup") no_params
        (λ result. json.backup result >>= λ w. ok (print_backup w))

  -- The private string of an `addressResponse`, as one of the getters reads it.
  unfoldable read_secret : {A : Type 0} → (Bytes → Result A) → Bytes → Result A
  read_secret get result = do a ← json.address result; get a.secret

  -- `GenerateFactoidAddress`, `GenerateECAddress` and `GenerateIdentityKey`
  unfoldable generate_factoid_address : World → Result FactoidAddress × World
  generate_factoid_address =
      ask servers (codes "generate-factoid-address") no_params (read_secret (get_factoid_address c))

  unfoldable generate_ec_address : World → Result EcAddress × World
  generate_ec_address =
      ask servers (codes "generate-ec-address") no_params (read_secret (get_ec_address c))

  unfoldable generate_identity_key : World → Result IdentityKey × World
  generate_identity_key =
      ask servers (codes "generate-identity-key") no_params (read_secret (get_identity_key c))

  -- `ImportAddresses`
  unfoldable import_addresses :
      List Bytes → World → Result (List FactoidAddress × List EcAddress) × World
  import_addresses addrs =
      ask servers (codes "import-addresses") (import_request addrs)
        (λ result. json.addresses result >>= sort_imported c)

  -- `ImportKoinify`
  unfoldable import_koinify : Bytes → World → Result FactoidAddress × World
  import_koinify mnemonic =
      ask servers (codes "import-koinify") (import_koinify_request mnemonic)
        (read_secret (get_factoid_address c))

  -- `RemoveAddress`
  unfoldable remove_address : Bytes → World → Result (Unit {0}) × World
  remove_address address =
      ask servers (codes "remove-address") (address_request address) (λ _. ok tt)

  -- `FetchAddresses`
  unfoldable fetch_addresses : World → Result (List FactoidAddress × List EcAddress) × World
  fetch_addresses =
      ask servers (codes "all-addresses") no_params
        (λ result. json.addresses result >>= sort_fetched c)

  -- `FetchECAddress` and `FetchFactoidAddress`
  unfoldable fetch_ec_address : Bytes → World → Result EcAddress × World
  fetch_ec_address ecpub w =
      if is_ec_pub (address_string_type c ecpub)
      then ask servers (codes "address") (address_request ecpub) (read_secret (get_ec_address c)) w
      else (err Error.not_an_ec_address, w)

  unfoldable fetch_factoid_address : Bytes → World → Result FactoidAddress × World
  fetch_factoid_address fctpub w =
      if is_factoid_pub (address_string_type c fctpub)
      then ask servers (codes "address") (address_request fctpub)
          (read_secret (get_factoid_address c)) w
      else (err Error.not_a_factoid_address, w)

  -- `ImportIdentityKeys`, `FetchIdentityKey`, `FetchIdentityKeys` and `RemoveIdentityKey`
  unfoldable import_identity_keys : List Bytes → World → Result (List IdentityKey) × World
  import_identity_keys keys =
      ask servers (codes "import-identity-keys") (import_keys_request keys)
        (λ result. json.identity_keys result >>= read_keys c)

  unfoldable fetch_identity_key : Bytes → World → Result IdentityKey × World
  fetch_identity_key public =
      ask servers (codes "identity-key") (public_request public) (read_secret (get_identity_key c))

  unfoldable fetch_identity_keys : World → Result (List IdentityKey) × World
  fetch_identity_keys =
      ask servers (codes "all-identity-keys") no_params
        (λ result. json.identity_keys result >>= read_public_keys c)

  unfoldable remove_identity_key : Bytes → World → Result (Unit {0}) × World
  remove_identity_key public =
      ask servers (codes "remove-identity-key") (public_request public) (λ _. ok tt)

  -- `GetWalletHeight`, converted to a uint32
  unfoldable get_wallet_height : World → Result ℕ × World
  get_wallet_height =
      ask servers (codes "get-height") no_params
        (λ result. json.height result >>= λ h. ok (word64 h % 2 ^ 32))

  -- `UnlockWallet`
  unfoldable unlock_wallet : Bytes → ℤ → World → Result ℤ × World
  unlock_wallet passphrase seconds =
      ask servers (codes "unlock-wallet") (passphrase_request passphrase seconds)
        json.unlocked_until

  -- `WalletComposeChainCommitReveal` and `WalletComposeEntryCommitReveal`
  unfoldable wallet_compose_chain_commit_reveal :
      Chain → Bytes → Bool → World → Result (Json2Request × Json2Request) × World
  wallet_compose_chain_commit_reveal chain payer force =
      ask servers (codes "compose-chain")
        (compose_chain_request chain.chain_id chain.first_entry payer force) json.commit_reveal

  unfoldable wallet_compose_entry_commit_reveal :
      Entry → Bytes → Bool → World → Result (Json2Request × Json2Request) × World
  wallet_compose_entry_commit_reveal entry payer force =
      ask servers (codes "compose-entry") (compose_entry_request entry payer force)
        json.commit_reveal
