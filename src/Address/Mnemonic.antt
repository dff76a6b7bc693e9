-- ===== src/Address/Mnemonic.antt =====
-- The addresses and identity keys of a mnemonic (addresses.go, identityKeys.go). go-bip39, go-bip32
-- and go-bip44 are a parameter. Mnemonics are ASCII: the case and the spaces of other characters,
-- which no word of bip39's list has, are not modelled.
use factom.Base.{
  ℕ, ◌+◌, ◌%◌, ◌^◌, Bool, true, false, not, ◌&&◌, ◌||◌, List, [], ◌∷◌, ◌++◌, map, Bytes, length,
  leb, ◌==◌, if◌then◌else◌, Result, ok, Error, ◌>>=◌, ◌>>◌, fail_if,
}
use factom.Crypto.{Crypto}
use factom.Address.FactoidAddress.{FactoidAddress, make_factoid_address}
use factom.Address.EcAddress.{EcAddress, make_ec_address}
use factom.IdentityKey.{IdentityKey, make_identity_key}

pub data CoinType : Type 0 where
  factom_factoids factom_entry_credits factom_identity : CoinType

pub record Bip : Type 1 where
  -- `bip39.MnemonicToByteArray`, of which the callers read the error only, and
  -- `bip39.NewSeedWithErrorChecking`
  pub mnemonic_to_byte_array : Bytes → Result Bytes
  pub new_seed : Bytes → Bytes → Result Bytes
  -- `bip32.Key` and its field `Key`, `NewMasterKey`, `NewChildKey` and `FirstHardenedChild`
  pub Key : Type 0
  pub key_bytes : Key → Bytes
  pub new_master_key : Bytes → Result Key
  pub new_child_key : Key → ℕ → Result Key
  pub first_hardened_child : ℕ
  -- `bip44.NewKeyFromMnemonic`, by the coin, the account, the chain and the address
  pub new_key_from_mnemonic : Bytes → CoinType → ℕ → ℕ → ℕ → Result Key

-- `strings.Fields`, after a word that has begun
unfoldable pub is_space : ℕ → Bool
is_space b = b == 32 || leb 9 b && leb b 13

unfoldable pub fields_after : Bytes → Bytes → List Bytes
fields_after [] [] = []
fields_after (c ∷ word) [] = (c ∷ word) ∷ []
fields_after [] (b ∷ s) = elim (is_space b) [
  | true ↦ fields_after [] s
  | false ↦ fields_after (b ∷ []) s
]
fields_after (c ∷ word) (b ∷ s) = elim (is_space b) [
  | true ↦ (c ∷ word) ∷ fields_after [] s
  | false ↦ fields_after (c ∷ word ++ b ∷ []) s
]

-- `strings.TrimSpace`
unfoldable pub trim_left : Bytes → Bytes
trim_left [] = []
trim_left (b ∷ s) = let rest = trim_left s in if is_space b then rest else b ∷ s

unfoldable pub add_unless_space : ℕ → Bytes → Bytes
add_unless_space b [] = if is_space b then [] else b ∷ []
add_unless_space b (c ∷ s) = b ∷ c ∷ s

unfoldable pub trim_right : Bytes → Bytes
trim_right [] = []
trim_right (b ∷ s) = add_unless_space b (trim_right s)

-- `strings.ToLower`
unfoldable pub to_lower : Bytes → Bytes
to_lower s = map (λ b. if leb b'A' b && leb b b'Z' then b + 32 else b) s

-- `strings.Split` by a space, after a word that has begun
unfoldable pub split_after : Bytes → Bytes → List Bytes
split_after word [] = word ∷ []
split_after word (b ∷ s) = elim (b == 32) [
  | true ↦ word ∷ split_after [] s
  | false ↦ split_after (word ++ b ∷ []) s
]

-- The loop that removes the empty strings.
unfoldable pub remove_empty : List Bytes → List Bytes
remove_empty [] = []
remove_empty ([] ∷ words) = remove_empty words
remove_empty ((b ∷ word) ∷ words) = (b ∷ word) ∷ remove_empty words

-- `strings.Join` with a space
unfoldable pub join : List Bytes → Bytes
join [] = []
join (word ∷ []) = word
join (word ∷ next ∷ words) = word ++ 32 ∷ join (next ∷ words)

module _ (c : Crypto) (bip : Bip) where
  -- `ParseAndValidateMnemonic`
  unfoldable pub parse_and_validate_mnemonic : Bytes → Result Bytes
  parse_and_validate_mnemonic mnemonic = do
    let l = length (fields_after [] mnemonic)
    fail_if (not (l == 12)) (Error.mnemonic_length l)
    let trimmed = to_lower (trim_right (trim_left mnemonic))
    let joined = join (remove_empty (split_after [] trimmed))
    r ← bip.mnemonic_to_byte_array joined
    ok joined

  -- `MakeFactoidAddressFromKoinify`
  unfoldable pub make_factoid_address_from_koinify : Bytes → Result FactoidAddress
  make_factoid_address_from_koinify mnemonic = do
    checked ← parse_and_validate_mnemonic mnemonic
    seed ← bip.new_seed checked []
    master ← bip.new_master_key seed
    child ← bip.new_child_key master ((bip.first_hardened_child + 7) % 2 ^ 32)
    make_factoid_address c (bip.key_bytes child)

  -- `MakeBIP44FactoidAddress`, `MakeBIP44ECAddress` and `MakeBIP44IdentityKey`
  unfoldable pub make_bip44_factoid_address : Bytes → ℕ → ℕ → ℕ → Result FactoidAddress
  make_bip44_factoid_address mnemonic account chain address = do
    checked ← parse_and_validate_mnemonic mnemonic
    child ← bip.new_key_from_mnemonic checked factom_factoids account chain address
    make_factoid_address c (bip.key_bytes child)

  unfoldable pub make_bip44_ec_address : Bytes → ℕ → ℕ → ℕ → Result EcAddress
  make_bip44_ec_address mnemonic account chain address = do
    checked ← parse_and_validate_mnemonic mnemonic
    child ← bip.new_key_from_mnemonic checked factom_entry_credits account chain address
    make_ec_address c (bip.key_bytes child)

  unfoldable pub make_bip44_identity_key : Bytes → ℕ → ℕ → ℕ → Result IdentityKey
  make_bip44_identity_key mnemonic account chain address = do
    checked ← parse_and_validate_mnemonic mnemonic
    child ← bip.new_key_from_mnemonic checked factom_identity account chain address
    make_identity_key c (bip.key_bytes child)
