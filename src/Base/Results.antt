-- ===== src/Base/Results.antt =====
-- Go's `(value, error)` results. A call that returns a non-nil error is `err`, and what it returns
-- beside the error is dropped, as every caller in the package drops it.
use mathlib.Core.Logic.{◌⊎◌, inl, inr}
use Prim.Native.Nat.{ℕ}
use mathlib.Core.Path.{◌≡◌, refl, ap}
use mathlib.Core.Bool.{Bool, true, false}
use mathlib.Core.List.{List}

pub data Error : Type 0 where
  -- an error value of a library, by its text
  external : List ℕ → Error
  -- addresses.go, identityKeys.go
  invalid_address invalid_ec_private invalid_factoid_private invalid_identity_private : Error
  secret_length : Error
  mnemonic_length : ℕ → Error
  -- encoding/hex
  hex_length hex_byte : Error
  -- util.go
  entry_too_large : Error
  -- identity.go
  not_identity_public : List ℕ → Error
  no_chain no_entry_at_height no_identity : Error
  invalid_first_entry : List ℕ → Error
  -- get.go
  not_yet_included index_out_of_range : Error
  -- wallet/transaction.go
  fee_too_low no_such_address no_such_identity_key tx_exists tx_not_exists tx_no_inputs : Error
  tx_invalid_name invalid_factoid_address invalid_ec_address not_adding_up : Error
  not_an_input not_an_output balance_too_low no_fee overpaying : Error
  -- wallet/walletDBO.go
  unknown_address_type leveldb_not_found : Error
  -- wallet/txdatabase.go
  fblock_not_synced transaction_not_found not_an_address invalid_range no_genesis : Error
  missing_fblock : List ℕ → Error
  nil_dereference : Error
  -- transaction.go, wallet.go
  not_a_factoid_address not_an_ec_address unsigned_transaction unrecognized_address : Error
  not_a_public_identity_key : Error
  -- wallet/wsapi: `newInvalidParamsError`, and `newCustomInternalError` of an error's text
  invalid_params : Error
  internal : Error → Error
  invalid_address_type not_imported : Error
  -- `newCustomInvalidParamsError` of a text about a chain, and the handlers that compose requests
  chain_already_exists chain_was_not_found : List ℕ → Error
  not_enough_entry_credits no_signer_key attribute_key_nil attribute_value_nil : Error
  -- `newWalletIsLockedError`, `newMethodNotFoundError`, `newIncorrectPassphraseError`
  wallet_is_locked method_not_found incorrect_passphrase always_unlocked : Error
  -- opening a wallet (wallet/walletDBO.go)
  path_is_directory : Error
  -- `newInvalidRequestError`, and the status 401
  invalid_request unauthorized no_auth bad_auth : Error
  -- a panic
  panic : Error
  no_transaction_database : Error
  bad_chain_name bad_ext_id bad_content : Error
  invalid_version : List ℕ → Error

pub data Result {ℓ} (A : Type ℓ) : Type ℓ where
  ok : A → Result A
  err : Error → Result A

-- `if test { return e }`
abbrev pub fail_if : Bool → Error → Result (Unit {0})
fail_if true e = err e
fail_if false e = ok tt

module _ {ℓ κ} {A : Type ℓ} {B : Type κ} where
  infixl 5 ◌>>=◌
  -- `if err != nil { return err }`, and what follows.
  abbrev pub ◌>>=◌ : Result A → (A → Result B) → Result B
  err e >>= next = err e
  ok a >>= next = next a

  -- What a sequence did that has succeeded.
  pub >>=-eq-ok :
      (first : Result A) (next : A → Result B) {b : B}
      → (first >>= next) ≡ ok b
      → (a : A) × (first ≡ ok a) × (next a ≡ ok b)
  >>=-eq-ok (err e) next h = cc
  >>=-eq-ok (ok a) next h = (a, refl, h)

infixl 5 ◌>>◌
abbrev pub ◌>>◌ {κ} : {B : Type κ} → Result (Unit {0}) → Result B → Result B
checked >> next = checked >>= λ _. next

pub Result-cases {ℓ} :
    {A : Type ℓ} (r : Result A) → ((a : A) × (r ≡ ok a)) ⊎ ((e : Error) × (r ≡ err e))
Result-cases (ok a) = inl (a, refl)
Result-cases (err e) = inr (e, refl)

pub ok-injective {ℓ} : {A : Type ℓ} {a b : A} → ok a ≡ ok b → a ≡ b
ok-injective h = cc

-- A call that may change the state `S`, and what follows if it returns no error.
unfoldable pub and_then {ℓ} :
    {A B : Type ℓ} {S : Type 0} → Result A × S → (A → S → Result B × S) → Result B × S
and_then (err e, s) next = (err e, s)
and_then (ok a, s) next = next a s

-- What has succeeded, in the order of its steps.
pub and_then-ok :
    {A B S : Type 0} (x : Result A × S) (next : A → S → Result B × S) {b : B}
    → (and_then x next).0 ≡ ok b
    → (a : A) × (x.0 ≡ ok a) × (and_then x next ≡ next a x.1)
unfolding and_then
and_then-ok (err e, s) next h = cc
and_then-ok (ok a, s) next h = (a, refl, refl)

pub and_then-eq-ok :
    {A B S : Type 0} (x : Result A × S) (next : A → S → Result B × S) {b : B} {s' : S}
    → and_then x next ≡ (ok b, s')
    → (a : A) × (x.0 ≡ ok a) × (next a x.1 ≡ (ok b, s'))
unfolding and_then
and_then-eq-ok (err e, s) next h = let failed : err e ≡ ok _ = ap (λ r. r.0) h in cc
and_then-eq-ok (ok a, s) next h = (a, refl, h)

-- `newCustomInternalError(err.Error())`
unfoldable pub internally {ℓ} : {A : Type ℓ} → Result A → Result A
internally (ok a) = ok a
internally (err e) = err (internal e)

pub fail_if-eq-ok : (test : Bool) (e : Error) → fail_if test e ≡ ok tt → test ≡ false
fail_if-eq-ok true e h = cc
fail_if-eq-ok false e h = refl
