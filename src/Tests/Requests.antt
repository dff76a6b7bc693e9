-- ===== src/Tests/Requests.antt =====
-- Requests to the wallet of Tests/Wallets.
use factom.Wallet.Fees.{AreCovered, sub_fee-balances, sign_transaction-checks, sub_fee-wraps}
use factom.Wallet.Factoid.{sum_amounts, set_amount}
use factom.Wallet.Totals.{check_paid_iff}
use factom.Wallet.Building.{add_fee, sub_fee}
use factom.Base.Dict.{insert, lookup}
use factom.Wallet.Frames.{new_transaction_iff, IsNameByte}
use factom.Wallet.Signing.{check_fee, check_covered, sign_transaction, check_paid}
use factom.Wallet.Transactions.{all_name_bytes, decoded_key, find_address, Txs, new_transaction}
use factom.Base.{
  ℕ, ◌+◌, ◌-◌, ◌*◌, ◌^◌, ◌≤◌, ◌<◌, ◌≡◌, ◌≢◌, ◌↔◌, refl, true, false, none, some, [], ◌∷◌, arith,
  codes, length, bytes_eq, ok, err, Error, All,
}
use factom.Tests.{toy_crypto}
use factom.Tests.Wallets.{
  Transaction, toy_factoid, toy_factoid-IsFactoid, sources, payee, payee_key, transaction, raised,
  name, txs, found, fits,
}

abbrev lowered : ℕ → Transaction
lowered n = record transaction { outputs = record { address = payee_key; amount = n } ∷ [] }

at_payee : find_address (decoded_key toy_crypto payee) transaction.outputs ≡ some (0, 800)
unfolding find_address bytes_eq factom.Address.FactoidAddress.public_string
    factom.Address.Checksum.checksummed factom.Address.FactoidAddress.rcd_hash
    factom.Address.Rcd.hash factom.Crypto.shad
at_payee = refl

fee-subtracted :
    sub_fee toy_factoid toy_crypto sources name payee 10 txs
    ≡ (ok tt, insert name (lowered 680) txs)
unfolding sub_fee factom.Wallet.Transactions.get_transaction lookup bytes_eq
    factom.Address.Strings.is_valid_address factom.Address.FactoidAddress.public_string
    factom.Address.Checksum.checksummed factom.Address.FactoidAddress.rcd_hash
    factom.Address.Rcd.hash factom.Crypto.shad factom.Wallet.Building.check_adds_up sum_amounts
    factom.Wallet.Building.lower_output find_address set_amount
fee-subtracted = refl

sub_fee-balances_example :
    (tx' : Transaction) × (lookup name (insert name (lowered 680) txs) ≡ some tx')
    × (tx'.inputs ≡ transaction.inputs)
    × (tx'.ec_outputs ≡ transaction.ec_outputs)
    × (tx'.outputs ≡ set_amount transaction.outputs 0 (800 - 120))
    × (sum_amounts tx'.inputs ≡ sum_amounts tx'.outputs + sum_amounts tx'.ec_outputs + 120)
sub_fee-balances_example =
    sub_fee-balances toy_factoid-IsFactoid toy_crypto sources name payee 10 txs transaction found
      fits at_payee refl (omega arith) fee-subtracted

fee-wrapped :
    sub_fee toy_factoid toy_crypto sources name payee 100 txs
    ≡ (ok tt, insert name (lowered 18446744073709551216) txs)
unfolding sub_fee factom.Wallet.Transactions.get_transaction lookup bytes_eq
    factom.Address.Strings.is_valid_address factom.Address.FactoidAddress.public_string
    factom.Address.Checksum.checksummed factom.Address.FactoidAddress.rcd_hash
    factom.Address.Rcd.hash factom.Crypto.shad factom.Wallet.Building.check_adds_up sum_amounts
    factom.Wallet.Building.lower_output find_address set_amount
fee-wrapped = refl

sub_fee-wraps_example :
    (tx' : Transaction) × (lookup name (insert name (lowered 18446744073709551216) txs) ≡ some tx')
    × (tx'.outputs ≡ set_amount transaction.outputs 0 (2 ^ 64 + 800 - 1200))
sub_fee-wraps_example =
    sub_fee-wraps toy_factoid-IsFactoid toy_crypto sources name payee 100 txs transaction found
      at_payee refl (omega arith) (omega arith) fee-wrapped

abbrev ready : Txs toy_factoid
ready = (name, raised) ∷ []

signed : sign_transaction toy_factoid sources name false ready ≡ (ok tt, ready)
unfolding sign_transaction factom.Wallet.Transactions.get_transaction lookup bytes_eq
    factom.Wallet.Signing.check_transaction check_covered factom.Wallet.Signing.check_inputs
    check_fee check_paid factom.Wallet.Signing.fee_paid factom.Base.Int.◌-ℤ◌ sum_amounts
    factom.Wallet.Signing.ten_times factom.Base.Int.◌*ℤ◌ factom.Wallet.Signing.sign_checked insert
    factom.Wallet.Signing.sign_rcds
signed = refl

sign_transaction-checks_example :
    AreCovered toy_factoid sources raised.inputs
    × (0 < 120)
    × (sum_amounts raised.outputs + sum_amounts raised.ec_outputs + 120 ≤ sum_amounts raised.inputs)
    × (sum_amounts raised.inputs
        < sum_amounts raised.outputs + sum_amounts raised.ec_outputs + 10 * 120)
    × (toy_factoid.rcd_addresses raised ≢ [])
unfolding lookup bytes_eq sum_amounts
sign_transaction-checks_example =
    sign_transaction-checks toy_factoid sources toy_factoid-IsFactoid name ready raised refl refl
      refl (omega arith) (omega arith) (omega arith) (omega arith) signed

check_paid_iff_example :
    (check_paid 1120 800 200 (ok 10) (λ rate. ok (12 * rate)) ≡ ok tt)
    ↔ ((0 < 120) × (800 + 200 + 120 ≤ 1120) × (1120 < 800 + 200 + 10 * 120))
check_paid_iff_example =
    check_paid_iff 1120 800 200 10 120 (λ rate. ok (12 * rate)) (omega arith) (omega arith)
      (omega arith) (omega arith) refl

new_transaction_iff_example :
    (new_transaction toy_factoid 0 (codes "new-1") txs
      ≡ (ok tt, insert (codes "new-1") (toy_factoid.new_tx 0) txs))
    ↔ ((lookup (codes "new-1") txs ≡ none)
        × (1 ≤ length (codes "new-1"))
        × (length (codes "new-1") ≤ 32)
        × All IsNameByte (codes "new-1"))
new_transaction_iff_example = new_transaction_iff toy_factoid 0 (codes "new-1") txs
