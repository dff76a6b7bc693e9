-- ===== src/Tests/Answering.antt =====
-- The wallet's answer to add-fee, on its one transaction.
use factom.Base.{◌∙◌, ap, internally, and_then, ℕ, ◌≡◌, refl, false, [], ◌∷◌, ok}
use factom.Base.Int.{pos}
use factom.Base.Dict.{insert}
use factom.Base.Hex.{encode_to_string}
use factom.Tests.{toy_crypto}
use factom.Tests.Wallets.{
  toy_factoid, toy_factoid-IsFactoid, sources, name, payee, txs, transaction, raised, found, fits,
  fee-added,
}
use factom.Rpc.Transactions.{Transaction}
use factom.WalletApi.Addresses.{read_params, of_wallet}
use factom.WalletApi.Transactions.{handle, respond, View, print_addresses, handle_add_fee}
use factom.WalletApi.Fees.{handle_add_fee-fees_paid}

abbrev pub toy_view : View toy_factoid
toy_view = record {
  sig_hash = λ tx. 7 ∷ [];
  block_height = λ tx. 0;
  timestamp = λ tx. pos 0;
  signature_blocks = λ tx. 0;
  validate_signatures = λ tx. ok tt;
  ec_user_string = λ a. a;
}

abbrev answer : Transaction
answer = record {
  block_height = 0;
  fees_paid = 120;
  fees_required = 120;
  is_signed = false;
  name = name;
  timestamp = pos 0;
  total_ec_outputs = 200;
  total_inputs = 1120;
  total_outputs = 800;
  inputs = print_addresses (λ a. a) raised.inputs;
  outputs = print_addresses (λ a. a) raised.outputs;
  ec_outputs = print_addresses (λ a. a) raised.ec_outputs;
  txid = encode_to_string (7 ∷ []);
}

shown : respond toy_factoid toy_view toy_crypto sources name (insert name raised txs) ≡ ok answer
unfolding respond factom.Base.Dict.lookup insert factom.Base.bytes_eq internally
    factom.WalletApi.Transactions.factoid_tx_to_transaction
    factom.WalletApi.Transactions.fees_paid_of factom.WalletApi.Transactions.fees_required_of
    factom.WalletApi.Transactions.signed_by_all factom.Wallet.Factoid.sum_amounts print_addresses
    encode_to_string
shown = refl

answered :
    handle_add_fee toy_factoid toy_view toy_crypto sources (ok (name, payee)) txs
    ≡ (ok answer, insert name raised txs)
unfolding handle_add_fee read_params and_then internally handle of_wallet
answered =
    ap
      (λ x.
        and_then (of_wallet x) (λ _ t. (respond toy_factoid toy_view toy_crypto sources name t, t)))
      fee-added
    ∙ ap (λ r. (r, insert name raised txs)) shown

handle_add_fee-fees_paid_example :
    (rate fee : ℕ) × (sources.get_rate ≡ ok rate)
    × (toy_factoid.calculate_fee transaction rate ≡ ok fee)
    × (120 ≡ fee)
    × (name ≡ name)
handle_add_fee-fees_paid_example =
    handle_add_fee-fees_paid toy_factoid-IsFactoid toy_view toy_crypto sources name payee txs
      transaction found fits answered
