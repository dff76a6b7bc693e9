-- ===== src/WalletApi/Transactions.antt =====
-- The handlers of temporary transactions, and the transaction that they answer with
-- (wallet/wsapi/wsapi.go).
use factom.Base.{
  Error, internal, internally, nil_dereference, and_then, ℕ, ◌+◌, ◌-◌, ◌%◌, ◌^◌, Bool, true, false,
  ◌&&◌, none, some, List, [], ◌∷◌, Bytes, ltb, leb, if◌then◌else◌, Result, ok, err, ◌>>=◌,
}
use factom.Base.Int.{ℤ}
use factom.Base.Dict.{lookup}
use factom.Base.Hex.{encode_to_string}
use factom.Crypto.{Crypto}
use factom.Wallet.Factoid.{Factoid}
use factom.Wallet.Factoid
use factom.Wallet.Transactions.{Sources, Txs, new_transaction, delete_transaction}
use factom.Wallet.Building.{add_input, add_output, add_ec_output, add_fee, sub_fee}
use factom.Wallet.Signing.{sign_transaction, compose_transaction}
use factom.Rpc.Request.{Json2Request}
use factom.Rpc.Transactions.{Transaction, TransAddress}
use factom.WalletApi.Addresses.{read_params, of_wallet}

-- What the API reads of factomd's transaction beside the wallet: `GetSigHash().Bytes()`,
-- `GetBlockHeight`, `GetTimestamp().GetTime()` in seconds, the length of `GetSignatureBlocks`,
-- `ValidateSignatures`, and `ConvertECAddressToUserStr`.
pub record View (f : Factoid) : Type 0 where
  pub sig_hash : f.Tx → Bytes
  pub block_height : f.Tx → ℕ
  pub timestamp : f.Tx → ℤ
  pub signature_blocks : f.Tx → ℕ
  pub validate_signatures : f.Tx → Result (Unit {0})
  pub ec_user_string : Bytes → Bytes

-- The loops over inputs, outputs and EC outputs.
unfoldable pub print_addresses : (Bytes → Bytes) → List Factoid.TransAddress → List TransAddress
print_addresses print [] = []
print_addresses print (a ∷ addresses) =
    record { address = print a.address; amount = a.amount } ∷ print_addresses print addresses

-- The fees paid; the sum is a uint64.
unfoldable pub fees_paid_of : ℕ → ℕ → ℕ → ℕ
fees_paid_of ins outs ecs =
    if leb ins ((outs + ecs) % 2 ^ 64) then 0 else ins - (outs + ecs) % 2 ^ 64

module _ (f : Factoid) (view : View f) where
  unfoldable pub signed_by_all : f.Tx → Bool
  signed_by_all t =
      ltb 0 (view.signature_blocks t)
      && elim (view.validate_signatures t) as (λ _. Bool) [ ok _ ↦ true | err _ ↦ false ]

  -- `factoidTxToTransaction`
  unfoldable pub factoid_tx_to_transaction : f.Tx → Result Transaction
  factoid_tx_to_transaction t = do
    ins ← f.total_inputs t
    outs ← f.total_outputs t
    ecs ← f.total_ecs t
    ok (record {
      block_height = view.block_height t;
      fees_paid = fees_paid_of ins outs ecs;
      fees_required = 0;
      is_signed = signed_by_all t;
      name = [];
      timestamp = view.timestamp t;
      total_ec_outputs = ecs;
      total_inputs = ins;
      total_outputs = outs;
      inputs = print_addresses f.user_string (f.inputs t);
      outputs = print_addresses f.user_string (f.outputs t);
      ec_outputs = print_addresses view.ec_user_string (f.ec_outputs t);
      txid = encode_to_string (view.sig_hash t);
    })

module _ (f : Factoid) (view : View f) (c : Crypto) (src : Sources) where
  -- `feesRequired`: 0 when there is no rate or no fee. It asks for the rate once more; `Sources`
  -- has one rate for all calls.
  unfoldable pub fees_required_of : f.Tx → ℕ
  fees_required_of t =
      let rate = elim src.get_rate as (λ _. ℕ) [ ok r ↦ r | err _ ↦ 0 ] in
      elim (f.calculate_fee t rate) as (λ _. ℕ) [ ok fee ↦ fee | err _ ↦ 0 ]

  -- How the handlers end: the transaction of the name, which is there.
  unfoldable pub respond : Bytes → Txs f → Result Transaction
  respond name txs = elim (lookup name txs) [
    | none ↦ err nil_dereference
    | some t ↦ internally (factoid_tx_to_transaction f view t) >>= λ r.
        ok (record r { name = name; fees_required = fees_required_of t })
  ]

  -- A call of the wallet on a transaction, and the answer.
  unfoldable pub handle :
      Bytes → (Txs f → Result (Unit {0}) × Txs f) → Txs f → Result Transaction × Txs f
  handle name call txs = and_then (of_wallet (call txs)) (λ _ txs'. (respond name txs', txs'))

  -- `handleNewTransaction`, at a time
  unfoldable pub handle_new_transaction : ℕ → Result Bytes → Txs f → Result Transaction × Txs f
  handle_new_transaction now req txs =
      and_then (read_params req, txs) (λ name. handle name (new_transaction f now name))

  -- `handleAddInput`, `handleAddOutput` and `handleAddECOutput`, on a name, an address and an
  -- amount
  unfoldable pub handle_add_input : Result (Bytes × Bytes × ℕ) → Txs f → Result Transaction × Txs f
  handle_add_input req txs =
      and_then (read_params req, txs) (λ p. handle p.0 (add_input f c src p.0 p.1 p.2))

  unfoldable pub handle_add_output : Result (Bytes × Bytes × ℕ) → Txs f → Result Transaction × Txs f
  handle_add_output req txs =
      and_then (read_params req, txs) (λ p. handle p.0 (add_output f c src p.0 p.1 p.2))

  unfoldable pub handle_add_ec_output :
      Result (Bytes × Bytes × ℕ) → Txs f → Result Transaction × Txs f
  handle_add_ec_output req txs =
      and_then (read_params req, txs) (λ p. handle p.0 (add_ec_output f c src p.0 p.1 p.2))

  -- `handleAddFee` and `handleSubFee`, on a name and an address
  unfoldable pub handle_add_fee : Result (Bytes × Bytes) → Txs f → Result Transaction × Txs f
  handle_add_fee req txs =
      and_then (read_params req, txs)
        (λ p txs1.
          and_then (internally src.get_rate, txs1)
            (λ rate. handle p.0 (add_fee f c src p.0 p.1 rate)))

  unfoldable pub handle_sub_fee : Result (Bytes × Bytes) → Txs f → Result Transaction × Txs f
  handle_sub_fee req txs =
      and_then (read_params req, txs)
        (λ p txs1.
          and_then (internally src.get_rate, txs1)
            (λ rate. handle p.0 (sub_fee f c src p.0 p.1 rate)))

  -- `handleSignTransaction`, on a name and whether it is forced
  unfoldable pub handle_sign_transaction :
      Result (Bytes × Bool) → Txs f → Result Transaction × Txs f
  handle_sign_transaction req txs =
      and_then (read_params req, txs) (λ p. handle p.0 (sign_transaction f src p.0 p.1))

  -- `handleDeleteTransaction`, by the name of the transaction that it answers with
  unfoldable pub handle_delete_transaction : Result Bytes → Txs f → Result Bytes × Txs f
  handle_delete_transaction req txs =
      and_then (read_params req, txs)
        (λ name txs1.
          and_then (of_wallet (delete_transaction f name txs1)) (λ _ txs2. (ok name, txs2)))

  -- The loop of `handleTmpTransactions`, in the order in which Go's map is walked: a transaction
  -- that cannot be shown is left out.
  unfoldable pub handle_tmp_transactions : Txs f → List Transaction
  handle_tmp_transactions [] = []
  handle_tmp_transactions ((name, t) ∷ txs) =
      let rest = handle_tmp_transactions txs in
      elim (factoid_tx_to_transaction f view t) [
        | err _ ↦ rest
        | ok r ↦ record r { name = name; fees_required = fees_required_of t } ∷ rest
      ]

  -- `handleTransactionHash`: a name, and the digits of the hash of its transaction
  unfoldable pub handle_transaction_hash : Result Bytes → Txs f → Result (Bytes × Bytes)
  handle_transaction_hash req txs = do
    name ← read_params req
    elim (lookup name txs) [
      | none ↦ err (internal Error.transaction_not_found)
      | some t ↦ ok (name, encode_to_string (view.sig_hash t))
    ]

  -- `handleComposeTransaction`, with the count of `APICounter`
  unfoldable pub handle_compose_transaction : ℕ → Result Bytes → Txs f → Result Json2Request × ℕ
  handle_compose_transaction count req txs =
      and_then (read_params req, count) (λ name n. of_wallet (compose_transaction f src n name txs))
