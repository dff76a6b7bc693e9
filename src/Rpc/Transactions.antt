-- ===== src/Rpc/Transactions.antt =====
-- The calls of transaction.go on the temporary transactions of a wallet.
use factom.Base.{
  and_then, ℕ, Bool, true, false, List, [], ◌∷◌, Bytes, codes, bytes_eq, if◌then◌else◌, Result, ok,
  err, Error, ◌>>=◌,
}
use factom.Base.Int.{ℤ}
use factom.Crypto.{Crypto}
use factom.Address.Strings.{address_string_type}
use factom.Wallet.Transactions.{is_factoid_pub, is_ec_pub}
use factom.Rpc.Request.{
  Json2Request, no_params, transaction_request, transaction_value_request, address_request,
  txid_request, range_request, hash_request,
}
use factom.Rpc.Server.{Servers, World, ask, ask_factomd, forward}

pub record TransAddress : Type 0 where
  pub address : Bytes
  pub amount : ℕ

-- `Transaction`; `timestamp` counts seconds.
pub record Transaction : Type 0 where
  pub block_height : ℕ
  pub fees_paid : ℕ
  pub fees_required : ℕ
  pub is_signed : Bool
  pub name : Bytes
  pub timestamp : ℤ
  pub total_ec_outputs : ℕ
  pub total_inputs : ℕ
  pub total_outputs : ℕ
  pub inputs : List TransAddress
  pub outputs : List TransAddress
  pub ec_outputs : List TransAddress
  pub txid : Bytes

-- What encoding/json makes of the results.
pub record TransactionJson : Type 1 where
  pub transaction : Bytes → Result Transaction
  -- the field `Transactions`
  pub transactions : Bytes → Result (List Transaction)
  -- what reading a result leaves in a new `JSON2Request`, whose error `SendTransaction` drops
  pub request : Bytes → Json2Request
  -- `TransactionResponse`
  pub TransactionResponse : Type 0
  pub transaction_response : Bytes → Result TransactionResponse
  -- the fields `Balance` and `Rate`
  pub balance : Bytes → Result ℤ
  pub rate : Bytes → Result ℕ

module _ (servers : Servers) (json : TransactionJson) (c : Crypto) where
  -- `NewTransaction`
  unfoldable pub new_transaction : Bytes → World → Result Transaction × World
  new_transaction name =
      ask servers (codes "new-transaction") (transaction_request name false) json.transaction

  -- `DeleteTransaction`
  unfoldable pub delete_transaction : Bytes → World → Result (Unit {0}) × World
  delete_transaction name =
      ask servers (codes "delete-transaction") (transaction_request name false) (λ _. ok tt)

  -- `ListTransactionsAll`, `ListTransactionsAddress`, `ListTransactionsID`, `ListTransactionsRange`
  unfoldable list_transactions_all : World → Result (List Transaction) × World
  list_transactions_all = ask servers (codes "transactions") no_params json.transactions

  unfoldable list_transactions_address : Bytes → World → Result (List Transaction) × World
  list_transactions_address addr =
      ask servers (codes "transactions") (address_request addr) json.transactions

  unfoldable list_transactions_id : Bytes → World → Result (List Transaction) × World
  list_transactions_id id = ask servers (codes "transactions") (txid_request id) json.transactions

  unfoldable list_transactions_range : ℤ → ℤ → World → Result (List Transaction) × World
  list_transactions_range start end =
      ask servers (codes "transactions") (range_request start end) json.transactions

  -- `ListTransactionsTmp`
  unfoldable pub list_transactions_tmp : World → Result (List Transaction) × World
  list_transactions_tmp = ask servers (codes "tmp-transactions") no_params json.transactions

  -- `AddTransactionInput`, `AddTransactionOutput` and `AddTransactionECOutput`
  unfoldable pub add_transaction_input : Bytes → Bytes → ℕ → World → Result Transaction × World
  add_transaction_input name address amount w =
      if is_factoid_pub (address_string_type c address)
      then ask servers (codes "add-input") (transaction_value_request name address amount)
          json.transaction w
      else (err Error.not_a_factoid_address, w)

  unfoldable pub add_transaction_output : Bytes → Bytes → ℕ → World → Result Transaction × World
  add_transaction_output name address amount w =
      if is_factoid_pub (address_string_type c address)
      then ask servers (codes "add-output") (transaction_value_request name address amount)
          json.transaction w
      else (err Error.not_a_factoid_address, w)

  unfoldable pub add_transaction_ec_output : Bytes → Bytes → ℕ → World → Result Transaction × World
  add_transaction_ec_output name address amount w =
      if is_ec_pub (address_string_type c address)
      then ask servers (codes "add-ec-output") (transaction_value_request name address amount)
          json.transaction w
      else (err Error.not_an_ec_address, w)

  -- `AddTransactionFee` and `SubTransactionFee`, whose requests have no amount: it is 0.
  unfoldable pub add_transaction_fee : Bytes → Bytes → World → Result Transaction × World
  add_transaction_fee name address w =
      if is_factoid_pub (address_string_type c address)
      then ask servers (codes "add-fee") (transaction_value_request name address 0) json.transaction
          w
      else (err Error.not_a_factoid_address, w)

  unfoldable pub sub_transaction_fee : Bytes → Bytes → World → Result Transaction × World
  sub_transaction_fee name address =
      ask servers (codes "sub-fee") (transaction_value_request name address 0) json.transaction

  -- `SignTransaction`
  unfoldable pub sign_transaction : Bytes → Bool → World → Result Transaction × World
  sign_transaction name force =
      ask servers (codes "sign-transaction") (transaction_request name force) json.transaction

  -- `ComposeTransaction`, which returns the result as it is.
  unfoldable pub compose_transaction : Bytes → World → Result Bytes × World
  compose_transaction name =
      ask servers (codes "compose-transaction") (transaction_request name false) (λ r. ok r)

  -- The loop of `GetTmpTransaction`.
  unfoldable pub find_name : Bytes → List Transaction → Result Transaction
  find_name name [] = err Error.transaction_not_found
  find_name name (tx ∷ txs) =
      let rest = find_name name txs in if bytes_eq tx.name name then ok tx else rest

  -- `GetTmpTransaction`
  unfoldable pub get_tmp_transaction : Bytes → World → Result Transaction × World
  get_tmp_transaction name w = let r = list_transactions_tmp w in (r.0 >>= find_name name, r.1)

  -- What `SendTransaction` does with a signed transaction.
  unfoldable pub send_signed : Bytes → Transaction → World → Result Transaction × World
  send_signed name tx w = and_then (compose_transaction name w) (λ result w1.
      and_then (forward servers (json.request result) w1)
        (λ _ w2. and_then (delete_transaction name w2) (λ _ w3. (ok tx, w3))))

  -- `SendTransaction`
  unfoldable pub send_transaction : Bytes → World → Result Transaction × World
  send_transaction name w = and_then (get_tmp_transaction name w) (λ tx w1. elim tx.is_signed [
    | false ↦ (err Error.unsigned_transaction, w1)
    | true ↦ send_signed name tx w1
  ])

  -- `GetTransaction`
  unfoldable get_transaction : Bytes → World → Result json.TransactionResponse × World
  get_transaction txid =
      ask_factomd servers (codes "transaction") (hash_request txid) json.transaction_response
