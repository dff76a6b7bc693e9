-- ===== src/Rpc/Purchases.antt =====
-- `SendFactoid`, `BuyEC` and `BuyExactEC` of transaction.go. The 16 random bytes of a name are a
-- parameter.
use factom.Base.{and_then, ℕ, ◌*◌, ◌%◌, ◌^◌, Bool, Bytes, codes, if◌then◌else◌, Result}
use factom.Base.Int.{ℤ, ltb_ℤ, signed64}
use factom.Base.Hex.{encode_to_string}
use factom.Crypto.{Crypto}
use factom.Rpc.Request.{no_params, address_request}
use factom.Rpc.Server.{Servers, World, ask_factomd}
use factom.Rpc.Transactions.{
  Transaction, TransactionJson, new_transaction, add_transaction_input, add_transaction_output,
  add_transaction_ec_output, add_transaction_fee, sub_transaction_fee, sign_transaction,
  send_transaction,
}

module _ (servers : Servers) (json : TransactionJson) (c : Crypto) where
  -- `GetFactoidBalance` and `GetRate` of get.go
  unfoldable pub get_factoid_balance : Bytes → World → Result ℤ × World
  get_factoid_balance addr =
      ask_factomd servers (codes "factoid-balance") (address_request addr) json.balance

  unfoldable pub get_rate : World → Result ℕ × World
  get_rate = ask_factomd servers (codes "entry-credit-rate") no_params json.rate

  -- The choice of `SendFactoid`: the sender pays the fee if it can, and else the receiver.
  unfoldable pub settle_fee : Bytes → Bytes → Bytes → ℕ → ℤ → World → Result Transaction × World
  settle_fee name from to amount balance =
      if ltb_ℤ (signed64 amount) balance
      then add_transaction_fee servers json c name from
      else sub_transaction_fee servers json c name to

  -- How all three end.
  unfoldable pub sign_and_send : Bytes → Bool → World → Result Transaction × World
  sign_and_send name force w =
      and_then (sign_transaction servers json c name force w)
        (λ _ w1. send_transaction servers json c name w1)

  -- `SendFactoid`
  unfoldable pub send_factoid :
      Result Bytes → Bytes → Bytes → ℕ → Bool → World → Result Transaction × World
  send_factoid random from to amount force w =
      and_then (random, w)
        (λ n w0.
          let name = encode_to_string n in
          and_then (new_transaction servers json c name w0) (λ _ w1.
            and_then (add_transaction_input servers json c name from amount w1) (λ _ w2.
              and_then (add_transaction_output servers json c name to amount w2) (λ _ w3.
                and_then (get_factoid_balance from w3) (λ balance w4.
                  and_then (settle_fee name from to amount balance w4)
                    (λ _ w5. sign_and_send name force w5))))))

  -- What `BuyEC` and `BuyExactEC` have in common.
  unfoldable buy : Result Bytes → Bytes → Bytes → ℕ → Bool → World → Result Transaction × World
  buy random from to amount force w =
      and_then (random, w)
        (λ n w0.
          let name = encode_to_string n in
          and_then (new_transaction servers json c name w0) (λ _ w1.
            and_then (add_transaction_input servers json c name from amount w1) (λ _ w2.
              and_then (add_transaction_ec_output servers json c name to amount w2) (λ _ w3.
                and_then (add_transaction_fee servers json c name from w3)
                  (λ _ w4. sign_and_send name force w4)))))

  -- `BuyEC`
  unfoldable buy_ec : Result Bytes → Bytes → Bytes → ℕ → Bool → World → Result Transaction × World
  buy_ec = buy

  -- `BuyExactEC`; the amount is a uint64.
  unfoldable buy_exact_ec :
      Result Bytes → Bytes → Bytes → ℕ → Bool → World → Result Transaction × World
  buy_exact_ec random from to amount force w =
      and_then (get_rate w) (λ rate w1. buy random from to (amount * rate % 2 ^ 64) force w1)
