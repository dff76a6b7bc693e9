-- ===== src/Wallet/Signing.antt =====
-- Checking, signing and composing a transaction (wallet/transaction.go).
use factom.Base.{
  ℕ, ◌+◌, Bool, true, false, not, List, [], ◌∷◌, Bytes, codes, ltb, ◌==◌, Result, ok, err, Error,
  ◌>>=◌, ◌>>◌, fail_if,
}
use factom.Base.Dict.{insert}
use factom.Base.Hex.{encode_to_string, decode_string}
use factom.Base.Int.{ℤ, pos, ltb_ℤ, ◌-ℤ◌, ◌*ℤ◌, signed64, word64, wrap64}
use factom.Rpc.Request.{Json2Request, composed_transaction, new_json2_request, api_counter}
use factom.Wallet.Factoid.{Factoid, TransAddress}
use factom.Wallet.Transactions.{Sources, Txs, get_transaction, store}

-- The fee that is paid: `int64(ins) - int64(outs) - int64(ecs)`, in int64.
unfoldable pub fee_paid : ℕ → ℕ → ℕ → ℤ
fee_paid ins outs ecs = wrap64 (wrap64 (signed64 ins -ℤ signed64 outs) -ℤ signed64 ecs)

-- `cfee*10`, in int64.
unfoldable pub ten_times : ℤ → ℤ
ten_times cfee = wrap64 (cfee *ℤ pos 10)

-- What `checkFee` does with the totals: the fee that is paid against the fee that is due.
unfoldable pub check_paid : ℕ → ℕ → ℕ → Result ℕ → (ℕ → Result ℕ) → Result (Unit {0})
check_paid ins outs ecs rate calculate = do
  let fee = fee_paid ins outs ecs
  fail_if (not (ltb_ℤ (pos 0) fee)) Error.fee_too_low
  r ← rate
  due ← calculate r
  fail_if (due == 0) Error.no_fee
  let cfee = signed64 due
  fail_if (ltb_ℤ fee cfee) Error.fee_too_low
  fail_if (not (ltb_ℤ fee (ten_times cfee))) Error.overpaying

module _ (f : Factoid) (src : Sources) where
  -- The loop of `checkCovered`.
  unfoldable pub check_inputs : List TransAddress → Result (Unit {0})
  check_inputs [] = ok tt
  check_inputs (t ∷ ts) = do
    balance ← src.get_factoid_balance (f.user_string t.address)
    fail_if (ltb (word64 balance) t.amount) Error.balance_too_low
    check_inputs ts

  -- `checkCovered`
  unfoldable pub check_covered : f.Tx → Result (Unit {0})
  check_covered tx = check_inputs (f.inputs tx)

  -- `checkFee`
  unfoldable pub check_fee : f.Tx → Result (Unit {0})
  check_fee tx = do
    ins ← f.total_inputs tx
    outs ← f.total_outputs tx
    ecs ← f.total_ecs tx
    check_paid ins outs ecs src.get_rate (f.calculate_fee tx)

  -- The loop of `SignTransaction` over the RCDs, from an index. The signatures that were set before
  -- an error stay.
  unfoldable pub sign_rcds : Bytes → ℕ → List (Result Bytes) → f.Tx → Result (Unit {0}) × f.Tx
  sign_rcds bytes i [] tx = (ok tt, tx)
  sign_rcds bytes i (err e ∷ rcds) tx = (err e, tx)
  sign_rcds bytes i (ok a ∷ rcds) tx = elim (src.get_fct_address (f.user_string a)) [
    | err e ↦ (err e, tx)
    | ok fa ↦ sign_rcds bytes (i + 1) rcds (f.set_signature tx i (f.new_signature fa.secret bytes))
  ]

  -- The checks that come first, unless they are forced.
  unfoldable pub check_transaction : Bool → f.Tx → Result (Unit {0})
  check_transaction true tx = ok tt
  check_transaction false tx = do check_covered tx; check_fee tx

  unfoldable pub sign_checked : f.Tx → Result (Unit {0}) × f.Tx
  sign_checked tx = elim (f.marshal_binary_sig tx) [
    | err e ↦ (err e, tx)
    | ok bytes ↦ elim (f.rcd_addresses tx) [
      | [] ↦ (err Error.tx_no_inputs, tx)
      | r ∷ rcds ↦ sign_rcds bytes 0 (r ∷ rcds) tx
    ]
  ]

  -- `SignTransaction`
  unfoldable pub sign_transaction : Bytes → Bool → Txs f → Result (Unit {0}) × Txs f
  sign_transaction name force txs = elim (get_transaction f name txs) [
    | err e ↦ (err e, txs)
    | ok tx ↦ elim (check_transaction force tx) [
      | err e ↦ (err e, txs)
      | ok _ ↦ let (r, tx') = sign_checked tx in (r, insert name tx' txs)
    ]
  ]

  -- `ComposeTransaction`, with the API counter; the counter moves on success only.
  unfoldable pub compose_transaction : ℕ → Bytes → Txs f → Result Json2Request × ℕ
  compose_transaction count name txs = elim (get_transaction f name txs >>= f.marshal_binary) [
    | err e ↦ (err e, count)
    | ok p ↦
        let params = composed_transaction (encode_to_string p) in
        let id = api_counter count in
        (ok (new_json2_request (codes "factoid-submit") id params), id)
  ]

  -- `ImportComposedTransaction`
  unfoldable pub import_composed_transaction : Bytes → Bytes → Txs f → Result (Unit {0}) × Txs f
  import_composed_transaction name hex_encoded txs =
      store f name txs do p ← decode_string hex_encoded; f.unmarshal_binary p
