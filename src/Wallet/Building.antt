-- ===== src/Wallet/Building.antt =====
-- Building a transaction: inputs, outputs and fees (wallet/transaction.go).
use factom.Base.{
  ℕ, ◌+◌, ◌-◌, ◌%◌, ◌^◌, not, none, some, Bytes, ◌==◌, Result, ok, err, Error, ◌>>=◌, ◌>>◌, fail_if,
}
use factom.Crypto.{Crypto}
use factom.Address.Strings.{address_string_type, is_valid_address}
use factom.Address.FactoidAddress.{FactoidAddress, rcd_hash}
use factom.Wallet.Factoid.{Factoid}
use factom.Wallet.Transactions.{
  Sources, Txs, find_address, is_factoid_pub, is_ec_pub, decoded_key, no_such, get_transaction,
  store,
}

module _ (f : Factoid) where
  unfoldable pub put_output : Bytes → ℕ → f.Tx → f.Tx
  put_output adr amount tx = elim (find_address adr (f.outputs tx)) [
    | some (i, _) ↦ f.set_output tx i amount
    | none ↦ f.add_output tx adr amount
  ]

  unfoldable pub put_ec_output : Bytes → ℕ → f.Tx → f.Tx
  put_ec_output adr amount tx = elim (find_address adr (f.ec_outputs tx)) [
    | some (i, _) ↦ f.set_ec_output tx i amount
    | none ↦ f.add_ec_output tx adr amount
  ]

  -- The block in which `AddFee` and `SubFee` compare the totals; `outs+ecs` is a uint64.
  unfoldable pub check_adds_up : f.Tx → Result (Unit {0})
  check_adds_up tx = do
    ins ← f.total_inputs tx
    outs ← f.total_outputs tx
    ecs ← f.total_ecs tx
    fail_if (not (ins == (outs + ecs) % 2 ^ 64)) Error.not_adding_up

  -- The loop of `AddFee` over the inputs.
  unfoldable pub raise_input : Bytes → ℕ → f.Tx → Result f.Tx
  raise_input adr txfee tx = elim (find_address adr (f.inputs tx)) [
    | none ↦ err Error.not_an_input
    | some (i, amount) ↦ f.validate_amounts amount txfee >>= λ amt. ok (f.set_input tx i amt)
  ]

  -- The loop of `SubFee` over the outputs; the difference is a uint64.
  unfoldable pub lower_output : Bytes → ℕ → f.Tx → Result f.Tx
  lower_output adr txfee tx = elim (find_address adr (f.outputs tx)) [
    | none ↦ err Error.not_an_output
    | some (i, amount) ↦ ok (f.set_output tx i ((amount + 2 ^ 64 - txfee) % 2 ^ 64))
  ]

module _ (f : Factoid) (c : Crypto) (src : Sources) where
  -- `AddInput` on a transaction, with the address that the database returned.
  unfoldable pub put_input : FactoidAddress → ℕ → f.Tx → f.Tx
  put_input a amount tx =
      let adr = rcd_hash c a in
      elim (find_address adr (f.inputs tx)) [
        | some (i, _) ↦ f.set_input tx i amount
        | none ↦ f.add_rcd (f.add_input tx adr amount) a.rcd.public_key
      ]

  -- `AddInput`
  unfoldable pub add_input : Bytes → Bytes → ℕ → Txs f → Result (Unit {0}) × Txs f
  add_input name address amount txs = store f name txs do
    tx ← get_transaction f name txs
    a ← no_such (src.get_fct_address address)
    ok (put_input a amount tx)

  -- `AddOutput`
  unfoldable pub add_output : Bytes → Bytes → ℕ → Txs f → Result (Unit {0}) × Txs f
  add_output name address amount txs = store f name txs do
    tx ← get_transaction f name txs
    fail_if (not (is_factoid_pub (address_string_type c address))) Error.invalid_factoid_address
    ok (put_output f (decoded_key c address) amount tx)

  -- `AddECOutput`
  unfoldable pub add_ec_output : Bytes → Bytes → ℕ → Txs f → Result (Unit {0}) × Txs f
  add_ec_output name address amount txs = store f name txs do
    tx ← get_transaction f name txs
    fail_if (not (is_ec_pub (address_string_type c address))) Error.invalid_ec_address
    ok (put_ec_output f (decoded_key c address) amount tx)

  -- `AddFee`
  unfoldable pub add_fee : Bytes → Bytes → ℕ → Txs f → Result (Unit {0}) × Txs f
  add_fee name address rate txs = store f name txs do
    tx ← get_transaction f name txs
    check_adds_up f tx
    txfee ← f.calculate_fee tx rate
    a ← src.get_fct_address address
    raise_input f (rcd_hash c a) txfee tx

  -- `SubFee`
  unfoldable pub sub_fee : Bytes → Bytes → ℕ → Txs f → Result (Unit {0}) × Txs f
  sub_fee name address rate txs = store f name txs do
    tx ← get_transaction f name txs
    fail_if (not (is_valid_address c address)) Error.invalid_address
    check_adds_up f tx
    txfee ← f.calculate_fee tx rate
    lower_output f (decoded_key c address) txfee tx
