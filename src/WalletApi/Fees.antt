-- ===== src/WalletApi/Fees.antt =====
-- What the wallet answers when a fee is added.
use factom.Base.{
  ◌>>=◌, and_then-eq-ok, and_then, ok-injective, internally, >>=-eq-ok, ℕ, ◌+◌, ◌%◌, ◌^◌, ◌<◌, ◌≡◌,
  ◌∙◌, sym, ap, some, arith, Bytes, Result, ok, err,
}
use factom.Base.Dict.{lookup}
use factom.Crypto.{Crypto}
use factom.Wallet.Factoid.{Factoid, IsFactoid, sum_amounts}
use factom.Wallet.Transactions.{Sources, Txs}
use factom.Wallet.Building.{add_fee}
use factom.Wallet.Fees.{add_fee-balances}
use factom.Rpc.Transactions.{Transaction}
use factom.WalletApi.Addresses.{read_params, of_wallet}
use factom.WalletApi.Transactions.{
  fees_required_of, View, fees_paid_of, factoid_tx_to_transaction, respond, handle, handle_add_fee,
}

internally-eq-ok : {A : Type 0} (r : Result A) {a : A} → internally r ≡ ok a → r ≡ ok a
unfolding internally
internally-eq-ok (ok b) h = h
internally-eq-ok (err e) h = cc

-- The fees paid of totals that differ by a fee.
fees_paid_of-eq :
    (ins outs ecs fee : ℕ)
    → ins ≡ outs + ecs + fee
    → outs + ecs < 2 ^ 64
    → fees_paid_of ins outs ecs ≡ fee
unfolding fees_paid_of
fees_paid_of-eq ins outs ecs fee sum fits =
    let whole : (outs + ecs) % 2 ^ 64 ≡ outs + ecs = omega arith in rw whole (ground arith)

module _ {f : Factoid} (laws : IsFactoid f) (view : View f) (c : Crypto) (src : Sources) where
  -- The transaction that is shown carries the difference of its totals as the fees paid.
  shown-fees_paid :
      (t : f.Tx) (fee : ℕ) {r : Transaction}
      → factoid_tx_to_transaction f view t ≡ ok r
      → sum_amounts (f.inputs t) ≡ sum_amounts (f.outputs t) + sum_amounts (f.ec_outputs t) + fee
      → sum_amounts (f.outputs t) + sum_amounts (f.ec_outputs t) < 2 ^ 64
      → r.fees_paid ≡ fee
  unfolding factoid_tx_to_transaction
  shown-fees_paid t fee {r} h sum fits =
      let (ins, ti, h1) = >>=-eq-ok (f.total_inputs t) _ h in
      let (outs, to, h2) = >>=-eq-ok (f.total_outputs t) _ h1 in
      let (ecs, te, h3) = >>=-eq-ok (f.total_ecs t) _ h2 in
      let ei = laws.total_inputs-sum t ti in
      let eo = laws.total_outputs-sum t to in
      let ee = laws.total_ecs-sum t te in
      ap (λ x. x.fees_paid) (sym (ok-injective h3))
      ∙ fees_paid_of-eq ins outs ecs fee (omega (arith, ei, eo, ee, sum))
          (omega (arith, eo, ee, fits))

  -- An answer shows the transaction of its name.
  respond-found :
      (name : Bytes) (txs : Txs f) (t : f.Tx) {r : Transaction}
      → lookup name txs ≡ some t
      → respond f view c src name txs ≡ ok r
      → (shown : Transaction) × (factoid_tx_to_transaction f view t ≡ ok shown)
        × (r.fees_paid ≡ shown.fees_paid)
        × (r.name ≡ name)
  unfolding respond
  respond-found name txs t {r} found h =
      let h0 : (internally (factoid_tx_to_transaction f view t) >>= λ r.
      ok (record r { name = name; fees_required = fees_required_of f view c src t }))
          ≡ ok r =
        rw (respond, found) at h in
      let (shown, e1, h1) = >>=-eq-ok (internally (factoid_tx_to_transaction f view t)) _ h0 in
      (
        shown,
        internally-eq-ok _ e1,
        ap (λ x. x.fees_paid) (sym (ok-injective h1)),
        ap (λ x. x.name) (sym (ok-injective h1)),
      )

  -- A transaction that the wallet answers to add-fee has the name that was asked for, and as the
  -- fees paid exactly the fee that was calculated at factomd's rate for the transaction as it
  -- stood, if the amounts of its outputs and EC outputs add up to a uint64.
  pub handle_add_fee-fees_paid :
      (name address : Bytes) (txs : Txs f) (tx : f.Tx) {r : Transaction} {txs' : Txs f}
      → lookup name txs ≡ some tx
      → sum_amounts (f.outputs tx) + sum_amounts (f.ec_outputs tx) < 2 ^ 64
      → handle_add_fee f view c src (ok (name, address)) txs ≡ (ok r, txs')
      → (rate fee : ℕ) × (src.get_rate ≡ ok rate)
        × (f.calculate_fee tx rate ≡ ok fee)
        × (r.fees_paid ≡ fee)
        × (r.name ≡ name)
  unfolding handle_add_fee read_params and_then handle of_wallet
  handle_add_fee-fees_paid name address txs tx {r} {txs'} found fits h =
      let (rate, e1, h1) = and_then-eq-ok (internally src.get_rate, txs) _ h in
      let (_, e2, h2) = and_then-eq-ok (of_wallet (add_fee f c src name address rate txs)) _ h1 in
      let added : (add_fee f c src name address rate txs).0 ≡ ok tt = internally-eq-ok _ e2 in
      let (tx', fee, stored, calculated, outs, ecs, sum) =
        add_fee-balances laws c src name address rate txs tx found fits
          (ap (λ x. (x, (add_fee f c src name address rate txs).1)) added) in
      let answered : respond f view c src name (add_fee f c src name address rate txs).1 ≡ ok r =
        ap (λ x. x.0) h2 in
      let (shown, is, paid, named) =
        respond-found name (add_fee f c src name address rate txs).1 tx' stored answered in
      let fits' : sum_amounts (f.outputs tx') + sum_amounts (f.ec_outputs tx') < 2 ^ 64 =
        rw (outs, ecs) fits in
      (
        rate,
        fee,
        internally-eq-ok _ e1,
        calculated,
        paid ∙ shown-fees_paid tx' fee is sum fits',
        named,
      )
