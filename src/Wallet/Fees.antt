-- ===== src/Wallet/Fees.antt =====
-- What a successful `AddFee` or `SubFee` leaves under the name, and what `SignTransaction` asks
-- for.
use factom.Address.Strings.{is_valid_address}
use factom.Wallet.Signing.{
  check_inputs, check_paid, check_fee, check_covered, sign_checked, check_transaction,
  sign_transaction,
}
use factom.Address.FactoidAddress.{rcd_hash}
use factom.Base.Int.{ℤ, word64}
use factom.Base.Dict.{lookup}
use factom.Wallet.Transactions.{decoded_key, Txs, Sources, find_address}
use factom.Crypto.{Crypto}
use factom.Wallet.Building.{sub_fee, check_adds_up, add_fee, lower_output}
use factom.Wallet.Factoid.{TransAddress, sum_amounts, set_amount, IsFactoid, Factoid}
use factom.Base.{
  ◌∷◌, Result-cases, >>=-eq-ok, List, All, ltb, sym, ◌*◌, fail_if-eq-ok, ℕ, ◌+◌, ◌-◌, ◌%◌, ◌^◌, ◌≤◌,
  ◌<◌, ◌≡◌, ◌≢◌, ◌∙◌, inl, inr, ap, false, not, some, [], arith, Bytes, ok, Error, fail_if,
}
use factom.Wallet.Totals.{
  check_paid_iff, sum-set_amount, find_address-le, raise_input-sum, check_adds_up-sum,
}
use factom.Wallet.Frames.{store-eq-ok, get_transaction-found}

lower_output_lem :
    {f : Factoid} (laws : IsFactoid f) (adr : Bytes) (fee : ℕ) (tx : f.Tx) {tx' : f.Tx}
    {i amount : ℕ}
    → find_address adr (f.outputs tx) ≡ some (i, amount)
    → lower_output f adr fee tx ≡ ok tx'
    → (f.outputs tx' ≡ set_amount (f.outputs tx) i ((amount + 2 ^ 64 - fee) % 2 ^ 64))
      × (f.inputs tx' ≡ f.inputs tx)
      × (f.ec_outputs tx' ≡ f.ec_outputs tx)
unfolding lower_output
lower_output_lem {f} laws adr fee tx {tx'} {i} {amount} found h =
    let e : f.set_output tx i ((amount + 2 ^ 64 - fee) % 2 ^ 64) ≡ tx' = ground (arith, found, h) in
    (
      rw (← e) (laws.outputs-set_output tx _ _),
      rw (← e) (laws.inputs-set_output tx _ _),
      rw (← e) (laws.ecs-set_output tx _ _),
    )

module _ {f : Factoid} (laws : IsFactoid f) (c : Crypto) (src : Sources) where
  -- A successful `AddFee` leaves a transaction whose inputs exceed its outputs and EC outputs,
  -- which it leaves as they were, by exactly the fee that was calculated, if the amounts of the
  -- outputs and EC outputs add up to a uint64.
  pub add_fee-balances :
      (name address : Bytes) (rate : ℕ) (txs : Txs f) (tx : f.Tx) {txs' : Txs f}
      → lookup name txs ≡ some tx
      → sum_amounts (f.outputs tx) + sum_amounts (f.ec_outputs tx) < 2 ^ 64
      → add_fee f c src name address rate txs ≡ (ok tt, txs')
      → (tx' : f.Tx) × (fee : ℕ) × (lookup name txs' ≡ some tx')
        × (f.calculate_fee tx rate ≡ ok fee)
        × (f.outputs tx' ≡ f.outputs tx)
        × (f.ec_outputs tx' ≡ f.ec_outputs tx)
        × (sum_amounts (f.inputs tx')
            ≡ sum_amounts (f.outputs tx') + sum_amounts (f.ec_outputs tx') + fee)
  unfolding add_fee
  add_fee-balances name address rate txs tx {txs'} found fits h =
      let (tx', h1, stored) = store-eq-ok f name txs _ h in
      let h2 = rw (get_transaction-found f name txs found) at h1 in
      let (_, adds, h3) = >>=-eq-ok (check_adds_up f tx) _ h2 in
      let (fee, calculated, h4) = >>=-eq-ok (f.calculate_fee tx rate) _ h3 in
      let (a, _, raised) = >>=-eq-ok (src.get_fct_address address) _ h4 in
      let (s, outs, ecs) = raise_input-sum laws (rcd_hash c a) fee tx raised in
      let sum = check_adds_up-sum laws tx fits adds in
      (tx', fee, stored, calculated, outs, ecs, rw (outs, ecs) (omega (arith, s, sum)))

  -- What a successful `SubFee` leaves, by the amount of the first output with the address.
  sub_fee-eq-ok :
      (name address : Bytes) (rate : ℕ) (txs : Txs f) (tx : f.Tx) {txs' : Txs f} {i amount fee : ℕ}
      → lookup name txs ≡ some tx
      → find_address (decoded_key c address) (f.outputs tx) ≡ some (i, amount)
      → f.calculate_fee tx rate ≡ ok fee
      → sub_fee f c src name address rate txs ≡ (ok tt, txs')
      → (tx' : f.Tx) × (lookup name txs' ≡ some tx')
        × (check_adds_up f tx ≡ ok tt)
        × (f.outputs tx' ≡ set_amount (f.outputs tx) i ((amount + 2 ^ 64 - fee) % 2 ^ 64))
        × (f.inputs tx' ≡ f.inputs tx)
        × (f.ec_outputs tx' ≡ f.ec_outputs tx)
  unfolding sub_fee
  sub_fee-eq-ok name address rate txs tx {txs'} {i} {amount} {fee} found at_i due h =
      let adr = decoded_key c address in
      let (tx', h1, stored) = store-eq-ok f name txs _ h in
      let h2 = rw (get_transaction-found f name txs found) at h1 in
      let (_, _, h3) =
        >>=-eq-ok (fail_if (not (is_valid_address c address)) Error.invalid_address) _ h2 in
      let (_, adds, h4) = >>=-eq-ok (check_adds_up f tx) _ h3 in
      let lowered : lower_output f adr fee tx ≡ ok tx' = rw due at h4 in
      let (outs, ins, ecs) = lower_output_lem laws adr fee tx at_i lowered in
      (tx', stored, adds, outs, ins, ecs)

  -- A successful `SubFee`, whose fee is at most the amount of the first output with the address,
  -- leaves a transaction whose inputs, which it leaves as they were, exceed the outputs and EC
  -- outputs by exactly the fee, if the amounts of the outputs and EC outputs added up to a uint64.
  -- It changes the amount of that output only.
  pub sub_fee-balances :
      (name address : Bytes) (rate : ℕ) (txs : Txs f) (tx : f.Tx) {txs' : Txs f} {i amount fee : ℕ}
      → lookup name txs ≡ some tx
      → sum_amounts (f.outputs tx) + sum_amounts (f.ec_outputs tx) < 2 ^ 64
      → find_address (decoded_key c address) (f.outputs tx) ≡ some (i, amount)
      → f.calculate_fee tx rate ≡ ok fee
      → fee ≤ amount
      → sub_fee f c src name address rate txs ≡ (ok tt, txs')
      → (tx' : f.Tx) × (lookup name txs' ≡ some tx')
        × (f.inputs tx' ≡ f.inputs tx)
        × (f.ec_outputs tx' ≡ f.ec_outputs tx)
        × (f.outputs tx' ≡ set_amount (f.outputs tx) i (amount - fee))
        × (sum_amounts (f.inputs tx')
            ≡ sum_amounts (f.outputs tx') + sum_amounts (f.ec_outputs tx') + fee)
  sub_fee-balances name address rate txs tx {txs'} {i} {amount} {fee} found fits at_i due le h =
      let adr = decoded_key c address in
      let (tx', stored, adds, outs, ins, ecs) =
        sub_fee-eq-ok name address rate txs tx found at_i due h in
      let bound = find_address-le adr (f.outputs tx) at_i in
      let exact : (amount + 2 ^ 64 - fee) % 2 ^ 64 ≡ amount - fee = omega arith in
      let s = sum-set_amount adr (f.outputs tx) (amount - fee) at_i in
      let sum = check_adds_up-sum laws tx fits adds in
      (
        tx',
        stored,
        ins,
        ecs,
        outs ∙ ap (λ n. set_amount (f.outputs tx) i n) exact,
        rw (ins, ecs, outs, exact) (omega (arith, s, sum)),
      )

  -- A successful `SubFee`, whose fee is a uint64 and more than the amount of the first output with
  -- the address, sets that amount to 2^64 and the old amount less the fee.
  pub sub_fee-wraps :
      (name address : Bytes) (rate : ℕ) (txs : Txs f) (tx : f.Tx) {txs' : Txs f} {i amount fee : ℕ}
      → lookup name txs ≡ some tx
      → find_address (decoded_key c address) (f.outputs tx) ≡ some (i, amount)
      → f.calculate_fee tx rate ≡ ok fee
      → amount < fee
      → fee < 2 ^ 64
      → sub_fee f c src name address rate txs ≡ (ok tt, txs')
      → (tx' : f.Tx) × (lookup name txs' ≡ some tx')
        × (f.outputs tx' ≡ set_amount (f.outputs tx) i (2 ^ 64 + amount - fee))
  sub_fee-wraps name address rate txs tx {txs'} {i} {amount} {fee} found at_i due more small h =
      let (tx', stored, _, outs, _, _) = sub_fee-eq-ok name address rate txs tx found at_i due h in
      let wraps : (amount + 2 ^ 64 - fee) % 2 ^ 64 ≡ 2 ^ 64 + amount - fee = omega arith in
      (tx', stored, outs ∙ ap (λ n. set_amount (f.outputs tx) i n) wraps)

module _ (f : Factoid) (src : Sources) where
  sign_checked-rcds :
      (tx : f.Tx) {tx' : f.Tx} → sign_checked f src tx ≡ (ok tt, tx') → f.rcd_addresses tx ≢ []
  unfolding sign_checked
  sign_checked-rcds tx h none_left = elim (Result-cases (f.marshal_binary_sig tx)) [
    | inl (bytes, e) ↦ let h1 = rw (e, none_left, sign_checked) at h in cc
    | inr (e, failed) ↦ let h1 = rw (failed, sign_checked) at h in cc
  ]

  -- Inputs whose addresses have, by the balances that factomd tells, at least their amounts.
  abbrev pub AreCovered : List TransAddress → Type 0
  AreCovered = All λ t.
      (balance : ℤ) × (src.get_factoid_balance (f.user_string t.address) ≡ ok balance)
      × (t.amount ≤ word64 balance)

  check_inputs-AreCovered :
      (inputs : List TransAddress) → check_inputs f src inputs ≡ ok tt → AreCovered inputs
  unfolding check_inputs
  check_inputs-AreCovered [] h = tt
  check_inputs-AreCovered (t ∷ inputs) h =
      let (balance, told, h1) = >>=-eq-ok (src.get_factoid_balance (f.user_string t.address)) _ h in
      let (_, enough, h2) =
        >>=-eq-ok (fail_if (ltb (word64 balance) t.amount) Error.balance_too_low) _ h1 in
      let within = fail_if-eq-ok (ltb (word64 balance) t.amount) Error.balance_too_low enough in
      ((balance, told, ground arith), check_inputs-AreCovered inputs h2)

  -- What the check of the fee shows, with totals below 2^62 and a due fee below 2^59.
  check_fee-eq-ok :
      IsFactoid f
      → (tx : f.Tx) {r due : ℕ} → src.get_rate ≡ ok r
      → f.calculate_fee tx r ≡ ok due
      → sum_amounts (f.inputs tx) < 2 ^ 62
      → sum_amounts (f.outputs tx) < 2 ^ 62
      → sum_amounts (f.ec_outputs tx) < 2 ^ 62
      → due < 2 ^ 59
      → check_fee f src tx ≡ ok tt
      → (0 < due)
        × (sum_amounts (f.outputs tx) + sum_amounts (f.ec_outputs tx) + due
            ≤ sum_amounts (f.inputs tx))
        × (sum_amounts (f.inputs tx)
            < sum_amounts (f.outputs tx) + sum_amounts (f.ec_outputs tx) + 10 * due)
  unfolding check_fee
  check_fee-eq-ok laws tx {r} {due} rate calculated hi ho he hd h =
      let (ins, ti, h1) = >>=-eq-ok (f.total_inputs tx) _ h in
      let (outs, to, h2) = >>=-eq-ok (f.total_outputs tx) _ h1 in
      let (ecs, te, h3) = >>=-eq-ok (f.total_ecs tx) _ h2 in
      let i = laws.total_inputs-sum tx ti in
      let o = laws.total_outputs-sum tx to in
      let e = laws.total_ecs-sum tx te in
      let paid : check_paid ins outs ecs (ok r) (f.calculate_fee tx) ≡ ok tt =
        ap (λ x. check_paid ins outs ecs x (f.calculate_fee tx)) (sym rate) ∙ h3 in
      let (some_due, least, most) =
        (check_paid_iff ins outs ecs r due (f.calculate_fee tx) (omega arith) (omega arith)
            (omega arith) hd calculated).0
          paid in
      (some_due, omega arith, omega arith)

  -- A transaction is signed, unless this is forced, only if each of its inputs is covered by the
  -- balance of its address, and the inputs exceed the outputs and EC outputs by at least the fee
  -- that is due at factomd's rate, which is not 0, and by less than ten times as much, and only if
  -- it has RCDs, with totals below 2^62 and a due fee below 2^59.
  pub sign_transaction-checks :
      IsFactoid f
      → (name : Bytes) (txs : Txs f) (tx : f.Tx) {txs' : Txs f} {r due : ℕ}
      → lookup name txs ≡ some tx
      → src.get_rate ≡ ok r
      → f.calculate_fee tx r ≡ ok due
      → sum_amounts (f.inputs tx) < 2 ^ 62
      → sum_amounts (f.outputs tx) < 2 ^ 62
      → sum_amounts (f.ec_outputs tx) < 2 ^ 62
      → due < 2 ^ 59
      → sign_transaction f src name false txs ≡ (ok tt, txs')
      → AreCovered (f.inputs tx)
        × (0 < due)
        × (sum_amounts (f.outputs tx) + sum_amounts (f.ec_outputs tx) + due
            ≤ sum_amounts (f.inputs tx))
        × (sum_amounts (f.inputs tx)
            < sum_amounts (f.outputs tx) + sum_amounts (f.ec_outputs tx) + 10 * due)
        × (f.rcd_addresses tx ≢ [])
  unfolding sign_transaction check_transaction check_covered
  sign_transaction-checks laws name txs tx found rate calculated hi ho he hd h =
      let h1 = rw (get_transaction-found f name txs found, sign_transaction) at h in
      elim (Result-cases (check_transaction f src false tx)) [
        | inr (e, failed) ↦ let h2 = rw (failed, check_transaction) at h1 in cc
        | inl (u, passed) ↦
            let (_, covered, fee) = >>=-eq-ok (check_covered f src tx) _ passed in
            let h2 = rw (passed, check_transaction) at h1 in
            let signed : (sign_checked f src tx).0 ≡ ok tt = ap (λ p. p.0) h2 in
            let (some_due, least, most) = check_fee-eq-ok laws tx rate calculated hi ho he hd fee in
            (
              check_inputs-AreCovered (f.inputs tx) covered,
              some_due,
              least,
              most,
              sign_checked-rcds tx (ap (λ r. (r, (sign_checked f src tx).1)) signed),
            )
      ]
