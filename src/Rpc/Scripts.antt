-- ===== src/Rpc/Scripts.antt =====
-- The requests of a purchase or a payment that succeeds, one by one.
use factom.Base.{
  and_then, and_then-eq-ok, ℕ, ◌≡◌, inl, inr, refl, Bool, true, false, Bytes, codes, if◌then◌else◌,
  Result, ok, err, Error, Bool-cases,
}
use mathlib.Core.Path.{subst}
use factom.Base.Int.{ℤ, ltb_ℤ, signed64}
use factom.Base.Hex.{encode_to_string}
use factom.Crypto.{Crypto}
use factom.Address.Strings.{address_string_type}
use factom.Wallet.Transactions.{is_factoid_pub}
use factom.Rpc.Request.{
  Params, no_params, transaction_request, transaction_value_request, address_request,
}
use factom.Rpc.Server.{Servers, World, asked, asked_factomd, ask, ask_factomd}
use factom.Rpc.Transactions.{
  Transaction, TransactionJson, new_transaction, add_transaction_input, add_transaction_output,
  add_transaction_fee, sub_transaction_fee, sign_transaction, compose_transaction,
}
use factom.Rpc.Purchases.{get_factoid_balance, settle_fee, sign_and_send, send_factoid}
use factom.Rpc.Sending.{sent, send_transaction-sent}

-- The worlds of a payment: the transaction has its input and its output; the balance is known; the
-- fee is paid by the sender, if the balance is more than the amount as an int64, and else by the
-- receiver; the transaction is signed.
abbrev pub begun : Bytes → Bytes → ℕ → World → World
begun name from amount w =
    asked (codes "add-input") (transaction_value_request name from amount)
      (asked (codes "new-transaction") (transaction_request name false) w)

abbrev pub balanced : Bytes → Bytes → Bytes → ℕ → World → World
balanced name from to amount w = asked_factomd (codes "factoid-balance") (address_request from) (
    asked (codes "add-output") (transaction_value_request name to amount)
      (begun name from amount w))

unfoldable pub fee_settled : Bytes → Bytes → Bytes → ℕ → ℤ → World → World
fee_settled name from to amount balance w =
    if ltb_ℤ (signed64 amount) balance
    then asked (codes "add-fee") (transaction_value_request name from 0) w
    else asked (codes "sub-fee") (transaction_value_request name to 0) w

abbrev pub signed : Bytes → Bool → World → World
signed name force w = asked (codes "sign-transaction") (transaction_request name force) w

-- A step that has succeeded and whose world afterwards is known, with what else its success tells.
step-at :
    {A B S : Type 0} (told : Type 0) (x : Result A × S) (next : A → S → Result B × S) (s1 : S)
    {b : B} {s' : S}
    → and_then x next ≡ (ok b, s')
    → ((a : A) → x.0 ≡ ok a → told × (x.1 ≡ s1))
    → (a : A) × (x.0 ≡ ok a) × told × (next a s1 ≡ (ok b, s'))
step-at told x next s1 {b} {s'} h known =
    let (a, is, rest) = and_then-eq-ok x next h in
    let (more, at) = known a is in (a, is, more, subst (λ s. next a s ≡ (ok b, s')) at rest)

module _ (servers : Servers) (json : TransactionJson) (c : Crypto) where
  -- A guarded request that succeeds.
  if-asked :
      {A : Type 0} (test : Bool) (e : Error) (method : Bytes) (p : Params)
      (unmarshal : Bytes → Result A) (w : World) {a : A}
      → (if test then ask servers method p unmarshal w else (err e, w)).0 ≡ ok a
      → (test ≡ true)
        × ((if test then ask servers method p unmarshal w else (err e, w)).1 ≡ asked method p w)
  unfolding ask
  if-asked false e method p unmarshal w h = cc
  if-asked true e method p unmarshal w h = (refl, refl)

  settle_fee-asked :
      (name from to : Bytes) (amount : ℕ) (balance : ℤ) (w : World) {tx : Transaction}
      → (settle_fee servers json c name from to amount balance w).0 ≡ ok tx
      → (settle_fee servers json c name from to amount balance w).1
        ≡ fee_settled name from to amount balance w
  unfolding settle_fee fee_settled add_transaction_fee sub_transaction_fee ask
  settle_fee-asked name from to amount balance w h =
      elim (Bool-cases (ltb_ℤ (signed64 amount) balance)) [
        | inl more ↦
            rw more
              (if-asked (is_factoid_pub (address_string_type c from)) Error.not_a_factoid_address
                (codes "add-fee") (transaction_value_request name from 0) json.transaction w
                (rw more at h)).1
        | inr less ↦ rw less refl
      ]

  -- A payment that succeeds goes from one factoid address to another and has made exactly these
  -- requests, in this order: the wallet makes a transaction with a random name, adds the amount to
  -- its inputs and to its outputs; factomd tells the balance of the sender; the fee is added to the
  -- input, if this balance is more than the amount as an int64, and else taken from the output; the
  -- wallet signs, lists and composes the transaction; factomd gets what the wallet has composed; and
  -- the wallet deletes it.
  -- What is returned is the signed transaction of that name.
  pub send_factoid-script :
      (random : Result Bytes) (from to : Bytes) (amount : ℕ) (force : Bool) (w : World)
      {tx : Transaction} {w' : World}
      → send_factoid servers json c random from to amount force w ≡ (ok tx, w')
      → (n : Bytes) × (random ≡ ok n)
        × (balance : ℤ) × (result : Bytes) × ((get_factoid_balance servers json c from (
              asked
                (codes "add-output")
                (transaction_value_request (encode_to_string n) to amount)
                (begun (encode_to_string n) from amount w))).0
            ≡ ok balance)
        × ((compose_transaction servers json c (encode_to_string n) (
              asked (codes "tmp-transactions") no_params (
                signed (encode_to_string n) force (
                  fee_settled
                    (encode_to_string n)
                    from
                    to
                    amount
                    balance
                    (balanced (encode_to_string n) from to amount w))))).0
            ≡ ok result)
        × (w'
            ≡ sent (json.request result) (encode_to_string n) (
                signed (encode_to_string n) force (
                  fee_settled
                    (encode_to_string n)
                    from
                    to
                    amount
                    balance
                    (balanced (encode_to_string n) from to amount w))))
        × (is_factoid_pub (address_string_type c from) ≡ true)
        × (is_factoid_pub (address_string_type c to) ≡ true)
        × (tx.is_signed ≡ true)
        × (tx.name ≡ encode_to_string n)
  unfolding send_factoid new_transaction get_factoid_balance sign_and_send sign_transaction ask
      ask_factomd add_transaction_input asked add_transaction_output
  send_factoid-script random from to amount force w {tx} {w'} h =
      let (n, e0, h0) = and_then-eq-ok (random, w) _ h in
      let name = encode_to_string n in
      let (_, e1, h1) = and_then-eq-ok (new_transaction servers json c name w) _ h0 in
      let (_, e2, from_ok, h2) =
        step-at (is_factoid_pub (address_string_type c from) ≡ true)
          (add_transaction_input servers json c name from amount _) _ (begun name from amount w) h1
          (λ _ is. if-asked _ _ _ _ _ _ is) in
      let (_, e3, to_ok, h3) =
        step-at (is_factoid_pub (address_string_type c to) ≡ true)
          (add_transaction_output servers json c name to amount _) _
          (asked (codes "add-output") (transaction_value_request name to amount)
            (begun name from amount w))
          h2 (λ _ is. if-asked _ _ _ _ _ _ is) in
      let (balance, e4, h4) = and_then-eq-ok (get_factoid_balance servers json c from _) _ h3 in
      let (_, e5, _, h5) =
        step-at Unit (settle_fee servers json c name from to amount balance _) _
          (fee_settled name from to amount balance (balanced name from to amount w)) h4
          (λ _ is. (tt, settle_fee-asked name from to amount balance _ is)) in
      let (_, e6, h6) = and_then-eq-ok (sign_transaction servers json c name force _) _ h5 in
      let (is_signed, named, result, composed, end) =
        send_transaction-sent servers json c name _ h6 in
      (n, e0, balance, result, e4, composed, end, from_ok, to_ok, is_signed, named)
