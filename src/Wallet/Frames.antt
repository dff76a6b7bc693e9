-- ===== src/Wallet/Frames.antt =====
-- Which transaction an operation begins with and stores, and when a new one is made.
use factom.Base.{
  ℕ, ◌≤◌, ◌≡◌, ◌↔◌, ◌⊎◌, inl, inr, refl, ap, true, none, some, [], ◌∷◌, arith, Bytes, length,
  Result, ok, err, Error, All, Option-cases,
}
use factom.Base.{
  bytes_eq_refl, ℕ, ◌≤◌, ◌≡◌, ◌↔◌, inl, inr, refl, ap, true, none, some, arith, Bytes, length,
  Result, ok, err, Error, Option-cases,
}
use factom.Base.Dict.{insert, lookup, lookup-insert}
use factom.Wallet.Factoid.{Factoid}
use factom.Wallet.Transactions.{
  Txs, get_transaction, transaction_exists, store, new_transaction, all_name_bytes, is_name_byte,
}

module _ (f : Factoid) where
  pub store-eq-ok :
      (name : Bytes) (txs : Txs f) (r : Result f.Tx) {txs' : Txs f}
      → store f name txs r ≡ (ok tt, txs')
      → (tx : f.Tx) × (r ≡ ok tx) × (lookup name txs' ≡ some tx)
  store-eq-ok name txs (ok tx) {txs'} h =
      let e : insert name tx txs ≡ txs' = ap (λ p. p.1) h in
      (tx, refl, rw (← e, lookup-insert, bytes_eq_refl name))
  store-eq-ok name txs (err e) h = cc

  -- The transaction that an operation begins with.
  pub get_transaction-found :
      (name : Bytes) (txs : Txs f) {tx : f.Tx}
      → lookup name txs ≡ some tx
      → get_transaction f name txs ≡ ok tx
  unfolding get_transaction
  get_transaction-found name txs h = rw (h, get_transaction)

  pub get_transaction-absent :
      (name : Bytes) (txs : Txs f)
      → lookup name txs ≡ none
      → get_transaction f name txs ≡ err Error.tx_not_exists
  unfolding get_transaction
  get_transaction-absent name txs h = rw (h, get_transaction)

-- A letter, a digit, `_` or `-`, by its ASCII code.
abbrev pub IsNameByte : ℕ → Type 0
IsNameByte b =
    ((97 ≤ b) × (b ≤ 122))
    ⊎ (((65 ≤ b) × (b ≤ 90)) ⊎ (((48 ≤ b) × (b ≤ 57)) ⊎ ((b ≡ 95) ⊎ (b ≡ 45))))

is_name_byte_iff : (b : ℕ) → (is_name_byte b ≡ true) ↔ IsNameByte b
unfolding is_name_byte
is_name_byte_iff b = (λ h. ground (arith, h), λ h. ground (arith, h))

all_name_bytes_iff : (name : Bytes) → (all_name_bytes name ≡ true) ↔ All IsNameByte name
unfolding all_name_bytes
all_name_bytes_iff [] = (λ h. tt, λ h. refl)
all_name_bytes_iff (b ∷ name) = (
  λ h.
      ((is_name_byte_iff b).0 (ground (arith, h)), (all_name_bytes_iff name).0 (ground (arith, h))),
  λ h.
      let here = (is_name_byte_iff b).1 h.0 in
      let rest = (all_name_bytes_iff name).1 h.1 in rw (here, rest) refl,
)

module _ (f : Factoid) (now : ℕ) where
  -- The tests that `NewTransaction` makes.
  new_transaction-tests :
      (name : Bytes) (txs : Txs f)
      → (new_transaction f now name txs ≡ (ok tt, insert name (f.new_tx now) txs)) ↔ (
          (lookup name txs ≡ none)
          × (1 ≤ length name)
          × (length name ≤ 32)
          × (all_name_bytes name ≡ true))
  unfolding new_transaction transaction_exists
  new_transaction-tests name txs = elim (Option-cases (lookup name txs)) [
    | inl absent ↦ rw absent (λ h. ground (arith, h), λ h. ground (arith, h))
    | inr (tx, found) ↦ rw found (λ h. ground (arith, h), λ h. ground (arith, h))
  ]

  -- A new transaction is made exactly if the name is not taken, has 1 to 32 bytes, and each byte is
  -- the ASCII code of a letter, a digit, `_` or `-`; it is then the empty transaction under that
  -- name.
  pub new_transaction_iff :
      (name : Bytes) (txs : Txs f)
      → (new_transaction f now name txs ≡ (ok tt, insert name (f.new_tx now) txs))
        ↔ ((lookup name txs ≡ none) × (1 ≤ length name) × (length name ≤ 32) × All IsNameByte name)
  new_transaction_iff name txs =
      let tests = new_transaction-tests name txs in
      let bytes = all_name_bytes_iff name in
      (
        λ h. let (absent, least, most, all) = tests.0 h in (absent, least, most, bytes.0 all),
        λ (absent, least, most, all). tests.1 (absent, least, most, bytes.1 all),
      )
