-- ===== src/Wallet/Transactions.antt =====
-- The temporary transactions of a wallet (wallet/transaction.go). The map holds pointers, and each
-- of its objects stands under one name only, so that a change of the object is a write to the map.
-- Each operation holds the mutex while it reads or writes the map.
use mathlib.Core.Option
use factom.Base.{
  ℕ, suc, Bool, true, false, not, ◌&&◌, ◌||◌, Option, none, some, List, [], ◌∷◌, Bytes, length,
  take, drop, bytes_eq, ltb, leb, ◌==◌, if◌then◌else◌, Result, ok, err, Error,
}
use factom.Base.Dict.{Dict, lookup, insert, erase}
use factom.Base.Int.{ℤ}
use factom.Crypto.{Crypto}
use factom.Address.Strings.{
  AddressStringType, factoid_pub, factoid_sec, ec_pub, ec_sec, invalid_address,
}
use factom.Address.FactoidAddress.{FactoidAddress}
use factom.Wallet.Factoid.{Factoid, TransAddress}

-- What the operations read: `GetFCTAddress` of the wallet's database, `GetFactoidBalance` and
-- `GetRate`.
pub record Sources : Type 0 where
  pub get_fct_address : Bytes → Result FactoidAddress
  pub get_factoid_balance : Bytes → Result ℤ
  pub get_rate : Result ℕ

-- A byte that `[^a-zA-Z0-9_-]` does not match.
unfoldable pub is_name_byte : ℕ → Bool
is_name_byte b =
    (leb b'a' b && leb b b'z')
    || ((leb b'A' b && leb b b'Z') || ((leb b'0' b && leb b b'9') || (b == b'_' || b == b'-')))

unfoldable pub all_name_bytes : Bytes → Bool
unfolding is_name_byte
all_name_bytes [] = true
all_name_bytes (b ∷ s) = is_name_byte b && all_name_bytes s

-- The index of the first pair with an address: the loops that return inside `IsSameAs`.
unfoldable pub find_address : Bytes → List TransAddress → Option (ℕ × ℕ)
find_address adr [] = none
find_address adr (t ∷ ts) =
    let rest = Option.map (λ p. (suc p.0, p.1)) (find_address adr ts) in
    if bytes_eq t.address adr then some (0, t.amount) else rest

abbrev pub is_factoid_pub : AddressStringType → Bool
is_factoid_pub factoid_pub = true
is_factoid_pub factoid_sec = false
is_factoid_pub ec_pub = false
is_factoid_pub ec_sec = false
is_factoid_pub invalid_address = false

abbrev pub is_ec_pub : AddressStringType → Bool
is_ec_pub ec_pub = true
is_ec_pub factoid_pub = false
is_ec_pub factoid_sec = false
is_ec_pub ec_sec = false
is_ec_pub invalid_address = false

-- `base58.Decode(address)[2:34]`
abbrev pub decoded_key : Crypto → Bytes → Bytes
decoded_key c address = drop 2 (take 34 (c.base58_decode address))

-- `err == leveldb.ErrNotFound` becomes ErrNoSuchAddress.
abbrev pub no_such : {A : Type 0} → Result A → Result A
no_such (ok a) = ok a
no_such (err Error.leveldb_not_found) = err Error.no_such_address
no_such (err e) = err e

module _ (f : Factoid) where
  -- The wallet's map of transactions.
  abbrev pub Txs : Type 0
  Txs = Dict f.Tx

  -- `TransactionExists`
  unfoldable pub transaction_exists : Bytes → Txs → Bool
  transaction_exists name txs = elim (lookup name txs) [ none ↦ false | some _ ↦ true ]

  -- `GetTransaction`
  unfoldable pub get_transaction : Bytes → Txs → Result f.Tx
  get_transaction name txs = elim (lookup name txs) [
    | none ↦ err Error.tx_not_exists
    | some tx ↦ ok tx
  ]

  -- The state after an operation that changes the transaction of that name, or fails.
  abbrev pub store : Bytes → Txs → Result f.Tx → Result (Unit {0}) × Txs
  store name txs (ok tx) = (ok tt, insert name tx txs)
  store name txs (err e) = (err e, txs)

  -- `NewTransaction`, at a time.
  unfoldable pub new_transaction : ℕ → Bytes → Txs → Result (Unit {0}) × Txs
  new_transaction now name txs =
      if transaction_exists name txs
      then (err Error.tx_exists, txs)
      else if length name == 0
      then (err Error.tx_invalid_name, txs)
      else if ltb 32 (length name)
      then (err Error.tx_invalid_name, txs)
      else if not (all_name_bytes name)
      then (err Error.tx_invalid_name, txs)
      else (ok tt, insert name (f.new_tx now) txs)

  -- `DeleteTransaction`
  unfoldable pub delete_transaction : Bytes → Txs → Result (Unit {0}) × Txs
  delete_transaction name txs =
      if not (transaction_exists name txs)
      then (err Error.tx_not_exists, txs)
      else (ok tt, erase name txs)
