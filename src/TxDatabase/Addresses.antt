-- ===== src/TxDatabase/Addresses.antt =====
-- What `GetTXAddress` and `GetTX` return.
use factom.Base.{
  ℕ, ◌≡◌, inl, inr, refl, Bool, some, List, [], ◌∷◌, ◌++◌, append_assoc, append-nil, Bytes,
  bytes_eq, if◌then◌else◌, Result, ok, err, Error, Bool-cases,
}
use factom.Crypto.{Crypto}
use factom.Address.Strings.{
  AddressStringType, address_string_type, invalid_address, factoid_pub, factoid_sec, ec_pub, ec_sec,
}
use factom.TxDatabase.{TxApi, Factomd}
use factom.Wallet.Transactions.{is_factoid_pub, is_ec_pub}
use factom.TxDatabase.Queries.{
  add_matches, filter_factoid, filter_ec, filter_address, get_all_txs, get_tx_address,
}

module _ (api : TxApi) where
  -- A transaction, as often as an address stands in a list.
  unfoldable pub each_time : Bytes → List Bytes → api.Tx → List api.Tx
  each_time adr [] tx = []
  each_time adr (a ∷ addresses) tx =
      let rest = each_time adr addresses tx in if bytes_eq a adr then tx ∷ rest else rest

  -- Each transaction as often as the address stands among its own.
  unfoldable pub each_mention : (api.Tx → List Bytes) → Bytes → List api.Tx → List api.Tx
  each_mention own adr [] = []
  each_mention own adr (tx ∷ txs) = each_time adr (own tx) tx ++ each_mention own adr txs

  each_time-append :
      (adr : Bytes) (xs ys : List Bytes) (tx : api.Tx)
      → each_time adr (xs ++ ys) tx ≡ each_time adr xs tx ++ each_time adr ys tx
  unfolding each_time
  each_time-append adr [] ys tx = refl
  each_time-append adr (x ∷ xs) ys tx = elim (Bool-cases (bytes_eq x adr)) [
    | inl here ↦ rw (here, each_time-append adr xs ys tx)
    | inr other ↦ rw (other, each_time-append adr xs ys tx)
  ]

  add_matches-each_time :
      (adr : Bytes) (addresses : List Bytes) (tx : api.Tx) (found : List api.Tx)
      → add_matches api adr addresses tx found ≡ found ++ each_time adr addresses tx
  unfolding add_matches each_time
  add_matches-each_time adr [] tx found = rw append-nil
  add_matches-each_time adr (a ∷ addresses) tx found = elim (Bool-cases (bytes_eq a adr)) [
    | inl here ↦ rw (here, add_matches-each_time adr addresses tx (found ++ tx ∷ []), append_assoc)
    | inr other ↦ rw (other, add_matches-each_time adr addresses tx found)
  ]

  filter_factoid-each_mention :
      (adr : Bytes) (txs found : List api.Tx)
      → filter_factoid api adr txs found
        ≡ found ++ each_mention (λ tx. api.input_addresses tx ++ api.output_addresses tx) adr txs
  unfolding filter_factoid each_mention
  filter_factoid-each_mention adr [] found = rw append-nil
  filter_factoid-each_mention adr (tx ∷ txs) found = rw (
    add_matches-each_time adr (api.input_addresses tx) tx found,
    add_matches-each_time adr (api.output_addresses tx) tx,
    filter_factoid-each_mention adr txs,
    each_time-append adr (api.input_addresses tx) (api.output_addresses tx) tx,
    append_assoc,
    append_assoc,
    append_assoc,
  )

  filter_ec-each_mention :
      (adr : Bytes) (txs found : List api.Tx)
      → filter_ec api adr txs found ≡ found ++ each_mention api.ec_addresses adr txs
  unfolding filter_ec each_mention
  filter_ec-each_mention adr [] found = rw append-nil
  filter_ec-each_mention adr (tx ∷ txs) found = rw (
    add_matches-each_time adr (api.ec_addresses tx) tx found,
    filter_ec-each_mention adr txs,
    append_assoc,
  )

  -- The choice of a filter by the type of the address.
  filter_by_type :
      (adr : Bytes) (txs : List api.Tx) (t : AddressStringType)
      → (if is_factoid_pub t
          then ok (filter_factoid api adr txs [])
          else if is_ec_pub t
          then ok (filter_ec api adr txs [])
          else err Error.not_an_address)
        ≡ elim t as (λ _. Result (List api.Tx)) [
          | factoid_pub ↦
              ok (each_mention (λ tx. api.input_addresses tx ++ api.output_addresses tx) adr txs)
          | ec_pub ↦ ok (each_mention api.ec_addresses adr txs)
          | _ ↦ err Error.not_an_address
        ]
  filter_by_type adr txs factoid_pub = rw (filter_factoid-each_mention adr txs [])
  filter_by_type adr txs ec_pub = rw (filter_ec-each_mention adr txs [])
  filter_by_type adr txs invalid_address = refl
  filter_by_type adr txs factoid_sec = refl
  filter_by_type adr txs ec_sec = refl

  module _ (node : Factomd) (quit : ℕ → Bool) (fuel : ℕ) (c : Crypto) (adr : Bytes)
      (db : api.DB) where
    -- `GetTXAddress` returns each of all transactions as often as a factoid address stands among
    -- its inputs and outputs, or an entry credit address among its EC outputs: one that sends
    -- change back to its sender is returned twice. Any other string is refused.
    pub get_tx_address-each_mention :
        (txs : List api.Tx) {db' : api.DB}
        → get_all_txs api node quit fuel db ≡ some (ok txs, db')
        → get_tx_address api node quit fuel c adr db
          ≡ some (
            (elim (address_string_type c adr) as (λ _. Result (List api.Tx)) [
              | factoid_pub ↦
                  ok
                    (each_mention (λ tx. api.input_addresses tx ++ api.output_addresses tx) adr txs)
              | ec_pub ↦ ok (each_mention api.ec_addresses adr txs)
              | _ ↦ err Error.not_an_address
            ]),
            db',
          )
    unfolding get_tx_address filter_address
    get_tx_address-each_mention txs all =
        rw (get_tx_address, all, filter_address, filter_by_type adr txs (address_string_type c adr))
