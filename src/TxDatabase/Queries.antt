-- ===== src/TxDatabase/Queries.antt =====
-- The queries of wallet/txdatabase.go. Each updates the cache first.
use factom.Base.{
  ℕ, zero, suc, ◌%◌, ◌^◌, Bool, true, false, not, ◌&&◌, ◌||◌, Option, none, some, List, [], ◌∷◌,
  ◌++◌, Bytes, bytes_eq, leb, ◌==◌, if◌then◌else◌, Result, ok, err, Error, ◌>>=◌,
}
use factom.Base.Int.{ℤ, pos_part, ltb_ℤ, pos}
use factom.Crypto.{Crypto}
use factom.Address.Strings.{address_string_type}
use factom.Wallet.Transactions.{is_factoid_pub, is_ec_pub}
use factom.Reader.{zero_hash}
use factom.TxDatabase.{TxApi, Factomd, get_fblock}
use factom.TxDatabase.Update.{update}

module _ (api : TxApi) where
  -- The loop over the transactions of a block: those that move factoids are kept.
  unfoldable pub collect : ℕ → List api.Tx → List api.Tx → Result (List api.Tx)
  collect height [] txs = ok txs
  collect height (tx ∷ more) txs = do
    ins ← api.total_inputs tx
    outs ← api.total_outputs tx
    collect height more (
        if not (ins == 0) || not (outs == 0)
        then txs ++ api.set_block_height tx height ∷ []
        else txs)

  -- The block before, which must be there.
  unfoldable pub get_previous : api.DB → Bytes → Result api.FBlock
  get_previous db pre = do
    block ← get_fblock api db pre
    elim block [ none ↦ err (Error.missing_fblock pre) | some b ↦ ok b ]

  -- The loop of `GetAllTXs`, on fuel.
  unfoldable pub walk_all : ℕ → api.DB → api.FBlock → List api.Tx → Option (Result (List api.Tx))
  walk_all zero db block txs = none
  walk_all (suc fuel) db block txs =
      elim (collect (api.height block) (api.transactions block) txs) [
        | err e ↦ some (err e)
        | ok txs' ↦ elim (bytes_eq (api.prev_key_mr block) zero_hash) [
          | true ↦ some (ok txs')
          | false ↦ elim (get_previous db (api.prev_key_mr block)) [
            | err e ↦ some (err e)
            | ok before ↦ walk_all fuel db before txs'
          ]
        ]
      ]

  -- What `GetTXRange` takes from a block: nothing, if its height is out of range.
  unfoldable pub collect_in_range : ℕ → ℕ → api.FBlock → List api.Tx → Result (List api.Tx)
  collect_in_range s e block txs =
      if leb s (api.height block) && leb (api.height block) e
      then collect (api.height block) (api.transactions block) txs
      else ok txs

  -- The loop of `GetTXRange`, on fuel.
  unfoldable pub walk_range :
      ℕ → ℕ → ℕ → api.DB → api.FBlock → List api.Tx → Option (Result (List api.Tx))
  walk_range zero s e db block txs = none
  walk_range (suc fuel) s e db block txs = elim (collect_in_range s e block txs) [
    | err x ↦ some (err x)
    | ok txs' ↦ elim (leb (api.height block) s || bytes_eq (api.prev_key_mr block) zero_hash) [
      | true ↦ some (ok txs')
      | false ↦ elim (get_previous db (api.prev_key_mr block)) [
        | err x ↦ some (err x)
        | ok before ↦ walk_range fuel s e db before txs'
      ]
    ]
  ]

  -- The head from which the loops begin.
  unfoldable pub synced_head : api.DB → Result api.FBlock
  synced_head db = do
    head ← api.fetch_fblock_head db
    elim head [ none ↦ err Error.fblock_not_synced | some block ↦ ok block ]

  -- What follows a successful update.
  unfoldable pub all_from : ℕ → api.DB → Option (Result (List api.Tx))
  all_from fuel db = elim (synced_head db) [
    | err e ↦ some (err e)
    | ok block ↦ walk_all fuel db block []
  ]

  unfoldable pub range_from : ℕ → ℕ → ℕ → api.DB → Option (Result (List api.Tx))
  range_from fuel s e db = elim (synced_head db) [
    | err x ↦ some (err x)
    | ok block ↦ walk_range fuel s e db block []
  ]

  -- The loop of `GetTX`.
  unfoldable find_tx : Bytes → List api.Tx → Result api.Tx
  find_tx txid [] = err Error.transaction_not_found
  find_tx txid (tx ∷ txs) =
      let rest = find_tx txid txs in if bytes_eq (api.sig_hash tx) txid then ok tx else rest

  -- A loop of `GetTXAddress` over the addresses of a transaction, which adds it at each match.
  unfoldable pub add_matches : Bytes → List Bytes → api.Tx → List api.Tx → List api.Tx
  add_matches adr [] tx filtered = filtered
  add_matches adr (a ∷ addresses) tx filtered =
      add_matches adr addresses tx (if bytes_eq a adr then filtered ++ tx ∷ [] else filtered)

  unfoldable pub filter_factoid : Bytes → List api.Tx → List api.Tx → List api.Tx
  filter_factoid adr [] filtered = filtered
  filter_factoid adr (tx ∷ txs) filtered = filter_factoid adr txs (
      add_matches adr (api.output_addresses tx) tx
        (add_matches adr (api.input_addresses tx) tx filtered))

  unfoldable pub filter_ec : Bytes → List api.Tx → List api.Tx → List api.Tx
  filter_ec adr [] filtered = filtered
  filter_ec adr (tx ∷ txs) filtered =
      filter_ec adr txs (add_matches adr (api.ec_addresses tx) tx filtered)

  unfoldable pub filter_address : Crypto → Bytes → List api.Tx → Result (List api.Tx)
  filter_address c adr txs =
      if is_factoid_pub (address_string_type c adr)
      then ok (filter_factoid adr txs [])
      else if is_ec_pub (address_string_type c adr)
      then ok (filter_ec adr txs [])
      else err Error.not_an_address

-- An update, and then a query on what it leaves.
module _ (api : TxApi) (node : Factomd) (quit : ℕ → Bool) (fuel : ℕ) where
  unfoldable pub updated :
      (api.DB → Option (Result (List api.Tx))) → api.DB → Option (Result (List api.Tx) × api.DB)
  updated query db = elim (update api node quit fuel db) [
    | none ↦ none
    | some (err e, db') ↦ some (err e, db')
    | some (ok _, db') ↦ elim (query db') [ none ↦ none | some r ↦ some (r, db') ]
  ]

  -- `GetAllTXs`
  unfoldable pub get_all_txs : api.DB → Option (Result (List api.Tx) × api.DB)
  get_all_txs = updated (all_from api fuel)

  -- `GetTX`
  unfoldable get_tx : Bytes → api.DB → Option (Result api.Tx × api.DB)
  get_tx txid db = elim (get_all_txs db) [
    | none ↦ none
    | some (r, db') ↦ some (r >>= find_tx api txid, db')
  ]

  -- `GetTXAddress`
  unfoldable pub get_tx_address : Crypto → Bytes → api.DB → Option (Result (List api.Tx) × api.DB)
  get_tx_address c adr db = elim (get_all_txs db) [
    | none ↦ none
    | some (r, db') ↦ some (r >>= filter_address api c adr, db')
  ]

  -- `GetTXRange`; the bounds are converted to a uint32 each.
  unfoldable pub get_tx_range : ℤ → ℤ → api.DB → Option (Result (List api.Tx) × api.DB)
  get_tx_range start end db =
      if ltb_ℤ start (pos 0) || (ltb_ℤ end (pos 0) || ltb_ℤ end start)
      then some (err Error.invalid_range, db)
      else updated (range_from api fuel (pos_part start % 2 ^ 32) (pos_part end % 2 ^ 32)) db
