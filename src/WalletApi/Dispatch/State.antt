-- ===== src/WalletApi/Dispatch/State.antt =====
-- The state of the wallet's server, and the handlers on its parts.
use factom.Base.{List, ℕ, Option, none, some, Bytes, Result, ok, err, ◌>>=◌}
use factom.Base.{nil_dereference, invalid_params}
use factom.Wallet.Transactions.{Sources, Txs}
use factom.WalletDatabase.Tables.{get_fct_address}
use factom.WalletApi.Lock.{handle_wallet_passphrase}
use factom.WalletApi.Cached.{
  TxdbRequest, handle_all_transactions, handle_get_height, handle_properties,
}
use factom.WalletApi.Dispatch.{
  Transaction, Env, Response, multi_transaction_response, properties_response, height_response,
  unlock_response,
}

-- A request to the API: its time in nanoseconds, `Method` and `Params`.
pub record Call : Type 0 where
  pub now : ℕ
  pub method : Bytes
  pub params : Option Bytes

-- What the wallet keeps: the database, which may not be open yet, the temporary transactions, the
-- cache, if there is one, and the count of `APICounter`.
pub record WalletState (env : Env) : Type 0 where
  pub overlay : Option env.store.DB
  pub transactions : Txs env.factoid
  pub cache : Option env.api.DB
  pub count : ℕ

-- `json.Unmarshal` refuses parameters that are missing.
unfoldable pub read_from : {A : Type 0} → (Bytes → Result A) → Option Bytes → Result A
read_from read none = err invalid_params
read_from read (some b) = read b

module _ (env : Env) where
  -- An answer, and the state after it.
  abbrev pub Served : Type 0
  Served = Result Response × WalletState env

  -- A handler that may change the database.
  unfoldable pub on_db :
      {A : Type 0}
      → (A → Response)
      → (env.store.DB → Result A × env.store.DB)
      → WalletState env
      → Served
  on_db respond handler s = elim s.overlay [
    | none ↦ (err nil_dereference, s)
    | some db ↦
        let (r, db') = handler db in (r >>= λ a. ok (respond a), record s { overlay = some db' })
  ]

  -- A handler that reads it.
  unfoldable pub of_db :
      {A : Type 0} → (A → Response) → (env.store.DB → Result A) → WalletState env → Served
  of_db respond handler = on_db respond (λ db. (handler db, db))

  -- What the transactions are made from.
  unfoldable pub sources_of : env.store.DB → Sources
  sources_of db = record {
    get_fct_address = λ a. get_fct_address env.store env.crypto a db;
    get_factoid_balance = env.balance_of;
    get_rate = env.rate;
  }

  -- A handler of temporary transactions.
  unfoldable pub on_transactions :
      {A : Type 0}
      → (A → Response)
      → (Sources → Txs env.factoid → Result A × Txs env.factoid)
      → WalletState env
      → Served
  on_transactions respond handler s = elim s.overlay [
    | none ↦ (err nil_dereference, s)
    | some db ↦
        let (r, txs) = handler (sources_of db) s.transactions in
        (r >>= λ a. ok (respond a), record s { transactions = txs })
  ]

  -- A handler that composes requests.
  unfoldable pub on_count :
      {A : Type 0} → (A → Response) → (env.store.DB → ℕ → Result A × ℕ) → WalletState env → Served
  on_count respond handler s = elim s.overlay [
    | none ↦ (err nil_dereference, s)
    | some db ↦
        let (r, n) = handler db s.count in (r >>= λ a. ok (respond a), record s { count = n })
  ]

  unfoldable pub serve_height : WalletState env → Served
  serve_height s = (
    handle_get_height env.factoid env.view env.crypto env.api env.tx_of env.node env.quit
          env.cache_fuel env.factomd_request env.json s.cache
        >>= λ h. ok (height_response h),
    s,
  )

  unfoldable pub serve_properties : WalletState env → Served
  serve_properties s =
      (handle_properties env.version env.api_version >>= λ p. ok (properties_response p), s)

  -- What a query of the cache leaves.
  unfoldable pub with_cache :
      WalletState env → Option (Result (List Transaction) × Option env.api.DB) × ℕ → Option Served
  with_cache s (none, n) = none
  with_cache s (some (shown, cache), n) =
      some (
        shown >>= λ txs. ok (multi_transaction_response txs),
        record s { cache = cache; count = n },
      )

  unfoldable pub serve_transactions : Option Bytes → WalletState env → Option Served
  serve_transactions params s =
      let read = elim params as (λ _. Option (Result TxdbRequest)) [
        | none ↦ none
        | some b ↦ some (env.readers.txdb b)
      ] in
      with_cache s (
        handle_all_transactions env.factoid env.view env.crypto env.api env.tx_of env.node env.quit
          env.cache_fuel env.factomd_request env.json read s.cache s.count)

  unfoldable pub serve_unlock : ℕ → Option Bytes → WalletState env → Served
  serve_unlock now params s =
      let (r, overlay) =
        handle_wallet_passphrase env.store env.gob env.secure env.mnemonic env.encrypted now
          (read_from env.readers.passphrase params) s.overlay in
      (r >>= λ u. ok (unlock_response u), record s { overlay = overlay })
