-- ===== src/WalletApi/Cached.antt =====
-- The handlers that read the cache of factoid blocks, and the versions (wallet/wsapi/wsapi.go).
-- factomd's answers to the update of the cache are a parameter, whose requests are not counted.
use factom.Base.{
  ℕ, zero, Bool, Option, none, some, List, [], ◌∷◌, map, Bytes, Result, ok, err, Error, ◌>>=◌,
}
use factom.Base.{internally, no_transaction_database, nil_dereference}
use factom.Base.Int.{ℤ, pos}
use factom.Crypto.{Crypto}
use factom.Wallet.Factoid.{Factoid}
use factom.Rpc.Request.{Json2Request}
use factom.Rpc.Client.{Json2Response, Unmarshal, get_raw}
use factom.Rpc.Transactions.{Transaction}
use factom.TxDatabase.{TxApi, Factomd}
use factom.TxDatabase.Queries.{get_all_txs, get_tx_address, get_tx_range}
use factom.WalletApi.Addresses.{read_params}
use factom.WalletApi.Transactions.{View, factoid_tx_to_transaction}

-- `txdbRequest`
pub record TxdbRequest : Type 0 where
  pub txid : Bytes
  pub address : Bytes
  pub start : ℤ
  pub end : ℤ

-- What `new(txdbRequest)` holds.
unfoldable pub new_txdb_request : TxdbRequest
new_txdb_request = record { txid = []; address = []; start = pos 0; end = pos 0 }

-- The request that was read; without parameters it stays new.
unfoldable pub txdb_request_of : Option (Result TxdbRequest) → Result TxdbRequest
txdb_request_of none = ok new_txdb_request
txdb_request_of (some params) = read_params params

-- The four ways to ask for transactions, in the order in which they are tried.
pub data TxQuery : Type 0 where
  by_txid : Bytes → TxQuery
  by_address : Bytes → TxQuery
  by_range : ℤ → ℤ → TxQuery
  every : TxQuery

unfoldable pub query_of : TxdbRequest → TxQuery
query_of req = elim req.txid [
  | b ∷ txid ↦ by_txid (b ∷ txid)
  | [] ↦ elim req.address [
    | b ∷ address ↦ by_address (b ∷ address)
    | [] ↦ elim req.end [ pos zero ↦ every | _ ↦ by_range req.start req.end ]
  ]
]

module _ (f : Factoid) (view : View f) where
  -- The loops over the transactions.
  unfoldable pub show_each : List f.Tx → Result (List Transaction)
  show_each [] = ok []
  show_each (t ∷ txs) = do
    r ← internally (factoid_tx_to_transaction f view t)
    rest ← show_each txs
    ok (r ∷ rest)

-- A transaction of the cache is handed on as it is.
module _ (f : Factoid) (view : View f) (c : Crypto) (api : TxApi) (tx_of : api.Tx → f.Tx)
    (node : Factomd) (quit : ℕ → Bool) (fuel : ℕ)
    (factomd_request : Json2Request → Result Json2Response) (json : Unmarshal) where
  -- What a query of the cache shows.
  unfoldable pub shown :
      Option (Result (List api.Tx) × api.DB) → Option (Result (List Transaction) × api.DB)
  shown none = none
  shown (some (r, db)) = some (internally r >>= λ txs. show_each f view (map tx_of txs), db)

  -- The cases, on the cache and the count of `APICounter`.
  unfoldable pub answer_query :
      TxQuery → api.DB → ℕ → Option (Result (List Transaction) × api.DB) × ℕ
  answer_query (by_txid txid) db count =
      let (raw, n) = get_raw factomd_request json txid count in
      (
        some (
          do p ← internally raw; t ← internally (f.unmarshal_binary p); show_each f view (t ∷ []),
          db,
        ),
        n,
      )
  answer_query (by_address address) db count =
      (shown (get_tx_address api node quit fuel c address db), count)
  answer_query (by_range start end) db count =
      (shown (get_tx_range api node quit fuel start end db), count)
  answer_query every db count = (shown (get_all_txs api node quit fuel db), count)

  -- `handleAllTransactions`
  unfoldable pub handle_all_transactions :
      Option (Result TxdbRequest)
      → Option api.DB
      → ℕ
      → Option (Result (List Transaction) × Option api.DB) × ℕ
  handle_all_transactions params none count =
      (some (err (Error.internal no_transaction_database), none), count)
  handle_all_transactions params (some db) count = elim (txdb_request_of params) [
    | err e ↦ (some (err e, some db), count)
    | ok req ↦
        let (r, n) = answer_query (query_of req) db count in
        (elim r [ none ↦ none | some (shows, db') ↦ some (shows, some db') ], n)
  ]

  -- `handleGetHeight`; there is a cache, or a nil dereference.
  unfoldable pub handle_get_height : Option api.DB → Result ℤ
  handle_get_height none = err nil_dereference
  handle_get_height (some db) = do
    head ← internally (api.fetch_fblock_head db)
    elim head [ none ↦ ok (pos 0) | some block ↦ ok (pos (api.db_height block)) ]

-- `propertiesResponse`
pub record PropertiesResponse : Type 0 where
  pub wallet_version : Bytes
  pub wallet_api_version : Bytes

-- `handleProperties`, on the versions that the build sets.
unfoldable pub handle_properties : Bytes → Bytes → Result PropertiesResponse
handle_properties version api_version =
    ok (record { wallet_version = version; wallet_api_version = api_version })
