-- ===== src/TxDatabase.antt =====
-- The cache of factoid blocks (wallet/txdatabase.go) and the queries of transactions on it. The
-- database overlay, the blocks and their transactions are factomd's: a parameter.
pub mod Update
pub mod Queries
pub mod Walk
pub mod Ranges
pub mod Fetched
pub mod Addresses
use factom.Base.{
  ℕ, zero, suc, ◌+◌, ◌-◌, ◌*◌, ◌/◌, ◌%◌, ◌^◌, ◌≤◌, ◌<◌, ◌≡◌, ◌≢◌, ◌↔◌, ◌⊎◌, ◌∙◌, inl, inr, refl,
  sym, ap, Bool, true, false, not, ◌&&◌, ◌||◌, Option, none, some, List, [], ◌∷◌, ◌++◌, map,
  append_assoc, append-nil, arith, Bytes, codes, length, take, drop, replicate, copy, bytes_eq, ltb,
  leb, ◌==◌, if◌then◌else◌, Result, ok, err, Error, ◌>>=◌, ◌>>◌, fail_if, All, IsByte, Bool-cases,
  Option-cases, length-append,
}
use factom.Base.Hex.{decode_string}
use factom.Reader.{zero_hash}

pub record TxApi : Type 1 where
  pub DB : Type 0
  pub FBlock : Type 0
  pub Tx : Type 0
  -- `GetDatabaseHeight` and `GetDBHeight`, a uint32 each; `GetTransactions`;
  -- `GetPrevKeyMR().String()` and `GetKeyMR().String()`
  pub height : FBlock → ℕ
  pub db_height : FBlock → ℕ
  pub transactions : FBlock → List Tx
  pub prev_key_mr : FBlock → Bytes
  pub key_mr : FBlock → Bytes
  -- `TotalInputs`, `TotalOutputs`, `SetBlockHeight`, `GetSigHash().String()`
  pub total_inputs : Tx → Result ℕ
  pub total_outputs : Tx → Result ℕ
  pub set_block_height : Tx → ℕ → Tx
  pub sig_hash : Tx → Bytes
  -- the addresses of `GetInputs`, `GetOutputs` and `GetECOutputs`, as `ConvertFctAddressToUserStr`
  -- and `ConvertECAddressToUserStr` print them
  pub input_addresses : Tx → List Bytes
  pub output_addresses : Tx → List Bytes
  pub ec_addresses : Tx → List Bytes
  -- `primitives.NewShaHashFromStr`, by the hash that it reads
  pub new_sha_hash : Bytes → Result Bytes
  -- `FetchFBlockHead`, `FetchFBlock`, `FetchFBlockByHeight`
  pub fetch_fblock_head : DB → Result (Option FBlock)
  pub fetch_fblock : DB → Bytes → Result (Option FBlock)
  pub fetch_fblock_by_height : DB → ℕ → Result (Option FBlock)
  -- `StartMultiBatch`, `ProcessFBlockMultiBatch`, `ExecuteMultiBatch`
  pub start_multi_batch : DB → DB
  pub process_fblock : DB → FBlock → DB
  pub execute_multi_batch : DB → Result (Unit {0}) × DB
  -- `factoid.UnmarshalFBlock`, and `directoryBlock.UnmarshalDBlock` by the chain ids and key Merkle
  -- roots of its entries
  pub unmarshal_fblock : Bytes → Result FBlock
  pub unmarshal_dblock : Bytes → Result (List (Bytes × Bytes))

-- The calls of factomd that an update makes: `GetDBlockHead`, `GetDBlock` by the chain ids and key
-- Merkle roots of its `EntryBlockList`, `GetRaw`, and the `RawData` of `GetFBlockByHeight` and
-- `GetDBlockByHeight`.
pub record Factomd : Type 0 where
  pub get_dblock_head : Result Bytes
  pub get_dblock : Bytes → Result (List (Bytes × Bytes))
  pub get_raw : Bytes → Result Bytes
  pub get_fblock_by_height : ℕ → Result Bytes
  pub get_dblock_by_height : ℕ → Result Bytes

-- The chain of the factoid blocks.
unfoldable pub fblock_id : Bytes
fblock_id = replicate 63 b'0' ++ b'f' ∷ []

-- The key Merkle root of the last entry with the chain id, and of the first.
unfoldable pub last_of : Bytes → List (Bytes × Bytes) → Bytes → Bytes
last_of id [] found = found
last_of id ((chain_id, key_mr) ∷ entries) found =
    last_of id entries (if bytes_eq chain_id id then key_mr else found)

unfoldable pub first_of : Bytes → List (Bytes × Bytes) → Option Bytes
first_of id [] = none
first_of id ((chain_id, key_mr) ∷ entries) =
    let rest = first_of id entries in if bytes_eq chain_id id then some key_mr else rest

module _ (api : TxApi) (node : Factomd) where
  -- `getfblock`
  unfoldable pub get_fblock_raw : Bytes → Result api.FBlock
  get_fblock_raw key_mr = do p ← node.get_raw key_mr; api.unmarshal_fblock p

  -- `getfblockbyheight`
  unfoldable pub get_fblock_by_height : ℕ → Result api.FBlock
  get_fblock_by_height height = do
    p ← node.get_fblock_by_height height
    h ← decode_string p
    api.unmarshal_fblock h

  -- `getdblockbyheight`
  unfoldable pub get_dblock_by_height : ℕ → Result (List (Bytes × Bytes))
  get_dblock_by_height height = do
    p ← node.get_dblock_by_height height
    h ← decode_string p
    api.unmarshal_dblock h

  -- `fblockHead`; without an entry for the chain it returns nil, and a nil error.
  unfoldable pub fblock_head : Result (Option api.FBlock)
  fblock_head = do
    dbhead ← node.get_dblock_head
    entries ← node.get_dblock dbhead
    let fblockmr = last_of fblock_id entries []
    elim fblockmr [ [] ↦ ok none | b ∷ mr ↦ get_fblock_raw (b ∷ mr) >>= λ block. ok (some block) ]

module _ (api : TxApi) where
  -- `GetFBlock`
  unfoldable pub get_fblock : api.DB → Bytes → Result (Option api.FBlock)
  get_fblock db key_mr = do h ← api.new_sha_hash key_mr; api.fetch_fblock db h

  -- `FetchNextFBlockHeight`, a uint32
  unfoldable pub fetch_next_fblock_height : api.DB → Result ℕ
  fetch_next_fblock_height db = do
    head ← api.fetch_fblock_head db
    elim head [ none ↦ ok 0 | some block ↦ ok ((api.db_height block + 1) % 2 ^ 32) ]
