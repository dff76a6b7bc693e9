-- ===== src/Tests/Caching.antt =====
-- A cache of factoid blocks as a list, and a factomd with three blocks.
use factom.Base.{
  ℕ, zero, suc, ◌+◌, ◌-◌, ◌*◌, ◌/◌, ◌%◌, ◌^◌, ◌≤◌, ◌<◌, ◌≡◌, ◌≢◌, ◌↔◌, ◌⊎◌, ◌∙◌, inl, inr, refl,
  sym, ap, Bool, true, false, not, ◌&&◌, ◌||◌, Option, none, some, List, [], ◌∷◌, ◌++◌, map,
  append_assoc, append-nil, arith, Bytes, codes, length, take, drop, replicate, copy, bytes_eq, ltb,
  leb, ◌==◌, if◌then◌else◌, Result, ok, err, Error, ◌>>=◌, ◌>>◌, fail_if, All, IsByte, Bool-cases,
  Option-cases, length-append,
}
use factom.Tests.{toy_crypto}
use factom.Tests.Addresses.{factoid_address}
use factom.Address.FactoidAddress
use factom.Reader.{zero_hash}
use factom.Base.Int.{pos}
use factom.TxDatabase.{TxApi, Factomd, fblock_id}
use factom.TxDatabase.Update.{update}
use factom.TxDatabase.Queries.{get_all_txs, get_tx_range, get_tx_address}
use factom.TxDatabase.Fetched.{update-misses_newest}
use factom.TxDatabase.Ranges.{get_all_txs-IsChain, get_tx_range-IsChain}
use factom.TxDatabase.Addresses.{get_tx_address-each_mention}

pub record Tx : Type 0 where
  pub amount : ℕ
  pub height : ℕ
  pub inputs : List Bytes
  pub outputs : List Bytes

pub record FBlock : Type 0 where
  pub height : ℕ
  pub previous : Bytes
  pub transactions : List Tx

-- The key Merkle root of a block names its height.
abbrev pub key_mr : FBlock → Bytes
key_mr b = b.height ∷ []

abbrev sender : Bytes
sender = FactoidAddress.public_string toy_crypto factoid_address

abbrev coinbase : Tx
coinbase = record { amount = 0; height = 0; inputs = []; outputs = [] }

abbrev payment : ℕ → Tx
payment h = record { amount = 5; height = h; inputs = sender ∷ []; outputs = sender ∷ [] }

abbrev pub block : ℕ → FBlock
block zero = record { height = 0; previous = zero_hash; transactions = coinbase ∷ payment 0 ∷ [] }
block (suc h) = record {
  height = suc h;
  previous = h ∷ [];
  transactions = coinbase ∷ payment 0 ∷ [];
}

abbrev pub find : (FBlock → Bool) → List FBlock → Option FBlock
find test [] = none
find test (b ∷ blocks) = let rest = find test blocks in if test b then some b else rest

abbrev pub last : List FBlock → Option FBlock
last [] = none
last (b ∷ []) = some b
last (b ∷ b1 ∷ blocks) = last (b1 ∷ blocks)

abbrev pub block_of : Bytes → Result FBlock
block_of [] = err Error.hex_length
block_of (h ∷ p) = ok (block h)

abbrev pub toy_api : TxApi
toy_api = record {
  DB = List FBlock;
  FBlock = FBlock;
  Tx = Tx;
  height = λ b. b.height;
  db_height = λ b. b.height;
  transactions = λ b. b.transactions;
  prev_key_mr = λ b. b.previous;
  key_mr = key_mr;
  total_inputs = λ tx. ok tx.amount;
  total_outputs = λ tx. ok tx.amount;
  set_block_height = λ tx h. record tx { height = h };
  sig_hash = λ tx. tx.amount ∷ [];
  input_addresses = λ tx. tx.inputs;
  output_addresses = λ tx. tx.outputs;
  ec_addresses = λ tx. [];
  new_sha_hash = λ s. ok s;
  fetch_fblock_head = λ db. ok (last db);
  fetch_fblock = λ db k. ok (find (λ b. bytes_eq (key_mr b) k) db);
  fetch_fblock_by_height = λ db h. ok (find (λ b. b.height == h) db);
  start_multi_batch = λ db. db;
  process_fblock = λ db b. db ++ b ∷ [];
  execute_multi_batch = λ db. (ok tt, db);
  unmarshal_fblock = block_of;
  unmarshal_dblock = λ p. ok ((fblock_id, 0 ∷ []) ∷ []);
}

abbrev pub toy_node : Factomd
toy_node = record {
  get_dblock_head = ok (codes "head");
  get_dblock = λ h. ok ((fblock_id, 2 ∷ []) ∷ []);
  get_raw = λ k. ok k;
  get_fblock_by_height = λ h. ok (b'0' ∷ (b'0' + h) ∷ []);
  get_dblock_by_height = λ h. ok (b'0' ∷ (b'0' + h) ∷ []);
}

abbrev pub three_blocks : List FBlock
three_blocks = block 0 ∷ block 1 ∷ block 2 ∷ []

abbrev pub never : ℕ → Bool
never i = false

update-misses_newest_example :
    update toy_api toy_node never 9 (block 0 ∷ block 1 ∷ [])
    ≡ some (ok (2 ∷ []), block 0 ∷ block 1 ∷ [])
unfolding factom.TxDatabase.fblock_head factom.TxDatabase.last_of bytes_eq fblock_id
    factom.TxDatabase.get_fblock_raw factom.TxDatabase.Update.checked_start
    factom.TxDatabase.get_dblock_by_height factom.Base.Hex.decode_string factom.Base.Hex.hex_value
    factom.TxDatabase.first_of
update-misses_newest_example =
    update-misses_newest toy_api toy_node never 9 (block 0 ∷ block 1 ∷ []) (block 2) (block 1) refl
      refl refl (omega arith) refl

updated : update toy_api toy_node never 4 [] ≡ some (ok (2 ∷ []), three_blocks)
unfolding update factom.TxDatabase.Update.bounds_of_update factom.TxDatabase.fblock_head
    factom.TxDatabase.last_of bytes_eq fblock_id factom.TxDatabase.get_fblock_raw
    factom.TxDatabase.fetch_next_fblock_height factom.TxDatabase.Update.checked_start
    factom.TxDatabase.Update.fetch_blocks factom.TxDatabase.get_fblock_by_height
    factom.Base.Hex.decode_string factom.Base.Hex.hex_value factom.TxDatabase.Update.save_some
updated = refl

all_txs :
    get_all_txs toy_api toy_node never 4 []
    ≡ some (ok (payment 2 ∷ payment 1 ∷ payment 0 ∷ []), three_blocks)
unfolding bytes_eq zero_hash factom.TxDatabase.Queries.get_previous factom.TxDatabase.get_fblock
    factom.TxDatabase.Walk.moving_where factom.TxDatabase.Walk.moving
all_txs =
    get_all_txs-IsChain toy_api toy_node never 4 [] (block 2) (block 1 ∷ block 0 ∷ []) updated refl
      (refl, refl, (refl, refl, refl)) (omega arith)

get_all_txs-IsChain_example :
    get_all_txs toy_api toy_node never 4 []
    ≡ some (ok (payment 2 ∷ payment 1 ∷ payment 0 ∷ []), three_blocks)
unfolding bytes_eq zero_hash factom.TxDatabase.Queries.get_previous factom.TxDatabase.get_fblock
    factom.TxDatabase.Walk.moving_where factom.TxDatabase.Walk.moving
get_all_txs-IsChain_example =
    get_all_txs-IsChain toy_api toy_node never 4 [] (block 2) (block 1 ∷ block 0 ∷ []) updated refl
      (refl, refl, (refl, refl, refl)) (omega arith)

get_tx_range-IsChain_example :
    get_tx_range toy_api toy_node never 4 (pos 1) (pos 1) []
    ≡ some (ok (payment 1 ∷ []), three_blocks)
unfolding bytes_eq zero_hash factom.TxDatabase.Queries.get_previous factom.TxDatabase.get_fblock
    factom.TxDatabase.Walk.moving_where factom.TxDatabase.Walk.moving
get_tx_range-IsChain_example =
    get_tx_range-IsChain toy_api toy_node never 4 [] (block 2) (block 1 ∷ block 0 ∷ []) 1 1 updated
      refl (refl, refl, (refl, refl, refl)) (omega arith, (omega arith, tt)) (omega arith)
      (omega arith) (omega arith)

get_tx_address-each_mention_example :
    get_tx_address toy_api toy_node never 4 toy_crypto sender []
    ≡ some (
      ok (payment 2 ∷ payment 2 ∷ payment 1 ∷ payment 1 ∷ payment 0 ∷ payment 0 ∷ []),
      three_blocks,
    )
unfolding factom.Address.Strings.address_string_type FactoidAddress.public_string
    factom.Address.Checksum.checksummed FactoidAddress.rcd_hash factom.Address.Rcd.hash
    factom.Crypto.shad bytes_eq factom.TxDatabase.Addresses.each_mention
    factom.TxDatabase.Addresses.each_time
get_tx_address-each_mention_example =
    get_tx_address-each_mention toy_api toy_node never 4 toy_crypto sender []
      (payment 2 ∷ payment 1 ∷ payment 0 ∷ []) all_txs
