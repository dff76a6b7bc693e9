-- ===== src/Tests/Batching.antt =====
-- A cache of saved blocks and of an open batch, for the factomd of Tests/Caching.
use factom.Base.{
  ℕ, zero, suc, ◌+◌, ◌-◌, ◌*◌, ◌/◌, ◌%◌, ◌^◌, ◌≤◌, ◌<◌, ◌≡◌, ◌≢◌, ◌↔◌, ◌⊎◌, ◌∙◌, inl, inr, refl,
  sym, ap, Bool, true, false, not, ◌&&◌, ◌||◌, Option, none, some, List, [], ◌∷◌, ◌++◌, map,
  append_assoc, append-nil, arith, Bytes, codes, length, take, drop, replicate, copy, bytes_eq, ltb,
  leb, ◌==◌, if◌then◌else◌, Result, ok, err, Error, ◌>>=◌, ◌>>◌, fail_if, All, IsByte, Bool-cases,
  Option-cases, length-append,
}
use factom.TxDatabase.{TxApi, fblock_id}
use factom.TxDatabase.Update.{update}
use factom.TxDatabase.Fetched.{HasBlocks, update-AreFetched}
use factom.Tests.Caching.{
  Tx, FBlock, key_mr, block, find, last, block_of, toy_node, three_blocks, never,
}

record Cache : Type 0 where
  saved : List FBlock
  pending : List FBlock

abbrev batching_api : TxApi
batching_api = record {
  DB = Cache;
  FBlock = FBlock;
  Tx = Tx;
  height = λ b. b.height;
  db_height = λ b. b.height;
  transactions = λ b. b.transactions;
  prev_key_mr = λ b. b.previous;
  key_mr = key_mr;
  total_inputs = λ tx. ok tx.amount;
  total_outputs = λ tx. ok tx.amount;
  set_block_height = λ tx h. record tx { height = h };
  sig_hash = λ tx. tx.amount ∷ [];
  input_addresses = λ tx. tx.inputs;
  output_addresses = λ tx. tx.outputs;
  ec_addresses = λ tx. [];
  new_sha_hash = λ s. ok s;
  fetch_fblock_head = λ db. ok (last db.saved);
  fetch_fblock = λ db k. ok (find (λ b. bytes_eq (key_mr b) k) db.saved);
  fetch_fblock_by_height = λ db h. ok (find (λ b. b.height == h) db.saved);
  start_multi_batch = λ db. record db { pending = [] };
  process_fblock = λ db b. record db { pending = db.pending ++ b ∷ [] };
  execute_multi_batch = λ db. (ok tt, record { saved = db.saved ++ db.pending; pending = [] });
  unmarshal_fblock = block_of;
  unmarshal_dblock = λ p. ok ((fblock_id, 0 ∷ []) ∷ []);
}

has_blocks : HasBlocks batching_api (λ db. db.saved) (λ db. db.pending)
has_blocks = record {
  saved-start = λ db. refl;
  pending-start = λ db. refl;
  saved-process = λ db b. refl;
  pending-process = λ db b. refl;
  saved-execute = λ db. refl;
  pending-execute = λ db. refl;
}

abbrev one_saved : Cache
one_saved = record { saved = block 0 ∷ []; pending = [] }

update-AreFetched_example :
    (db : Cache) × (update batching_api toy_node never 3 one_saved ≡ some (ok (2 ∷ []), db))
    × (db.saved ≡ three_blocks)
    × (db.pending ≡ [])
unfolding factom.TxDatabase.fblock_head factom.TxDatabase.last_of bytes_eq fblock_id
    factom.TxDatabase.get_fblock_raw factom.TxDatabase.get_fblock_by_height
    factom.TxDatabase.get_dblock_by_height factom.TxDatabase.first_of factom.Base.Hex.decode_string
    factom.Base.Hex.hex_value
update-AreFetched_example =
    update-AreFetched batching_api toy_node has_blocks (λ d. refl) 3 one_saved (block 2)
      (some (block 0)) (some (block 0)) (block 1 ∷ block 2 ∷ []) refl refl refl
      ((fblock_id, 0 ∷ []) ∷ [], refl, refl) refl (omega arith) (omega arith) (omega arith)
      (refl, (refl, tt))
