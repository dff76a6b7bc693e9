-- ===== src/TxDatabase/Ranges.antt =====
-- `GetAllTXs` and `GetTXRange` on a cache that an update has brought up to date.
use factom.Base.{ℕ, ◌%◌, ◌^◌, ◌≤◌, ◌<◌, ◌≡◌, Bool, true, some, List, ◌∷◌, arith, Bytes, length, ok}
use factom.Base.Int.{pos}
use factom.TxDatabase.{TxApi, Factomd}
use factom.TxDatabase.Update.{update}
use factom.TxDatabase.Queries.{range_from, updated, get_all_txs, get_tx_range}
use factom.TxDatabase.Walk.{
  moving_where, IsChain, IsFalling, in_range, all_from-IsChain, range_from-IsChain,
}

-- After an update whose newest block leads back to the start of the chain, `GetAllTXs` returns the
-- transactions that move factoids of all its blocks, the newest first and each with the height of
-- its block, or the first error of their totals. Fuel for each block is enough.
pub get_all_txs-IsChain :
    (api : TxApi) (node : Factomd) (quit : ℕ → Bool) (fuel : ℕ) (db : api.DB) {db' : api.DB}
    {key_mr : Bytes} (b : api.FBlock) (blocks : List api.FBlock)
    → update api node quit fuel db ≡ some (ok key_mr, db')
    → api.fetch_fblock_head db' ≡ ok (some b)
    → IsChain api db' b blocks
    → length blocks < fuel
    → get_all_txs api node quit fuel db ≡ some (moving_where api (λ _. true) (b ∷ blocks), db')
unfolding get_all_txs updated
get_all_txs-IsChain api node quit fuel db {db'} b blocks done newest links fits =
    rw (updated, done, all_from-IsChain api fuel db' b blocks newest links fits)

range_checked :
    (api : TxApi) (node : Factomd) (quit : ℕ → Bool) (fuel : ℕ) (db : api.DB) (start end : ℕ)
    → start ≤ end
    → end < 2 ^ 32
    → get_tx_range api node quit fuel (pos start) (pos end) db
      ≡ updated api node quit fuel (range_from api fuel start end) db
unfolding get_tx_range
range_checked api node quit fuel db start end le small =
    let s : start % 2 ^ 32 ≡ start = omega arith in
    let e : end % 2 ^ 32 ≡ end = omega arith in ground (arith, s, e)

-- After an update whose newest block leads back to the start of the chain, each block being higher
-- than the one before it, `GetTXRange` returns the transactions that move factoids of the blocks
-- whose heights are in the range, the newest first and each with the height of its block, or the
-- first error of their totals: if the range begins at 0 or above, does not end before it begins,
-- and ends at a uint32. Fuel for each block is enough.
pub get_tx_range-IsChain :
    (api : TxApi) (node : Factomd) (quit : ℕ → Bool) (fuel : ℕ) (db : api.DB) {db' : api.DB}
    {key_mr : Bytes} (b : api.FBlock) (blocks : List api.FBlock) (start end : ℕ)
    → update api node quit fuel db ≡ some (ok key_mr, db')
    → api.fetch_fblock_head db' ≡ ok (some b)
    → IsChain api db' b blocks
    → IsFalling api b blocks
    → length blocks < fuel
    → start ≤ end
    → end < 2 ^ 32
    → get_tx_range api node quit fuel (pos start) (pos end) db
      ≡ some (moving_where api (in_range api start end) (b ∷ blocks), db')
unfolding updated
get_tx_range-IsChain api node quit fuel db {db'} b blocks start end done newest links falls fits le
      small =
    rw (
      range_checked api node quit fuel db start end le small,
      updated,
      done,
      range_from-IsChain api fuel db' b blocks newest links fits start end falls,
    )
