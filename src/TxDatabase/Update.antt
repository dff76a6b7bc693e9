-- ===== src/TxDatabase/Update.antt =====
-- `update` of wallet/txdatabase.go.
use factom.Base.{
  ℕ, zero, suc, ◌+◌, ◌%◌, ◌^◌, Bool, true, false, Option, none, some, Bytes, bytes_eq, leb, ◌==◌,
  if◌then◌else◌, Result, ok, err, Error, ◌>>=◌,
}
use factom.TxDatabase.{
  TxApi, Factomd, fblock_id, first_of, get_fblock_by_height, get_dblock_by_height, fblock_head,
  fetch_next_fblock_height,
}

-- `quit` is set by another thread: the parameter tells what the loop reads after the block at a
-- height.
module _ (api : TxApi) (node : Factomd) (quit : ℕ → Bool) where
  -- Where to start, after the genesis block is compared with the network's.
  unfoldable pub checked_start : api.DB → ℕ → Result ℕ
  checked_start db start = do
    genesis ← api.fetch_fblock_by_height db 0
    elim genesis [
      | none ↦ ok start
      | some block ↦ get_dblock_by_height api node 0 >>= λ entries.
          elim (first_of fblock_id entries) [
            | none ↦ err Error.no_genesis
            | some key_mr ↦ ok (if bytes_eq key_mr (api.key_mr block) then start else 0)
          ]
    ]

  -- The batch that is saved after every 500 blocks.
  unfoldable pub save_some : ℕ → api.DB → api.DB
  save_some i db = if i % 500 == 0 then api.start_multi_batch (api.execute_multi_batch db).1 else db

  -- The loop over the heights, a uint32 each, and what follows it. It runs on fuel.
  unfoldable pub fetch_blocks : ℕ → ℕ → ℕ → api.DB → Option (Result (Unit {0}) × api.DB)
  fetch_blocks zero newest i db = none
  fetch_blocks (suc fuel) newest i db = elim (leb i newest) [
    | false ↦ some (api.execute_multi_batch db)
    | true ↦ elim (get_fblock_by_height api node i) [
      | err e ↦ some (err e, (api.execute_multi_batch db).1)
      | ok block ↦
          let saved = save_some i (api.process_fblock db block) in
          elim (quit i) [
            | true ↦ some (api.execute_multi_batch saved)
            | false ↦ fetch_blocks fuel newest ((i + 1) % 2 ^ 32) saved
          ]
    ]
  ]

  -- What comes before the loop: the newest block, and where to start.
  unfoldable pub bounds_of_update : api.DB → Result (api.FBlock × ℕ)
  bounds_of_update db = do
    newest ← fblock_head api node
    next ← fetch_next_fblock_height api db
    start ← checked_start db next
    elim newest [ none ↦ err Error.nil_dereference | some block ↦ ok (block, start) ]

  -- `update`
  unfoldable pub update : ℕ → api.DB → Option (Result Bytes × api.DB)
  update fuel db = elim (bounds_of_update db) [
    | err e ↦ some (err e, db)
    | ok (newest, start) ↦ elim (leb (api.height newest) start) [
      | true ↦ some (ok (api.key_mr newest), db)
      | false ↦ elim (fetch_blocks fuel (api.height newest) start (api.start_multi_batch db)) [
        | none ↦ none
        | some (err e, db') ↦ some (err e, db')
        | some (ok _, db') ↦ some (ok (api.key_mr newest), db')
      ]
    ]
  ]
