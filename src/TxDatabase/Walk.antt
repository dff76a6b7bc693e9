-- ===== src/TxDatabase/Walk.antt =====
-- What the walks over the factoid blocks find in a chain that leads to its start.
use factom.Base.{
  ◌-◌, zero, suc, ◌≤◌, bytes_eq_refl, Result-cases, ℕ, ◌<◌, ◌≡◌, inl, inr, refl, ap, Bool, true,
  false, not, ◌&&◌, ◌||◌, some, List, [], ◌∷◌, ◌++◌, append_assoc, append-nil, arith, length,
  bytes_eq, leb, ◌==◌, if◌then◌else◌, Result, ok, err, ◌>>=◌, Bool-cases,
}
use factom.Reader.{zero_hash}
use factom.TxDatabase.{TxApi}
use factom.TxDatabase.Queries.{
  range_from, synced_head, all_from, walk_range, collect, get_previous, walk_all, collect_in_range,
}

module _ (api : TxApi) where
  -- The transactions that move factoids, each with its height.
  unfoldable pub moving : ℕ → List api.Tx → Result (List api.Tx)
  moving height [] = ok []
  moving height (tx ∷ txs) = do
    ins ← api.total_inputs tx
    outs ← api.total_outputs tx
    rest ← moving height txs
    ok (if not (ins == 0) || not (outs == 0) then api.set_block_height tx height ∷ rest else rest)

  -- Those of the blocks that pass a test of their height, in the order of the blocks.
  unfoldable pub moving_where : (ℕ → Bool) → List api.FBlock → Result (List api.Tx)
  moving_where test [] = ok []
  moving_where test (b ∷ blocks) = do
    txs ← elim (test (api.height b)) [
      | true ↦ moving (api.height b) (api.transactions b)
      | false ↦ ok []
    ]
    rest ← moving_where test blocks
    ok (txs ++ rest)

  -- The blocks lead from the first to the start of the chain.
  abbrev pub IsChain : api.DB → api.FBlock → List api.FBlock → Type 0
  IsChain db b [] = api.prev_key_mr b ≡ zero_hash
  IsChain db b (b1 ∷ blocks) =
      (bytes_eq (api.prev_key_mr b) zero_hash ≡ false)
      × (get_previous api db (api.prev_key_mr b) ≡ ok b1)
      × IsChain db b1 blocks

  collect-moving :
      (height : ℕ) (txs found : List api.Tx)
      → collect api height txs found ≡ (moving height txs >>= λ new. ok (found ++ new))
  unfolding collect moving
  collect-moving height [] found = rw append-nil
  collect-moving height (tx ∷ txs) found = elim (Result-cases (api.total_inputs tx)) [
    | inr (e, failed) ↦ rw failed
    | inl (ins, e1) ↦ elim (Result-cases (api.total_outputs tx)) [
      | inr (e, failed) ↦ rw (e1, failed)
      | inl (outs, e2) ↦ elim (Bool-cases (not (ins == 0) || not (outs == 0))) [
        | inl moves ↦
            let ih = collect-moving height txs (found ++ api.set_block_height tx height ∷ []) in
            rw (e1, e2, moves, ih)
              (elim (Result-cases (moving height txs)) [
                | inr (e, failed) ↦ rw failed
                | inl (new, e3) ↦ rw (e3, append_assoc)
              ])
        | inr still ↦
            rw (e1, e2, still, collect-moving height txs found)
              (elim (Result-cases (moving height txs)) [
                | inr (e, failed) ↦ rw failed
                | inl (new, e3) ↦ rw e3
              ])
      ]
    ]
  ]

  -- Appending twice.
  append_twice :
      (r : Result (List api.Tx)) (found new : List api.Tx)
      → (r >>= λ more. ok ((found ++ new) ++ more))
        ≡ ((r >>= λ more. ok (new ++ more)) >>= λ all. ok (found ++ all))
  append_twice (ok more) found new = rw append_assoc
  append_twice (err e) found new = refl

  -- The walk adds what the blocks hold to what was found.
  walk_all-IsChain :
      (fuel : ℕ) (db : api.DB) (b : api.FBlock) (blocks : List api.FBlock) (found : List api.Tx)
      → length blocks ≤ fuel
      → IsChain db b blocks
      → walk_all api (suc fuel) db b found
        ≡ some (moving_where (λ _. true) (b ∷ blocks) >>= λ new. ok (found ++ new))
  unfolding walk_all moving_where
  walk_all-IsChain fuel db b [] found fits start =
      elim (Result-cases (moving (api.height b) (api.transactions b))) [
        | inr (e, failed) ↦ rw (walk_all, collect-moving, failed)
        | inl (new, e) ↦
            rw (walk_all, collect-moving, e, start, bytes_eq_refl zero_hash, append-nil)
      ]
  walk_all-IsChain zero db b (b1 ∷ blocks) found fits links = absurd (omega arith)
  walk_all-IsChain (suc fuel) db b (b1 ∷ blocks) found fits (ne, read, rest) =
      elim (Result-cases (moving (api.height b) (api.transactions b))) [
        | inr (e, failed) ↦ rw (walk_all, collect-moving, failed)
        | inl (new, e) ↦
            rw
              (
                walk_all,
                collect-moving,
                e,
                ne,
                read,
                walk_all-IsChain fuel db b1 blocks (found ++ new) (omega arith) rest,
              )
              (ap (λ r. some r) (append_twice (moving_where (λ _. true) (b1 ∷ blocks)) found new))
      ]

  -- Each block is higher than the one before it.
  abbrev pub IsFalling : api.FBlock → List api.FBlock → Type 0
  IsFalling b [] = Unit
  IsFalling b (b1 ∷ blocks) = (api.height b1 < api.height b) × IsFalling b1 blocks

  abbrev pub in_range : ℕ → ℕ → ℕ → Bool
  in_range s e height = leb s height && leb height e

  -- Nothing of a chain is in a range above its first block.
  moving_where-below :
      (s e : ℕ) (b : api.FBlock) (blocks : List api.FBlock)
      → IsFalling b blocks
      → api.height b < s
      → moving_where (in_range s e) (b ∷ blocks) ≡ ok []
  unfolding moving_where
  moving_where-below s e b [] falls low =
      let out : in_range s e (api.height b) ≡ false = ground arith in rw out
  moving_where-below s e b (b1 ∷ blocks) (fall, falls) low =
      let out : in_range s e (api.height b) ≡ false = ground arith in
      let ih = moving_where-below s e b1 blocks falls (omega arith) in
      rw out (ap (λ r. r >>= λ rest. ok ([] ++ rest)) ih)

  collect_in_range-moving :
      (s e : ℕ) (b : api.FBlock) (found : List api.Tx)
      → collect_in_range api s e b found ≡ (
          (elim (in_range s e (api.height b)) as (λ _. Result (List api.Tx)) [
            | true ↦ moving (api.height b) (api.transactions b)
            | false ↦ ok []
          ])
          >>= λ new. ok (found ++ new))
  unfolding collect_in_range
  collect_in_range-moving s e b found = elim (Bool-cases (in_range s e (api.height b))) [
    | inl within ↦ rw within (collect-moving (api.height b) (api.transactions b) found)
    | inr out ↦ rw (out, append-nil)
  ]

  selected : ℕ → ℕ → api.FBlock → Result (List api.Tx)
  selected s e b = elim (in_range s e (api.height b)) [
    | true ↦ moving (api.height b) (api.transactions b)
    | false ↦ ok []
  ]

  -- What the walk does after a block is the same, whether the block was in range or not.
  walk_range-IsChain :
      (fuel : ℕ) (db : api.DB) (s e : ℕ) (b : api.FBlock) (blocks : List api.FBlock)
      (found : List api.Tx)
      → length blocks ≤ fuel
      → IsChain db b blocks
      → IsFalling b blocks
      → walk_range api (suc fuel) s e db b found
        ≡ some (moving_where (in_range s e) (b ∷ blocks) >>= λ new. ok (found ++ new))
  unfolding walk_range moving_where selected
  walk_range-IsChain fuel db s e b [] found fits start falls =
      elim (Result-cases (selected s e b)) [
        | inr (x, failed) ↦ rw (walk_range, collect_in_range-moving, failed)
        | inl (new, chosen) ↦ elim (Bool-cases (leb (api.height b) s)) [
          | inl low ↦ rw (walk_range, collect_in_range-moving, chosen, low, append-nil)
          | inr high ↦ rw (
            walk_range,
            collect_in_range-moving,
            chosen,
            high,
            start,
            bytes_eq_refl zero_hash,
            append-nil,
          )
        ]
      ]
  walk_range-IsChain zero db s e b (b1 ∷ blocks) found fits links falls = absurd (omega arith)
  walk_range-IsChain (suc fuel) db s e b (b1 ∷ blocks) found fits (ne, read, rest) (fall, falls) =
      elim (Result-cases (selected s e b)) [
        | inr (x, failed) ↦ rw (walk_range, collect_in_range-moving, failed)
        | inl (new, chosen) ↦ elim (Bool-cases (leb (api.height b) s)) [
          | inl low ↦ rw (
            walk_range,
            collect_in_range-moving,
            chosen,
            low,
            moving_where-below s e b1 blocks falls (ground arith),
            append-nil,
          )
          | inr high ↦
              rw
                (
                  walk_range,
                  collect_in_range-moving,
                  chosen,
                  high,
                  ne,
                  read,
                  walk_range-IsChain fuel db s e b1 blocks (found ++ new) (omega arith) rest falls,
                )
                (ap (λ r. some r)
                  (append_twice (moving_where (in_range s e) (b1 ∷ blocks)) found new))
        ]
      ]

  bind_empty : (r : Result (List api.Tx)) → (r >>= λ new. ok ([] ++ new)) ≡ r
  bind_empty (ok new) = refl
  bind_empty (err e) = refl

  module _ (fuel : ℕ) (db : api.DB) (b : api.FBlock) (blocks : List api.FBlock)
      (newest : api.fetch_fblock_head db ≡ ok (some b)) (links : IsChain db b blocks)
      (fits : length blocks < fuel) where
    synced : synced_head api db ≡ ok b
    unfolding synced_head
    synced = rw (synced_head, newest)

    pub all_from-IsChain : all_from api fuel db ≡ some (moving_where (λ _. true) (b ∷ blocks))
    unfolding all_from
    all_from-IsChain =
        let more : fuel ≡ suc (fuel - 1) = omega arith in
        rw (all_from, synced, more, walk_all-IsChain (fuel - 1) db b blocks [] (omega arith) links)
          (ap (λ r. some r) (bind_empty (moving_where (λ _. true) (b ∷ blocks))))

    pub range_from-IsChain :
        (s e : ℕ)
        → IsFalling b blocks
        → range_from api fuel s e db ≡ some (moving_where (in_range s e) (b ∷ blocks))
    unfolding range_from
    range_from-IsChain s e falls =
        let more : fuel ≡ suc (fuel - 1) = omega arith in
        rw
          (
            range_from,
            synced,
            more,
            walk_range-IsChain (fuel - 1) db s e b blocks [] (omega arith) links falls,
          )
          (ap (λ r. some r) (bind_empty (moving_where (in_range s e) (b ∷ blocks))))
