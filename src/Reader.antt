-- ===== src/Reader.antt =====
-- Reading a chain back (get.go): the walks from the head of a chain along the entry blocks, each of
-- which names the block before it. The loops end only if the blocks that factomd returns do, so
-- they run on fuel, and `none` is a loop that has not ended.
pub mod Walk
use factom.Base.{
  ℕ, zero, suc, ◌+◌, ◌-◌, ◌*◌, ◌/◌, ◌%◌, ◌^◌, ◌≤◌, ◌<◌, ◌≡◌, ◌≢◌, ◌↔◌, ◌⊎◌, ◌∙◌, inl, inr, refl,
  sym, ap, Bool, true, false, not, ◌&&◌, ◌||◌, Option, none, some, List, [], ◌∷◌, ◌++◌, map,
  append_assoc, append-nil, arith, Bytes, codes, length, take, drop, replicate, copy, bytes_eq, ltb,
  leb, ◌==◌, if◌then◌else◌, Result, ok, err, Error, ◌>>=◌, ◌>>◌, fail_if, All, IsByte, Bool-cases,
  Option-cases, length-append,
}
use factom.Base.Int.{ℤ, ltb_ℤ}
use factom.Entry.{Entry}

-- `EBlock`, as far as the walks read it: `Header.PrevKeyMR`, `Header.DBHeight` and the hashes of
-- `EntryList`.
pub record EBlock : Type 0 where
  pub prev_key_mr : Bytes
  pub db_height : ℤ
  pub entry_list : List Bytes

pub record ChainHeadResponse : Type 0 where
  pub chain_head : Bytes
  pub chain_in_process_list : Bool

-- What factomd returns: `GetChainHeadAndStatus`, `GetEBlock` and `GetEntry`.
pub record Node : Type 0 where
  pub get_chain_head : Bytes → Result ChainHeadResponse
  pub get_eblock : Bytes → Result EBlock
  pub get_entry : Bytes → Result Entry

-- `ZeroHash`
unfoldable pub zero_hash : Bytes
zero_hash = replicate 64 b'0'

module _ (node : Node) where
  -- The loop of `GetAllEBlockEntries`.
  unfoldable pub get_entries : List Bytes → Result (List Entry)
  get_entries [] = ok []
  get_entries (hash ∷ hashes) = do e ← node.get_entry hash; es ← get_entries hashes; ok (e ∷ es)

  -- `GetAllEBlockEntries`
  unfoldable pub get_all_eblock_entries : Bytes → Result (List Entry)
  get_all_eblock_entries key_mr = do eb ← node.get_eblock key_mr; get_entries eb.entry_list

  -- The loop of `GetAllChainEntries`.
  unfoldable pub walk : ℕ → Bytes → List Entry → Option (Result (List Entry))
  walk zero hash es = none
  walk (suc fuel) hash es = elim (bytes_eq hash zero_hash) [
    | true ↦ some (ok es)
    | false ↦ elim (node.get_eblock hash) [
      | err e ↦ some (err e)
      | ok eb ↦ elim (get_all_eblock_entries hash) [
        | err e ↦ some (err e)
        | ok s ↦ walk fuel eb.prev_key_mr (s ++ es)
      ]
    ]
  ]

  -- The loop of `GetAllChainEntriesAtHeight`.
  unfoldable pub walk_at_height : ℕ → ℤ → Bytes → List Entry → Option (Result (List Entry))
  walk_at_height zero height hash es = none
  walk_at_height (suc fuel) height hash es = elim (bytes_eq hash zero_hash) [
    | true ↦ some (ok es)
    | false ↦ elim (node.get_eblock hash) [
      | err e ↦ some (err e)
      | ok eb ↦ elim (ltb_ℤ height eb.db_height) [
        | true ↦ walk_at_height fuel height eb.prev_key_mr es
        | false ↦ elim (get_all_eblock_entries hash) [
          | err e ↦ some (err e)
          | ok s ↦ walk_at_height fuel height eb.prev_key_mr (s ++ es)
        ]
      ]
    ]
  ]

  -- The loop of `GetFirstEntry`, from a block that was read; a block without entries is an index
  -- out of range.
  unfoldable pub walk_to_first : ℕ → EBlock → Option (Result Entry)
  walk_to_first zero eb = none
  walk_to_first (suc fuel) eb = elim (bytes_eq eb.prev_key_mr zero_hash) [
    | true ↦ elim eb.entry_list [
      | [] ↦ some (err Error.index_out_of_range)
      | hash ∷ _ ↦ some (node.get_entry hash)
    ]
    | false ↦ elim (node.get_eblock eb.prev_key_mr) [
      | err e ↦ some (err e)
      | ok before ↦ walk_to_first fuel before
    ]
  ]

  -- The head from which all three begin.
  unfoldable pub known_head : Bytes → Result Bytes
  known_head chain_id = do
    head ← node.get_chain_head chain_id
    fail_if (bytes_eq head.chain_head [] && head.chain_in_process_list) Error.not_yet_included
    ok head.chain_head

  -- `GetAllChainEntries`
  unfoldable pub get_all_chain_entries : ℕ → Bytes → Option (Result (List Entry))
  get_all_chain_entries fuel chain_id = elim (known_head chain_id) [
    | err e ↦ some (err e)
    | ok head ↦ walk fuel head []
  ]

  -- `GetAllChainEntriesAtHeight`
  unfoldable pub get_all_chain_entries_at_height : ℕ → Bytes → ℤ → Option (Result (List Entry))
  get_all_chain_entries_at_height fuel chain_id height = elim (known_head chain_id) [
    | err e ↦ some (err e)
    | ok head ↦ walk_at_height fuel height head []
  ]

  -- `GetFirstEntry`
  unfoldable pub get_first_entry : ℕ → Bytes → Option (Result Entry)
  get_first_entry fuel chain_id = elim (known_head chain_id >>= node.get_eblock) [
    | err e ↦ some (err e)
    | ok eb ↦ walk_to_first fuel eb
  ]
