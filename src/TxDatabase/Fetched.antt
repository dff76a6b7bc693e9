-- ===== src/TxDatabase/Fetched.antt =====
-- Which blocks an update fetches.
use factom.Base.{
  ◌≤◌, if_cases, ℕ, zero, suc, ◌+◌, ◌-◌, ◌%◌, ◌^◌, ◌<◌, ◌≡◌, ◌∙◌, refl, sym, ap, Bool, true, false,
  some, none, Option, Bytes, bytes_eq_refl, bytes_eq, Result, err, Error, if◌then◌else◌, List, [],
  ◌∷◌, ◌++◌, append_assoc, append-nil, arith, length, leb, ◌==◌, ok,
}
use factom.TxDatabase.{
  get_dblock_by_height, first_of, fblock_id, TxApi, Factomd, get_fblock_by_height, fblock_head,
  fetch_next_fblock_height,
}
use factom.TxDatabase.Update.{checked_start, save_some, fetch_blocks, bounds_of_update, update}

-- The blocks that a database has saved, and those of the batch that is open: starting a batch
-- forgets what was not executed, processing a block adds it to the batch, and executing saves the
-- batch.
pub record HasBlocks (api : TxApi) (saved pending : api.DB → List api.FBlock) : Type 0 where
  pub saved-start : (db : api.DB) → saved (api.start_multi_batch db) ≡ saved db
  pub pending-start : (db : api.DB) → pending (api.start_multi_batch db) ≡ []
  pub saved-process : (db : api.DB) (b : api.FBlock) → saved (api.process_fblock db b) ≡ saved db
  pub pending-process :
      (db : api.DB) (b : api.FBlock) → pending (api.process_fblock db b) ≡ pending db ++ b ∷ []
  pub saved-execute : (db : api.DB) → saved (api.execute_multi_batch db).1 ≡ saved db ++ pending db
  pub pending-execute : (db : api.DB) → pending (api.execute_multi_batch db).1 ≡ []

module _ (api : TxApi) (node : Factomd) where
  -- What factomd returns for the heights from one on.
  abbrev AreFetched : ℕ → List api.FBlock → Type 0
  AreFetched i [] = Unit
  AreFetched i (b ∷ blocks) = (get_fblock_by_height api node i ≡ ok b) × AreFetched (i + 1) blocks

  -- The first height that a cache lacks, by its head.
  abbrev pub first_missing : Option api.FBlock → ℕ
  first_missing none = 0
  first_missing (some cached) = api.db_height cached + 1

  -- A genesis block is the one that factomd's first directory block names, or there is none.
  abbrev pub IsOfNetwork : Option api.FBlock → Type 0
  IsOfNetwork none = Unit
  IsOfNetwork (some genesis) =
      (entries : List (Bytes × Bytes)) × (get_dblock_by_height api node 0 ≡ ok entries)
      × (first_of fblock_id entries ≡ some (api.key_mr genesis))

  fetch_next_fblock_height-first_missing :
      (db : api.DB) (cached : Option api.FBlock)
      → api.fetch_fblock_head db ≡ ok cached
      → first_missing cached < 2 ^ 32
      → fetch_next_fblock_height api db ≡ ok (first_missing cached)
  unfolding fetch_next_fblock_height
  fetch_next_fblock_height-first_missing db none head small =
      rw (fetch_next_fblock_height, head) refl
  fetch_next_fblock_height-first_missing db (some cached) head small =
      rw (fetch_next_fblock_height, head) (ap (λ n. ok n) (omega arith))

  checked_start-IsOfNetwork :
      (db : api.DB) (start : ℕ) (genesis : Option api.FBlock)
      → api.fetch_fblock_by_height db 0 ≡ ok genesis
      → IsOfNetwork genesis
      → checked_start api node (λ _. false) db start ≡ ok start
  unfolding checked_start
  checked_start-IsOfNetwork db start none at_zero network = rw (checked_start, at_zero) refl
  checked_start-IsOfNetwork db start (some genesis) at_zero (entries, listed, named) =
      rw (checked_start, at_zero, listed)
        (ap
            (λ k. elim k as (λ _. Result ℕ) [
              | none ↦ err Error.no_genesis
              | some key_mr ↦ ok (if bytes_eq key_mr (api.key_mr genesis) then start else 0)
            ])
            named
          ∙ rw (bytes_eq_refl (api.key_mr genesis)) refl)

  -- Where an update of a cache of the network starts.
  bounds_of_update-first_missing :
      (db : api.DB) (newest : api.FBlock) (cached genesis : Option api.FBlock)
      → fblock_head api node ≡ ok (some newest)
      → api.fetch_fblock_head db ≡ ok cached
      → first_missing cached < 2 ^ 32
      → api.fetch_fblock_by_height db 0 ≡ ok genesis
      → IsOfNetwork genesis
      → bounds_of_update api node (λ _. false) db ≡ ok (newest, first_missing cached)
  unfolding bounds_of_update
  bounds_of_update-first_missing db newest cached genesis top head small at_zero network =
      rw
        (
          bounds_of_update,
          top,
          fetch_next_fblock_height-first_missing db cached head small,
          checked_start-IsOfNetwork db (first_missing cached) genesis at_zero network,
        )
        refl

  -- One round of the loop.
  fetch_blocks-step :
      (fuel newest i : ℕ) (db : api.DB) {b : api.FBlock}
      → i ≤ newest
      → newest < 2 ^ 32 - 1
      → get_fblock_by_height api node i ≡ ok b
      → fetch_blocks api node (λ _. false) (suc fuel) newest i db
        ≡ fetch_blocks api node
            (λ _. false)
            fuel
            newest
            (i + 1)
            (save_some api node (λ _. false) i (api.process_fblock db b))
  unfolding fetch_blocks
  fetch_blocks-step fuel newest i db {b} le small read =
      let within : leb i newest ≡ true = ground arith in
      let next : (i + 1) % 2 ^ 32 ≡ i + 1 = omega arith in
      let saved = save_some api node (λ _. false) i (api.process_fblock db b) in
      rw (fetch_blocks, within, read)
        (ap (λ j. fetch_blocks api node (λ _. false) fuel newest j saved) next)

  module _ {saved pending : api.DB → List api.FBlock} (laws : HasBlocks api saved pending) where
    -- All blocks that a database was handed and has not forgotten.
    abbrev has : api.DB → List api.FBlock
    has db = saved db ++ pending db

    has-save_some : (i : ℕ) (db : api.DB) → has (save_some api node (λ _. false) i db) ≡ has db
    unfolding save_some
    has-save_some i db =
        if_cases (λ d. has d ≡ has db) (i % 500 == 0) _ _
          (λ _.
            rw
              (
                laws.saved-start (api.execute_multi_batch db).1,
                laws.pending-start _,
                laws.saved-execute db,
                append-nil (saved db ++ pending db),
              )
              refl)
          (λ _. refl)

    has-process : (db : api.DB) (b : api.FBlock) → has (api.process_fblock db b) ≡ has db ++ b ∷ []
    has-process db b =
        rw (laws.saved-process db b, laws.pending-process db b)
          (sym (append_assoc (saved db) (pending db) (b ∷ [])))

    fetch_blocks-AreFetched :
        (fuel newest i : ℕ) (db : api.DB) (blocks : List api.FBlock)
        → i + length blocks ≡ newest + 1
        → newest < 2 ^ 32 - 1
        → length blocks < fuel
        → AreFetched i blocks
        → (db' : api.DB) × (fetch_blocks api node (λ _. false) fuel newest i db
            ≡ some (api.execute_multi_batch db'))
          × (has db' ≡ has db ++ blocks)
    unfolding fetch_blocks
    fetch_blocks-AreFetched zero newest i db blocks up small fits all = absurd (omega arith)
    fetch_blocks-AreFetched (suc fuel) newest i db [] up small fits all =
        let over : leb i newest ≡ false = ground (arith, up) in
        (db, rw (fetch_blocks, over), sym (append-nil (has db)))
    fetch_blocks-AreFetched (suc fuel) newest i db (b ∷ blocks) up small fits (read, all) =
        let next = save_some api node (λ _. false) i (api.process_fblock db b) in
        let (db', run, held) =
          fetch_blocks-AreFetched fuel newest (i + 1) next blocks (omega (arith, up)) small
            (omega arith) all in
        (
          db',
          fetch_blocks-step fuel newest i db (omega (arith, up)) small read ∙ run,
          held
              ∙ rw (has-save_some i (api.process_fblock db b), has-process db b, append_assoc) refl,
        )

    -- An update that is not told to quit, of a cache that is more than a block behind, saves in
    -- the database every block from the first height that it lacks to the newest, each once and in
    -- order, leaves none in an open batch, and returns the newest key Merkle root, if factomd
    -- returns all of these blocks, no batch fails to be executed, and the genesis block of the cache, if it has one, is the network's.
    -- The first height is the one after the cached head, or 0. Fuel for each block, and one more,
    -- is enough.
    pub update-AreFetched :
        ((d : api.DB) → (api.execute_multi_batch d).0 ≡ ok tt)
        → (fuel : ℕ) (db : api.DB) (newest : api.FBlock) (cached genesis : Option api.FBlock)
          (blocks : List api.FBlock)
        → fblock_head api node ≡ ok (some newest)
        → api.fetch_fblock_head db ≡ ok cached
        → api.fetch_fblock_by_height db 0 ≡ ok genesis
        → IsOfNetwork genesis
        → first_missing cached + length blocks ≡ api.height newest + 1
        → first_missing cached < api.height newest
        → api.height newest < 2 ^ 32 - 1
        → length blocks < fuel
        → AreFetched (first_missing cached) blocks
        → (db' : api.DB) × (update api node (λ _. false) fuel db
            ≡ some (ok (api.key_mr newest), db'))
          × (saved db' ≡ saved db ++ blocks)
          × (pending db' ≡ [])
    unfolding update
    update-AreFetched saves fuel db newest cached genesis blocks top head at_zero network up behind
          small fits all =
        let start = first_missing cached in
        let bounds =
          bounds_of_update-first_missing db newest cached genesis top head (omega arith) at_zero
            network in
        let (d, run, held) =
          fetch_blocks-AreFetched fuel (api.height newest) start (api.start_multi_batch db) blocks
            up small fits all in
        let more : leb (api.height newest) start ≡ false = ground arith in
        let done : api.execute_multi_batch d ≡ (ok tt, (api.execute_multi_batch d).1) =
          ap (λ r. (r, (api.execute_multi_batch d).1)) (saves d) in
        (
          (api.execute_multi_batch d).1,
          rw (update, bounds, more, run ∙ ap (λ r. some r) done),
          laws.saved-execute d
              ∙ (held
                  ∙ rw (laws.saved-start db, laws.pending-start db, append-nil (saved db)) refl),
          laws.pending-execute d,
        )

  -- A cache whose head is one below factomd's newest block, and whose genesis block is the
  -- network's, is left as it is, and the update returns the newest block's key Merkle root all the
  -- same.
  pub update-misses_newest :
      (quit : ℕ → Bool) (fuel : ℕ) (db : api.DB) (newest cached : api.FBlock)
      → fblock_head api node ≡ ok (some newest)
      → api.fetch_fblock_head db ≡ ok (some cached)
      → api.db_height cached + 1 ≡ api.height newest
      → api.height newest < 2 ^ 32
      → checked_start api node quit db (api.height newest) ≡ ok (api.height newest)
      → update api node quit fuel db ≡ some (ok (api.key_mr newest), db)
  unfolding update bounds_of_update fetch_next_fblock_height
  update-misses_newest quit fuel db newest cached top head next small same =
      let start : (api.db_height cached + 1) % 2 ^ 32 ≡ api.height newest = omega (arith, next) in
      let stop : leb (api.height newest) (api.height newest) ≡ true = ground arith in
      rw (update, bounds_of_update, top, fetch_next_fblock_height, head, start, same, stop)
