-- ===== src/Reader/Walk.antt =====
-- What the walks read of a chain whose blocks lead to its start.
use factom.Base.{
  bytes_eq_refl, >>=-eq-ok, suc, ◌≡◌, ◌≢◌, ◌⊎◌, ◌∙◌, inl, inr, refl, ap, false, some, List, [], ◌∷◌,
  ◌++◌, append_assoc, append-nil, Bytes, length, bytes_eq, if◌then◌else◌, ok, All, Bool-cases,
}
use factom.Base.Int.{ℤ, ltb_ℤ}
use factom.Entry.{Entry}
use factom.Reader.{
  walk_to_first, known_head, get_all_chain_entries_at_height, get_all_chain_entries,
  get_first_entry, EBlock, Node, zero_hash, get_entries, get_all_eblock_entries, walk,
  walk_at_height,
}

-- A block with its entries.
pub record Block : Type 0 where
  pub eblock : EBlock
  pub entries : List Entry

List-cases : (es : List Entry) → (es ≡ []) ⊎ ((e : Entry) × (rest : List Entry) × (es ≡ e ∷ rest))
List-cases [] = inl refl
List-cases (e ∷ rest) = inr (e, rest, refl)

module _ (node : Node) where
  -- The node has these blocks, the newest first, from that hash back to the start.
  abbrev pub Linked : Bytes → List Block → Type 0
  Linked hash [] = hash ≡ zero_hash
  Linked hash (b ∷ blocks) =
      (bytes_eq hash zero_hash ≡ false)
      × (node.get_eblock hash ≡ ok b.eblock)
      × (get_entries node b.eblock.entry_list ≡ ok b.entries)
      × Linked b.eblock.prev_key_mr blocks

  -- The entries of the blocks up to a height, the oldest first.
  unfoldable pub entries_to : ℤ → List Block → List Entry
  entries_to height [] = []
  entries_to height (b ∷ blocks) =
      entries_to height blocks ++ (if ltb_ℤ height b.eblock.db_height then [] else b.entries)

  -- All entries, the oldest first.
  unfoldable pub all_entries : List Block → List Entry
  all_entries [] = []
  all_entries (b ∷ blocks) = all_entries blocks ++ b.entries

  eblock_entries :
      (hash : Bytes) {eb : EBlock} {es : List Entry}
      → node.get_eblock hash ≡ ok eb
      → get_entries node eb.entry_list ≡ ok es
      → get_all_eblock_entries node hash ≡ ok es
  unfolding get_all_eblock_entries
  eblock_entries hash read entries = rw (read, get_all_eblock_entries) entries

  walk-Linked :
      (hash : Bytes) (blocks : List Block) (es : List Entry)
      → Linked hash blocks
      → walk node (suc (length blocks)) hash es ≡ some (ok (all_entries blocks ++ es))
  unfolding walk all_entries
  walk-Linked hash [] es h = rw (h, bytes_eq_refl zero_hash, walk)
  walk-Linked hash (b ∷ blocks) es (ne, read, entries, rest) =
      rw (walk, ne, read, eblock_entries hash read entries, append_assoc)
        (walk-Linked b.eblock.prev_key_mr blocks (b.entries ++ es) rest)

  walk_at_height-Linked :
      (height : ℤ) (hash : Bytes) (blocks : List Block) (es : List Entry)
      → Linked hash blocks
      → walk_at_height node (suc (length blocks)) height hash es
        ≡ some (ok (entries_to height blocks ++ es))
  unfolding walk_at_height entries_to
  walk_at_height-Linked height hash [] es h = rw (h, bytes_eq_refl zero_hash, walk_at_height)
  walk_at_height-Linked height hash (b ∷ blocks) es (ne, read, entries, rest) =
      elim (Bool-cases (ltb_ℤ height b.eblock.db_height)) [
        | inl above ↦
            rw (walk_at_height, ne, read, above, append-nil)
              (walk_at_height-Linked height b.eblock.prev_key_mr blocks es rest)
        | inr below ↦
            rw (walk_at_height, ne, read, below, eblock_entries hash read entries, append_assoc)
              (walk_at_height-Linked height b.eblock.prev_key_mr blocks (b.entries ++ es) rest)
      ]

  -- A chain whose blocks lead from its head back to the start is read whole, the oldest entries
  -- first, with fuel for one step more than there are blocks.
  pub get_all_chain_entries-Linked :
      (chain_id head : Bytes) (blocks : List Block)
      → known_head node chain_id ≡ ok head
      → Linked head blocks
      → get_all_chain_entries node (suc (length blocks)) chain_id ≡ some (ok (all_entries blocks))
  unfolding get_all_chain_entries
  get_all_chain_entries-Linked chain_id head blocks known linked =
      rw (get_all_chain_entries, known, walk-Linked head blocks [] linked, append-nil)

  -- At a height the entries of the blocks up to that height are read, the oldest first, if the
  -- blocks lead from the head back to the start, with fuel for one step more than there are blocks.
  pub get_all_chain_entries_at_height-Linked :
      (chain_id head : Bytes) (height : ℤ) (blocks : List Block)
      → known_head node chain_id ≡ ok head
      → Linked head blocks
      → get_all_chain_entries_at_height node (suc (length blocks)) chain_id height
        ≡ some (ok (entries_to height blocks))
  unfolding get_all_chain_entries_at_height
  get_all_chain_entries_at_height-Linked chain_id head height blocks known linked = rw (
    get_all_chain_entries_at_height,
    known,
    walk_at_height-Linked height head blocks [] linked,
    append-nil,
  )

  first_of-get_entries :
      (hashes : List Bytes) (e : Entry) (es : List Entry)
      → get_entries node hashes ≡ ok (e ∷ es)
      → (hash : Bytes) × (rest : List Bytes) × (hashes ≡ hash ∷ rest) × (node.get_entry hash ≡ ok e)
  unfolding get_entries
  first_of-get_entries [] e es h = cc
  first_of-get_entries (hash ∷ hashes) e es h =
      let (e0, read, h1) = >>=-eq-ok (node.get_entry hash) _ h in
      let (es0, _, h2) = >>=-eq-ok (get_entries node hashes) _ h1 in (hash, hashes, refl, cc)

  all_entries-first :
      (b : Block) (blocks : List Block)
      → All (λ x. x.entries ≢ []) (b ∷ blocks)
      → (e : Entry) × (es : List Entry) × (all_entries (b ∷ blocks) ≡ e ∷ es)
  unfolding all_entries
  all_entries-first b [] (full, _) = elim (List-cases b.entries) [
    | inl none_left ↦ absurd (full none_left)
    | inr (e, es, shape) ↦ (e, es, shape)
  ]
  all_entries-first b (b1 ∷ blocks) (_, full) =
      let (e, es, shape) = all_entries-first b1 blocks full in
      (e, es ++ b.entries, ap (λ x. x ++ b.entries) shape)

  walk_to_first-Linked :
      (b : Block) (blocks : List Block) {hash : Bytes} (e : Entry) (es : List Entry)
      → Linked hash (b ∷ blocks)
      → All (λ x. x.entries ≢ []) (b ∷ blocks)
      → all_entries (b ∷ blocks) ≡ e ∷ es
      → walk_to_first node (suc (length blocks)) b.eblock ≡ some (ok e)
  unfolding walk_to_first all_entries
  walk_to_first-Linked b [] e es (_, _, entries, start) full h =
      let (hash, rest, shape, read) =
        first_of-get_entries b.eblock.entry_list e es (entries ∙ ap (λ x. ok x) h) in
      rw (walk_to_first, start, bytes_eq_refl zero_hash, shape, read)
  walk_to_first-Linked b (b1 ∷ blocks) e es (_, _, _, linked) (_, full) h =
      let (e1, es1, shape) = all_entries-first b1 blocks full in
      let same : e1 ≡ e = cc (rw shape at h) in
      rw (walk_to_first, linked.0, linked.1)
        (walk_to_first-Linked b1 blocks e es1 linked full (shape ∙ ap (λ x. x ∷ es1) same))

  -- The first entry that is read is the first of all entries, if the blocks lead from the head back
  -- to the start, there is one at least, and none is empty, with fuel for each block.
  get_first_entry-Linked :
      (chain_id head : Bytes) (b : Block) (blocks : List Block) (e : Entry) (es : List Entry)
      → known_head node chain_id ≡ ok head
      → Linked head (b ∷ blocks)
      → All (λ x. x.entries ≢ []) (b ∷ blocks)
      → all_entries (b ∷ blocks) ≡ e ∷ es
      → get_first_entry node (suc (length blocks)) chain_id ≡ some (ok e)
  unfolding get_first_entry
  get_first_entry-Linked chain_id head b blocks e es known linked full h =
      rw (get_first_entry, known, linked.1) (walk_to_first-Linked b blocks e es linked full h)
