-- ===== src/Identity/Active.antt =====
-- `GetActiveIdentityKeys` and `GetActiveIdentityKeysAtHeight` (identity.go), from the fetch of the
-- entries on.
use factom.Reader.Walk.{get_all_chain_entries_at_height-Linked, entries_to, Linked, Block}
use factom.Base.{
  >>=-eq-ok, ◌≡◌, refl, suc, length, ℕ, Bool, true, false, Option, none, some, List, Bytes, Result,
  ok, err, Error, ◌>>=◌,
}
use factom.Base.Int.{ℤ}
use factom.Crypto.{Crypto}
use factom.Reader.{known_head, Node, get_all_chain_entries_at_height}
use factom.Identity.Keys.{active_keys_of}

-- `ChainExists`
unfoldable pub has_chain : Node → Bytes → Bool
has_chain node chain_id = elim (node.get_chain_head chain_id) [ ok _ ↦ true | err _ ↦ false ]

-- The parameters are factomd, encoding/json's reader of the first entry, and the fuel of the walk.
module _ (c : Crypto) (node : Node) where
  -- `GetActiveIdentityKeysAtHeight`
  unfoldable pub get_active_identity_keys_at_height :
      (Bytes → Option (List Bytes)) → ℕ → Bytes → ℤ → Option (Result (List Bytes))
  get_active_identity_keys_at_height initial_keys fuel chain_id height =
      elim (has_chain node chain_id) [
        | false ↦ some (err Error.no_chain)
        | true ↦ elim (get_all_chain_entries_at_height node fuel chain_id height) [
          | none ↦ none
          | some r ↦ some (r >>= active_keys_of c initial_keys chain_id)
        ]
      ]

  -- `GetActiveIdentityKeys`, with the highest saved block height of `GetHeights`, which it returns
  unfoldable pub get_active_identity_keys :
      Result ℤ → (Bytes → Option (List Bytes)) → ℕ → Bytes → Option (Result (List Bytes × ℤ))
  get_active_identity_keys heights initial_keys fuel chain_id = elim heights [
    | err e ↦ some (err e)
    | ok height ↦ elim (get_active_identity_keys_at_height initial_keys fuel chain_id height) [
      | none ↦ none
      | some r ↦ some (r >>= λ keys. ok (keys, height))
    ]
  ]

module _ (c : Crypto) (node : Node) (initial_keys : Bytes → Option (List Bytes)) where
  known_head-has_chain :
      (chain_id : Bytes) {head : Bytes}
      → known_head node chain_id ≡ ok head
      → has_chain node chain_id ≡ true
  unfolding known_head has_chain
  known_head-has_chain chain_id h =
      let (r, found, _) = >>=-eq-ok (node.get_chain_head chain_id) _ h in rw (has_chain, found) refl

  -- The active keys at a height are those of the entries of the blocks up to that height, the oldest
  -- first, if the blocks lead from the chain's head back to the start, with fuel for one step more
  -- than there are blocks.
  pub get_active_identity_keys_at_height-Linked :
      (chain_id head : Bytes) (height : ℤ) (blocks : List Block)
      → known_head node chain_id ≡ ok head
      → Linked node head blocks
      → get_active_identity_keys_at_height c node initial_keys (suc (length blocks)) chain_id height
        ≡ some (active_keys_of c initial_keys chain_id (entries_to node height blocks))
  unfolding get_active_identity_keys_at_height
  get_active_identity_keys_at_height-Linked chain_id head height blocks known linked =
      rw
        (
          get_active_identity_keys_at_height,
          known_head-has_chain chain_id known,
          get_all_chain_entries_at_height-Linked node chain_id head height blocks known linked,
        )
        refl
