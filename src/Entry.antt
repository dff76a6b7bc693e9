-- ===== src/Entry.antt =====
-- Entries (entry.go): the data that a user puts on a chain, and its binary form.
pub mod Layout
pub mod Cost
pub mod Commit
use factom.Base.{ℕ, Bytes, List, [], ◌∷◌, ◌++◌, length, replicate, Result, ok, err, ◌>>=◌}
use factom.Base.Hex.{big_endian16, decode_string}
use factom.Crypto.{Crypto, sha52}

pub record Entry : Type 0 where
  pub chain_id : Bytes
  pub ext_ids : List Bytes
  pub content : Bytes

-- `MarshalExtIDsBinary`: each ExtID behind its length, as an int16. It returns no error.
unfoldable pub marshal_ext_ids_binary : List Bytes → Bytes
marshal_ext_ids_binary [] = []
marshal_ext_ids_binary (v ∷ vs) = big_endian16 (length v) ++ (v ++ marshal_ext_ids_binary vs)

-- `MarshalBinary`: version, chain id, size of the ExtIDs, ExtIDs, content.
unfoldable pub marshal_binary : Entry → Result Bytes
marshal_binary e = do
  let ids = marshal_ext_ids_binary e.ext_ids
  p ← decode_string e.chain_id
  ok (0 ∷ (p ++ (big_endian16 (length ids) ++ (ids ++ e.content))))

-- `Hash`, of an entry that cannot be marshalled 32 zero bytes.
unfoldable pub hash : Crypto → Entry → Bytes
hash c e = elim (marshal_binary e) [ ok a ↦ sha52 c a | err _ ↦ replicate 32 0 ]
