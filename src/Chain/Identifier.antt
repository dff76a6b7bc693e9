-- ===== src/Chain/Identifier.antt =====
-- The identifier of a new chain.
use factom.Base.{◌≡◌, refl, arith, length, ok}
use factom.Base.Hex.{decode_string-encode_to_string, length-encode_to_string, decode_string}
use factom.Crypto.{Crypto, IsLawful}
use factom.Entry.{Entry}
use factom.Chain.{ext_id_hashes, new_chain}

-- A new chain is named by 64 hexadecimal digits, those of 32 bytes that depend on the ExtIDs alone;
-- its first entry carries that name, and keeps its ExtIDs and its content.
new_chain_lem :
    {c : Crypto} (laws : IsLawful c) (e : Entry)
    → let chain = new_chain c e in
      (length chain.chain_id ≡ 64)
      × (decode_string chain.chain_id ≡ ok (c.sha256 (ext_id_hashes c e.ext_ids)))
      × (chain.first_entry.chain_id ≡ chain.chain_id)
      × (chain.first_entry.ext_ids ≡ e.ext_ids)
      × (chain.first_entry.content ≡ e.content)
unfolding new_chain
new_chain_lem {c} laws e =
    let id = c.sha256 (ext_id_hashes c e.ext_ids) in
    (
      omega (arith, length-encode_to_string id, laws.length-sha256 (ext_id_hashes c e.ext_ids)),
      decode_string-encode_to_string id (laws.sha256-IsByte (ext_id_hashes c e.ext_ids)),
      refl,
      refl,
      refl,
    )
