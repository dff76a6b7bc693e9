-- ===== src/Chain.antt =====
-- Chains (chain.go): a chain is named by the hash of its first entry's ExtIDs.
pub mod Identifier
pub mod Signed
pub mod Json
use factom.Base.{
  ℕ, zero, suc, ◌+◌, ◌-◌, ◌*◌, ◌/◌, ◌%◌, ◌^◌, ◌≤◌, ◌<◌, ◌≡◌, ◌≢◌, ◌↔◌, ◌⊎◌, ◌∙◌, inl, inr, refl,
  sym, ap, Bool, true, false, not, ◌&&◌, ◌||◌, Option, none, some, List, [], ◌∷◌, ◌++◌, map,
  append_assoc, append-nil, arith, Bytes, codes, length, take, drop, replicate, copy, bytes_eq, ltb,
  leb, ◌==◌, if◌then◌else◌, Result, ok, err, Error, ◌>>=◌, ◌>>◌, fail_if, All, IsByte, Bool-cases,
  Option-cases, length-append,
}
use factom.Base.Hex.{decode_string, encode_to_string}
use factom.Base.Int.{pos, ◌+ℤ◌, int8, byte}
use factom.Crypto.{Crypto, shad}
use factom.Address.EcAddress.{EcAddress}
use factom.Entry
use factom.Entry.{Entry}
use factom.Entry.Cost.{entry_cost}
use factom.Entry.Commit.{milli_time, signed_by}
use factom.Rpc.Request.{
  Json2Request, message_request, entry_request, new_json2_request, api_counter,
}

pub record Chain : Type 0 where
  pub chain_id : Bytes
  pub first_entry : Entry

-- What the loop of `NewChain` writes to the outer hash.
unfoldable pub ext_id_hashes : Crypto → List Bytes → Bytes
ext_id_hashes c [] = []
ext_id_hashes c (id ∷ ids) = c.sha256 id ++ ext_id_hashes c ids

-- `NewChain`. It also sets the chain id of the entry that it is handed: `first_entry` of the result
-- is that entry afterwards.
unfoldable pub new_chain : Crypto → Entry → Chain
unfolding ext_id_hashes
new_chain c e =
    let chain_id = encode_to_string (c.sha256 (ext_id_hashes c e.ext_ids)) in
    record { chain_id = chain_id; first_entry = record e { chain_id = chain_id } }

-- What `ComposeChainCommit` signs: version, time, hash of the chain id, weld, entry hash, cost.
unfoldable pub chain_commit_header : Crypto → ℕ → Chain → Result Bytes
unfolding milli_time
chain_commit_header c now chain = do
  let e = chain.first_entry
  p ← decode_string chain.chain_id
  cid ← decode_string chain.chain_id
  let s = Entry.hash c e ++ cid
  d ← entry_cost e
  ok (
      0
      ∷ (milli_time now
          ++ (shad c p ++ (shad c s ++ (Entry.hash c e ++ byte (int8 (d +ℤ pos 10)) ∷ [])))))

-- `ComposeChainCommit`, with the time and the API counter; the counter moves on success only.
unfoldable pub compose_chain_commit : Crypto → ℕ → ℕ → Chain → EcAddress → Result Json2Request × ℕ
unfolding chain_commit_header signed_by
compose_chain_commit c now count chain ec = elim (chain_commit_header c now chain) [
  | err x ↦ (err x, count)
  | ok buf ↦
      let params = message_request (encode_to_string (signed_by c ec buf)) in
      let id = api_counter count in (ok (new_json2_request (codes "commit-chain") id params), id)
]

-- `ComposeChainReveal`
unfoldable pub compose_chain_reveal : ℕ → Chain → Result Json2Request × ℕ
compose_chain_reveal count chain = elim (Entry.marshal_binary chain.first_entry) [
  | err x ↦ (err x, count)
  | ok p ↦
      let id = api_counter count in
      (ok (new_json2_request (codes "reveal-chain") id (entry_request (encode_to_string p))), id)
]
