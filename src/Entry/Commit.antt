-- ===== src/Entry/Commit.antt =====
-- Paying for an entry and publishing it (entry.go): the requests that the package composes.
pub mod Signed
use factom.Base.{
  ℕ, zero, suc, ◌+◌, ◌-◌, ◌*◌, ◌/◌, ◌%◌, ◌^◌, ◌≤◌, ◌<◌, ◌≡◌, ◌≢◌, ◌↔◌, ◌⊎◌, ◌∙◌, inl, inr, refl,
  sym, ap, Bool, true, false, not, ◌&&◌, ◌||◌, Option, none, some, List, [], ◌∷◌, ◌++◌, map,
  append_assoc, append-nil, arith, Bytes, codes, length, take, drop, replicate, copy, bytes_eq, ltb,
  leb, ◌==◌, if◌then◌else◌, Result, ok, err, Error, ◌>>=◌, ◌>>◌, fail_if, All, IsByte, Bool-cases,
  Option-cases, length-append,
}
use factom.Base.Hex.{big_endian64, encode_to_string}
use factom.Base.Int.{byte}
use factom.Crypto.{Crypto}
use factom.Address.EcAddress
use factom.Address.EcAddress.{EcAddress}
use factom.Entry
use factom.Entry.{Entry, marshal_binary}
use factom.Entry.Cost.{entry_cost}
use factom.Rpc.Request.{
  Json2Request, message_request, entry_request, new_json2_request, api_counter,
}

-- `milliTime` (util.go), at a time in nanoseconds: six bytes, milliseconds.
unfoldable pub milli_time : ℕ → Bytes
milli_time now = drop 2 (big_endian64 (now / 10 ^ 6))

-- What `ComposeEntryCommit` signs: version, time, entry hash, cost.
unfoldable pub entry_commit_header : Crypto → ℕ → Entry → Result Bytes
unfolding milli_time
entry_commit_header c now e = do
  cost ← entry_cost e
  ok (0 ∷ (milli_time now ++ (Entry.hash c e ++ byte cost ∷ [])))

-- The header with the public key and the signature behind it.
unfoldable pub signed_by : Crypto → EcAddress → Bytes → Bytes
signed_by c ec buf = buf ++ (ec.public_key ++ EcAddress.sign c ec buf)

-- `ComposeEntryCommit`, with the time and the API counter; the counter moves on success only.
unfoldable pub compose_entry_commit : Crypto → ℕ → ℕ → Entry → EcAddress → Result Json2Request × ℕ
unfolding entry_commit_header signed_by
compose_entry_commit c now count e ec = elim (entry_commit_header c now e) [
  | err x ↦ (err x, count)
  | ok buf ↦
      let params = message_request (encode_to_string (signed_by c ec buf)) in
      let id = api_counter count in (ok (new_json2_request (codes "commit-entry") id params), id)
]

-- `ComposeEntryReveal`
unfoldable pub compose_entry_reveal : ℕ → Entry → Result Json2Request × ℕ
compose_entry_reveal count e = elim (marshal_binary e) [
  | err x ↦ (err x, count)
  | ok p ↦
      let id = api_counter count in
      (ok (new_json2_request (codes "reveal-entry") id (entry_request (encode_to_string p))), id)
]
