-- ===== src/Tests/Entries.antt =====
-- An entry, a chain and their commits, and amounts.
use factom.Chain.Signed.{chain_commit_lem}
use factom.Amount.RoundTrip.{factoid_to_factoshi-factoshi_to_factoid}
use factom.Amount.Print.{factoshi_to_factoid}
use factom.Base.Int.{◌≤ℤ◌, pos}
use factom.Crypto.{shad}
use factom.Entry.Commit.Signed.{entry_commit_lem}
use factom.Amount.Parse.{all_digits, max_int, value, factoid_to_factoshi}
use factom.Entry.Cost.{entry_cost-eq, entry_cost}
use factom.Entry.Layout.{read_entry-marshal_binary, read_entry, ext_ids_size}
use factom.Base.Hex.{decode_string}
use factom.Chain.{new_chain, chain_commit_header, Chain}
use factom.Entry.Commit.{milli_time, signed_by, entry_commit_header}
use factom.Base.{
  no_chain, ℕ, zero, suc, ◌+◌, ◌-◌, ◌*◌, ◌/◌, ◌%◌, ◌^◌, ◌≤◌, ◌<◌, ◌≡◌, ◌≢◌, ◌↔◌, ◌⊎◌, ◌∙◌, inl, inr,
  refl, sym, ap, Bool, true, false, not, ◌&&◌, ◌||◌, Option, none, some, List, [], ◌∷◌, ◌++◌, map,
  append_assoc, append-nil, arith, Bytes, codes, length, take, drop, replicate, copy, bytes_eq, ltb,
  leb, ◌==◌, if◌then◌else◌, Result, ok, err, Error, ◌>>=◌, ◌>>◌, fail_if, All, IsByte, Bool-cases,
  Option-cases, length-append,
}
use factom.Tests.{toy_crypto, toy_crypto-IsLawful, seed}
use factom.Tests.Addresses.{ec_address, ec_address-made}
use factom.Entry
use factom.Entry.{Entry}

abbrev chain_key : Bytes
chain_key = replicate 32 0xab

abbrev entry : Entry
entry = record {
  chain_id = replicate 32 b'a' ++ replicate 32 b'b';
  ext_ids = codes "one" ∷ [] ∷ codes "three" ∷ [];
  content = codes "content";
}

abbrev id : Bytes
id = replicate 16 0xaa ++ replicate 16 0xbb

entry-id : decode_string entry.chain_id ≡ ok id
unfolding decode_string factom.Base.Hex.hex_value
entry-id = refl

abbrev entry_bytes : Bytes
entry_bytes =
    0 ∷ (id ++ (0 ∷ 14 ∷ 0 ∷ 3 ∷ codes "one") ++ (0 ∷ 0 ∷ 0 ∷ 5 ∷ codes "three") ++ codes "content")

entry-marshalled : Entry.marshal_binary entry ≡ ok entry_bytes
unfolding Entry.marshal_binary decode_string factom.Base.Hex.hex_value factom.Base.Hex.big_endian16
    Entry.marshal_ext_ids_binary
entry-marshalled = refl

entry-cost : entry_cost entry ≡ ok (pos 1)
unfolding entry_cost Entry.marshal_binary decode_string factom.Base.Hex.hex_value
    factom.Base.Hex.big_endian16 Entry.marshal_ext_ids_binary factom.Base.Int.int8
    factom.Base.Int.◌+ℤ◌
entry-cost = refl

entry-small : ext_ids_size entry.ext_ids < 2 ^ 16
unfolding ext_ids_size
entry-small = omega arith

read_entry-marshal_binary_example : read_entry entry_bytes ≡ some (id, entry.ext_ids, entry.content)
read_entry-marshal_binary_example =
    read_entry-marshal_binary entry id entry-id refl entry-small entry-marshalled

entry_cost-eq_example :
    let n = ext_ids_size entry.ext_ids + length entry.content in
    entry_cost entry ≡ (
      if leb n 10240
      then ok (pos (if leb n 1024 then 1 else (n + 1023) / 1024))
      else err Error.entry_too_large)
entry_cost-eq_example = entry_cost-eq entry id entry-id refl

abbrev now : ℕ
now = 1500000000000

abbrev entry_header : Bytes
entry_header = 0 ∷ (milli_time now ++ (Entry.hash toy_crypto entry ++ 1 ∷ []))

entry_header-composed : entry_commit_header toy_crypto now entry ≡ ok entry_header
unfolding entry_commit_header entry_cost Entry.marshal_binary decode_string
    factom.Base.Hex.hex_value factom.Base.Hex.big_endian16 Entry.marshal_ext_ids_binary
    factom.Base.Int.int8 factom.Base.Int.◌+ℤ◌ factom.Base.Int.byte
entry_header-composed = refl

entry_commit_lem_example :
    let msg = signed_by toy_crypto ec_address entry_header in
    (length msg ≡ 136)
    × (take 32 (drop 7 msg) ≡ Entry.hash toy_crypto entry)
    × (take 32 (drop 40 msg) ≡ ec_address.public_key)
    × (toy_crypto.verify (take 32 (drop 40 msg)) (take 40 msg) (drop 32 (drop 40 msg)) ≡ true)
entry_commit_lem_example =
    entry_commit_lem toy_crypto-IsLawful seed now entry ec_address-made entry_header-composed

abbrev chain : Chain
chain = new_chain toy_crypto entry

abbrev named_chain : Chain
named_chain = record { chain_id = entry.chain_id; first_entry = entry }

abbrev chain_header : Bytes
chain_header =
    let hash = Entry.hash toy_crypto entry in
    0
    ∷ (milli_time now
        ++ (shad toy_crypto id ++ (shad toy_crypto (hash ++ id) ++ (hash ++ 11 ∷ []))))

chain_header-composed : chain_commit_header toy_crypto now named_chain ≡ ok chain_header
unfolding chain_commit_header decode_string factom.Base.Hex.hex_value entry_cost
    Entry.marshal_binary factom.Base.Hex.big_endian16 Entry.marshal_ext_ids_binary
    factom.Base.Int.int8 factom.Base.Int.◌+ℤ◌ factom.Base.Int.byte
chain_header-composed = refl

chain_commit_lem_example :
    let msg = signed_by toy_crypto ec_address chain_header in
    (length msg ≡ 200)
    × (take 32 (drop 7 msg) ≡ shad toy_crypto id)
    × (take 32 (drop 39 msg) ≡ shad toy_crypto (Entry.hash toy_crypto entry ++ id))
    × (take 32 (drop 71 msg) ≡ Entry.hash toy_crypto entry)
    × (take 32 (drop 104 msg) ≡ ec_address.public_key)
    × (toy_crypto.verify (take 32 (drop 104 msg)) (take 104 msg) (drop 32 (drop 104 msg)) ≡ true)
chain_commit_lem_example =
    chain_commit_lem toy_crypto-IsLawful seed now named_chain ec_address-made entry-id
      chain_header-composed

factoid_to_factoshi-factoshi_to_factoid_example :
    factoid_to_factoshi (λ x n. pos 0) (factoshi_to_factoid 123450000000) ≡ 123450000000
factoid_to_factoshi-factoshi_to_factoid_example =
    factoid_to_factoshi-factoshi_to_factoid (λ x n. pos 0) 123450000000 (omega arith)

twelve-all_digits : all_digits (codes "12") ≡ true
unfolding all_digits
twelve-all_digits = refl

decimals-all_digits : all_digits (codes "345") ≡ true
unfolding all_digits
decimals-all_digits = refl

twelve-value : value 0 (codes "12") ≤ max_int
unfolding value
twelve-value = omega arith
