-- ===== src/Entry/Cost.antt =====
-- `EntryCost` (util.go).
use factom.Base.{
  entry_too_large, ℕ, ◌+◌, ◌-◌, ◌/◌, ◌≤◌, ◌≡◌, some, arith, Bytes, length, leb, if◌then◌else◌,
  Result, ok, err, ◌>>=◌,
}
use factom.Base.Hex.{decode_string}
use factom.Entry.Layout.{read_entry, ext_ids_size, read_entry-marshal_binary, length-marshal_binary}
use factom.Base.Int.{◌≤ℤ◌, rem, ltb_ℤ, quot, sub_ℕ, ◌+ℤ◌, int8, ℤ, pos}
use factom.Entry.{Entry, marshal_binary}

-- The cost of an entry whose binary form has a length, less a header of 35 bytes. `l` is an int and
-- may be negative; `n` is an int8.
unfoldable cost_of_length : ℕ → Result ℤ
cost_of_length len =
    let l = sub_ℕ len 35 in
    let n = int8 (quot l 1024) in
    let n' = if ltb_ℤ (pos 0) (rem l 1024) then int8 (n +ℤ pos 1) else n in
    if ltb_ℤ (pos 10240) l
    then err entry_too_large
    else if ltb_ℤ n' (pos 1)
    then ok (pos 1)
    else ok n'

unfoldable pub entry_cost : Entry → Result ℤ
unfolding cost_of_length
entry_cost e = do p ← marshal_binary e; cost_of_length (length p)

-- The number of whole or begun KiB behind the header, at least one.
cost_of_length-eq :
    (len : ℕ)
    → cost_of_length len ≡ (
        if leb len 10275
        then ok (pos (if leb len 1059 then 1 else (len - 35 + 1023) / 1024))
        else err entry_too_large)
unfolding cost_of_length int8 ◌+ℤ◌
cost_of_length-eq len = ground arith

-- What an entry costs whose chain id is 32 bytes in hexadecimal: the ExtIDs with their lengths and
-- the content are counted in KiB, rounded up, at least one, and more than ten are refused.
pub entry_cost-eq :
    (e : Entry) (id : Bytes)
    → decode_string e.chain_id ≡ ok id
    → length id ≡ 32
    → let n = ext_ids_size e.ext_ids + length e.content in
      entry_cost e ≡ (
        if leb n 10240
        then ok (pos (if leb n 1024 then 1 else (n + 1023) / 1024))
        else err entry_too_large)
unfolding entry_cost
entry_cost-eq e id h long =
    let (p, made, size) = length-marshal_binary e id h long in
    rw (made, cost_of_length-eq (length p), size) (ground arith)

-- An entry that can be paid for costs between one and ten credits, and is read back from its binary
-- form: the ExtIDs of such an entry never overflow the two bytes of their size.
pub entry_cost-read_entry :
    (e : Entry) (id : Bytes) {cost : ℤ}
    → decode_string e.chain_id ≡ ok id
    → length id ≡ 32
    → entry_cost e ≡ ok cost
    → (p : Bytes) × (marshal_binary e ≡ ok p)
      × (read_entry p ≡ some (id, e.ext_ids, e.content))
      × (pos 1 ≤ℤ cost)
      × (cost ≤ℤ pos 10)
entry_cost-read_entry e id {cost} h long paid =
    let n = ext_ids_size e.ext_ids + length e.content in
    let (p, made, _) = length-marshal_binary e id h long in
    let priced = entry_cost-eq e id h long in
    let small : n ≤ 10240 = ground (arith, priced, paid) in
    (
      p,
      made,
      read_entry-marshal_binary e id h long (omega arith) made,
      ground (arith, priced, paid),
      ground (arith, priced, paid),
    )
