-- ===== src/Entry/Commit/Signed.antt =====
-- The layout of the signed messages, and their signatures.
use factom.Address.EcAddress.RoundTrip.{make_ec_address-eq-ok}
use factom.Base.{
  append_assoc, [], ◌∷◌, >>=-eq-ok, drop-append, take-append, length-drop, ℕ, ◌+◌, ◌/◌, ◌^◌, ◌≡◌,
  refl, true, ◌++◌, arith, Bytes, length, take, drop, replicate, copy, ok, err, length-append,
}
use factom.Base.Hex.{big_endian64, length-big_endian64}
use factom.Base.Int.{ℤ, byte}
use factom.Crypto.{sha52, Crypto, IsLawful, length-sha52}
use factom.Address.EcAddress
use factom.Address.EcAddress.{EcAddress, make_ec_address}
use factom.Entry
use factom.Entry.{Entry, marshal_binary}
use factom.Entry.Commit.{byte, entry_cost, entry_commit_header, milli_time, signed_by}

pub length-milli_time : (now : ℕ) → length (milli_time now) ≡ 6
unfolding milli_time
length-milli_time now =
    omega (arith, length-drop 2 (big_endian64 (now / 10 ^ 6)), length-big_endian64 (now / 10 ^ 6))

pub length-hash : {c : Crypto} → IsLawful c → (e : Entry) → length (Entry.hash c e) ≡ 32
unfolding Entry.hash
length-hash {c} laws e =
    elim (marshal_binary e)
      as (λ r. length (elim r [ ok a ↦ sha52 c a | err _ ↦ replicate 32 0 ]) ≡ 32) [
        | ok a ↦ length-sha52 laws a
        | err x ↦ refl
      ]

-- What an address signs verifies by its public key, if it was made from a private key.
pub sign-verifies :
    {c : Crypto} (laws : IsLawful c) (sec : Bytes) {a : EcAddress}
    → make_ec_address c sec ≡ ok a
    → (msg : Bytes) → c.verify a.public_key msg (EcAddress.sign c a msg) ≡ true
unfolding make_ec_address EcAddress.sign
sign-verifies {c} laws sec {a} made msg =
    let array = copy (replicate 64 0) (take 32 sec) in
    let b : EcAddress = record {
      public_key = c.get_public_key array;
      secret = c.filled_private_key array;
    } in
    let e : b ≡ a = ground (arith, made) in rw (← e) (laws.verify-sign array msg)

-- A message that an address of the wallet signs: the header is followed by the public key and a
-- signature of the header that verifies by it.
pub signed_by_lem :
    {c : Crypto} (laws : IsLawful c) (sec : Bytes) {ec : EcAddress} (buf : Bytes)
    → make_ec_address c sec ≡ ok ec
    → let n = length buf in
      let msg = signed_by c ec buf in
      (length msg ≡ n + 96)
      × (take n msg ≡ buf)
      × (take 32 (drop n msg) ≡ ec.public_key)
      × (c.verify (take 32 (drop n msg)) (take n msg) (drop 32 (drop n msg)) ≡ true)
unfolding signed_by
signed_by_lem {c} laws sec {ec} buf made =
    let sig = EcAddress.sign c ec buf in
    let (_, _, full, _) = make_ec_address-eq-ok laws sec made in
    let long : length sig ≡ 64 = unfold EcAddress.sign in laws.length-sign ec.secret buf in
    (
      omega (arith, length-append buf (ec.public_key ++ sig), length-append ec.public_key sig),
      take-append (length buf) buf _ refl,
      rw (drop-append (length buf) buf (ec.public_key ++ sig) refl)
          (take-append 32 ec.public_key sig full),
      rw
          (
            drop-append (length buf) buf (ec.public_key ++ sig) refl,
            take-append (length buf) buf (ec.public_key ++ sig) refl,
            take-append 32 ec.public_key sig full,
            drop-append 32 ec.public_key sig full,
          )
          (sign-verifies laws sec made buf),
    )

-- What a composed header consists of.
entry_commit_header-eq-ok :
    (c : Crypto) (now : ℕ) (e : Entry) {buf : Bytes}
    → entry_commit_header c now e ≡ ok buf
    → (cost : ℤ) × (entry_cost e ≡ ok cost)
      × (0 ∷ (milli_time now ++ (Entry.hash c e ++ byte cost ∷ [])) ≡ buf)
unfolding entry_commit_header
entry_commit_header-eq-ok c now e h =
    let (cost, paid, built) = >>=-eq-ok (entry_cost e) _ h in (cost, paid, cc)

-- A commit message of an entry, whose header is composed and which an address made from a key
-- signs, has 136 bytes. It names the entry's hash and the payer's public key, and the payer's
-- signature of the first 40 bytes verifies by that key.
pub entry_commit_lem :
    {c : Crypto} (laws : IsLawful c) (sec : Bytes) {ec : EcAddress} (now : ℕ) (e : Entry)
    {buf : Bytes}
    → make_ec_address c sec ≡ ok ec
    → entry_commit_header c now e ≡ ok buf
    → let msg = signed_by c ec buf in
      (length msg ≡ 136)
      × (take 32 (drop 7 msg) ≡ Entry.hash c e)
      × (take 32 (drop 40 msg) ≡ ec.public_key)
      × (c.verify (take 32 (drop 40 msg)) (take 40 msg) (drop 32 (drop 40 msg)) ≡ true)
entry_commit_lem {c} laws sec {ec} now e {buf} made composed =
    let m = milli_time now in
    let h = Entry.hash c e in
    let (cost, _, eq) = entry_commit_header-eq-ok c now e composed in
    let long : length buf ≡ 40 = rw (← eq) (
      omega (
        arith,
        length-append m (h ++ byte cost ∷ []),
        length-append h (byte cost ∷ []),
        length-milli_time now,
        length-hash laws e,
      )) in
    let (size, _, key, verifies) = rw long at (signed_by_lem laws sec buf made) in
    (
      size,
      unfold signed_by in
          rw (← eq, append_assoc, drop-append 6 m _ (length-milli_time now), append_assoc)
            (take-append 32 h _ (length-hash laws e)),
      key,
      verifies,
    )
