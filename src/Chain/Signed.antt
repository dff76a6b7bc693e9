-- ===== src/Chain/Signed.antt =====
-- The message that commits a chain.
use factom.Entry.Commit.Signed.{signed_by_lem, length-hash, length-milli_time}
use factom.Base.{
  take-drop-part, >>=-eq-ok, ℕ, ◌≡◌, ◌∙◌, true, [], ◌∷◌, ◌++◌, append_assoc, arith, Bytes, length,
  take, drop, ok, length-append,
}
use factom.Base.Int.{byte, int8, ◌+ℤ◌, ℤ, pos}
use factom.Crypto.{length-shad, Crypto, IsLawful, shad}
use factom.Address.EcAddress
use factom.Address.EcAddress.{EcAddress, make_ec_address}
use factom.Entry
use factom.Entry.Commit.{signed_by}
use factom.Chain.{entry_cost, milli_time, decode_string, Chain, chain_commit_header}

-- What a composed header consists of.
chain_commit_header-eq-ok :
    (c : Crypto) (now : ℕ) (chain : Chain) {buf id : Bytes}
    → decode_string chain.chain_id ≡ ok id
    → chain_commit_header c now chain ≡ ok buf
    → let h = Entry.hash c chain.first_entry in
      (cost : ℤ) × (entry_cost chain.first_entry ≡ ok cost)
      × (0
            ∷ (milli_time now
                ++ (shad c id ++ (shad c (h ++ id) ++ (h ++ byte (int8 (cost +ℤ pos 10)) ∷ []))))
          ≡ buf)
unfolding chain_commit_header
chain_commit_header-eq-ok c now chain named h =
    let named_twice = rw named at h in
    let (cost, paid, built) = >>=-eq-ok (entry_cost chain.first_entry) _ named_twice in
    (cost, paid, cc)

-- A commit message of a chain, whose id is hexadecimal, whose header is composed and which an
-- address made from a key signs, has 200 bytes. It names the hash of the chain id, the weld of the
-- first entry to the chain, the hash of that entry and the payer's public key, and the payer's
-- signature of the first 104 bytes verifies by that key.
pub chain_commit_lem :
    {c : Crypto} (laws : IsLawful c) (sec : Bytes) {ec : EcAddress} (now : ℕ) (chain : Chain)
    {buf id : Bytes}
    → make_ec_address c sec ≡ ok ec
    → decode_string chain.chain_id ≡ ok id
    → chain_commit_header c now chain ≡ ok buf
    → let msg = signed_by c ec buf in
      (length msg ≡ 200)
      × (take 32 (drop 7 msg) ≡ shad c id)
      × (take 32 (drop 39 msg) ≡ shad c (Entry.hash c chain.first_entry ++ id))
      × (take 32 (drop 71 msg) ≡ Entry.hash c chain.first_entry)
      × (take 32 (drop 104 msg) ≡ ec.public_key)
      × (c.verify (take 32 (drop 104 msg)) (take 104 msg) (drop 32 (drop 104 msg)) ≡ true)
chain_commit_lem {c} laws sec {ec} now chain {buf} {id} made named composed =
    let m = milli_time now in
    let h = Entry.hash c chain.first_entry in
    let weld = shad c (h ++ id) in
    let (cost, _, eq) = chain_commit_header-eq-ok c now chain named composed in
    let price = byte (int8 (cost +ℤ pos 10)) ∷ [] in
    let long_m = length-milli_time now in
    let long_id = length-shad laws id in
    let long_weld = length-shad laws (h ++ id) in
    let long_h = length-hash laws chain.first_entry in
    let long : length buf ≡ 104 = rw (← eq) (
      omega (
        arith,
        length-append m (shad c id ++ (weld ++ (h ++ price))),
        length-append (shad c id) (weld ++ (h ++ price)),
        length-append weld (h ++ price),
        length-append h price,
        long_m,
        long_id,
        long_weld,
        long_h,
      )) in
    let tail = price ++ (ec.public_key ++ EcAddress.sign c ec buf) in
    let at_id : signed_by c ec buf ≡ (0 ∷ m) ++ (shad c id ++ (weld ++ (h ++ tail))) =
      unfold signed_by in rw (← eq) (simp append_assoc) in
    let at_weld : signed_by c ec buf ≡ (0 ∷ (m ++ shad c id)) ++ (weld ++ (h ++ tail)) =
      at_id ∙ simp append_assoc in
    let at_hash : signed_by c ec buf ≡ (0 ∷ (m ++ (shad c id ++ weld))) ++ (h ++ tail) =
      at_id ∙ simp append_assoc in
    let (size, _, key, verifies) = rw long at (signed_by_lem laws sec buf made) in
    (
      size,
      rw at_id (take-drop-part 7 32 (0 ∷ m) (shad c id) _ (omega arith) long_id),
      rw at_weld (
          take-drop-part 39 32 (0 ∷ (m ++ shad c id)) weld _
            (omega (arith, length-append m (shad c id), long_id)) long_weld),
      rw at_hash (
          take-drop-part 71 32 (0 ∷ (m ++ (shad c id ++ weld))) h _
            (omega (arith, length-append m (shad c id ++ weld), length-append (shad c id) weld))
            long_h),
      key,
      verifies,
    )
