-- ===== src/Address/Checksum.antt =====
-- The tail that every printed key shares (addresses.go, identityKeys.go): `check :=
-- shad(buf.Bytes())[:ChecksumLength]; buf.Write(check); return base58.Encode(buf.Bytes())`.
use factom.Base.{
  append_assoc, ℕ, ◌+◌, ◌≡◌, true, Bytes, ◌++◌, length, take, drop, length-append, take-append,
  drop-append, length-take, bytes_eq, bytes_eq_refl, arith,
}
use factom.Crypto.{Crypto, IsLawful, shad, length-shad}

abbrev pub checksum_length : ℕ
checksum_length = 4

unfoldable pub checksummed : Crypto → Bytes → Bytes
checksummed c buf = c.base58_encode (buf ++ take checksum_length (shad c buf))

module _ {c : Crypto} (laws : IsLawful c) where
  decode-checksummed :
      (buf : Bytes) → c.base58_decode (checksummed c buf) ≡ buf ++ take checksum_length (shad c buf)
  unfolding checksummed
  decode-checksummed buf = laws.decode-encode (buf ++ take checksum_length (shad c buf))

  length-check : (buf : Bytes) → length (take checksum_length (shad c buf)) ≡ checksum_length
  length-check buf = length-take 4 (shad c buf) (omega (arith, length-shad laws buf))

  -- What a reader of the string finds: its length, its body, and a checksum that agrees.
  pub length-decoded :
      (n : ℕ) (buf : Bytes)
      → length buf ≡ n
      → length (c.base58_decode (checksummed c buf)) ≡ n + checksum_length
  length-decoded n buf h =
      rw (decode-checksummed buf)
        (omega (arith, length-append buf (take 4 (shad c buf)), length-check buf))

  take-decoded :
      (n : ℕ) (buf : Bytes) → length buf ≡ n → take n (c.base58_decode (checksummed c buf)) ≡ buf
  take-decoded n buf h = rw (decode-checksummed buf) (take-append n buf _ h)

  pub check_agrees :
      (n : ℕ) (buf : Bytes)
      → length buf ≡ n
      → bytes_eq
          (take checksum_length (shad c (take n (c.base58_decode (checksummed c buf)))))
          (drop n (c.base58_decode (checksummed c buf)))
        ≡ true
  check_agrees n buf h =
      rw (take-decoded n buf h, decode-checksummed buf, drop-append n buf (take 4 (shad c buf)) h)
        (bytes_eq_refl (take 4 (shad c buf)))

  -- The prefix and the key that it was printed from.
  pub prefix-decoded :
      (k : ℕ) (prefix key : Bytes)
      → length prefix ≡ k
      → take k (c.base58_decode (checksummed c (prefix ++ key))) ≡ prefix
  prefix-decoded k prefix key h =
      rw (decode-checksummed (prefix ++ key), append_assoc) (take-append k prefix _ h)

  pub key-decoded :
      (k n : ℕ) (prefix key : Bytes)
      → length prefix ≡ k
      → length (prefix ++ key) ≡ n
      → drop k (take n (c.base58_decode (checksummed c (prefix ++ key)))) ≡ key
  key-decoded k n prefix key h e =
      rw (take-decoded n (prefix ++ key) e) (drop-append k prefix key h)
