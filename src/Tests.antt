-- ===== src/Tests.antt =====
-- Concrete libraries and data, which show that what the theorems assume can hold: a checksum for a
-- hash, a padding for base58, and a signature that names the seed and the hash of the message.
pub mod Addresses
pub mod Entries
pub mod Identities
pub mod Wallets
pub mod Requests
pub mod Reading
pub mod Caching
pub mod Batching
pub mod Storing
pub mod Opening
pub mod Signing
pub mod Paying
pub mod Answering
pub mod Composing
pub mod Serving
pub mod Asking
use factom.Crypto.{Crypto, IsLawful}
use factom.Base.{
  bytes_eq_refl, length-take, ℕ, zero, suc, ◌+◌, ◌-◌, ◌*◌, ◌/◌, ◌%◌, ◌^◌, ◌≤◌, ◌<◌, ◌≡◌, ◌≢◌, ◌↔◌,
  ◌⊎◌, ◌∙◌, inl, inr, refl, sym, ap, Bool, true, false, not, ◌&&◌, ◌||◌, Option, none, some, List,
  [], ◌∷◌, ◌++◌, map, append_assoc, append-nil, arith, Bytes, codes, length, take, drop, replicate,
  copy, bytes_eq, ltb, leb, ◌==◌, if◌then◌else◌, Result, ok, err, Error, ◌>>=◌, ◌>>◌, fail_if, All,
  IsByte, Bool-cases, Option-cases, length-append,
}

abbrev sum_bytes : Bytes → ℕ
sum_bytes [] = 0
sum_bytes (b ∷ s) = b + 2 * sum_bytes s

abbrev digest : Bytes → Bytes
digest x = replicate 32 (sum_bytes x % 256)

abbrev seed_of : Bytes → Bytes
seed_of sec = take 32 (take 32 sec ++ replicate 32 0)

abbrev pub toy_crypto : Crypto
toy_crypto = record {
  sha256 = digest;
  sha512 = λ x. digest x ++ digest x;
  base58_encode = λ x. replicate 14 0 ++ x;
  base58_decode = drop 14;
  get_public_key = seed_of;
  filled_private_key = λ sec. sec;
  sign = λ sec msg. seed_of sec ++ digest msg;
  verify = λ key msg sig. bytes_eq sig (key ++ digest msg);
}

length-seed_of : (sec : Bytes) → length (seed_of sec) ≡ 32
length-seed_of sec =
    length-take 32 (take 32 sec ++ replicate 32 0)
      (omega (arith, length-append (take 32 sec) (replicate 32 0)))

replicate-IsByte : (n b : ℕ) → b < 256 → All IsByte (replicate n b)
replicate-IsByte zero b h = tt
replicate-IsByte (suc n) b h = (h, replicate-IsByte n b h)

pub toy_crypto-IsLawful : IsLawful toy_crypto
toy_crypto-IsLawful = record {
  length-sha256 = λ x. refl;
  sha256-IsByte = λ x. replicate-IsByte 32 (sum_bytes x % 256) (omega arith);
  decode-encode = λ x. refl;
  length-get_public_key = length-seed_of;
  length-sign =
      λ sec msg. length-append (seed_of sec) (digest msg) ∙ ap (λ n. n + 32) (length-seed_of sec);
  filled-seed = λ sec. refl;
  length-filled = λ sec. refl;
  public_key_of_seed = λ s t e. ap (λ x. take 32 (x ++ replicate 32 0)) e;
  verify-sign = λ sec msg. bytes_eq_refl (seed_of sec ++ digest msg);
}

-- A private key.
abbrev pub seed : Bytes
seed = replicate 32 7
