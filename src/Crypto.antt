-- ===== src/Crypto.antt =====
-- What the package calls and does not implement: SHA-2 (crypto/sha256, crypto/sha512), base58
-- (FactomProject/btcutil) and ed25519 (FactomProject/ed25519). They are parameters: every
-- definition that uses them takes a `Crypto`, and a theorem that rests on their documented
-- behaviour takes an `IsLawful` of it. Also here: the two compound hashes of util.go.
use factom.Base.{◌≡◌, true, Bool, Bytes, ◌++◌, length, take, All, IsByte}

pub record Crypto : Type 0 where
  -- `sha256.Sum256` and `sha512.Sum512`
  pub sha256 : Bytes → Bytes
  pub sha512 : Bytes → Bytes
  -- `base58.Encode` and `base58.Decode`
  pub base58_encode : Bytes → Bytes
  pub base58_decode : Bytes → Bytes
  -- `ed.GetPublicKey`: the public key of the first 32 bytes of a private key
  pub get_public_key : Bytes → Bytes
  -- `ed.GetPublicKey` also writes to the private key that it is handed: what that holds afterwards
  pub filled_private_key : Bytes → Bytes
  -- `ed.Sign` by a private key, and `ed.Verify` by a public key
  pub sign : Bytes → Bytes → Bytes
  pub verify : Bytes → Bytes → Bytes → Bool

-- What these libraries document.
pub record IsLawful (c : Crypto) : Type 0 where
  -- digests have 32 bytes
  pub length-sha256 : (x : Bytes) → length (c.sha256 x) ≡ 32
  pub sha256-IsByte : (x : Bytes) → All IsByte (c.sha256 x)
  -- base58 is an encoding
  pub decode-encode : (x : Bytes) → c.base58_decode (c.base58_encode x) ≡ x
  -- keys and signatures have 32 and 64 bytes
  pub length-get_public_key : (sec : Bytes) → length (c.get_public_key sec) ≡ 32
  pub length-sign : (sec msg : Bytes) → length (c.sign sec msg) ≡ 64
  -- the seed, the first half of a private key, is left as it was
  pub filled-seed : (sec : Bytes) → take 32 (c.filled_private_key sec) ≡ take 32 sec
  pub length-filled : (sec : Bytes) → length (c.filled_private_key sec) ≡ length sec
  -- the public key depends on the seed alone
  pub public_key_of_seed :
      (s t : Bytes) → take 32 s ≡ take 32 t → c.get_public_key s ≡ c.get_public_key t
  -- what is signed by a filled private key verifies by its public key
  pub verify-sign :
      (sec msg : Bytes)
      → c.verify (c.get_public_key sec) msg (c.sign (c.filled_private_key sec) msg) ≡ true

-- `shad`: sha256(sha256(data))
unfoldable pub shad : Crypto → Bytes → Bytes
shad c x = c.sha256 (c.sha256 x)

-- `sha52`: sha256(sha512(data) + data)
unfoldable pub sha52 : Crypto → Bytes → Bytes
sha52 c x = c.sha256 (c.sha512 x ++ x)

module _ {c : Crypto} (laws : IsLawful c) where
  pub length-shad : (x : Bytes) → length (shad c x) ≡ 32
  unfolding shad
  length-shad x = laws.length-sha256 (c.sha256 x)

  pub length-sha52 : (x : Bytes) → length (sha52 c x) ≡ 32
  unfolding sha52
  length-sha52 x = laws.length-sha256 (c.sha512 x ++ x)
