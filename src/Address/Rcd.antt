-- ===== src/Address/Rcd.antt =====
-- Redeem condition datastructures (rcd.go). `RCD1` is the only implementation of `RCD`.
use factom.Base.{ℕ, Bytes, ◌∷◌, replicate, length, ◌≡◌}
use factom.Crypto.{Crypto, IsLawful, shad, length-shad}

pub record Rcd1 : Type 0 where
  pub public_key : Bytes

-- `NewRCD1`
unfoldable pub new_rcd1 : Rcd1
new_rcd1 = record { public_key = replicate 32 0 }

-- `Type`
abbrev rcd_type : ℕ
rcd_type = 1

-- `Hash`: the type byte and the public key, hashed twice.
unfoldable pub hash : Crypto → Rcd1 → Bytes
hash c r = shad c (rcd_type ∷ r.public_key)

pub length-hash : {c : Crypto} → IsLawful c → (r : Rcd1) → length (hash c r) ≡ 32
unfolding hash
length-hash laws r = length-shad laws (rcd_type ∷ r.public_key)
