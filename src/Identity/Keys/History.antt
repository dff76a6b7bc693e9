-- ===== src/Identity/Keys/History.antt =====
-- The record of all keys that are or were active.
use factom.Base.{contains, ◌≡◌, false, List, [], ◌∷◌, ◌++◌, Bytes}
use factom.Crypto.{Crypto}
use factom.IdentityKey.{IdentityKey, new_identity_key}
use factom.Entry.{Entry}
use factom.Identity.Keys.{key_of_string}

-- No key string stands twice.
abbrev pub Distinct : List Bytes → Type 0
Distinct [] = Unit
Distinct (x ∷ xs) = (contains xs x ≡ false) × Distinct xs

-- The keys of recorded strings, of which the first is the latest.
unfoldable pub recorded_keys : Crypto → List Bytes → List IdentityKey
recorded_keys c [] = []
recorded_keys c (s ∷ all) =
    recorded_keys c all ++ record new_identity_key { public_key = key_of_string c s } ∷ []
