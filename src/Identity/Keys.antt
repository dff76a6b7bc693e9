-- ===== src/Identity/Keys.antt =====
-- The active keys of an identity (identity.go, `GetActiveIdentityKeysAtHeight`): the initial keys
-- in the first entry of the chain, and the replacements that later entries ask for.
pub mod Authority
pub mod Seniority
pub mod History
use factom.Base.{
  set, contains, get_elem?, ℕ, zero, suc, ◌+◌, ◌-◌, ◌*◌, ◌/◌, ◌%◌, ◌^◌, ◌≤◌, ◌<◌, ◌≡◌, ◌≢◌, ◌↔◌,
  ◌⊎◌, ◌∙◌, inl, inr, refl, sym, ap, Bool, true, false, not, ◌&&◌, ◌||◌, Option, none, some, List,
  [], ◌∷◌, ◌++◌, map, append_assoc, append-nil, arith, Bytes, codes, length, take, drop, replicate,
  copy, bytes_eq, ltb, leb, ◌==◌, if◌then◌else◌, Result, ok, err, Error, ◌>>=◌, ◌>>◌, fail_if, All,
  IsByte, Bool-cases, Option-cases, length-append,
}
use factom.Crypto.{Crypto}
use factom.IdentityKey
use factom.IdentityKey.{IdentityKey, new_identity_key}
use factom.IdentityKey.Strings.{identity_key_string_type, id_key_prefix_length, id_key_body_length}
use factom.Entry.{Entry}
use factom.Identity.Chains.{is_id_pub}

-- `activeKeys`, by priority, and `allKeys`, every key that is or was active.
pub record KeyState : Type 0 where
  pub active : List IdentityKey
  pub all : List Bytes

-- The public key in a key string: `copy(k[:], p[IDKeyPrefixLength:IDKeyBodyLength])`.
unfoldable pub key_of_string : Crypto → Bytes → Bytes
key_of_string c s =
    copy (replicate 32 0) (drop id_key_prefix_length (take id_key_body_length (c.base58_decode s)))

-- The loop over the initial keys.
unfoldable pub add_initial_keys : Crypto → List Bytes → KeyState → Result KeyState
add_initial_keys c [] st = ok st
add_initial_keys c (s ∷ keys) st =
    let k = record new_identity_key { public_key = key_of_string c s } in
    let st' : KeyState = record { active = st.active ++ k ∷ []; all = s ∷ st.all } in
    let rest = add_initial_keys c keys (if contains st.all s then st else st') in
    if is_id_pub (identity_key_string_type c s) then rest else err (Error.invalid_first_entry s)

-- `levelToReplace`: the last level that holds the key, counted from `level`.
unfoldable pub find_level : Bytes → ℕ → List IdentityKey → Option ℕ → Option ℕ
find_level old level [] found = found
find_level old level (k ∷ keys) found =
    find_level old (level + 1) keys (if bytes_eq old k.public_key then some level else found)

-- The last loop: whether a key of the level to replace or of a higher priority is the signer's, and
-- its signature of the message verifies.
unfoldable pub is_authorised : Crypto → Bytes → Bytes → Bytes → ℕ → ℕ → List IdentityKey → Bool
is_authorised c signer message signature target level [] = false
is_authorised c signer message signature target level (k ∷ keys) =
    let rest = is_authorised c signer message signature target (level + 1) keys in
    let signed =
      bytes_eq (IdentityKey.pub_string c k) signer && c.verify k.public_key message signature in
    if ltb target level then false else if signed then true else rest

-- `activeKeys[level].Pub = &newKey`
unfoldable pub set_public : List IdentityKey → ℕ → Bytes → List IdentityKey
set_public [] level key = []
set_public (k ∷ keys) zero key = record k { public_key = key } ∷ keys
set_public (k ∷ keys) (suc level) key = k ∷ set_public keys level key

-- What an entry asks to replace, at the level that holds the old key.
unfoldable pub replace_key :
    Crypto → Bytes → Bytes → Bytes → Bytes → Bytes → KeyState → Option ℕ → KeyState
replace_key c chain_id old new sig signer st none = st
replace_key c chain_id old new sig signer st (some target) =
    let signature = copy (replicate 64 0) sig in
    let message = chain_id ++ (old ++ new) in
    if is_authorised c signer message signature target 0 st.active
    then record { active = set_public st.active target (key_of_string c new); all = new ∷ st.all }
    else st

-- The body of the loop over the entries; each `continue` leaves the state as it is.
unfoldable pub process_ext_ids : Crypto → Bytes → List Bytes → KeyState → KeyState
process_ext_ids c chain_id (tag ∷ old ∷ new ∷ sig ∷ signer ∷ _) st =
    if not (bytes_eq tag (codes "ReplaceKey"))
    then st
    else if not (length old == 55) || (not (length new == 55) || not (length sig == 64))
    then st
    else if not (is_id_pub (identity_key_string_type c old))
    then st
    else if not (is_id_pub (identity_key_string_type c new))
    then st
    else if contains st.all new
    then st
    else replace_key c chain_id old new sig signer st
        (find_level (key_of_string c old) 0 st.active none)
process_ext_ids c chain_id _ st = st

-- The loop over the entries.
unfoldable pub process_entries : Crypto → Bytes → List Entry → KeyState → KeyState
process_entries c chain_id [] st = st
process_entries c chain_id (e ∷ entries) st =
    process_entries c chain_id entries (process_ext_ids c chain_id e.ext_ids st)

-- The checks of the first entry.
abbrev is_identity_entry : List Bytes → Bool
is_identity_entry [] = false
is_identity_entry (tag ∷ _) = bytes_eq tag (codes "IdentityChain")

-- What follows the fetch of the entries. The first parameter is encoding/json's reader of the
-- content of the first entry, whose failure is reported as no identity.
unfoldable pub active_keys_of :
    Crypto → (Bytes → Option (List Bytes)) → Bytes → List Entry → Result (List Bytes)
active_keys_of c initial_keys chain_id [] = err Error.no_entry_at_height
active_keys_of c initial_keys chain_id (first ∷ entries) =
    if not (is_identity_entry first.ext_ids)
    then err Error.no_identity
    else elim (initial_keys first.content) [
      | none ↦ err Error.no_identity
      | some keys ↦ do
        st ← add_initial_keys c keys (record { active = []; all = [] })
        let st' = process_entries c chain_id (first ∷ entries) st
        ok (map (λ k. IdentityKey.pub_string c k) st'.active)
    ]
