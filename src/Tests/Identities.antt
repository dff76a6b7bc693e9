-- ===== src/Tests/Identities.antt =====
-- An identity with two keys, of which the first replaces the second, and signed entries.
use factom.Entry.{Entry}
use factom.Identity.Keys.{process_entries, process_ext_ids, KeyState}
use factom.Identity.Keys.Authority.{Replacement, process_ext_ids_lem}
use factom.Identity.Keys.Seniority.{Unsigned, process_entries-Unsigned}
use factom.Base.{
  get_elem?, zero, suc, ◌≡◌, ◌⊎◌, refl, true, List, [], ◌∷◌, arith, Bytes, codes, replicate,
}
use factom.Tests.{toy_crypto}
use factom.Tests.Addresses.{identity_key}
use factom.IdentityKey
use factom.IdentityKey.{IdentityKey}

abbrev second_key : IdentityKey
second_key = record { public_key = replicate 32 8; secret = replicate 64 0 }

abbrev third_key : IdentityKey
third_key = record { public_key = replicate 32 9; secret = replicate 64 0 }

abbrev first_string : Bytes
first_string = IdentityKey.pub_string toy_crypto identity_key

abbrev second_string : Bytes
second_string = IdentityKey.pub_string toy_crypto second_key

abbrev third_string : Bytes
third_string = IdentityKey.pub_string toy_crypto third_key

abbrev keys : KeyState
keys = record { active = identity_key ∷ second_key ∷ []; all = second_string ∷ first_string ∷ [] }

abbrev chain_id : Bytes
chain_id = replicate 64 b'c'

-- A request with a signature by none of the keys.
abbrev forged : List Bytes
forged = codes "ReplaceKey" ∷ second_string ∷ third_string ∷ replicate 64 1 ∷ first_string ∷ []

process_ext_ids_lem_example :
    let st' = process_ext_ids toy_crypto chain_id forged keys in
    (st' ≡ keys) ⊎ Replacement toy_crypto chain_id forged keys st'
process_ext_ids_lem_example = process_ext_ids_lem toy_crypto chain_id forged keys

abbrev forged_entry : Entry
forged_entry = record { chain_id = chain_id; ext_ids = forged; content = [] }

forged-Unsigned : Unsigned toy_crypto chain_id 0 keys.active forged
unfolding factom.Base.bytes_eq
forged-Unsigned tag old new sig signer rest zero k shape near at_zero =
    let first : identity_key ≡ k = cc in
    let forgery : replicate 64 1 ≡ sig = cc in rw (← first, ← forgery) refl
forged-Unsigned tag old new sig signer rest (suc j) k shape near at_j = absurd (omega arith)

process_entries-Unsigned_example :
    get_elem? (process_entries toy_crypto chain_id (forged_entry ∷ []) keys).active 0
    ≡ get_elem? keys.active 0
process_entries-Unsigned_example =
    process_entries-Unsigned toy_crypto chain_id (forged_entry ∷ []) keys 0 (forged-Unsigned, tt) 0
      (omega arith)
