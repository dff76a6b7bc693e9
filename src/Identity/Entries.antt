-- ===== src/Identity/Entries.antt =====
-- The entries of an identity (identity.go): those that replace a key, assign an attribute and
-- endorse one, and the checks of the last two.
pub mod Valid
use factom.IdentityKey.Strings.{identity_key_string_type}
use factom.Identity.Chains.{is_id_pub}
use factom.Entry.{Entry}
use factom.IdentityKey.{IdentityKey}
use factom.Crypto.{Crypto}
use factom.Base.{
  ℕ, zero, suc, ◌+◌, ◌-◌, ◌*◌, ◌/◌, ◌%◌, ◌^◌, ◌≤◌, ◌<◌, ◌≡◌, ◌≢◌, ◌↔◌, ◌⊎◌, ◌∙◌, inl, inr, refl,
  sym, ap, Bool, true, false, not, ◌&&◌, ◌||◌, Option, none, some, List, [], ◌∷◌, ◌++◌, map,
  append_assoc, append-nil, arith, Bytes, codes, length, take, drop, replicate, copy, bytes_eq, ltb,
  leb, ◌==◌, if◌then◌else◌, Result, ok, err, Error, ◌>>=◌, ◌>>◌, fail_if, All, IsByte, Bool-cases,
  Option-cases, length-append,
}
use factom.Identity.Keys.{key_of_string}
use factom.IdentityKey

-- `NewIdentityKeyReplacementEntry`
unfoldable pub new_identity_key_replacement_entry :
    Crypto → Bytes → Bytes → Bytes → IdentityKey → Result Entry
new_identity_key_replacement_entry c chain_id old new signer_key = do
  fail_if (not (is_id_pub (identity_key_string_type c old))) (Error.not_identity_public old)
  fail_if (not (is_id_pub (identity_key_string_type c new))) (Error.not_identity_public new)
  let signature = IdentityKey.sign c signer_key (chain_id ++ (old ++ new))
  ok (record {
    chain_id = chain_id;
    ext_ids = codes "ReplaceKey" ∷ old ∷ new ∷ signature ∷ IdentityKey.pub_string c signer_key ∷ [];
    content = [];
  })

-- `NewIdentityAttributeEntry`
unfoldable pub new_identity_attribute_entry :
    Crypto → Bytes → Bytes → Bytes → IdentityKey → Bytes → Entry
new_identity_attribute_entry c receiver destination attributes_json signer_key signer_chain_id =
    let message = (receiver ++ destination) ++ c.sha256 attributes_json in
    record {
      chain_id = destination;
      ext_ids =
          codes "IdentityAttribute"
          ∷ receiver
          ∷ IdentityKey.sign c signer_key message
          ∷ IdentityKey.pub_string c signer_key
          ∷ signer_chain_id
          ∷ [];
      content = attributes_json;
    }

-- `NewIdentityAttributeEndorsementEntry`
unfoldable pub new_identity_attribute_endorsement_entry :
    Crypto → Bytes → Bytes → IdentityKey → Bytes → Entry
new_identity_attribute_endorsement_entry c destination entry_hash signer_key signer_chain_id =
    let message = destination ++ entry_hash in
    record {
      chain_id = destination;
      ext_ids =
          codes "IdentityAttributeEndorsement"
          ∷ IdentityKey.sign c signer_key message
          ∷ IdentityKey.pub_string c signer_key
          ∷ signer_chain_id
          ∷ [];
      content = entry_hash;
    }

-- `IsValidAttribute`
unfoldable pub is_valid_attribute : Crypto → Entry → Bool
is_valid_attribute c e = elim e.ext_ids [
  | tag ∷ receiver ∷ sig ∷ signer ∷ signer_chain_id ∷ _ ↦
      if not (bytes_eq tag (codes "IdentityAttribute"))
      then false
      else if not (length receiver == 64) || not (length signer_chain_id == 64)
      then false
      else if not (is_id_pub (identity_key_string_type c signer))
      then false
      else c.verify (key_of_string c signer) ((receiver ++ e.chain_id) ++ c.sha256 e.content)
          (copy (replicate 64 0) sig)
  | _ ↦ false
]

-- `IsValidEndorsement`
unfoldable pub is_valid_endorsement : Crypto → Entry → Bool
is_valid_endorsement c e = elim e.ext_ids [
  | tag ∷ sig ∷ signer ∷ signer_chain_id ∷ _ ↦
      if not (bytes_eq tag (codes "IdentityAttributeEndorsement"))
      then false
      else if not (length signer_chain_id == 64)
      then false
      else if not (is_id_pub (identity_key_string_type c signer))
      then false
      else c.verify (key_of_string c signer) (e.chain_id ++ e.content) (copy (replicate 64 0) sig)
  | _ ↦ false
]
