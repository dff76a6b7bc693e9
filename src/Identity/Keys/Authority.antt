-- ===== src/Identity/Keys/Authority.antt =====
-- Who may replace a key of an identity.
use factom.Base.{
  if_cases, bytes_eq_sound, contains, get_elem?, ℕ, suc, ◌+◌, ◌≤◌, ◌≡◌, ◌⊎◌, inl, inr, refl, sym,
  true, false, not, ◌&&◌, ◌||◌, Option, none, some, List, [], ◌∷◌, ◌++◌, arith, Bytes, codes,
  length, replicate, copy, bytes_eq, ◌==◌, if◌then◌else◌, Bool-cases,
}
use factom.Crypto.{Crypto}
use factom.IdentityKey
use factom.IdentityKey.{IdentityKey}
use factom.Identity.Keys.{
  identity_key_string_type, is_id_pub, set_public, KeyState, key_of_string, find_level,
  is_authorised, replace_key, process_ext_ids,
}

-- A replacement that an entry's ExtIDs ask for, and what entitles it.
pub record Replacement (c : Crypto) (chain_id : Bytes) (ids : List Bytes) (st st' : KeyState)
    : Type 0 where
  pub old : Bytes
  pub new : Bytes
  pub sig : Bytes
  pub signer : Bytes
  pub rest : List Bytes
  -- the levels of the key that is replaced and of the key that signs
  pub target : ℕ
  pub level : ℕ
  pub replaced_key : IdentityKey
  pub signer_key : IdentityKey
  pub asked : ids ≡ codes "ReplaceKey" ∷ old ∷ new ∷ sig ∷ signer ∷ rest
  -- the new key never was active
  pub fresh : contains st.all new ≡ false
  pub replaced : get_elem? st.active target ≡ some replaced_key
  pub named : replaced_key.public_key ≡ key_of_string c old
  -- the signer has the same priority or a higher one, and its signature verifies
  pub senior : level ≤ target
  pub signs : get_elem? st.active level ≡ some signer_key
  pub signer_named : IdentityKey.pub_string c signer_key ≡ signer
  pub verifies :
      c.verify signer_key.public_key (chain_id ++ (old ++ new)) (copy (replicate 64 0) sig) ≡ true
  -- one key changes
  pub active_after : st'.active ≡ set_public st.active target (key_of_string c new)
  pub all_after : st'.all ≡ new ∷ st.all

find_level_lem :
    (old : Bytes) (level : ℕ) (keys : List IdentityKey) (found : Option ℕ) {t : ℕ}
    → find_level old level keys found ≡ some t
    → (found ≡ some t)
      ⊎ ((i : ℕ) × (k : IdentityKey) × (t ≡ level + i)
          × (get_elem? keys i ≡ some k)
          × (k.public_key ≡ old))
unfolding find_level
find_level_lem old level [] found h = inl h
find_level_lem old level (k ∷ keys) found {t} h =
    elim (find_level_lem old (level + 1) keys
      (if bytes_eq old k.public_key then some level else found) h) [
        | inl here ↦ elim (Bool-cases (bytes_eq old k.public_key)) [
          | inl same ↦
              inr
                (0, k, ground (arith, here, same), refl, sym (bytes_eq_sound old k.public_key same))
          | inr other ↦ inl (ground (arith, here, other))
        ]
        | inr (i, k', at, elem, named) ↦ inr (suc i, k', omega arith, elem, named)
      ]

is_authorised_lem :
    (c : Crypto) (signer message signature : Bytes) (target level : ℕ) (keys : List IdentityKey)
    → is_authorised c signer message signature target level keys ≡ true
    → (i : ℕ) × (k : IdentityKey) × (level + i ≤ target)
      × (get_elem? keys i ≡ some k)
      × (IdentityKey.pub_string c k ≡ signer)
      × (c.verify k.public_key message signature ≡ true)
unfolding is_authorised
is_authorised_lem c signer message signature target level [] h = absurd (cc)
is_authorised_lem c signer message signature target level (k ∷ keys) h =
    let named = bytes_eq (IdentityKey.pub_string c k) signer in
    let valid = c.verify k.public_key message signature in
    let near : level ≤ target = ground (arith, h) in
    elim (Bool-cases (named && valid)) [
      | inl signed ↦ (
        0,
        k,
        omega arith,
        refl,
        bytes_eq_sound (IdentityKey.pub_string c k) signer (ground (arith, signed)),
        ground (arith, signed),
      )
      | inr unsigned ↦
          let (i, k', senior, elem, by, valid') =
            is_authorised_lem c signer message signature target (level + 1) keys
              (ground (arith, h, unsigned)) in
          (suc i, k', omega arith, elem, by, valid')
    ]

-- A call of `replace_key` changes nothing, or makes a replacement that an active key entitles to.
replace_key_lem :
    (c : Crypto) (chain_id old new sig signer : Bytes) (rest : List Bytes) (st : KeyState)
    (found : Option ℕ)
    → contains st.all new ≡ false
    → find_level (key_of_string c old) 0 st.active none ≡ found
    → let st' = replace_key c chain_id old new sig signer st found in
      (st' ≡ st)
      ⊎ Replacement c chain_id (codes "ReplaceKey" ∷ old ∷ new ∷ sig ∷ signer ∷ rest) st st'
unfolding replace_key
replace_key_lem c chain_id old new sig signer rest st none fresh e = inl refl
replace_key_lem c chain_id old new sig signer rest st (some target) fresh e =
    let signature = copy (replicate 64 0) sig in
    let message = chain_id ++ (old ++ new) in
    elim (Bool-cases (is_authorised c signer message signature target 0 st.active)) [
      | inr refused ↦ inl (rw refused)
      | inl granted ↦ rw granted (elim (find_level_lem (key_of_string c old) 0 st.active none e) [
        | inl absent ↦ absurd (cc)
        | inr (i, k, at, elem, named) ↦
            let (level, by, senior, signs, signer_named, verifies) =
              is_authorised_lem c signer message signature target 0 st.active granted in
            let here : target ≡ i = omega arith in
            inr (record {
              old = old;
              new = new;
              sig = sig;
              signer = signer;
              rest = rest;
              target = target;
              level = level;
              replaced_key = k;
              signer_key = by;
              asked = refl;
              fresh = fresh;
              replaced = rw here elem;
              named = named;
              senior = omega arith;
              signs = signs;
              signer_named = signer_named;
              verifies = verifies;
              active_after = refl;
              all_after = refl;
            })
      ])
    ]

-- An entry leaves the keys as they are, or replaces one of them by a key that never was active, at
-- the request of an active key of the same priority or a higher one, whose signature verifies.
pub process_ext_ids_lem :
    (c : Crypto) (chain_id : Bytes) (ids : List Bytes) (st : KeyState)
    → let st' = process_ext_ids c chain_id ids st in (st' ≡ st) ⊎ Replacement c chain_id ids st st'
unfolding process_ext_ids
process_ext_ids_lem c chain_id [] st = inl refl
process_ext_ids_lem c chain_id (_ ∷ []) st = inl refl
process_ext_ids_lem c chain_id (_ ∷ _ ∷ []) st = inl refl
process_ext_ids_lem c chain_id (_ ∷ _ ∷ _ ∷ []) st = inl refl
process_ext_ids_lem c chain_id (_ ∷ _ ∷ _ ∷ _ ∷ []) st = inl refl
process_ext_ids_lem c chain_id (tag ∷ old ∷ new ∷ sig ∷ signer ∷ rest) st =
    let Q : KeyState → Type 0 =
      λ st'. (st' ≡ st) ⊎ Replacement c chain_id (tag ∷ old ∷ new ∷ sig ∷ signer ∷ rest) st st' in
    let found = find_level (key_of_string c old) 0 st.active none in
    if_cases Q (not (bytes_eq tag (codes "ReplaceKey"))) _ _ (λ _. inl refl)
      λ tagged.
        if_cases Q (not (length old == 55) || (not (length new == 55) || not (length sig == 64))) _
          _ (λ _. inl refl)
          λ _.
            if_cases Q (not (is_id_pub (identity_key_string_type c old))) _ _ (λ _. inl refl)
              λ _.
                if_cases Q (not (is_id_pub (identity_key_string_type c new))) _ _ (λ _. inl refl)
                  λ _.
                    if_cases Q (contains st.all new) _ _ (λ _. inl refl)
                      λ fresh.
                        let e = bytes_eq_sound tag (codes "ReplaceKey") (ground (arith, tagged)) in
                        rw e
                          (replace_key_lem c chain_id old new sig signer rest st found fresh refl)
