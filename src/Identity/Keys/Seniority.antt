-- ===== src/Identity/Keys/Seniority.antt =====
-- What the entries of an identity cannot do to its keys.
use factom.Base.{
  All-map, All, get_elem?, ℕ, zero, suc, ◌≤◌, ◌≡◌, ◌∙◌, inl, inr, refl, sym, ap, false, some, List,
  [], ◌∷◌, ◌++◌, arith, Bytes, codes, length, replicate, copy,
}
use factom.Crypto.{Crypto}
use factom.IdentityKey.{IdentityKey}
use factom.Entry.{Entry}
use factom.Identity.Keys.{set_public, KeyState, key_of_string, process_ext_ids, process_entries}
use factom.Identity.Keys.Authority.{process_ext_ids_lem}

-- Whatever the entries ask for, the number of keys stays.
length-set_public :
    (keys : List IdentityKey) (level : ℕ) (key : Bytes)
    → length (set_public keys level key) ≡ length keys
unfolding set_public
length-set_public [] level key = refl
length-set_public (k ∷ keys) zero key = refl
length-set_public (k ∷ keys) (suc level) key = ap suc (length-set_public keys level key)

get_elem?-set_public_ne :
    (keys : List IdentityKey) (i j : ℕ) (key : Bytes)
    → (i ≡ j → ⊥)
    → get_elem? (set_public keys i key) j ≡ get_elem? keys j
unfolding set_public
get_elem?-set_public_ne [] i j key h = refl
get_elem?-set_public_ne (k ∷ keys) zero zero key h = absurd (h refl)
get_elem?-set_public_ne (k ∷ keys) zero (suc j) key h = refl
get_elem?-set_public_ne (k ∷ keys) (suc i) zero key h = refl
get_elem?-set_public_ne (k ∷ keys) (suc i) (suc j) key h =
    get_elem?-set_public_ne keys i j key (λ e. h (ap suc e))

process_ext_ids-length :
    (c : Crypto) (chain_id : Bytes) (ids : List Bytes) (st : KeyState)
    → length (process_ext_ids c chain_id ids st).active ≡ length st.active
process_ext_ids-length c chain_id ids st = elim (process_ext_ids_lem c chain_id ids st) [
  | inl same ↦ ap (λ s. length s.active) same
  | inr r ↦ ap length r.active_after ∙ length-set_public st.active r.target (key_of_string c r.new)
]

pub process_entries-length :
    (c : Crypto) (chain_id : Bytes) (entries : List Entry) (st : KeyState)
    → length (process_entries c chain_id entries st).active ≡ length st.active
unfolding process_entries
process_entries-length c chain_id [] st = refl
process_entries-length c chain_id (e ∷ entries) st =
    process_entries-length c chain_id entries (process_ext_ids c chain_id e.ext_ids st)
    ∙ process_ext_ids-length c chain_id e.ext_ids st

-- The ExtIDs carry no signature, in the place for one, that verifies by a key of a level up to `n`.
abbrev pub Unsigned : Crypto → Bytes → ℕ → List IdentityKey → List Bytes → Type 0
Unsigned c chain_id n keys ids =
    (tag old new sig signer : Bytes) (rest : List Bytes) (j : ℕ) (k : IdentityKey)
    → ids ≡ tag ∷ old ∷ new ∷ sig ∷ signer ∷ rest
    → j ≤ n
    → get_elem? keys j ≡ some k
    → c.verify k.public_key (chain_id ++ (old ++ new)) (copy (replicate 64 0) sig) ≡ false

-- Without a signature of theirs, one entry leaves the keys of the levels up to `n` alone.
process_ext_ids-Unsigned :
    (c : Crypto) (chain_id : Bytes) (ids : List Bytes) (st : KeyState) (n : ℕ)
    → Unsigned c chain_id n st.active ids
    → (j : ℕ) → j ≤ n
    → get_elem? (process_ext_ids c chain_id ids st).active j ≡ get_elem? st.active j
process_ext_ids-Unsigned c chain_id ids st n quiet j h =
    elim (process_ext_ids_lem c chain_id ids st) [
      | inl same ↦ ap (λ s. get_elem? s.active j) same
      | inr r ↦
          let unmoved : r.target ≡ j → ⊥ = λ e. cc (
            quiet (codes "ReplaceKey") r.old r.new r.sig r.signer r.rest r.level r.signer_key
                r.asked (omega (arith, r.senior)) r.signs,
            r.verifies,
          ) in
          ap (λ keys. get_elem? keys j) r.active_after
          ∙ get_elem?-set_public_ne st.active r.target j (key_of_string c r.new) unmoved
    ]

-- A key is replaced only with a signature by a key of its own priority or a higher one: if no entry
-- carries a signature that verifies by a key of a level up to `n`, these levels stay as they are.
pub process_entries-Unsigned :
    (c : Crypto) (chain_id : Bytes) (entries : List Entry) (st : KeyState) (n : ℕ)
    → All (λ e. Unsigned c chain_id n st.active e.ext_ids) entries
    → (j : ℕ) → j ≤ n
    → get_elem? (process_entries c chain_id entries st).active j ≡ get_elem? st.active j
unfolding process_entries
process_entries-Unsigned c chain_id [] st n quiet j h = refl
process_entries-Unsigned c chain_id (e ∷ entries) st n (quiet, later) j h =
    let step = process_ext_ids-Unsigned c chain_id e.ext_ids st n quiet in
    let st' = process_ext_ids c chain_id e.ext_ids st in
    process_entries-Unsigned c chain_id entries st' n
      (All-map _ (λ e'. Unsigned c chain_id n st'.active e'.ext_ids)
        (λ e' q tag old new sig signer rest i k shape near elem.
          q tag old new sig signer rest i k shape near (sym (step i near) ∙ elem))
        entries later)
      j h
    ∙ step j h
