-- ===== src/IdentityKey/RoundTrip.antt =====
-- Identity keys: what the printed strings are read back as, and which strings are accepted.
use factom.Address.Checksum.{key-decoded}
use factom.Base.{
  sym, inl, inr, ◌==◌, Bool-cases, none, length-append, ◌↔◌, bytes_eq, length-copy, take-append, ap,
  ◌∙◌, copy-append, ◌++◌, refl, take_all, arith, length-take, ◌≡◌,
}
use factom.Crypto.{Crypto, IsLawful}
use factom.IdentityKey.Strings.{
  length-key_of_valid, id_sec_iff, id_prefix_type, id_pub_prefix, id_sec_prefix,
  identity_key_string_type, id_sec, id_pub, identity_key_string_type-checksummed,
}
use factom.IdentityKey.{
  unmarshal_binary, marshal_binary, id_key_body_length, id_key_prefix_length, get_identity_key,
  drop, replicate, copy, ok, take, Bytes, length, IdentityKey, make_identity_key, pub_string,
  sec_string,
}

-- Making a key from a key of 32 bytes succeeds; the key is its seed, and its arrays are full.
make_identity_key_lem :
    {c : Crypto} (laws : IsLawful c) (sec : Bytes)
    → length sec ≡ 32
    → (a : IdentityKey) × (make_identity_key c sec ≡ ok a)
      × (take 32 a.secret ≡ sec)
      × (length a.public_key ≡ 32)
      × (length a.secret ≡ 64)
unfolding make_identity_key
make_identity_key_lem {c} laws sec h =
    let array = copy (replicate 64 0) (take 32 sec) in
    let whole : take 32 sec ≡ sec = take_all 32 sec h in
    let filled : array ≡ sec ++ drop (length sec) (replicate 64 0) =
      rw whole (copy-append (replicate 64 0) sec (omega arith)) in
    (
      record { public_key = c.get_public_key array; secret = c.filled_private_key array },
      ground arith,
      laws.filled-seed array ∙ ap (take 32) filled ∙ take-append 32 sec _ h,
      laws.length-get_public_key array,
      laws.length-filled array ∙ length-copy (replicate 64 0) (take 32 sec),
    )

-- The printed strings of a key whose arrays are full have the types of a public and of a
-- private identity key.
pub identity_string_types :
    {c : Crypto} (laws : IsLawful c) (a : IdentityKey)
    → length a.public_key ≡ 32
    → length a.secret ≡ 64
    → (identity_key_string_type c (pub_string c a) ≡ id_pub)
      × (identity_key_string_type c (sec_string c a) ≡ id_sec)
unfolding pub_string sec_string id_prefix_type bytes_eq
identity_string_types laws a hp hs = (
  identity_key_string_type-checksummed laws id_pub_prefix a.public_key refl hp,
  identity_key_string_type-checksummed laws id_sec_prefix (take 32 a.secret) refl
      (length-take 32 a.secret (omega arith)),
)

-- What the getter reads in a printed private key that has a type of its own.
get_identity_key-make :
    (c : Crypto) (s : Bytes)
    → identity_key_string_type c s ≡ id_sec
    → get_identity_key c s
      ≡ make_identity_key c
          (drop id_key_prefix_length (take id_key_body_length (c.base58_decode s)))
unfolding get_identity_key
get_identity_key-make c s h = let (valid, prefixed) = (id_sec_iff c s).0 h in rw (valid, prefixed)

-- What a successful `MakeIdentityKey` was given, and what it gives.
pub make_identity_key-eq-ok :
    {c : Crypto} (laws : IsLawful c) (sec : Bytes) {a : IdentityKey}
    → make_identity_key c sec ≡ ok a
    → (length sec ≡ 32)
      × (take 32 a.secret ≡ sec)
      × (length a.public_key ≡ 32)
      × (length a.secret ≡ 64)
make_identity_key-eq-ok {c} laws sec {a} made =
    let long : length sec ≡ 32 = unfold make_identity_key in ground arith in
    let (b, made', seed, full, full') = make_identity_key_lem laws sec long in
    let e : b ≡ a = cc in (long, rw e at seed, rw e at full, rw e at full')

-- A key made from a key is read back from its private string, whole.
get_identity_key-sec_string :
    {c : Crypto} (laws : IsLawful c) (sec : Bytes) {a : IdentityKey}
    → make_identity_key c sec ≡ ok a
    → get_identity_key c (sec_string c a) ≡ ok a
get_identity_key-sec_string {c} laws sec {a} made =
    let (long, seed, full, full') = make_identity_key-eq-ok laws sec made in
    let key = take 32 a.secret in
    let long_key : length key ≡ 32 = rw seed long in
    rw (get_identity_key-make c (sec_string c a) (identity_string_types laws a full full').1) (
      unfold sec_string in
      rw
        (
          key-decoded laws 5 37 id_sec_prefix key refl
              (omega (arith, length-append id_sec_prefix key)),
          seed,
        )
        made)

-- The getter accepts exactly the strings that have the type of a private identity key.
get_identity_key-ok_iff :
    {c : Crypto} (laws : IsLawful c) (s : Bytes)
    → ((a : IdentityKey) × (get_identity_key c s ≡ ok a)) ↔ (identity_key_string_type c s ≡ id_sec)
unfolding get_identity_key
get_identity_key-ok_iff {c} laws s = (
  λ r. (id_sec_iff c s).1 (ground (arith, r.1), ground (arith, r.1)),
  λ h.
      let (valid, prefixed) = (id_sec_iff c s).0 h in
      let (a, made, _, _, _) =
        make_identity_key_lem laws
          (drop id_key_prefix_length (take id_key_body_length (c.base58_decode s)))
          (length-key_of_valid c s valid) in
      (a, get_identity_key-make c s h ∙ made),
)

-- What an address or a key is made from, its binary form, is read back as it, by a new value.
pub make_identity_key-marshal_binary :
    {c : Crypto} (laws : IsLawful c) (sec : Bytes) {a : IdentityKey}
    → make_identity_key c sec ≡ ok a
    → unmarshal_binary c none (marshal_binary a) ≡ ok a
unfolding make_identity_key marshal_binary unmarshal_binary
make_identity_key-marshal_binary {c} laws sec {a} made =
    elim (Bool-cases (length sec == 32))
      as (λ _. unmarshal_binary c none (marshal_binary a) ≡ ok a) [
        | inr short ↦ ground (arith, short, made)
        | inl full ↦
            let h : length sec ≡ 32 = ground (arith, full) in
            let found = make_identity_key_lem laws sec h in
            let made' : make_identity_key c sec ≡ ok found.0 = found.1 in
            let same : found.0 ≡ a = cc in
            let key : take 32 found.0.secret ≡ sec = found.2 in
            let key' : take 32 a.secret ≡ sec = ap (λ x. take 32 x.secret) (sym same) ∙ key in
            let opened : make_identity_key c sec ≡ unmarshal_binary c none sec =
              rw (make_identity_key, full) in
            ap (unmarshal_binary c none) key' ∙ sym opened ∙ made
      ]
