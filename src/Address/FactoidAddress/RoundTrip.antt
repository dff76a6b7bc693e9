-- ===== src/Address/FactoidAddress/RoundTrip.antt =====
-- Factoid addresses: what the printed strings are read back as, and which strings are accepted.
use factom.Address.Rcd.{length-hash}
use factom.Address.Checksum.{key-decoded}
use factom.Base.{
  sym, inl, inr, ◌==◌, Bool-cases, none, length-append, ◌↔◌, bytes_eq, length-copy, take-append, ap,
  ◌∙◌, copy-append, ◌++◌, refl, take_all, arith, length-take, ◌≡◌,
}
use factom.Crypto.{Crypto, IsLawful}
use factom.Address.Strings.{
  length-key_of_valid, factoid_sec_iff, prefix_type, fc_pub_prefix, fc_sec_prefix,
  address_string_type, factoid_sec, factoid_pub, address_string_type-checksummed,
}
use factom.Address.FactoidAddress.{
  unmarshal_binary, marshal_binary, rcd_hash, body_length, prefix_length, get_factoid_address, drop,
  replicate, copy, ok, take, Bytes, length, FactoidAddress, make_factoid_address, public_string,
  sec_string,
}

-- Making an address from a key of 32 bytes succeeds; the key is its seed, and its arrays are full.
make_factoid_address_lem :
    {c : Crypto} (laws : IsLawful c) (sec : Bytes)
    → length sec ≡ 32
    → (a : FactoidAddress) × (make_factoid_address c sec ≡ ok a)
      × (take 32 a.secret ≡ sec)
      × (length a.rcd.public_key ≡ 32)
      × (length a.secret ≡ 64)
unfolding make_factoid_address
make_factoid_address_lem {c} laws sec h =
    let array = copy (replicate 64 0) (take 32 sec) in
    let whole : take 32 sec ≡ sec = take_all 32 sec h in
    let filled : array ≡ sec ++ drop (length sec) (replicate 64 0) =
      rw whole (copy-append (replicate 64 0) sec (omega arith)) in
    (
      record {
        rcd = record { public_key = c.get_public_key array };
        secret = c.filled_private_key array;
      },
      ground arith,
      laws.filled-seed array ∙ ap (take 32) filled ∙ take-append 32 sec _ h,
      laws.length-get_public_key array,
      laws.length-filled array ∙ length-copy (replicate 64 0) (take 32 sec),
    )

-- The printed strings of an address with a private key of full length have the types of a public
-- and of a private factoid address.
pub factoid_string_types :
    {c : Crypto} (laws : IsLawful c) (a : FactoidAddress)
    → length a.secret ≡ 64
    → (address_string_type c (public_string c a) ≡ factoid_pub)
      × (address_string_type c (sec_string c a) ≡ factoid_sec)
unfolding public_string sec_string prefix_type bytes_eq
factoid_string_types {c} laws a hs = (
  address_string_type-checksummed laws fc_pub_prefix (rcd_hash c a) refl
      (unfold rcd_hash in length-hash laws a.rcd),
  address_string_type-checksummed laws fc_sec_prefix (take 32 a.secret) refl
      (length-take 32 a.secret (omega arith)),
)

-- What the getter reads in a printed private key that has a type of its own.
get_factoid_address-make :
    (c : Crypto) (s : Bytes)
    → address_string_type c s ≡ factoid_sec
    → get_factoid_address c s
      ≡ make_factoid_address c (drop prefix_length (take body_length (c.base58_decode s)))
unfolding get_factoid_address
get_factoid_address-make c s h =
    let (valid, prefixed) = (factoid_sec_iff c s).0 h in rw (valid, prefixed)

-- What a successful `MakeFactoidAddress` was given, and what it gives.
pub make_factoid_address-eq-ok :
    {c : Crypto} (laws : IsLawful c) (sec : Bytes) {a : FactoidAddress}
    → make_factoid_address c sec ≡ ok a
    → (length sec ≡ 32)
      × (take 32 a.secret ≡ sec)
      × (length a.rcd.public_key ≡ 32)
      × (length a.secret ≡ 64)
make_factoid_address-eq-ok {c} laws sec {a} made =
    let long : length sec ≡ 32 = unfold make_factoid_address in ground arith in
    let (b, made', seed, full, full') = make_factoid_address_lem laws sec long in
    let e : b ≡ a = cc in (long, rw e at seed, rw e at full, rw e at full')

-- An address made from a key is read back from its private string, whole.
pub get_factoid_address-sec_string :
    {c : Crypto} (laws : IsLawful c) (sec : Bytes) {a : FactoidAddress}
    → make_factoid_address c sec ≡ ok a
    → get_factoid_address c (sec_string c a) ≡ ok a
get_factoid_address-sec_string {c} laws sec {a} made =
    let (long, seed, full, full') = make_factoid_address-eq-ok laws sec made in
    let key = take 32 a.secret in
    let long_key : length key ≡ 32 = rw seed long in
    rw (get_factoid_address-make c (sec_string c a) (factoid_string_types laws a full').1) (
      unfold sec_string in
      rw
        (
          key-decoded laws 2 34 fc_sec_prefix key refl
              (omega (arith, length-append fc_sec_prefix key)),
          seed,
        )
        made)

-- The getter accepts exactly the strings that have the type of a private factoid address.
get_factoid_address-ok_iff :
    {c : Crypto} (laws : IsLawful c) (s : Bytes)
    → ((a : FactoidAddress) × (get_factoid_address c s ≡ ok a))
      ↔ (address_string_type c s ≡ factoid_sec)
unfolding get_factoid_address
get_factoid_address-ok_iff {c} laws s = (
  λ r. (factoid_sec_iff c s).1 (ground (arith, r.1), ground (arith, r.1)),
  λ h.
      let (valid, prefixed) = (factoid_sec_iff c s).0 h in
      let (a, made, _, _, _) =
        make_factoid_address_lem laws (drop prefix_length (take body_length (c.base58_decode s)))
          (length-key_of_valid c s valid) in
      (a, get_factoid_address-make c s h ∙ made),
)

-- What an address or a key is made from, its binary form, is read back as it, by a new value.
pub make_factoid_address-marshal_binary :
    {c : Crypto} (laws : IsLawful c) (sec : Bytes) {a : FactoidAddress}
    → make_factoid_address c sec ≡ ok a
    → unmarshal_binary c none (marshal_binary a) ≡ ok a
unfolding make_factoid_address marshal_binary unmarshal_binary
make_factoid_address-marshal_binary {c} laws sec {a} made =
    elim (Bool-cases (length sec == 32))
      as (λ _. unmarshal_binary c none (marshal_binary a) ≡ ok a) [
        | inr short ↦ ground (arith, short, made)
        | inl full ↦
            let h : length sec ≡ 32 = ground (arith, full) in
            let found = make_factoid_address_lem laws sec h in
            let made' : make_factoid_address c sec ≡ ok found.0 = found.1 in
            let same : found.0 ≡ a = cc in
            let key : take 32 found.0.secret ≡ sec = found.2 in
            let key' : take 32 a.secret ≡ sec = ap (λ x. take 32 x.secret) (sym same) ∙ key in
            let opened : make_factoid_address c sec ≡ unmarshal_binary c none sec =
              rw (make_factoid_address, full) in
            ap (unmarshal_binary c none) key' ∙ sym opened ∙ made
      ]
