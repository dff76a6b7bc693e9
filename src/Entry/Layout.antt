-- ===== src/Entry/Layout.antt =====
-- The binary form of an entry against an independent reader of it.
use mathlib.Core.Option
use factom.Base.{
  drop-append, take-append, ℕ, zero, suc, ◌+◌, ◌*◌, ◌/◌, ◌%◌, ◌^◌, ◌<◌, ◌≡◌, ◌∙◌, refl, not, ◌||◌,
  Option, none, some, List, [], ◌∷◌, ◌++◌, arith, Bytes, length, take, drop, ltb, ◌==◌,
  if◌then◌else◌, ok, length-append,
}
use factom.Base.Hex.{
  from_big_endian-big_endian16, length-big_endian16, from_big_endian, big_endian16, decode_string,
}
use factom.Entry.{Entry, marshal_ext_ids_binary, marshal_binary}

-- A reader of the ExtIDs: a length of two bytes, then as many bytes, until none are left. A round
-- consumes two bytes at least, so fuel beyond the number of bytes is enough.
unfoldable read_ext_ids : ℕ → Bytes → Option (List Bytes)
read_ext_ids zero bytes = none
read_ext_ids (suc fuel) [] = some []
read_ext_ids (suc fuel) (a ∷ []) = none
read_ext_ids (suc fuel) (a ∷ b ∷ bytes) =
    let n = a * 256 + b in
    let rest = Option.map (λ ids. take n bytes ∷ ids) (read_ext_ids fuel (drop n bytes)) in
    if ltb (length bytes) n then none else rest

-- A reader of the whole: version 0, a chain id of 32 bytes, the size of the ExtIDs, ExtIDs,
-- content.
unfoldable pub read_entry : Bytes → Option (Bytes × List Bytes × Bytes)
unfolding read_ext_ids
read_entry [] = none
read_entry (version ∷ bytes) =
    let size = from_big_endian (take 2 (drop 32 bytes)) in
    let body = drop 2 (drop 32 bytes) in
    if not (version == 0) || ltb (length bytes) (34 + size)
    then none
    else Option.map (λ ids. (take 32 bytes, ids, drop size body))
        (read_ext_ids (suc size) (take size body))

-- What `marshal_ext_ids_binary` writes has two bytes for each ExtID, and the ExtIDs themselves.
unfoldable pub ext_ids_size : List Bytes → ℕ
ext_ids_size [] = 0
ext_ids_size (v ∷ vs) = 2 + length v + ext_ids_size vs

length-marshal_ext_ids_binary :
    (ids : List Bytes) → length (marshal_ext_ids_binary ids) ≡ ext_ids_size ids
unfolding marshal_ext_ids_binary ext_ids_size big_endian16
length-marshal_ext_ids_binary [] = refl
length-marshal_ext_ids_binary (v ∷ vs) =
    omega (arith, length-append v (marshal_ext_ids_binary vs), length-marshal_ext_ids_binary vs)

-- One ExtID is read off the front.
read_ext_ids_step :
    (fuel : ℕ) (v rest : Bytes)
    → length v < 2 ^ 16
    → read_ext_ids (suc fuel) (big_endian16 (length v) ++ (v ++ rest))
      ≡ Option.map (λ ids. v ∷ ids) (read_ext_ids fuel rest)
unfolding read_ext_ids big_endian16
read_ext_ids_step fuel v rest h =
    let n = length v / 256 % 256 * 256 + length v % 256 in
    let e : n ≡ length v = omega arith in
    rw (e, take-append (length v) v rest refl, drop-append (length v) v rest refl)
      (ground (arith, length-append v rest))

read_ext_ids-marshal :
    (ids : List Bytes) (fuel : ℕ)
    → ext_ids_size ids < 2 ^ 16
    → ext_ids_size ids < fuel
    → read_ext_ids fuel (marshal_ext_ids_binary ids) ≡ some ids
unfolding marshal_ext_ids_binary ext_ids_size
read_ext_ids-marshal [] zero h f = absurd (omega arith)
read_ext_ids-marshal [] (suc fuel) h f = unfold read_ext_ids in refl
read_ext_ids-marshal (v ∷ vs) zero h f = absurd (omega arith)
read_ext_ids-marshal (v ∷ vs) (suc fuel) h f = rw (
  read_ext_ids_step fuel v (marshal_ext_ids_binary vs) (omega arith),
  read_ext_ids-marshal vs fuel (omega arith) (omega arith),
)

-- The three parts behind the version byte, as the reader slices them.
read_entry_parts :
    (id ids content : Bytes)
    → length id ≡ 32
    → length ids < 2 ^ 16
    → read_entry (0 ∷ (id ++ (big_endian16 (length ids) ++ (ids ++ content))))
      ≡ Option.map (λ xs. (id, xs, content)) (read_ext_ids (suc (length ids)) ids)
unfolding read_entry
read_entry_parts id ids content h small =
    let size = big_endian16 (length ids) in
    let tail = size ++ (ids ++ content) in
    let two : length size ≡ 2 = length-big_endian16 (length ids) in
    rw
      (
        take-append 32 id tail h,
        drop-append 32 id tail h,
        take-append 2 size _ two,
        drop-append 2 size _ two,
        from_big_endian-big_endian16 (length ids) small,
        take-append (length ids) ids content refl,
        drop-append (length ids) ids content refl,
      )
      (ground (
        arith,
        length-append id tail,
        length-append size (ids ++ content),
        length-append ids content,
        two,
      ))

-- An entry whose chain id is 32 bytes in hexadecimal is marshalled to 35 bytes and those of the
-- ExtIDs, with their lengths, and of the content.
pub length-marshal_binary :
    (e : Entry) (id : Bytes)
    → decode_string e.chain_id ≡ ok id
    → length id ≡ 32
    → (p : Bytes) × (marshal_binary e ≡ ok p)
      × (length p ≡ 35 + ext_ids_size e.ext_ids + length e.content)
unfolding marshal_binary
length-marshal_binary e id h long =
    let ids = marshal_ext_ids_binary e.ext_ids in
    let tail = big_endian16 (length ids) ++ (ids ++ e.content) in
    (
      0 ∷ (id ++ tail),
      rw h,
      unfold big_endian16 in
          omega (
            arith,
            length-append id tail,
            length-append ids e.content,
            length-marshal_ext_ids_binary e.ext_ids,
          ),
    )

-- The binary form of an entry whose chain id is 32 bytes in hexadecimal, and whose ExtIDs take less
-- than 2^16 bytes with their lengths, gives the chain id, the ExtIDs and the content back.
pub read_entry-marshal_binary :
    (e : Entry) (id : Bytes) {p : Bytes}
    → decode_string e.chain_id ≡ ok id
    → length id ≡ 32
    → ext_ids_size e.ext_ids < 2 ^ 16
    → marshal_binary e ≡ ok p
    → read_entry p ≡ some (id, e.ext_ids, e.content)
read_entry-marshal_binary e id {p} h long small made =
    let ids = marshal_ext_ids_binary e.ext_ids in
    let size = length-marshal_ext_ids_binary e.ext_ids in
    let written : 0 ∷ (id ++ (big_endian16 (length ids) ++ (ids ++ e.content))) ≡ p =
      unfold marshal_binary in ground (arith, h, made) in
    rw (← written) (
      read_entry_parts id ids e.content long (omega (arith, size))
      ∙ rw (read_ext_ids-marshal e.ext_ids (suc (length ids)) small (omega (arith, size))))
