-- ===== src/Base/Hex.antt =====
-- Go's encoding/hex, and the big-endian words of encoding/binary, as the package uses them.
use factom.Base.Tests.{Bytes, ltb, leb, if◌then◌else◌}
use factom.Base.Lists.{length, All, IsByte}
use factom.Base.Results.{Result, ok, err, hex_length, hex_byte, ◌>>=◌}
use Prim.Native.Nat.{ℕ, ◌+◌, ◌-◌, ◌*◌, ◌/◌, ◌%◌, ◌^◌, ◌<◌}
use mathlib.Core.Path.{◌≡◌, refl}
use mathlib.Core.Bool.{◌&&◌}
use mathlib.Core.Option.{Option, none, some}
use mathlib.Core.List.{[], ◌∷◌}
use native.Mathlib.Omega.{arith}

-- A digit of "0123456789abcdef".
unfoldable pub hex_digit : ℕ → ℕ
hex_digit n = if ltb n 10 then b'0' + n else b'a' + (n - 10)

unfoldable pub hex_value : ℕ → Option ℕ
hex_value c =
    if leb b'0' c && leb c b'9'
    then some (c - b'0')
    else if leb b'a' c && leb c b'f'
    then some (c - b'a' + 10)
    else if leb b'A' c && leb c b'F'
    then some (c - b'A' + 10)
    else none

-- `hex.EncodeToString`
unfoldable pub encode_to_string : Bytes → Bytes
encode_to_string [] = []
encode_to_string (b ∷ bs) = hex_digit (b / 16) ∷ hex_digit (b % 16) ∷ encode_to_string bs

abbrev hex_byte_of : Option ℕ → Option ℕ → Result ℕ
hex_byte_of none lo = err hex_byte
hex_byte_of (some h) none = err hex_byte
hex_byte_of (some h) (some l) = ok (h * 16 + l)

-- `hex.DecodeString`: a bad digit is reported before an odd length.
unfoldable pub decode_string : Bytes → Result Bytes
decode_string [] = ok []
decode_string (c ∷ []) = elim (hex_value c) [ none ↦ err hex_byte | some v ↦ err hex_length ]
decode_string (c ∷ d ∷ s) = do
  b ← hex_byte_of (hex_value c) (hex_value d)
  bs ← decode_string s
  ok (b ∷ bs)

pub length-encode_to_string : (bs : Bytes) → length (encode_to_string bs) ≡ 2 * length bs
unfolding encode_to_string
length-encode_to_string [] = refl
length-encode_to_string (b ∷ bs) = omega (arith, length-encode_to_string bs)

hex_value-hex_digit : (n : ℕ) → n < 16 → hex_value (hex_digit n) ≡ some n
unfolding hex_value hex_digit
hex_value-hex_digit n h = ground arith

pub decode_string-encode_to_string :
    (bs : Bytes) → All IsByte bs → decode_string (encode_to_string bs) ≡ ok bs
unfolding decode_string encode_to_string
decode_string-encode_to_string [] h = refl
decode_string-encode_to_string (b ∷ bs) (hb, hbs) =
    let hi = hex_value-hex_digit (b / 16) (omega arith) in
    let lo = hex_value-hex_digit (b % 16) (omega arith) in
    let back = decode_string-encode_to_string bs hbs in rw (hi, lo, back) (ground arith)

-- The two bytes of an integer of 16 bits, its high byte first.
unfoldable pub big_endian16 : ℕ → Bytes
big_endian16 n = (n / 256 % 256) ∷ (n % 256) ∷ []

-- The value of bytes, the first one the highest.
unfoldable pub from_big_endian : Bytes → ℕ
from_big_endian [] = 0
from_big_endian (b ∷ bs) = b * 256 ^ length bs + from_big_endian bs

-- The eight bytes of a word of 64 bits.
unfoldable pub big_endian64 : ℕ → Bytes
big_endian64 n =
    (n / 2 ^ 56 % 256)
    ∷ (n / 2 ^ 48 % 256)
    ∷ (n / 2 ^ 40 % 256)
    ∷ (n / 2 ^ 32 % 256)
    ∷ (n / 2 ^ 24 % 256)
    ∷ (n / 2 ^ 16 % 256)
    ∷ (n / 2 ^ 8 % 256)
    ∷ (n % 256)
    ∷ []

-- The two bytes hold an integer below 2^16.
pub from_big_endian-big_endian16 : (n : ℕ) → n < 2 ^ 16 → from_big_endian (big_endian16 n) ≡ n
unfolding from_big_endian big_endian16
from_big_endian-big_endian16 n h = omega arith

pub length-big_endian16 : (n : ℕ) → length (big_endian16 n) ≡ 2
unfolding big_endian16
length-big_endian16 n = refl

pub length-big_endian64 : (n : ℕ) → length (big_endian64 n) ≡ 8
unfolding big_endian64
length-big_endian64 n = refl
