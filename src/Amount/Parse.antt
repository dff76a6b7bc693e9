-- ===== src/Amount/Parse.antt =====
-- `FactoidToFactoshi` (util.go), with what it uses of regexp, strconv and math.
use factom.Base.{
  ℕ, ◌+◌, ◌-◌, ◌*◌, ◌%◌, ◌^◌, Bool, true, not, ◌&&◌, Option, none, some, [], ◌∷◌, Bytes, length,
  ltb, leb, ◌==◌, if◌then◌else◌,
}
use factom.Base.Int.{ℤ, quot, word64, signed64}

abbrev is_digit : ℕ → Bool
is_digit c = leb b'0' c && leb c b'9'

unfoldable pub all_digits : Bytes → Bool
all_digits [] = true
all_digits (c ∷ s) = is_digit c && all_digits s

-- `dot.Split(amt, 2)`: what stands before the first dot, and what stands behind it, if there is
-- one.
unfoldable pub split_dot : Bytes → Bytes × Option Bytes
split_dot [] = ([], none)
split_dot (c ∷ s) =
    let (before, after) = split_dot s in if c == b'.' then ([], some s) else (c ∷ before, after)

-- A match of `^([0-9]+)?(\.[0-9]+)?$`, by the text's pieces.
unfoldable pub is_amount_in_pieces : Bytes → Option Bytes → Bool
is_amount_in_pieces before none = all_digits before
is_amount_in_pieces before (some s) = all_digits before && (ltb 0 (length s) && all_digits s)

unfoldable pub is_amount : Bytes → Bool
is_amount amt = let pieces = split_dot amt in is_amount_in_pieces pieces.0 pieces.1

-- The number that digits spell behind `n`.
unfoldable pub value : ℕ → Bytes → ℕ
value n [] = n
value n (c ∷ s) = value (n * 10 + (c - b'0')) s

abbrev pub max_int : ℕ
max_int = 2 ^ 63 - 1

-- `strconv.Atoi` of digits, its error ignored: 0 of the empty text, the greatest int out of range.
unfoldable pub atoi : Bytes → ℕ
atoi s = let v = value 0 s in if ltb max_int v then max_int else v

-- The two groups of `(0*)([0-9]+)$` over digits: leading zeros, and the rest, which has one digit
-- at least. The match itself is the whole text.
unfoldable pub submatch : Bytes → Bytes × Bytes
submatch [] = ([], [])
submatch (c ∷ []) = ([], c ∷ [])
submatch (c ∷ d ∷ s) =
    let (zeros, rest) = submatch (d ∷ s) in if c == b'0' then (c ∷ zeros, rest) else ([], c ∷ d ∷ s)

-- `x / int(math.Pow10(n))`. Beyond 10^18 the conversion of the float is left to the implementation:
-- what the quotient is then is the parameter `wide`.
unfoldable pub div_pow10 : (ℤ → ℕ → ℤ) → ℤ → ℕ → ℤ
div_pow10 wide x n = if leb n 18 then quot x (10 ^ n) else wide x n

-- What the pieces of a valid amount add up to, in uint64.
unfoldable pub total_of_pieces : (ℤ → ℕ → ℤ) → Bytes → Option Bytes → ℕ
total_of_pieces wide before none = atoi before * 10 ^ 8 % 2 ^ 64
total_of_pieces wide before (some s) =
    let groups = submatch s in
    let power = length groups.0 + length groups.1 in
    let product = signed64 (atoi s * 10 ^ 8 % 2 ^ 64) in
    (atoi before * 10 ^ 8 % 2 ^ 64 + word64 (div_pow10 wide product power)) % 2 ^ 64

unfoldable pub factoid_to_factoshi : (ℤ → ℕ → ℤ) → Bytes → ℕ
factoid_to_factoshi wide amt =
    let pieces = split_dot amt in
    if not (is_amount amt) then 0 else total_of_pieces wide pieces.0 pieces.1
