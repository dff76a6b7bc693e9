-- ===== src/Amount/Print.antt =====
-- `FactoshiToFactoid` (util.go), with what it uses of fmt and strings.
use factom.Base.{
  ℕ, zero, suc, ◌+◌, ◌/◌, ◌%◌, ◌^◌, [], ◌∷◌, ◌++◌, Bytes, length, ltb, ◌==◌, if◌then◌else◌,
}

abbrev pub digit : ℕ → ℕ
digit n = b'0' + n % 10

-- `%d`. Fuel: a uint64 has twenty digits at most.
unfoldable pub format_decimal : ℕ → ℕ → Bytes
format_decimal zero n = []
format_decimal (suc fuel) n =
    let rest = format_decimal fuel (n / 10) ++ digit n ∷ [] in
    if ltb n 10 then digit n ∷ [] else rest

-- `%0kd`, of a number of k digits at most.
unfoldable pub format_padded : ℕ → ℕ → Bytes
format_padded zero n = []
format_padded (suc k) n = format_padded k (n / 10) ++ digit n ∷ []

-- `strings.TrimRight(s, "0")`
unfoldable pub trim_zeros : Bytes → Bytes
trim_zeros [] = []
trim_zeros (c ∷ s) = elim (trim_zeros s) [
  | [] ↦ if c == b'0' then [] else c ∷ []
  | d ∷ t ↦ c ∷ d ∷ t
]

unfoldable pub factoshi_to_factoid : ℕ → Bytes
factoshi_to_factoid i =
    let d = i / 10 ^ 8 in
    let r = i % 10 ^ 8 in
    let ds = format_decimal 20 d in
    let rs = trim_zeros (format_padded 8 r) in
    (if ltb 0 (length rs) then ds ++ b'.' ∷ [] else ds) ++ rs
