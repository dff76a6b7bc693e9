-- ===== src/Amount/RoundTrip.antt =====
-- What a written amount is read as, and the round trip.
use factom.Base.{
  length-replicate, ℕ, zero, suc, ◌+◌, ◌-◌, ◌*◌, ◌/◌, ◌%◌, ◌^◌, ◌≤◌, ◌<◌, ◌≡◌, ◌∙◌, refl, ap, true,
  none, some, [], ◌∷◌, ◌++◌, append_assoc, append-nil, arith, Bytes, length, replicate, ltb, leb,
  if◌then◌else◌, length-append,
}
use factom.Base.Int.{ℤ, signed64, word64}
use factom.Amount.Print.{format_decimal, format_padded, trim_zeros, factoshi_to_factoid}
use factom.Amount.Parse.{
  is_amount_in_pieces, total_of_pieces, all_digits, split_dot, is_amount, value, atoi, max_int,
  div_pow10, factoid_to_factoshi,
}
use native.Mathlib.Nat.{pow-le-pow_right, div-le_self}
use factom.Amount.Digits.{
  all_digits-prefix, value-lt, format_decimal_lem, format_padded_lem, trim_zeros_lem,
  length-submatch, value-append, value-zeros,
}

-- Digits hold no dot.
split_dot-digits : (w : Bytes) → all_digits w ≡ true → split_dot w ≡ (w, none)
unfolding all_digits split_dot
split_dot-digits [] h = refl
split_dot-digits (c ∷ w) h = ground (arith, split_dot-digits w)

split_dot-point : (w f : Bytes) → all_digits w ≡ true → split_dot (w ++ b'.' ∷ f) ≡ (w, some f)
unfolding all_digits split_dot
split_dot-point [] f h = refl
split_dot-point (c ∷ w) f h = ground (arith, split_dot-point w f)

-- Scaling by the digits behind the point.
scale : (k v : ℕ) → k ≤ 8 → v * 10 ^ 8 / 10 ^ k ≡ v * 10 ^ (8 - k)
scale zero v h = omega arith
scale (suc zero) v h = omega arith
scale (suc (suc zero)) v h = omega arith
scale (suc (suc (suc zero))) v h = omega arith
scale (suc (suc (suc (suc zero)))) v h = omega arith
scale (suc (suc (suc (suc (suc zero))))) v h = omega arith
scale (suc (suc (suc (suc (suc (suc zero)))))) v h = omega arith
scale (suc (suc (suc (suc (suc (suc (suc zero))))))) v h = omega arith
scale (suc (suc (suc (suc (suc (suc (suc (suc zero)))))))) v h = omega arith
scale (suc (suc (suc (suc (suc (suc (suc (suc (suc k))))))))) v h = absurd (omega arith)

is_amount-digits : (w : Bytes) → all_digits w ≡ true → is_amount w ≡ true
unfolding is_amount is_amount_in_pieces
is_amount-digits w h = rw (split_dot-digits w h) h

is_amount-point :
    (w f : Bytes)
    → all_digits w ≡ true
    → all_digits f ≡ true
    → 1 ≤ length f
    → is_amount (w ++ b'.' ∷ f) ≡ true
unfolding is_amount is_amount_in_pieces
is_amount-point w f hw hf some_digit = rw (split_dot-point w f hw, hw, hf) (ground arith)

atoi-value : (w : Bytes) → value 0 w ≤ max_int → atoi w ≡ value 0 w
unfolding atoi
atoi-value w fits = ground arith

-- A whole amount that an int holds.
factoid_to_factoshi-whole :
    (wide : ℤ → ℕ → ℤ) (w : Bytes)
    → all_digits w ≡ true
    → value 0 w ≤ max_int
    → factoid_to_factoshi wide w ≡ value 0 w * 10 ^ 8 % 2 ^ 64
unfolding factoid_to_factoshi total_of_pieces
factoid_to_factoshi-whole wide w h fits =
    rw (is_amount-digits w h, split_dot-digits w h) (rw (atoi-value w fits))

-- Eight digits at most spell a number below 10^8.
value-small : (f : Bytes) → all_digits f ≡ true → length f ≤ 8 → value 0 f < 10 ^ 8
value-small f h short = omega (arith, value-lt 0 f h, pow-le-pow_right {n = 10} (omega arith) short)

-- The quotient of eight digits at most.
quotient_of_part :
    (wide : ℤ → ℕ → ℤ) (f : Bytes)
    → all_digits f ≡ true
    → length f ≤ 8
    → word64 (div_pow10 wide (signed64 (atoi f * 10 ^ 8 % 2 ^ 64)) (length f))
      ≡ value 0 f * 10 ^ (8 - length f)
unfolding div_pow10
quotient_of_part wide f h short =
    let v = value 0 f in
    let small : v < 10 ^ 8 = value-small f h short in
    let whole : v * 10 ^ 8 % 2 ^ 64 ≡ v * 10 ^ 8 = omega arith in
    let scaled : v * 10 ^ 8 / 10 ^ length f ≡ v * 10 ^ (8 - length f) = scale (length f) v short in
    let few : leb (length f) 18 ≡ true = ground arith in
    let below : ltb (v * 10 ^ 8) (2 ^ 63) ≡ true = ground arith in
    let shrunk = div-le_self (v * 10 ^ 8) (10 ^ length f) in
    rw (atoi-value f (omega arith), whole, few, below, scaled) (omega (arith, shrunk, scaled))

-- Digits, a dot, and one to eight digits: the amount is exact, up to the wrap-around of a uint64,
-- if an int holds its whole part.
factoid_to_factoshi-eq :
    (wide : ℤ → ℕ → ℤ) (w f : Bytes)
    → all_digits w ≡ true
    → all_digits f ≡ true
    → 1 ≤ length f
    → length f ≤ 8
    → value 0 w ≤ max_int
    → factoid_to_factoshi wide (w ++ b'.' ∷ f)
      ≡ (value 0 w * 10 ^ 8 + value 0 f * 10 ^ (8 - length f)) % 2 ^ 64
unfolding factoid_to_factoshi total_of_pieces
factoid_to_factoshi-eq wide w f hw hf some_digit short fits =
    rw (is_amount-point w f hw hf some_digit, split_dot-point w f hw)
      (rw (length-submatch f, quotient_of_part wide f hf short, atoi-value w fits) (omega arith))

-- The same of an amount as it is printed, with no dot where no digit stands behind it.
factoid_to_factoshi-printed :
    (wide : ℤ → ℕ → ℤ) (w f : Bytes)
    → all_digits w ≡ true
    → all_digits f ≡ true
    → length f ≤ 8
    → value 0 w ≤ max_int
    → factoid_to_factoshi wide ((if ltb 0 (length f) then w ++ b'.' ∷ [] else w) ++ f)
      ≡ (value 0 w * 10 ^ 8 + value 0 f * 10 ^ (8 - length f)) % 2 ^ 64
factoid_to_factoshi-printed wide w [] hw hf short fits =
    rw (append-nil w, factoid_to_factoshi-whole wide w hw fits) (unfold value in omega arith)
factoid_to_factoshi-printed wide w (c ∷ f) hw hf short fits =
    let nonempty : ltb 0 (length (c ∷ f)) ≡ true = ground arith in
    rw (nonempty, append_assoc)
      (factoid_to_factoshi-eq wide w (c ∷ f) hw hf (omega arith) short fits)

-- Eight padded digits without their last zeros.
trimmed_lem :
    (r : ℕ)
    → r < 10 ^ 8
    → let f = trim_zeros (format_padded 8 r) in
      (all_digits f ≡ true) × (length f ≤ 8) × (value 0 f * 10 ^ (8 - length f) ≡ r)
trimmed_lem r h =
    let s = format_padded 8 r in
    let f = trim_zeros s in
    let (digits, spelt, long) = format_padded_lem 8 r h in
    let (z, e) = trim_zeros_lem s in
    let sum : length f + z ≡ 8 = omega (
      arith,
      length-append f (replicate z b'0'),
      length-replicate {A = ℕ} z b'0',
      ap length e,
      long,
    ) in
    let rest : 8 - length f ≡ z = omega arith in
    (
      all_digits-prefix f (replicate z b'0') (rw e digits),
      omega arith,
      rw (rest, ← value-zeros z (value 0 f), ← value-append 0 f (replicate z b'0'), e) spelt,
    )

-- Every uint64 amount is read back from its print.
pub factoid_to_factoshi-factoshi_to_factoid :
    (wide : ℤ → ℕ → ℤ) (i : ℕ) → i < 2 ^ 64 → factoid_to_factoshi wide (factoshi_to_factoid i) ≡ i
unfolding factoshi_to_factoid
factoid_to_factoshi-factoshi_to_factoid wide i h =
    let d = i / 10 ^ 8 in
    let (whole, spelt) = format_decimal_lem 20 d (omega arith) in
    let (digits, short, part) = trimmed_lem (i % 10 ^ 8) (omega arith) in
    factoid_to_factoshi-printed wide (format_decimal 20 d)
      (trim_zeros (format_padded 8 (i % 10 ^ 8))) whole digits short (rw spelt (omega arith))
    ∙ rw (spelt, part) (omega arith)
