-- ===== src/Amount/Digits.antt =====
-- Digits and the numbers that they spell.
use factom.Base.{
  ℕ, zero, suc, ◌+◌, ◌-◌, ◌*◌, ◌/◌, ◌%◌, ◌^◌, ◌≤◌, ◌<◌, ◌≡◌, inl, inr, refl, ap, true, [], ◌∷◌,
  ◌++◌, arith, Bytes, length, replicate, ◌==◌, if◌then◌else◌, Bool-cases, length-append,
}
use factom.Amount.Print.{digit, format_decimal, format_padded, trim_zeros}
use factom.Amount.Parse.{all_digits, value, submatch}
use native.Mathlib.Nat.{mul-le-mul_right, pow-suc}

all_digits-append :
    (s t : Bytes) → all_digits s ≡ true → all_digits t ≡ true → all_digits (s ++ t) ≡ true
unfolding all_digits
all_digits-append [] t hs ht = ht
all_digits-append (c ∷ s) t hs ht = ground (arith, all_digits-append s t)

pub all_digits-prefix : (s t : Bytes) → all_digits (s ++ t) ≡ true → all_digits s ≡ true
unfolding all_digits
all_digits-prefix [] t h = refl
all_digits-prefix (c ∷ s) t h = ground (arith, all_digits-prefix s t)

pub value-append : (n : ℕ) (s t : Bytes) → value n (s ++ t) ≡ value (value n s) t
unfolding value
value-append n [] t = refl
value-append n (c ∷ s) t = value-append (n * 10 + (c - b'0')) s t

pub value-zeros : (z n : ℕ) → value n (replicate z b'0') ≡ n * 10 ^ z
unfolding value
value-zeros zero n = omega arith
value-zeros (suc z) n = rw (value-zeros z (n * 10 + 0), pow-suc) (grind arith)

-- Digits behind `n` spell a number below the next one that ends in as many zeros.
pub value-lt : (n : ℕ) (s : Bytes) → all_digits s ≡ true → value n s < (n + 1) * 10 ^ length s
unfolding all_digits value
value-lt n [] h = omega arith
value-lt n (c ∷ s) h =
    let m = n * 10 + (c - b'0') in
    let small : m + 1 ≤ (n + 1) * 10 = ground arith in
    let rest : all_digits s ≡ true = ground arith in
    rw pow-suc (omega (arith, mul-le-mul_right (10 ^ length s) small, value-lt m s rest))

digit-all_digits : (n : ℕ) → all_digits (digit n ∷ []) ≡ true
unfolding all_digits
digit-all_digits n = ground arith

value-digit : (m n : ℕ) → value m (digit n ∷ []) ≡ m * 10 + n % 10
unfolding value
value-digit m n = omega arith

-- A number below 10^fuel is printed by its digits.
pub format_decimal_lem :
    (fuel n : ℕ)
    → n < 10 ^ fuel
    → (all_digits (format_decimal fuel n) ≡ true) × (value 0 (format_decimal fuel n) ≡ n)
unfolding format_decimal
format_decimal_lem zero n h = (unfold all_digits in refl, unfold value in omega arith)
format_decimal_lem (suc fuel) n h =
    let less : n / 10 < 10 ^ fuel = omega (arith, pow-suc 10 fuel) in
    let (digits, spelt) = format_decimal_lem fuel (n / 10) less in
    ground (
      arith,
      all_digits-append (format_decimal fuel (n / 10)) (digit n ∷ []),
      digit-all_digits n,
      value-append 0 (format_decimal fuel (n / 10)) (digit n ∷ []),
      value-digit 0 n,
      value-digit (n / 10) n,
    )

pub format_padded_lem :
    (k n : ℕ)
    → n < 10 ^ k
    → (all_digits (format_padded k n) ≡ true)
      × (value 0 (format_padded k n) ≡ n)
      × (length (format_padded k n) ≡ k)
unfolding format_padded
format_padded_lem zero n h = (unfold all_digits in refl, unfold value in omega arith, refl)
format_padded_lem (suc k) n h =
    let less : n / 10 < 10 ^ k = omega (arith, pow-suc 10 k) in
    let (digits, spelt, long) = format_padded_lem k (n / 10) less in
    (
      all_digits-append (format_padded k (n / 10)) (digit n ∷ []) digits (digit-all_digits n),
      rw (value-append 0 (format_padded k (n / 10)) (digit n ∷ []), spelt, value-digit (n / 10) n)
          (omega arith),
      omega (arith, length-append (format_padded k (n / 10)) (digit n ∷ []), long),
    )

-- Trimming takes off zeros at the end, and nothing else.
pub trim_zeros_lem : (s : Bytes) → (z : ℕ) × (trim_zeros s ++ replicate z b'0' ≡ s)
unfolding trim_zeros
trim_zeros_lem [] = (0, refl)
trim_zeros_lem (c ∷ s) =
    (elim (trim_zeros s)
        as (λ t.
          ((z : ℕ) × (t ++ replicate z b'0' ≡ s))
          → (z : ℕ) × ((elim t [ [] ↦ if c == b'0' then [] else c ∷ [] | d ∷ t' ↦ c ∷ d ∷ t' ])
                ++ replicate z b'0'
              ≡ c ∷ s)) [
                | [] ↦ λ (z, e). elim (Bool-cases (c == b'0')) [
                  | inl zeroed ↦ (suc z, rw (zeroed, e) (ground arith))
                  | inr other ↦ (z, rw (other, e))
                ]
                | d ∷ t ↦ λ (z, e). (z, ap (λ x. c ∷ x) e)
              ])
      (trim_zeros_lem s)

pub length-submatch : (s : Bytes) → length (submatch s).0 + length (submatch s).1 ≡ length s
unfolding submatch
length-submatch [] = omega arith
length-submatch (c ∷ []) = omega arith
length-submatch (c ∷ d ∷ s) = ground (arith, length-submatch (d ∷ s))
