-- ===== src/Amount/Tests.antt =====
-- Runs of the two conversions.
use factom.Base.{ℕ, ◌≡◌, refl, codes}
use factom.Base.Int.{ℤ, pos}
use factom.Amount.Parse.{
  total_of_pieces, is_amount_in_pieces, is_amount, all_digits, split_dot, value, atoi, submatch,
  div_pow10,
}
use factom.Amount.Print.{format_decimal, format_padded, trim_zeros, factoshi_to_factoid}
use factom.Amount.Parse.{factoid_to_factoshi}

abbrev no_wide : ℤ → ℕ → ℤ
no_wide x n = pos 0

parse_tests :
    (factoid_to_factoshi no_wide (codes "12") ≡ 1200000000)
    × (factoid_to_factoshi no_wide (codes "1.5000001") ≡ 150000010)
    × (factoid_to_factoshi no_wide (codes ".5") ≡ 50000000)
    × (factoid_to_factoshi no_wide (codes "1.2.3") ≡ 0)
    × (factoid_to_factoshi no_wide (codes "5.") ≡ 0)
unfolding factoid_to_factoshi total_of_pieces is_amount_in_pieces is_amount all_digits split_dot
    value atoi submatch div_pow10
parse_tests = (refl, refl, refl, refl, refl)

-- Twelve digits behind the dot overflow: nearly one factoid is read as no such amount.
parse_overflow : factoid_to_factoshi no_wide (codes "0.999999999999") ≡ 7766279
unfolding factoid_to_factoshi total_of_pieces is_amount_in_pieces is_amount all_digits split_dot
    value atoi submatch div_pow10
parse_overflow = refl

print_whole : factoshi_to_factoid 1200000000 ≡ codes "12"
unfolding factoshi_to_factoid format_decimal format_padded trim_zeros
print_whole = refl

print_part : factoshi_to_factoid 150000010 ≡ codes "1.5000001"
unfolding factoshi_to_factoid format_decimal format_padded trim_zeros
print_part = refl
