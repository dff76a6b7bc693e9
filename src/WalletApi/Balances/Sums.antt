-- ===== src/WalletApi/Balances/Sums.antt =====
-- What the balances that the wallet answers add up.
use factom.Base.{Bytes, Option, some, none, ok, Result, List, false, bytes_eq, ◌≡◌, [], ◌∷◌}
use factom.Base.Int.{ℤ, pos, ◌+ℤ◌}
use factom.Base.{ℕ}
use factom.Crypto.{Crypto}
use factom.Address.FactoidAddress.{FactoidAddress}
use factom.Address.EcAddress.{EcAddress}
use factom.WalletApi.Balances.{
  balances_url, balances_body, error_decoding_address, not_fully_booted, BalanceItem,
  int64_of_float64,
}

-- The exact sums of the numbers as int64.
unfoldable pub sum_of : (ℕ → ℤ) → (BalanceItem → Option ℕ) → List BalanceItem → ℤ
sum_of beyond field [] = pos 0
sum_of beyond field (item ∷ items) = elim (field item) [
  | none ↦ sum_of beyond field items
  | some n ↦ int64_of_float64 beyond n +ℤ sum_of beyond field items
]

-- An item that reports neither of the two errors.
abbrev pub IsSound : BalanceItem → Type 0
IsSound item =
    (bytes_eq item.problem not_fully_booted ≡ false)
    × (bytes_eq item.problem error_decoding_address ≡ false)

module _ (beyond : ℕ → ℤ) (post : Bytes → Bytes → Option Bytes)
    (read_balances : Bytes → Result (List BalanceItem)) (server : Bytes) where
  -- The items that factomd answers for accounts.
  abbrev pub Answers : Bytes → List Bytes → List BalanceItem → Type 0
  Answers method accounts items =
      (body : Bytes) × (post (balances_url server) (balances_body method accounts) ≡ some body)
      × (read_balances body ≡ ok items)
