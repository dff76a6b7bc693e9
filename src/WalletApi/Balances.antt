-- ===== src/WalletApi/Balances.antt =====
-- The balances of the wallet's addresses (`handleWalletBalances` of wallet/wsapi/wsapi.go). It does
-- not use the package's own calls of factomd: it writes the request as text.
pub mod Sums
pub mod Url
use factom.Base.{
  ◌||◌, Option, none, some, List, [], ◌∷◌, ◌++◌, map, Bytes, codes, length, bytes_eq, ltb,
  if◌then◌else◌, Result, ok, err, ◌>>=◌,
}
use factom.Base.{internally, invalid_params, panic}
use factom.Base.Int.{ℤ, pos, wrap64, ◌+ℤ◌, sub_ℕ}
use factom.Base.{ℕ, Bool, ◌+◌, ◌-◌, ◌*◌, ◌/◌, ◌%◌, ◌^◌, leb}
use factom.Crypto.{Crypto}
use factom.Rpc.Keys.{AddressResponse}
use factom.WalletDatabase.{Overlay}
use factom.WalletDatabase.Tables.{get_all_addresses}
use factom.WalletApi.Addresses.{mk_factoid_response, mk_ec_response}

-- An element of `Balances`, by the numbers under `ack` and `saved`, of which a missing one panics,
-- and the text under `err`, which may be missing too. encoding/json makes a float64 of a number
-- that is read into an interface: it is given by its 64 bits.
pub record BalanceItem : Type 0 where
  pub ack : Option ℕ
  pub saved : Option ℕ
  pub problem : Bytes

-- What the loops over the balances add up.
pub record Totals : Type 0 where
  pub ack : ℤ
  pub saved : ℤ
  pub bad_error : Bytes

-- `multiBalanceResponse`, or one of the two texts that are answered in its place.
pub data BalanceAnswer : Type 0 where
  balances : (fct_ack fct_saved ec_ack ec_saved : ℤ) → BalanceAnswer
  factomd_error : Bytes → BalanceAnswer

-- `strings.Join`
unfoldable pub join : Bytes → List Bytes → Bytes
join sep [] = []
join sep (s ∷ []) = s
join sep (s ∷ t ∷ list) = s ++ (sep ++ join sep (t ∷ list))

-- The public strings of the addresses with a secret.
unfoldable pub accounts_of : List AddressResponse → List Bytes
accounts_of [] = []
accounts_of (a ∷ list) =
    let rest = accounts_of list in if ltb 0 (length a.secret) then a.public ∷ rest else rest

-- The body of the request, as the handler writes it, by its method.
unfoldable pub balances_body : Bytes → List Bytes → Bytes
balances_body method accounts =
    codes "{\"jsonrpc\": \"2.0\", \"id\": 0, \"method\": \""
    ++ (method
        ++ (codes "\", \"params\":{\"addresses\":[\""
            ++ (join (codes "\", \"") accounts ++ codes "\"]}}  ")))

-- Its URL, by the server that is set.
unfoldable pub balances_url : Bytes → Bytes
balances_url server =
    let url = codes "http://" ++ (server ++ codes "/v2") in
    if bytes_eq url (codes "http:///v2") then codes "http://localhost:8088/v2" else url

unfoldable pub not_fully_booted : Bytes
not_fully_booted = codes "Not fully booted"

unfoldable pub error_decoding_address : Bytes
error_decoding_address = codes "Error decoding address"

-- The text of the last item with one of the two errors.
unfoldable pub bad_error_after : Bytes → Bytes → Bytes
bad_error_after problem before =
    if bytes_eq problem not_fully_booted
    then not_fully_booted
    else if bytes_eq problem error_decoding_address
    then error_decoding_address
    else before

-- The sign, the biased exponent and the fraction of a float64.
unfoldable pub is_negative : ℕ → Bool
is_negative bits = leb (2 ^ 63) bits

unfoldable pub exponent_of : ℕ → ℕ
exponent_of bits = bits / 2 ^ 52 % 2 ^ 11

unfoldable pub fraction_of : ℕ → ℕ
fraction_of bits = bits % 2 ^ 52

-- The whole part of 1.fraction * 2^n.
unfoldable pub whole_part : ℕ → ℕ → ℕ
whole_part n fraction = (2 ^ 52 + fraction) * 2 ^ n / 2 ^ 52

-- `Convert` of a float64 to an int64: it drops the fraction. What it makes of a number of 2^63 or
-- more, of an infinity or of no number, Go leaves open: the parameter.
module _ (beyond : ℕ → ℤ) where
  unfoldable pub int64_of_float64 : ℕ → ℤ
  int64_of_float64 bits =
      let exponent = exponent_of bits in
      let whole = whole_part (exponent - 1023) (fraction_of bits) in
      if ltb exponent 1023
      then pos 0
      else if leb 1086 exponent
      then beyond bits
      else if is_negative bits
      then sub_ℕ 0 whole
      else pos whole

  -- The loop over the balances; the sums are int64.
  unfoldable pub add_up : List BalanceItem → Totals → Result Totals
  add_up [] t = ok t
  add_up (item ∷ items) t = elim item.ack [
    | none ↦ err panic
    | some ack ↦ elim item.saved [
      | none ↦ err panic
      | some saved ↦ add_up items (record {
        ack = wrap64 (t.ack +ℤ int64_of_float64 ack);
        saved = wrap64 (t.saved +ℤ int64_of_float64 saved);
        bad_error = bad_error_after item.problem t.bad_error;
      })
    ]
  ]

-- Which answer the totals give: an error of either kind comes before the balances.
unfoldable pub answer_of : Totals → Totals → BalanceAnswer
answer_of fct ec =
    if bytes_eq fct.bad_error not_fully_booted || bytes_eq ec.bad_error not_fully_booted
    then factomd_error (codes "Factomd is not fully booted, please wait and try again.")
    else if bytes_eq fct.bad_error error_decoding_address
        || bytes_eq ec.bad_error error_decoding_address
    then factomd_error (codes "There was an error decoding an address")
    else balances fct.ack fct.saved ec.ack ec.saved

-- The parameters are the post of a body to a URL, whose failure panics, and encoding/json's reader
-- of the balances.
module _ (beyond : ℕ → ℤ) (post : Bytes → Bytes → Option Bytes)
    (read_balances : Bytes → Result (List BalanceItem)) (server : Bytes) where
  unfoldable pub totals_of : Bytes → List Bytes → Result Totals
  totals_of method accounts = elim (post (balances_url server) (balances_body method accounts)) [
    | none ↦ err panic
    | some body ↦ elim (read_balances body) [
      | err _ ↦ err invalid_params
      | ok items ↦ add_up beyond items (record { ack = pos 0; saved = pos 0; bad_error = [] })
    ]
  ]

  -- `handleWalletBalances`
  unfoldable pub handle_wallet_balances :
      (store : Overlay) → Crypto → store.DB → Result BalanceAnswer
  handle_wallet_balances store c db = do
    r ← internally (get_all_addresses store c db)
    ec ← totals_of (codes "multiple-ec-balances") (accounts_of (map (mk_ec_response c) r.1))
    fct ← totals_of (codes "multiple-fct-balances") (accounts_of (map (mk_factoid_response c) r.0))
    ok (answer_of fct ec)
