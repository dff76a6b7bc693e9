-- ===== src/Tests/Asking.antt =====
-- Balances of an empty wallet, the keys of an identity on a chain of two blocks, and the JSON form
-- of an entry.
use factom.Base.{
  ℕ, ◌≡◌, ◌≢◌, ◌↔◌, refl, true, false, Option, none, some, List, [], ◌∷◌, arith, Bytes, codes,
  Result, ok,
}
use factom.Base.Int.{ℤ, pos}
use factom.Address.FactoidAddress.{FactoidAddress}
use factom.Address.EcAddress.{EcAddress}
use factom.Entry.{Entry}
use factom.Chain.Json.{marshal_json, unmarshal_json, unmarshal_json-marshal_json}
use factom.Rpc.Transport.{url_of, factomd_endpoint, split_scheme}
use factom.WalletApi.Balances.{BalanceItem, balances_url}
use factom.WalletApi.Balances.Url.{balances_url-factomd_endpoint}
use factom.Tests.{toy_crypto}

abbrev item : ℕ → BalanceItem
item n = record { ack = some n; saved = some n; problem = [] }

abbrev beyond : ℕ → ℤ
beyond bits = pos 0

-- Every request is answered by two items, of 3 and of 4.75.
abbrev posted : Bytes → Bytes → Option Bytes
posted url body = some []

abbrev two_items : Bytes → Result (List BalanceItem)
two_items body = ok (item 4613937818241073152 ∷ item 4617034042984890368 ∷ [])

abbrev server : Bytes
server = codes "localhost:8088"

server_set : server ≢ []
server_set h = cc

no_scheme : split_scheme server ≡ none
unfolding split_scheme factom.Base.bytes_eq
no_scheme = refl

balances_url-factomd_endpoint_example :
    (balances_url server ≡ url_of (factomd_endpoint true server)) ↔ (true ≡ false)
balances_url-factomd_endpoint_example =
    balances_url-factomd_endpoint true server server_set no_scheme

abbrev entry : Entry
entry = record { chain_id = codes "ab"; ext_ids = (1 ∷ 2 ∷ []) ∷ [] ∷ []; content = 255 ∷ [] }

entry-named : entry.chain_id ≢ []
entry-named h = cc

unmarshal_json-marshal_json_example :
    unmarshal_json toy_crypto
      (record { chain_id = []; ext_ids = []; content = [] })
      (marshal_json entry)
    ≡ ok entry
unmarshal_json-marshal_json_example =
    unmarshal_json-marshal_json toy_crypto entry entry-named
      ((omega arith, (omega arith, tt)), (tt, tt)) (omega arith, tt)
