-- ===== src/WalletApi/Composing.antt =====
-- The handlers that compose the requests to pay for and publish a chain or an entry
-- (wallet/wsapi/wsapi.go). They take the count of `APICounter` and return the new one.
pub mod Identities
pub mod Paid
pub mod Affordable
pub mod Valid
use factom.Base.{
  ℕ, Bool, true, false, not, Option, none, some, Bytes, Result, ok, err, Error, ◌>>=◌, fail_if,
}
use factom.Base.{
  and_then, internally, not_enough_entry_credits, chain_already_exists, chain_was_not_found,
  nil_dereference,
}
use factom.Base.Int.{ℤ, pos, ltb_ℤ, ◌+ℤ◌}
use factom.Crypto.{Crypto}
use factom.Address.EcAddress.{EcAddress}
use factom.Entry.{Entry}
use factom.Entry.Cost.{entry_cost}
use factom.Entry.Commit.{compose_entry_commit, compose_entry_reveal}
use factom.Chain.{Chain, new_chain, compose_chain_commit, compose_chain_reveal}
use factom.Rpc.Request.{Json2Request}
use factom.Rpc.Client.{Json2Response, Unmarshal, get_ec_balance, chain_exists}
use factom.WalletDatabase.{Overlay}
use factom.WalletDatabase.Tables.{get_ec_address}
use factom.WalletApi.Addresses.{read_params, of_wallet}

-- The requests of structs.go, as far as their handlers read them.
pub record EntryRequest : Type 0 where
  pub entry : Entry
  pub ec_pub : Bytes
  pub force : Bool

-- Of the chain only the first entry is read; it may be missing.
pub record ChainRequest : Type 0 where
  pub first_entry : Option Entry
  pub ec_pub : Bytes
  pub force : Bool

-- `entryResponse`
pub record EntryResponse : Type 0 where
  pub commit : Json2Request
  pub reveal : Json2Request

-- What makes of the cost of an entry, and a surcharge, that a balance does not cover an error.
unfoldable pub check_cost : ℕ → Entry → ℤ → Result (Unit {0})
check_cost surcharge e balance = do
  cost ← internally (entry_cost e)
  fail_if (ltb_ℤ balance (cost +ℤ pos surcharge)) (Error.internal not_enough_entry_credits)

-- An error that is made and not returned.
unfoldable pub discard : Result (Unit {0}) → Result (Unit {0})
discard r = ok tt

-- How the handlers end, at a time.
module _ (c : Crypto) (now : ℕ) where
  unfoldable pub compose_chain : Chain → EcAddress → ℕ → Result EntryResponse × ℕ
  compose_chain chain ec count =
      and_then (of_wallet (compose_chain_commit c now count chain ec)) (λ commit n.
        and_then (of_wallet (compose_chain_reveal n chain))
          (λ reveal n'. (ok (record { commit = commit; reveal = reveal }), n')))

  unfoldable pub compose_entry : Entry → EcAddress → ℕ → Result EntryResponse × ℕ
  compose_entry e ec count =
      and_then (of_wallet (compose_entry_commit c now count e ec)) (λ commit n.
        and_then (of_wallet (compose_entry_reveal n e))
          (λ reveal n'. (ok (record { commit = commit; reveal = reveal }), n')))

module _ (factomd_request : Json2Request → Result Json2Response) (json : Unmarshal) where
  -- The checks of a chain, unless they are forced off.
  unfoldable pub check_chain : Bool → Bytes → Chain → ℕ → Result (Unit {0}) × ℕ
  check_chain true ecpub chain count = (ok tt, count)
  check_chain false ecpub chain count =
      and_then (of_wallet (get_ec_balance factomd_request json ecpub count)) (λ balance n.
        and_then (check_cost 10 chain.first_entry balance, n)
          (λ _ n1.
            let (exists, n2) = chain_exists factomd_request json chain.chain_id n1 in
            (fail_if exists (chain_already_exists chain.chain_id), n2)))

  -- The checks of an entry. The balance is compared with the cost, but the error is not returned.
  unfoldable pub check_entry : Bool → Bytes → Entry → ℕ → Result (Unit {0}) × ℕ
  check_entry true ecpub e count = (ok tt, count)
  check_entry false ecpub e count =
      and_then (of_wallet (get_ec_balance factomd_request json ecpub count)) (λ balance n.
        and_then (discard (check_cost 0 e balance), n)
          (λ _ n1.
            let (exists, n2) = chain_exists factomd_request json e.chain_id n1 in
            (fail_if (not exists) (chain_was_not_found e.chain_id), n2)))

module _ (factomd_request : Json2Request → Result Json2Response) (json : Unmarshal)
    (store : Overlay) (c : Crypto) (now : ℕ) (db : store.DB) where
  -- `handleComposeChain`
  unfoldable pub handle_compose_chain : Result ChainRequest → ℕ → Result EntryResponse × ℕ
  handle_compose_chain params count =
      and_then (read_params params, count)
        (λ req n. elim req.first_entry [
          | none ↦ (err nil_dereference, n)
          | some e ↦
              let chain = new_chain c e in
              and_then (internally (get_ec_address store c req.ec_pub db), n)
                (λ ec n1.
                  and_then (check_chain factomd_request json req.force req.ec_pub chain n1)
                    (λ _ n2. compose_chain c now chain ec n2))
        ])

  -- `handleComposeEntry`
  unfoldable pub handle_compose_entry : Result EntryRequest → ℕ → Result EntryResponse × ℕ
  handle_compose_entry params count =
      and_then (read_params params, count)
        (λ req n.
          and_then (internally (get_ec_address store c req.ec_pub db), n)
            (λ ec n1.
              and_then (check_entry factomd_request json req.force req.ec_pub req.entry n1)
                (λ _ n2. compose_entry c now req.entry ec n2)))
