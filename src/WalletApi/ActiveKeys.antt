-- ===== src/WalletApi/ActiveKeys.antt =====
-- `handleActiveIdentityKeys` (wallet/wsapi/wsapi.go).
use factom.Base.{ℕ, Option, none, some, List, Bytes, Result, ok, err, ◌>>=◌}
use factom.Base.{internally}
use factom.Base.Int.{ℤ}
use factom.Crypto.{Crypto}
use factom.Reader.{Node}
use factom.Identity.Active.{get_active_identity_keys, get_active_identity_keys_at_height}
use factom.WalletApi.Addresses.{read_params}

-- `activeIdentityKeysRequest`; the height may be missing.
pub record ActiveIdentityKeysRequest : Type 0 where
  pub chain_id : Bytes
  pub height : Option ℤ

-- `activeIdentityKeysResponse`
pub record ActiveIdentityKeysResponse : Type 0 where
  pub chain_id : Bytes
  pub height : ℤ
  pub keys : List Bytes

module _ (c : Crypto) (node : Node) (heights : Result ℤ)
    (initial_keys : Bytes → Option (List Bytes)) (fuel : ℕ) where
  -- What the handler makes of the keys and their height.
  unfoldable pub respond_keys :
      Bytes → Option (Result (List Bytes × ℤ)) → Option (Result ActiveIdentityKeysResponse)
  respond_keys chain_id none = none
  respond_keys chain_id (some r) = some (
      internally r >>= λ found.
      ok (record { chain_id = chain_id; height = found.1; keys = found.0 }))

  unfoldable pub handle_active_identity_keys :
      Result ActiveIdentityKeysRequest → Option (Result ActiveIdentityKeysResponse)
  handle_active_identity_keys params = elim (read_params params) [
    | err e ↦ some (err e)
    | ok req ↦ respond_keys req.chain_id (elim req.height [
      | none ↦ get_active_identity_keys c node heights initial_keys fuel req.chain_id
      | some height ↦
          elim (get_active_identity_keys_at_height c node initial_keys fuel req.chain_id height) [
            | none ↦ none
            | some r ↦ some (r >>= λ keys. ok (keys, height))
          ]
    ])
  ]
