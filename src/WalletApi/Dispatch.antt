-- ===== src/WalletApi/Dispatch.antt =====
-- `handleV2Request` (wallet/wsapi/wsapi.go): which handler answers a method, on the state of the
-- wallet, and what a locked wallet answers. The requests that the update of the cache, the balance
-- of an input and the rate make are parameters, whose numbers are not followed.
pub mod Methods
pub mod State
pub mod Serve
pub mod Locked
use factom.Base.{ℕ, Bool, Option, List, Bytes, Result}
use factom.Base.Int.{ℤ}
use factom.Crypto.{Crypto}
use factom.Address.Mnemonic.{Bip}
use factom.Reader.{Node}
use factom.Rpc.Request.{Json2Request}
use factom.Rpc.Client.{Json2Response, Unmarshal}
use factom.Rpc.Keys.{AddressResponse, WalletBackup}
use factom.Rpc.Transactions.{Transaction}
use factom.TxDatabase.{TxApi, Factomd}
use factom.Wallet.Factoid.{Factoid}
use factom.WalletDatabase.{Overlay}
use factom.WalletDatabase.Seed.{Gob}
use factom.WalletApi.Lock.{SecureDb, PassphraseRequest, UnlockResponse}
use factom.WalletApi.Transactions.{View}
use factom.WalletApi.Composing.{EntryRequest, ChainRequest, EntryResponse}
use factom.WalletApi.Composing.Identities.{
  IdentityChainRequest, IdentityKeyReplacementRequest, IdentityAttribute, IdentityAttributeRequest,
  IdentityAttributeEndorsementRequest,
}
use factom.WalletApi.Cached.{TxdbRequest, PropertiesResponse}
use factom.WalletApi.Balances.{BalanceItem, BalanceAnswer}
use factom.WalletApi.ActiveKeys.{ActiveIdentityKeysRequest, ActiveIdentityKeysResponse}

-- encoding/json's reader of each request structure of structs.go.
pub record Readers : Type 0 where
  pub address : Bytes → Result Bytes
  pub addresses : Bytes → Result (List Bytes)
  pub words : Bytes → Result Bytes
  pub passphrase : Bytes → Result PassphraseRequest
  pub txdb : Bytes → Result TxdbRequest
  pub transaction : Bytes → Result (Bytes × Bool)
  pub transaction_value : Bytes → Result (Bytes × Bytes × ℕ)
  pub transaction_address : Bytes → Result (Bytes × Bytes)
  pub chain : Bytes → Result ChainRequest
  pub entry : Bytes → Result EntryRequest
  pub public_key : Bytes → Result Bytes
  pub secrets : Bytes → Result (List Bytes)
  pub active_keys : Bytes → Result ActiveIdentityKeysRequest
  pub identity_chain : Bytes → Result IdentityChainRequest
  pub key_replacement : Bytes → Result IdentityKeyReplacementRequest
  pub attribute : Bytes → Result IdentityAttributeRequest
  pub endorsement : Bytes → Result IdentityAttributeEndorsementRequest

-- What the server is built with and what it calls. `encrypted` is the wallet's field `Encrypted`.
pub record Env : Type 1 where
  pub encrypted : Bool
  pub version : Bytes
  pub api_version : Bytes
  pub store : Overlay
  pub gob : Gob
  pub secure : SecureDb store.DB
  pub crypto : Crypto
  pub bip : Bip
  pub mnemonic : Result Bytes
  pub factoid : Factoid
  pub view : View factoid
  pub api : TxApi
  pub tx_of : api.Tx → factoid.Tx
  pub readers : Readers
  pub keys_json : List Bytes → Bytes
  pub attributes_json : List IdentityAttribute → Result Bytes
  pub initial_keys : Bytes → Option (List Bytes)
  -- what a float64 that is no int64 is converted to
  pub beyond : ℕ → ℤ
  pub read_balances : Bytes → Result (List BalanceItem)
  -- factomd: its transport, and its answers to the calls that are parameters
  pub factomd_request : Json2Request → Result Json2Response
  pub json : Unmarshal
  pub balance_of : Bytes → Result ℤ
  pub rate : Result ℕ
  pub node : Factomd
  pub reader : Node
  pub heights : Result ℤ
  pub post : Bytes → Bytes → Option Bytes
  pub server : Bytes
  -- the flag that stops the update, and fuel for it and for the walk of a chain
  pub quit : ℕ → Bool
  pub cache_fuel : ℕ
  pub chain_fuel : ℕ

-- The structures that are answered.
pub data Response : Type 0 where
  address_response : AddressResponse → Response
  multi_address_response : List AddressResponse → Response
  wallet_backup_response : WalletBackup → Response
  transaction_response : Transaction → Response
  multi_transaction_response : List Transaction → Response
  -- a transaction with a name only, and one with a name and a hash only
  deleted_response : Bytes → Response
  hash_response : Bytes × Bytes → Response
  request_response : Json2Request → Response
  entry_response : EntryResponse → Response
  simple_response : Bool → Response
  properties_response : PropertiesResponse → Response
  height_response : ℤ → Response
  balance_response : BalanceAnswer → Response
  active_keys_response : ActiveIdentityKeysResponse → Response
  unlock_response : UnlockResponse → Response
