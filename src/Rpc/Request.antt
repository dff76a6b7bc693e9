-- ===== src/Rpc/Request.antt =====
-- The request structure of jsonrpc.go, with the parameter structures of wsapistructs.go as data.
-- Encoding them as JSON is encoding/json's work.
use factom.Base.{ℕ, ◌+◌, Bool, List, Bytes, codes}
use factom.Base.Int.{ℤ}
use factom.Entry.{Entry}

-- The parameters that a request carries, by the structure that they are marshalled from.
pub data Params : Type 0 where
  no_params : Params
  message_request : (message : Bytes) → Params
  entry_request : (entry : Bytes) → Params
  transaction_request : (name : Bytes) (force : Bool) → Params
  transaction_value_request : (name address : Bytes) (amount : ℕ) → Params
  address_request : (address : Bytes) → Params
  hash_request : (hash : Bytes) → Params
  key_mr_request : (key_mr : Bytes) → Params
  chain_id_request : (chain_id : Bytes) → Params
  composed_transaction : (transaction : Bytes) → Params
  txid_request : (txid : Bytes) → Params
  range_request : (start end : ℤ) → Params
  import_request : (addresses : List Bytes) → Params
  import_keys_request : (keys : List Bytes) → Params
  import_koinify_request : (words : Bytes) → Params
  public_request : (public : Bytes) → Params
  height_request : (height : ℤ) → Params
  ack_request : (hash chain_id full_transaction : Bytes) → Params
  passphrase_request : (password : Bytes) (timeout : ℤ) → Params
  compose_entry_request : (entry : Entry) (ec_pub : Bytes) (force : Bool) → Params
  compose_chain_request :
      (chain_id : Bytes) (first_entry : Entry) (ec_pub : Bytes) (force : Bool) → Params

pub record Json2Request : Type 0 where
  pub jsonrpc : Bytes
  pub id : ℕ
  pub params : Params
  pub method : Bytes

-- `NewJSON2Request`; marshalling the package's own parameter structures does not fail.
unfoldable pub new_json2_request : Bytes → ℕ → Params → Json2Request
new_json2_request method id params = record {
  jsonrpc = codes "2.0";
  id = id;
  params = params;
  method = method;
}

-- `APICounter`: the number that it returns, which is also its new count.
abbrev pub api_counter : ℕ → ℕ
api_counter count = count + 1
