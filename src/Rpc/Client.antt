-- ===== src/Rpc/Client.antt =====
-- The calls of get.go that send one request to factomd and read the answer. The transport
-- (`factomdRequest`) and encoding/json's reader of each result are parameters. A call takes the
-- count of `APICounter` and returns the new one; what it returns beside an error is dropped.
use factom.Base.{
  ℕ, Bool, true, false, Option, none, some, Bytes, codes, Result, ok, err, Error, ◌>>=◌,
}
use factom.Base.Hex.{decode_string}
use factom.Base.Int.{ℤ}
use factom.Entry.{Entry}
use factom.Reader.{EBlock, ChainHeadResponse}
use factom.Rpc.Request.{
  Json2Request, Params, new_json2_request, api_counter, no_params, address_request, hash_request,
  key_mr_request, chain_id_request,
}

-- `JSON2Response`, as far as the calls read it.
pub record Json2Response : Type 0 where
  pub error : Option Error
  pub result : Bytes

-- `if resp.Error != nil { return resp.Error }`, and then the reader of the result.
unfoldable pub read_response {ℓ} : {A : Type ℓ} → (Bytes → Result A) → Json2Response → Result A
read_response unmarshal resp = elim resp.error [ some e ↦ err e | none ↦ unmarshal resp.result ]

-- What encoding/json makes of the results.
pub record Unmarshal : Type 0 where
  -- the field `Balance`
  pub balance : Bytes → Result ℤ
  -- the field `Rate`
  pub rate : Bytes → Result ℕ
  -- the field `KeyMR` of a `DBHead`
  pub key_mr : Bytes → Result Bytes
  pub entry : Bytes → Result Entry
  pub chain_head : Bytes → Result ChainHeadResponse
  pub eblock : Bytes → Result EBlock
  -- the field `Data` of a `RawData`
  pub raw_data : Bytes → Result Bytes

module _ (factomd_request : Json2Request → Result Json2Response) (json : Unmarshal) where
  -- What the calls have in common: a request with the next number, and its answer.
  unfoldable pub call {ℓ} : {A : Type ℓ} → Bytes → Params → (Bytes → Result A) → ℕ → Result A × ℕ
  call method params unmarshal count =
      let id = api_counter count in
      (factomd_request (new_json2_request method id params) >>= read_response unmarshal, id)

  -- `GetECBalance`
  unfoldable pub get_ec_balance : Bytes → ℕ → Result ℤ × ℕ
  get_ec_balance addr = call (codes "entry-credit-balance") (address_request addr) json.balance

  -- `GetFactoidBalance`
  unfoldable pub get_factoid_balance : Bytes → ℕ → Result ℤ × ℕ
  get_factoid_balance addr = call (codes "factoid-balance") (address_request addr) json.balance

  -- `GetRate`
  unfoldable pub get_rate : ℕ → Result ℕ × ℕ
  get_rate = call (codes "entry-credit-rate") no_params json.rate

  -- `GetDBlockHead`
  unfoldable get_dblock_head : ℕ → Result Bytes × ℕ
  get_dblock_head = call (codes "directory-block-head") no_params json.key_mr

  -- `GetEntry`
  unfoldable pub get_entry : Bytes → ℕ → Result Entry × ℕ
  get_entry hash = call (codes "entry") (hash_request hash) json.entry

  -- `getChainHead`, which `GetChainHeadAndStatus` returns
  unfoldable pub get_chain_head_and_status : Bytes → ℕ → Result ChainHeadResponse × ℕ
  get_chain_head_and_status chain_id =
      call (codes "chain-head") (chain_id_request chain_id) json.chain_head

  -- `GetChainHead`
  unfoldable pub get_chain_head : Bytes → ℕ → Result Bytes × ℕ
  get_chain_head chain_id count =
      let (r, id) = get_chain_head_and_status chain_id count in
      (r >>= λ head. ok head.chain_head, id)

  -- `ChainExists`
  unfoldable pub chain_exists : Bytes → ℕ → Bool × ℕ
  chain_exists chain_id count =
      let (r, id) = get_chain_head_and_status chain_id count in
      (elim r [ ok _ ↦ true | err _ ↦ false ], id)

  -- `GetEBlock`
  unfoldable pub get_eblock : Bytes → ℕ → Result EBlock × ℕ
  get_eblock key_mr = call (codes "entry-block") (key_mr_request key_mr) json.eblock

  -- `GetRaw`; `GetDataBytes` of the answer decodes its hexadecimal digits.
  unfoldable pub get_raw : Bytes → ℕ → Result Bytes × ℕ
  get_raw key_mr =
      call (codes "raw-data") (hash_request key_mr)
        (λ result. json.raw_data result >>= decode_string)
