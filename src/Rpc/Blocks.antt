-- ===== src/Rpc/Blocks.antt =====
-- The calls for blocks, heights, receipts, acknowledgements, raw messages and what is pending
-- (get.go, byHeight.go, ack.go, receipt.go, rawMsg.go), and the balances behind a name (resolve.go).
-- encoding/json's reader of each result is a parameter of the call.
use factom.Base.{ℕ, none, some, [], ◌++◌, Bytes, codes, replicate, Result, ok, err, Error, ◌>>=◌}
use factom.Base.Int.{ℤ}
use factom.Rpc.Request.{
  Json2Request, new_json2_request, api_counter, no_params, key_mr_request, hash_request,
  message_request, height_request, ack_request,
}
use factom.Rpc.Client.{Json2Response, Unmarshal, call, get_factoid_balance, get_ec_balance}

-- `HeightsResponse`
pub record HeightsResponse : Type 0 where
  pub directory_block_height : ℤ
  pub leader_height : ℤ
  pub entry_block_height : ℤ
  pub entry_height : ℤ

-- `DBHead` is read by `Unmarshal`; this is `multiBalanceResponse` of `GetBalanceTotals`.
pub record BalanceTotals : Type 0 where
  pub fct_saved : ℤ
  pub fct_acknowledged : ℤ
  pub ec_saved : ℤ
  pub ec_acknowledged : ℤ

-- The versions of `GetProperties`, each with the text of its error.
pub record Properties : Type 0 where
  pub version : Bytes
  pub version_err : Bytes
  pub api_version : Bytes
  pub api_version_err : Bytes

module _ (factomd_request : Json2Request → Result Json2Response) (json : Unmarshal) where
  -- `GetDBlock`
  unfoldable get_dblock : {A : Type 0} → (Bytes → Result A) → Bytes → ℕ → Result A × ℕ
  get_dblock read key_mr =
      call factomd_request json (codes "directory-block") (key_mr_request key_mr) read

  -- `GetHeights`
  unfoldable get_heights : (Bytes → Result HeightsResponse) → ℕ → Result HeightsResponse × ℕ
  get_heights read = call factomd_request json (codes "heights") no_params read

  -- `GetReceipt`
  unfoldable get_receipt : {A : Type 0} → (Bytes → Result A) → Bytes → ℕ → Result A × ℕ
  get_receipt read hash = call factomd_request json (codes "receipt") (hash_request hash) read

  -- `SendRawMsg`
  unfoldable send_raw_msg : {A : Type 0} → (Bytes → Result A) → Bytes → ℕ → Result A × ℕ
  send_raw_msg read message =
      call factomd_request json (codes "send-raw-message") (message_request message) read

  module _ {A : Type 0} (read : Bytes → Result A) where
    -- `GetBlockByHeightRaw`, by the kind of block
    unfoldable get_block_by_height_raw : Bytes → ℤ → ℕ → Result A × ℕ
    get_block_by_height_raw block_type height =
        call factomd_request json (block_type ++ codes "block-by-height") (height_request height)
          read

    -- `GetDBlockByHeight`, `GetECBlockByHeight`, `GetFBlockByHeight` and `GetABlockByHeight`
    unfoldable get_dblock_by_height : ℤ → ℕ → Result A × ℕ
    get_dblock_by_height height =
        call factomd_request json (codes "dblock-by-height") (height_request height) read

    unfoldable get_ecblock_by_height : ℤ → ℕ → Result A × ℕ
    get_ecblock_by_height height =
        call factomd_request json (codes "ecblock-by-height") (height_request height) read

    unfoldable get_fblock_by_height : ℤ → ℕ → Result A × ℕ
    get_fblock_by_height height =
        call factomd_request json (codes "fblock-by-height") (height_request height) read

    unfoldable get_ablock_by_height : ℤ → ℕ → Result A × ℕ
    get_ablock_by_height height =
        call factomd_request json (codes "ablock-by-height") (height_request height) read

    -- `EntryCommitACK`, `FactoidACK`, `EntryRevealACK` and the deprecated `EntryACK`
    unfoldable entry_commit_ack : Bytes → Bytes → ℕ → Result A × ℕ
    entry_commit_ack txid full =
        call factomd_request json (codes "ack") (ack_request txid (codes "c") full) read

    unfoldable factoid_ack : Bytes → Bytes → ℕ → Result A × ℕ
    factoid_ack txid full =
        call factomd_request json (codes "ack") (ack_request txid (codes "f") full) read

    unfoldable entry_reveal_ack : Bytes → Bytes → Bytes → ℕ → Result A × ℕ
    entry_reveal_ack entry_hash full chain_id =
        call factomd_request json (codes "ack") (ack_request entry_hash chain_id full) read

    unfoldable entry_ack : Bytes → Bytes → ℕ → Result A × ℕ
    entry_ack entry_hash full = entry_reveal_ack entry_hash full (replicate 64 b'0')

  -- What `GetPendingEntries` and `GetPendingTransactions` share: where the answer has an error they
  -- return the empty string and `err`, which is nil there.
  unfoldable pending : Bytes → ℕ → Result Bytes × ℕ
  pending method count =
      let id = api_counter count in
      (
        factomd_request (new_json2_request method id no_params) >>= λ resp. elim resp.error [
          | some _ ↦ ok []
          | none ↦ ok resp.result
        ],
        id,
      )

  -- `GetPendingEntries` and `GetPendingTransactions`
  unfoldable get_pending_entries : ℕ → Result Bytes × ℕ
  get_pending_entries = pending (codes "pending-entries")

  unfoldable get_pending_transactions : ℕ → Result Bytes × ℕ
  get_pending_transactions = pending (codes "pending-transactions")

  -- `GetDnsBalance`, with netki's look-ups of the factoid and the entry credit address of a name;
  -- the error texts are those of `ResolveDnsName`, and of the first balance that fails.
  module _ (wallet_name_lookup : Bytes → Bytes → Result Bytes) where
    -- A look-up that fails returns the empty string beside its error.
    unfoldable looked_up : Bytes → Bytes → Bytes
    looked_up addr kind = elim (wallet_name_lookup addr kind) [ ok s ↦ s | err _ ↦ [] ]

    -- `ResolveDnsName`: one of the two is enough.
    unfoldable resolve_dns_name : Bytes → Result (Bytes × Bytes)
    resolve_dns_name addr = elim (wallet_name_lookup addr (codes "fct")) [
      | ok fct ↦ ok (fct, looked_up addr (codes "fec"))
      | err e ↦ elim (wallet_name_lookup addr (codes "fec")) [ ok ec ↦ ok ([], ec) | err _ ↦ err e ]
    ]

    unfoldable get_dns_balance : Bytes → ℕ → Result (ℤ × ℤ) × ℕ
    get_dns_balance addr count = elim (resolve_dns_name addr) [
      | err e ↦ (err e, count)
      | ok names ↦
          let (f, n) = get_factoid_balance factomd_request json names.0 count in
          let (e, n') = get_ec_balance factomd_request json names.1 n in
          (f >>= λ a. e >>= λ b. ok (a, b), n')
    ]

-- The wallet's answer of the balances, by `walletRequest`.
module _ (wallet_request : Json2Request → Result Json2Response) (json : Unmarshal) where
  -- `GetBalanceTotals`
  unfoldable get_balance_totals : (Bytes → Result BalanceTotals) → ℕ → Result BalanceTotals × ℕ
  get_balance_totals read = call wallet_request json (codes "wallet-balances") no_params read

-- One half of `GetProperties`: what was read, or the text of the first error.
unfoldable properties_of :
    (Error → Bytes) → (Bytes → Result Properties) → Result Json2Response → Properties
properties_of text read r =
    elim (r >>= λ resp. elim resp.error as (λ _. Result Properties) [
      | some e ↦ err e
      | none ↦ read resp.result
    ]) [
      | ok p ↦ p
      | err e ↦ record {
        version = [];
        version_err = text e;
        api_version = [];
        api_version_err = [];
      }
    ]

-- `GetProperties`: the versions of factomd and of the wallet, with two numbers of the counter. What a
-- reader has filled in before it fails is dropped.
unfoldable get_properties :
    (Error → Bytes)
    → (factomd wallet : Json2Request → Result Json2Response)
    → (read read_wallet : Bytes → Result Properties) → ℕ
    → (Properties × Properties) × ℕ
get_properties text factomd wallet read read_wallet count =
    let id = api_counter count in
    let id' = api_counter id in
    (
      (
        properties_of text read (factomd (new_json2_request (codes "properties") id no_params)),
        properties_of text read_wallet
            (wallet (new_json2_request (codes "properties") id' no_params)),
      ),
      id',
    )
