-- ===== src/Rpc/Calls.antt =====
-- The calls that commit and reveal entries and chains (entry.go, chain.go).
use factom.Base.{ℕ, Bytes, Result, ◌>>=◌}
use factom.Crypto.{Crypto}
use factom.Address.EcAddress.{EcAddress}
use factom.Entry.{Entry}
use factom.Entry.Commit.{compose_entry_commit, compose_entry_reveal}
use factom.Chain.{Chain, compose_chain_commit, compose_chain_reveal}
use factom.Rpc.Request.{Json2Request}
use factom.Rpc.Client.{Json2Response, read_response}

-- The readers are encoding/json's, of the field `TxID` and of the field `Entry`.
module _ (factomd_request : Json2Request → Result Json2Response) where
  -- A composed request is sent, and the answer read.
  unfoldable send_composed :
      {A : Type 0} → (Bytes → Result A) → Result Json2Request × ℕ → Result A × ℕ
  send_composed unmarshal (composed, count) =
      (composed >>= λ req. factomd_request req >>= read_response unmarshal, count)

  module _ (read_txid read_entry_hash : Bytes → Result Bytes) where
    -- `CommitEntry` and `RevealEntry`
    unfoldable commit_entry : Crypto → ℕ → Entry → EcAddress → ℕ → Result Bytes × ℕ
    commit_entry c now e ec count = send_composed read_txid (compose_entry_commit c now count e ec)

    unfoldable reveal_entry : Entry → ℕ → Result Bytes × ℕ
    reveal_entry e count = send_composed read_entry_hash (compose_entry_reveal count e)

    -- `CommitChain` and `RevealChain`
    unfoldable commit_chain : Crypto → ℕ → Chain → EcAddress → ℕ → Result Bytes × ℕ
    commit_chain c now chain ec count =
        send_composed read_txid (compose_chain_commit c now count chain ec)

    unfoldable reveal_chain : Chain → ℕ → Result Bytes × ℕ
    reveal_chain chain count = send_composed read_entry_hash (compose_chain_reveal count chain)
