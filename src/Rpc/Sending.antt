-- ===== src/Rpc/Sending.antt =====
-- What `SendTransaction` asks of the wallet and of factomd.
use factom.Base.{
  refl, Result-cases, ◌⊎◌, Result, and_then, >>=-eq-ok, bytes_eq_sound, and_then-eq-ok,
  ok-injective, ℕ, ◌+◌, ◌≡◌, ◌∙◌, inl, inr, sym, ap, true, false, List, [], ◌∷◌, Bytes, codes,
  bytes_eq, ok, err, Error, Bool-cases,
}
use mathlib.Core.List.{Mem, mem-cons_self, mem-cons_of_mem}
use factom.Crypto.{Crypto}
use factom.Rpc.Request.{Json2Request, no_params, transaction_request}
use factom.Rpc.Server.{Event, to_wallet, to_factomd, Servers, World, asked, ask, forward}
use factom.Rpc.Transactions.{
  Transaction, TransactionJson, compose_transaction, delete_transaction, list_transactions_tmp,
  find_name, get_tmp_transaction, send_signed, send_transaction,
}

-- How many of the requests went to factomd.
unfoldable pub to_factomd_count : List Event → ℕ
to_factomd_count [] = 0
to_factomd_count (to_wallet r ∷ events) = to_factomd_count events
to_factomd_count (to_factomd r ∷ events) = to_factomd_count events + 1

-- The worlds of `SendTransaction`: the wallet was asked for its list and to compose; factomd got
-- what was composed; the wallet was asked to delete.
abbrev pub composed : Bytes → World → World
composed name w =
    asked (codes "compose-transaction") (transaction_request name false)
      (asked (codes "tmp-transactions") no_params w)

abbrev forwarded : Json2Request → Bytes → World → World
forwarded request name w = record (composed name w) {
  history = to_factomd request ∷ (composed name w).history;
}

abbrev pub sent : Json2Request → Bytes → World → World
sent request name w =
    asked (codes "delete-transaction") (transaction_request name false) (forwarded request name w)

module _ (servers : Servers) (json : TransactionJson) (c : Crypto) where
  find_name-name :
      (name : Bytes) (txs : List Transaction) {found : Transaction}
      → find_name servers json c name txs ≡ ok found
      → found.name ≡ name
  unfolding find_name
  find_name-name name [] h = cc
  find_name-name name (tx ∷ txs) {found} h =
      elim (Bool-cases (bytes_eq tx.name name)) as (λ _. found.name ≡ name) [
        | inl here ↦
            let read : ok tx ≡ ok found = rw here at h in
            ap (λ t. t.name) (sym (ok-injective read)) ∙ bytes_eq_sound tx.name name here
        | inr other ↦ find_name-name name txs (rw other at h)
      ]

  find_name-Mem :
      (name : Bytes) (txs : List Transaction) {found : Transaction}
      → find_name servers json c name txs ≡ ok found
      → Mem found txs
  unfolding find_name
  find_name-Mem name [] h = cc
  find_name-Mem name (tx ∷ txs) {found} h =
      elim (Bool-cases (bytes_eq tx.name name)) as (λ _. Mem found (tx ∷ txs)) [
        | inl here ↦
            let read : ok tx ≡ ok found = rw here at h in rw (← ok-injective read) mem-cons_self
        | inr other ↦ mem-cons_of_mem tx (find_name-Mem name txs (rw other at h))
      ]

  -- A transaction of the name that the wallet lists.
  abbrev pub IsListed : Bytes → World → Transaction → Type 0
  IsListed name w tx =
      (txs : List Transaction) × ((list_transactions_tmp servers json c w).0 ≡ ok txs)
      × Mem tx txs
      × (tx.name ≡ name)

  get_tmp_transaction-IsListed :
      (name : Bytes) (w : World) {tx : Transaction}
      → (get_tmp_transaction servers json c name w).0 ≡ ok tx
      → IsListed name w tx
  unfolding get_tmp_transaction
  get_tmp_transaction-IsListed name w h =
      let (txs, listed, found) =
        >>=-eq-ok (list_transactions_tmp servers json c w).0 (find_name servers json c name) h in
      (txs, listed, find_name-Mem name txs found, find_name-name name txs found)

  -- What has been sent was composed, forwarded and deleted.
  send_signed-sent :
      (name : Bytes) (tx : Transaction) (w : World) {found : Transaction} {w' : World}
      → send_signed servers json c name tx (asked (codes "tmp-transactions") no_params w)
        ≡ (ok found, w')
      → (found ≡ tx)
        × (result : Bytes) × ((compose_transaction servers json c name
              (asked (codes "tmp-transactions") no_params w)).0
            ≡ ok result)
        × (w' ≡ sent (json.request result) name w)
  unfolding send_signed compose_transaction forward delete_transaction ask
  send_signed-sent name tx w {found} {w'} h =
      let (result, e1, h1) =
        and_then-eq-ok
          (compose_transaction servers json c name (asked (codes "tmp-transactions") no_params w)) _
          h in
      let (_, e2, h2) =
        and_then-eq-ok (forward servers (json.request result) (composed name w)) _ h1 in
      let (_, e3, h3) =
        and_then-eq-ok
          (delete_transaction servers json c name (forwarded (json.request result) name w)) _ h2 in
      (ok-injective (ap (λ r. r.0) (sym h3)), result, e1, ap (λ r. r.1) (sym h3))

  -- A transaction that `SendTransaction` returns is listed by the wallet under the name, and
  -- signed; the wallet was asked for its list and to compose it, factomd was sent the request that
  -- the wallet composed, and after that the wallet was asked to delete it: these four requests in
  -- this order, and no other.
  pub send_transaction-sent :
      (name : Bytes) (w : World) {tx : Transaction} {w' : World}
      → send_transaction servers json c name w ≡ (ok tx, w')
      → (tx.is_signed ≡ true)
        × (tx.name ≡ name)
        × (result : Bytes) × ((compose_transaction servers json c name
              (asked (codes "tmp-transactions") no_params w)).0
            ≡ ok result)
        × (w' ≡ sent (json.request result) name w)
  unfolding send_transaction get_tmp_transaction list_transactions_tmp ask
  send_transaction-sent name w {tx} {w'} h =
      let (listed, found, h1) = and_then-eq-ok (get_tmp_transaction servers json c name w) _ h in
      let (txs, e, named) =
        >>=-eq-ok (list_transactions_tmp servers json c w).0 (find_name servers json c name)
          found in
      elim (Bool-cases listed.is_signed)
        as (λ _.
          (tx.is_signed ≡ true)
          × (tx.name ≡ name)
          × (result : Bytes) × ((compose_transaction servers json c name
                (asked (codes "tmp-transactions") no_params w)).0
              ≡ ok result)
          × (w' ≡ sent (json.request result) name w)) [
            | inr unsigned ↦
                let refused : err Error.unsigned_transaction ≡ ok tx =
                  ap (λ r. r.0) (rw unsigned at h1) in
                cc
            | inl signed ↦
                let (same, result, made, rest) = send_signed-sent name listed w (rw signed at h1) in
                (
                  ap (λ t. t.is_signed) same ∙ signed,
                  ap (λ t. t.name) same ∙ find_name-name name txs named,
                  result,
                  made,
                  rest,
                )
          ]

  -- Deleting asks the wallet only.
  delete-count :
      (name : Bytes) (tx : Transaction) (w : World) (r : Result (Unit {0}))
      → to_factomd_count
          (and_then
            (r, w)
            (λ _ w2.
              and_then (delete_transaction servers json c name w2) (λ _ w3. (ok tx, w3)))).1.history
        ≡ to_factomd_count w.history
  unfolding and_then to_factomd_count delete_transaction ask asked
  delete-count name tx w (err e) = refl
  delete-count name tx w (ok u) = elim (Result-cases (delete_transaction servers json c name w).0) [
    | inr (e, failed) ↦ rw failed refl
    | inl (u', done) ↦ rw done refl
  ]

  send_signed-count :
      (name : Bytes) (tx : Transaction) (w : World)
      → (to_factomd_count
            (send_signed servers json c name tx
              (asked (codes "tmp-transactions") no_params w)).1.history
          ≡ to_factomd_count w.history)
        ⊎ (to_factomd_count
              (send_signed servers json c name tx
                (asked (codes "tmp-transactions") no_params w)).1.history
            ≡ to_factomd_count w.history + 1)
  unfolding send_signed compose_transaction forward ask asked and_then to_factomd_count
  send_signed-count name tx w =
      elim (Result-cases
        (compose_transaction servers json c name
          (asked (codes "tmp-transactions") no_params w)).0) [
            | inr (e, failed) ↦ inl (rw failed refl)
            | inl (result, made) ↦
                inr (rw made (delete-count name tx (forwarded (json.request result) name w) _))
          ]

  send_transaction-send_signed :
      (name : Bytes) (w : World) (tx : Transaction)
      → (get_tmp_transaction servers json c name w).0 ≡ ok tx
      → tx.is_signed ≡ true
      → send_transaction servers json c name w
        ≡ send_signed servers json c name tx (asked (codes "tmp-transactions") no_params w)
  unfolding send_transaction and_then get_tmp_transaction list_transactions_tmp ask
  send_transaction-send_signed name w tx found signed = rw found (simp signed)

  -- `SendTransaction` sends factomd nothing unless the wallet lists a signed transaction of the
  -- name, and then at most one request.
  pub send_transaction-signed_only :
      (name : Bytes) (w : World)
      → (to_factomd_count (send_transaction servers json c name w).1.history
          ≡ to_factomd_count w.history)
        ⊎ ((tx : Transaction) × IsListed name w tx
            × (tx.is_signed ≡ true)
            × (to_factomd_count (send_transaction servers json c name w).1.history
                ≡ to_factomd_count w.history + 1))
  unfolding send_transaction get_tmp_transaction list_transactions_tmp ask asked and_then
      to_factomd_count
  send_transaction-signed_only name w =
      elim (Result-cases (get_tmp_transaction servers json c name w).0) [
        | inr (e, failed) ↦ inl (rw failed refl)
        | inl (tx, found) ↦ elim (Bool-cases tx.is_signed) [
          | inr unsigned ↦ inl (rw (found, unsigned) refl)
          | inl signed ↦
              let run = send_transaction-send_signed name w tx found signed in
              let count = λ (r : Result Transaction × World). to_factomd_count r.1.history in
              elim (send_signed-count name tx w) [
                | inl none_sent ↦ inl (ap count run ∙ none_sent)
                | inr one_sent ↦
                    inr (
                      tx,
                      get_tmp_transaction-IsListed name w found,
                      signed,
                      ap count run ∙ one_sent,
                    )
              ]
        ]
      ]
