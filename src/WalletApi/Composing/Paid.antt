-- ===== src/WalletApi/Composing/Paid.antt =====
-- What an answer consists of that pays for a chain or an entry, and publishes it.
use factom.Base.{refl, ℕ, ◌≡◌, sym, ap, Bytes, codes, Result, ok, err}
use factom.Base.{internally, and_then-ok, ok-injective}
use factom.Base.Hex.{encode_to_string}
use factom.Crypto.{Crypto}
use factom.Address.EcAddress.{EcAddress}
use factom.Entry
use factom.Entry.{Entry}
use factom.Entry.Commit.{entry_commit_header, signed_by, compose_entry_commit, compose_entry_reveal}
use factom.Chain.{Chain, chain_commit_header, compose_chain_commit, compose_chain_reveal}
use factom.Rpc.Request.{
  api_counter, Params, new_json2_request, Json2Request, message_request, entry_request,
}
use factom.WalletApi.Addresses.{of_wallet}
use factom.WalletApi.Composing.{EntryResponse, compose_chain, compose_entry}

-- An answer that pays for a chain by an address, and publishes it.
pub record PaysForChain (c : Crypto) (now : ℕ) (chain : Chain) (ec : EcAddress) (r : EntryResponse)
    : Type 0 where
  pub header : Bytes
  pub composed : chain_commit_header c now chain ≡ ok header
  pub commit_method : r.commit.method ≡ codes "commit-chain"
  pub commit_params : r.commit.params ≡ message_request (encode_to_string (signed_by c ec header))
  pub body : Bytes
  pub marshalled : Entry.marshal_binary chain.first_entry ≡ ok body
  pub reveal_method : r.reveal.method ≡ codes "reveal-chain"
  pub reveal_params : r.reveal.params ≡ entry_request (encode_to_string body)

-- An answer that pays for an entry by an address, and publishes it.
pub record PaysForEntry (c : Crypto) (now : ℕ) (e : Entry) (ec : EcAddress) (r : EntryResponse)
    : Type 0 where
  pub header : Bytes
  pub composed : entry_commit_header c now e ≡ ok header
  pub commit_method : r.commit.method ≡ codes "commit-entry"
  pub commit_params : r.commit.params ≡ message_request (encode_to_string (signed_by c ec header))
  pub body : Bytes
  pub marshalled : Entry.marshal_binary e ≡ ok body
  pub reveal_method : r.reveal.method ≡ codes "reveal-entry"
  pub reveal_params : r.reveal.params ≡ entry_request (encode_to_string body)

-- An error that becomes an internal error is still an error.
pub internally-eq-ok : {A : Type 0} (r : Result A) {a : A} → internally r ≡ ok a → r ≡ ok a
unfolding internally
internally-eq-ok (ok a) h = h
internally-eq-ok (err e) h = cc

of_wallet-eq-ok : {A S : Type 0} (r : Result A × S) {a : A} → (of_wallet r).0 ≡ ok a → r.0 ≡ ok a
unfolding of_wallet
of_wallet-eq-ok r h = internally-eq-ok r.0 h

-- The request that a composed message or body is sent with.
request_of :
    (made : Result Bytes) (method : Bytes) (wrap : Bytes → Params) (count : ℕ) {q : Json2Request}
    → (let id = api_counter count in
        elim made as (λ _. Result Json2Request × ℕ) [
          | err x ↦ (err x, count)
          | ok b ↦ (ok (new_json2_request method id (wrap b)), id)
        ]).0
      ≡ ok q
    → (b : Bytes) × (made ≡ ok b) × (q.method ≡ method) × (q.params ≡ wrap b)
unfolding new_json2_request
request_of (err x) method wrap count h = cc
request_of (ok b) method wrap count h =
    let q = ok-injective h in (b, refl, ap (λ x. x.method) (sym q), ap (λ x. x.params) (sym q))

compose_chain_commit-eq-ok :
    (c : Crypto) (now count : ℕ) (chain : Chain) (ec : EcAddress) {q : Json2Request}
    → (compose_chain_commit c now count chain ec).0 ≡ ok q
    → (header : Bytes) × (chain_commit_header c now chain ≡ ok header)
      × (q.method ≡ codes "commit-chain")
      × (q.params ≡ message_request (encode_to_string (signed_by c ec header)))
unfolding compose_chain_commit
compose_chain_commit-eq-ok c now count chain ec h =
    request_of (chain_commit_header c now chain) _
      (λ header. message_request (encode_to_string (signed_by c ec header))) count h

compose_entry_commit-eq-ok :
    (c : Crypto) (now count : ℕ) (e : Entry) (ec : EcAddress) {q : Json2Request}
    → (compose_entry_commit c now count e ec).0 ≡ ok q
    → (header : Bytes) × (entry_commit_header c now e ≡ ok header)
      × (q.method ≡ codes "commit-entry")
      × (q.params ≡ message_request (encode_to_string (signed_by c ec header)))
unfolding compose_entry_commit
compose_entry_commit-eq-ok c now count e ec h =
    request_of (entry_commit_header c now e) _
      (λ header. message_request (encode_to_string (signed_by c ec header))) count h

compose_chain_reveal-eq-ok :
    (count : ℕ) (chain : Chain) {q : Json2Request}
    → (compose_chain_reveal count chain).0 ≡ ok q
    → (body : Bytes) × (Entry.marshal_binary chain.first_entry ≡ ok body)
      × (q.method ≡ codes "reveal-chain")
      × (q.params ≡ entry_request (encode_to_string body))
unfolding compose_chain_reveal
compose_chain_reveal-eq-ok count chain h =
    request_of (Entry.marshal_binary chain.first_entry) _
      (λ body. entry_request (encode_to_string body)) count h

compose_entry_reveal-eq-ok :
    (count : ℕ) (e : Entry) {q : Json2Request}
    → (compose_entry_reveal count e).0 ≡ ok q
    → (body : Bytes) × (Entry.marshal_binary e ≡ ok body)
      × (q.method ≡ codes "reveal-entry")
      × (q.params ≡ entry_request (encode_to_string body))
unfolding compose_entry_reveal
compose_entry_reveal-eq-ok count e h =
    request_of (Entry.marshal_binary e) _ (λ body. entry_request (encode_to_string body)) count h

pub compose_chain-PaysForChain :
    (c : Crypto) (now : ℕ) (chain : Chain) (ec : EcAddress) (count : ℕ) {r : EntryResponse}
    → (compose_chain c now chain ec count).0 ≡ ok r
    → PaysForChain c now chain ec r
unfolding compose_chain
compose_chain-PaysForChain c now chain ec count {r} h =
    let (commit, paid, next) =
      and_then-ok (of_wallet (compose_chain_commit c now count chain ec)) _ h in
    let h1 = rw next at h in
    let (reveal, shown, last) = and_then-ok (of_wallet (compose_chain_reveal _ chain)) _ h1 in
    let made = ok-injective (rw last at h1) in
    let (header, composed, m, p) =
      compose_chain_commit-eq-ok c now count chain ec (of_wallet-eq-ok _ paid) in
    let (body, marshalled, m', p') = compose_chain_reveal-eq-ok _ chain (of_wallet-eq-ok _ shown) in
    rw (← made) (record {
      header = header;
      composed = composed;
      commit_method = m;
      commit_params = p;
      body = body;
      marshalled = marshalled;
      reveal_method = m';
      reveal_params = p';
    })

pub compose_entry-PaysForEntry :
    (c : Crypto) (now : ℕ) (e : Entry) (ec : EcAddress) (count : ℕ) {r : EntryResponse}
    → (compose_entry c now e ec count).0 ≡ ok r
    → PaysForEntry c now e ec r
unfolding compose_entry
compose_entry-PaysForEntry c now e ec count {r} h =
    let (commit, paid, next) =
      and_then-ok (of_wallet (compose_entry_commit c now count e ec)) _ h in
    let h1 = rw next at h in
    let (reveal, shown, last) = and_then-ok (of_wallet (compose_entry_reveal _ e)) _ h1 in
    let made = ok-injective (rw last at h1) in
    let (header, composed, m, p) =
      compose_entry_commit-eq-ok c now count e ec (of_wallet-eq-ok _ paid) in
    let (body, marshalled, m', p') = compose_entry_reveal-eq-ok _ e (of_wallet-eq-ok _ shown) in
    rw (← made) (record {
      header = header;
      composed = composed;
      commit_method = m;
      commit_params = p;
      body = body;
      marshalled = marshalled;
      reveal_method = m';
      reveal_params = p';
    })
