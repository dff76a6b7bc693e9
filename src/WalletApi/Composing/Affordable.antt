-- ===== src/WalletApi/Composing/Affordable.antt =====
-- What the handlers that compose requests check: a chain must be new and paid for; the balance that
-- an entry needs has no effect.
use factom.Base.{
  Result-cases, err, Error, ℕ, ◌+◌, ◌≡◌, ◌∙◌, inl, inr, refl, sym, ap, Bool, true, false, some,
  List, arith, Bytes, Result, ok, Option-cases,
}
use factom.Base.{fail_if-eq-ok, and_then, internally, >>=-eq-ok, and_then-ok}
use factom.Base.Int.{ℤ, pos, ltb_ℤ, ◌+ℤ◌, ◌≤ℤ◌}
use factom.Crypto.{Crypto}
use factom.Address.EcAddress.{EcAddress}
use factom.Entry.{Entry}
use factom.Entry.Cost.{entry_cost}
use factom.Chain.{Chain, new_chain}
use factom.Identity.Chains.{new_identity_chain}
use factom.Rpc.Request.{Json2Request}
use factom.Rpc.Client.{
  Json2Response, Unmarshal, get_chain_head_and_status, get_ec_balance, chain_exists, call,
}
use factom.WalletDatabase.{Overlay}
use factom.WalletDatabase.Tables.{get_ec_address}
use factom.WalletApi.Addresses.{read_params, of_wallet}
use factom.WalletApi.Composing.{
  ChainRequest, EntryRequest, EntryResponse, check_chain, check_cost, check_entry, compose_chain,
  compose_entry, discard, handle_compose_chain, handle_compose_entry,
}
use factom.WalletApi.Composing.Identities.{IdentityChainRequest, handle_compose_identity_chain}
use factom.WalletApi.Composing.Paid.{PaysForChain, internally-eq-ok, compose_chain-PaysForChain}

-- A cost that a balance covers.
check_cost-eq-ok :
    (surcharge : ℕ) (e : Entry) (balance : ℤ)
    → check_cost surcharge e balance ≡ ok tt
    → (cost : ℤ) × (entry_cost e ≡ ok cost) × (cost +ℤ pos surcharge ≤ℤ balance)
unfolding check_cost
check_cost-eq-ok surcharge e balance h =
    let (cost, priced, covered) = >>=-eq-ok (internally (entry_cost e)) _ h in
    let enough = fail_if-eq-ok (ltb_ℤ balance (cost +ℤ pos surcharge)) _ covered in
    (cost, internally-eq-ok (entry_cost e) priced, ground arith)

-- A call takes one number from the counter.
get_ec_balance-count :
    (factomd_request : Json2Request → Result Json2Response) (json : Unmarshal) (addr : Bytes)
    (count : ℕ)
    → (get_ec_balance factomd_request json addr count).1 ≡ count + 1
unfolding get_ec_balance call
get_ec_balance-count factomd_request json addr count = refl

chain_exists-count :
    (factomd_request : Json2Request → Result Json2Response) (json : Unmarshal) (id : Bytes)
    (count : ℕ)
    → (chain_exists factomd_request json id count).1 ≡ count + 1
unfolding chain_exists get_chain_head_and_status call
chain_exists-count factomd_request json id count = refl

module _ (factomd_request : Json2Request → Result Json2Response) (json : Unmarshal) where
  -- What factomd has answered before a chain is composed that is not forced: a balance that covers
  -- the entry and ten credits; and then the question for the chain's head has failed, whatever the
  -- error was.
  pub record IsAffordable (ecpub : Bytes) (chain : Chain) (count : ℕ) : Type 0 where
    pub balance : ℤ
    pub cost : ℤ
    pub answered : (get_ec_balance factomd_request json ecpub count).0 ≡ ok balance
    pub priced : entry_cost chain.first_entry ≡ ok cost
    pub covered : cost +ℤ pos 10 ≤ℤ balance
    pub refusal : Error
    pub headless :
        (get_chain_head_and_status factomd_request json chain.chain_id (count + 1)).0 ≡ err refusal

  chain_exists-refused :
      (id : Bytes) (count : ℕ)
      → (chain_exists factomd_request json id count).0 ≡ false
      → (e : Error) × ((get_chain_head_and_status factomd_request json id count).0 ≡ err e)
  unfolding chain_exists
  chain_exists-refused id count h =
      elim (Result-cases (get_chain_head_and_status factomd_request json id count).0) [
        | inl (head, found) ↦ let there = rw (found, chain_exists) at h in cc
        | inr failed ↦ failed
      ]

  check_chain-IsAffordable :
      (ecpub : Bytes) (chain : Chain) (count : ℕ)
      → (check_chain factomd_request json false ecpub chain count).0 ≡ ok tt
      → IsAffordable ecpub chain count
  unfolding check_chain get_ec_balance call of_wallet
  check_chain-IsAffordable ecpub chain count h =
      let asked = of_wallet (get_ec_balance factomd_request json ecpub count) in
      let (balance, answered, next) = and_then-ok asked _ h in
      let h1 = rw next at h in
      let (_, checked, next1) =
        and_then-ok (check_cost 10 chain.first_entry balance, asked.1) _ h1 in
      let (cost, priced, covered) = check_cost-eq-ok 10 chain.first_entry balance checked in
      let refused =
        chain_exists-refused chain.chain_id (count + 1) (fail_if-eq-ok _ _ (rw next1 at h1)) in
      record {
        balance = balance;
        cost = cost;
        answered = internally-eq-ok _ answered;
        priced = priced;
        covered = covered;
        refusal = refused.0;
        headless = refused.1;
      }

  module _ (store : Overlay) (c : Crypto) (now : ℕ) (db : store.DB) where
    -- What follows a chain that is made.
    checked-PaysForChain :
        (force : Bool) (ecpub : Bytes) (chain : Chain) (ec : EcAddress) (count : ℕ)
        {r : EntryResponse}
        → force ≡ false
        → (and_then
            (check_chain factomd_request json force ecpub chain count)
            (λ _ n. compose_chain c now chain ec n)).0
          ≡ ok r
        → PaysForChain c now chain ec r × IsAffordable ecpub chain count
    checked-PaysForChain force ecpub chain ec count free h =
        let checks = check_chain factomd_request json force ecpub chain count in
        let (_, passed, next) = and_then-ok checks _ h in
        (
          compose_chain-PaysForChain c now chain ec checks.1 (rw next at h),
          check_chain-IsAffordable ecpub chain count (
              ap (λ b. (check_chain factomd_request json b ecpub chain count).0) (sym free)
              ∙ passed),
        )

    -- A chain that compose-chain answers, unless forced, is the chain of the first entry, paid for by
    -- the address of the wallet, and factomd has answered a balance that covers it and ten credits,
    -- and then no head of the chain: the question for it has failed.
    pub handle_compose_chain-PaysForChain :
        (req : ChainRequest) (count : ℕ) {r : EntryResponse}
        → req.force ≡ false
        → (handle_compose_chain factomd_request json store c now db (ok req) count).0 ≡ ok r
        → (e : Entry) × (ec : EcAddress) × (req.first_entry ≡ some e)
          × (get_ec_address store c req.ec_pub db ≡ ok ec)
          × PaysForChain c now (new_chain c e) ec r
          × IsAffordable req.ec_pub (new_chain c e) count
    unfolding handle_compose_chain read_params and_then
    handle_compose_chain-PaysForChain req count free h = elim (Option-cases req.first_entry) [
      | inl missing ↦ let failed = rw missing at h in cc
      | inr (e, given) ↦
          let h1 = rw given at h in
          let (ec, held, next) =
            and_then-ok (internally (get_ec_address store c req.ec_pub db), count) _ h1 in
          let (pays, affordable) =
            checked-PaysForChain req.force req.ec_pub (new_chain c e) ec count free
              (rw next at h1) in
          (e, ec, given, internally-eq-ok _ held, pays, affordable)
    ]

    -- A chain that compose-identity-chain answers, unless forced, is the chain of the new identity,
    -- paid for by the address of the wallet, and factomd has answered a balance that covers it and
    -- ten credits, and then no head of the chain: the question for it has failed.
    handle_compose_identity_chain-PaysForChain :
        (keys_json : List Bytes → Bytes) (req : IdentityChainRequest) (count : ℕ)
        {r : EntryResponse}
        → req.force ≡ false
        → (handle_compose_identity_chain factomd_request json store c now db keys_json
            (ok req)
            count).0
          ≡ ok r
        → (chain : Chain) × (ec : EcAddress) × (new_identity_chain c keys_json req.name req.pub_keys
            ≡ ok chain)
          × (get_ec_address store c req.ec_pub db ≡ ok ec)
          × PaysForChain c now chain ec r
          × IsAffordable req.ec_pub chain count
    unfolding handle_compose_identity_chain read_params and_then
    handle_compose_identity_chain-PaysForChain keys_json req count free h =
        let (ec, held, next) =
          and_then-ok (internally (get_ec_address store c req.ec_pub db), count) _ h in
        let h1 = rw next at h in
        let (chain, made, next1) =
          and_then-ok (internally (new_identity_chain c keys_json req.name req.pub_keys), count) _
            h1 in
        let (pays, affordable) =
          checked-PaysForChain req.force req.ec_pub chain ec count free (rw next1 at h1) in
        (chain, ec, internally-eq-ok _ made, internally-eq-ok _ held, pays, affordable)

    -- Whatever balance factomd answers, an entry whose chain there is is composed as if forced: the
    -- balance is asked for, and has no effect.
    pub handle_compose_entry-balance :
        (req : EntryRequest) (count : ℕ) {balance : ℤ} {ec : EcAddress}
        → req.force ≡ false
        → get_ec_address store c req.ec_pub db ≡ ok ec
        → (get_ec_balance factomd_request json req.ec_pub count).0 ≡ ok balance
        → (chain_exists factomd_request json req.entry.chain_id (count + 1)).0 ≡ true
        → handle_compose_entry factomd_request json store c now db (ok req) count
          ≡ compose_entry c now req.entry ec (count + 2)
    unfolding handle_compose_entry read_params and_then internally check_entry of_wallet discard
    handle_compose_entry-balance req count {balance} {ec} free held answered there =
        rw
          (
            free,
            held,
            answered,
            get_ec_balance-count factomd_request json req.ec_pub count,
            there,
            chain_exists-count factomd_request json req.entry.chain_id (count + 1),
          )
          (ap (compose_entry c now req.entry ec) (omega arith))
