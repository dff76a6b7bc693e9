-- ===== src/WalletApi/Dispatch/Locked.antt =====
-- What happens to a locked wallet.
use factom.Base.{
  sym, ap, ℕ, ◌≤◌, ◌≡◌, ◌∙◌, inl, inr, refl, Bool, true, false, Option, none, some, List, arith,
  Bytes, Result, ok, err, Bool-cases, Option-cases,
}
use factom.Base.{wallet_is_locked, and_then}
use factom.WalletApi.Addresses.{read_params}
use factom.WalletApi.Lock.{
  IsSecureDb, PassphraseRequest, handle_wallet_passphrase, duration_of, capped_timeout, is_locked,
  open_postponed, unlock_opened,
}
use factom.Rpc.Transactions.{Transaction}
use factom.WalletApi.Dispatch.{Env, Response}
use factom.WalletApi.Dispatch.Methods.{
  Method, method_of, is_open, is_open_name, get_height_method, properties_method,
  transactions_method, unlock_wallet_method,
}
use factom.WalletApi.Dispatch.State.{
  Call, WalletState, Served, read_from, serve_height, serve_properties, serve_transactions,
  serve_unlock, with_cache,
}
use factom.WalletApi.Dispatch.Serve.{serve, serve_locked}

module _ (env : Env) (right : Bytes → Bool) where
  -- The passphrase in a call, if there is one, is wrong.
  abbrev pub IsWrong : Call → Type 0
  IsWrong call =
      (req : PassphraseRequest)
      → read_from env.readers.passphrase call.params ≡ ok req
      → right req.password ≡ false

  -- The states that calls with wrong passphrases lead to, from a time on.
  pub data Reaches (from : ℕ) (s : WalletState env) : WalletState env → Type 0 where
    start : Reaches from s s
    step :
        {t u : WalletState env} {answer : Result Response}
        → Reaches from s t
        → (call : Call) → from ≤ call.now
        → IsWrong call
        → serve env call t ≡ some (answer, u)
        → Reaches from s u

  abbrev IsLocked : ℕ → WalletState env → Type 0
  IsLocked now s =
      is_locked env.store env.gob env.secure env.mnemonic env.encrypted now s.overlay ≡ true

  -- A wallet that is locked is locked later.
  later-IsLocked :
      (from now : ℕ) (s : WalletState env) → from ≤ now → IsLocked from s → IsLocked now s
  unfolding is_locked
  later-IsLocked from now s le locked = elim (Bool-cases env.encrypted) [
    | inr off ↦ let failed : false ≡ true = rw (off, is_locked) at locked in cc
    | inl on ↦ elim (Option-cases s.overlay) [
      | inl unopened ↦ rw (on, unopened) refl
      | inr (db, opened) ↦
          let before = rw (is_locked, on, opened) at locked in rw (on, opened) (ground arith)
    ]
  ]

  module _ (laws : IsSecureDb env.secure right) where
    -- A wrong passphrase leaves the database of an encrypted wallet as it is.
    wrong_passphrase :
        (now : ℕ) (params : Result PassphraseRequest) (overlay : Option env.store.DB)
        → env.encrypted ≡ true
        → ((req : PassphraseRequest) → params ≡ ok req → right req.password ≡ false)
        → (handle_wallet_passphrase env.store env.gob env.secure env.mnemonic env.encrypted now
            params overlay).1
          ≡ overlay
    unfolding handle_wallet_passphrase and_then read_params open_postponed unlock_opened
    wrong_passphrase now (err e) overlay on wrong = refl
    wrong_passphrase now (ok req) none on wrong =
        let (e, refused) = laws.new_encrypted_db-wrong req.password (wrong req refl) in
        rw (open_postponed, refused) refl
    wrong_passphrase now (ok req) (some db) on wrong =
        let (e, refused) =
          laws.unlock_for-wrong now req.password (duration_of (capped_timeout req.timeout)) db
            (wrong req refl) in
        rw (on, unlock_opened, refused, refused) refl

    -- What a query of the cache leaves as it was.
    with_cache_stays :
        (t : WalletState env) (r : Option (Result (List Transaction) × Option env.api.DB) × ℕ)
        {answer : Result Response} {u : WalletState env}
        → with_cache env t r ≡ some (answer, u)
        → (u.overlay ≡ t.overlay) × (u.transactions ≡ t.transactions)
    unfolding with_cache
    with_cache_stays t (none, n) h = cc
    with_cache_stays t (some (shown, cache), n) {answer} {u} h =
        let same : record t { cache = cache; count = n } ≡ u = cc in
        (ap (λ x. x.overlay) (sym same), ap (λ x. x.transactions) (sym same))

    -- An answer without a change.
    answered_stays :
        {t u : WalletState env} {r answer : Result Response}
        → ◌≡◌ {A = Option (Served env)} (some (r, t)) (some (answer, u))
        → (u.overlay ≡ t.overlay) × (u.transactions ≡ t.transactions)
    answered_stays {t} {u} h =
        let same : t ≡ u = cc in
        (ap (λ x. x.overlay) (sym same), ap (λ x. x.transactions) (sym same))

    -- A call to a locked wallet.
    serve_locked_stays :
        (m : Option Method) (call : Call) (t : WalletState env) {answer : Result Response}
        {u : WalletState env}
        → env.encrypted ≡ true
        → IsWrong call
        → serve_locked env call.now m call.params t ≡ some (answer, u)
        → (u.overlay ≡ t.overlay) × (u.transactions ≡ t.transactions)
    unfolding serve_locked serve_height serve_properties serve_unlock serve_transactions
    serve_locked_stays (some transactions_method) call t on wrong h = with_cache_stays t _ h
    serve_locked_stays (some unlock_wallet_method) call t {answer} {u} on wrong h =
        let params = read_from env.readers.passphrase call.params in
        let kept = wrong_passphrase call.now params t.overlay on wrong in
        let opened =
          handle_wallet_passphrase env.store env.gob env.secure env.mnemonic env.encrypted call.now
            params t.overlay in
        let same : record t { overlay = opened.1 } ≡ u = cc in
        (ap (λ x. x.overlay) (sym same) ∙ kept, ap (λ x. x.transactions) (sym same))
    serve_locked_stays none call t on wrong h = answered_stays h
    serve_locked_stays (some _) call t on wrong h = answered_stays h

    -- A method that is not open.
    refused :
        (m : Option Method) (call : Call) (t : WalletState env)
        → elim m as (λ _. Bool) [ none ↦ false | some x ↦ is_open x ] ≡ false
        → serve_locked env call.now m call.params t ≡ some (err wallet_is_locked, t)
    unfolding serve_locked is_open
    refused none call t closed = refl
    refused (some get_height_method) call t closed = cc
    refused (some properties_method) call t closed = cc
    refused (some transactions_method) call t closed = cc
    refused (some unlock_wallet_method) call t closed = cc
    refused (some _) call t closed = refl

    -- A state with the database of a locked one is locked.
    still-IsLocked :
        (s : WalletState env) (now : ℕ) (t : WalletState env)
        → t.overlay ≡ s.overlay
        → IsLocked now s
        → IsLocked now t
    still-IsLocked s now t kept locked = rw kept locked

    IsLocked-encrypted : (now : ℕ) (s : WalletState env) → IsLocked now s → env.encrypted ≡ true
    unfolding is_locked
    IsLocked-encrypted now s locked = elim (Bool-cases env.encrypted) [
      | inl on ↦ on
      | inr off ↦ let failed : false ≡ true = rw (off, is_locked) at locked in cc
    ]

    reached_keeps :
        (from : ℕ) {s t : WalletState env}
        → IsLocked from s
        → Reaches from s t
        → (t.overlay ≡ s.overlay) × (t.transactions ≡ s.transactions)
    unfolding serve
    reached_keeps from locked start = (refl, refl)
    reached_keeps from {s} locked (step {t} {u} reached call le wrong h) =
        let (kept, kept') = reached_keeps from locked reached in
        let held = still-IsLocked s call.now t kept (later-IsLocked from call.now s le locked) in
        let served = rw (serve, held) at h in
        let (same, same') =
          serve_locked_stays (method_of call.method) call t (IsLocked-encrypted from s locked) wrong
            served in
        (same ∙ kept, same' ∙ kept')

    -- Whatever is called with wrong passphrases, a locked wallet keeps its database, open or not, and
    -- its temporary transactions, and then answers every method but the four that are open by the
    -- error that it is locked, and changes nothing.
    pub Reaches-locked :
        (from : ℕ) {s t : WalletState env} (call : Call)
        → IsLocked from s
        → Reaches from s t
        → from ≤ call.now
        → is_open_name call.method ≡ false
        → (t.overlay ≡ s.overlay)
          × (t.transactions ≡ s.transactions)
          × (serve env call t ≡ some (err wallet_is_locked, t))
    unfolding serve is_open_name
    Reaches-locked from {s} {t} call locked reached le closed =
        let (kept, kept') = reached_keeps from locked reached in
        let held = still-IsLocked s call.now t kept (later-IsLocked from call.now s le locked) in
        (kept, kept', rw (serve, held) (refused (method_of call.method) call t closed))
