-- ===== src/Wallet/Signatures.antt =====
-- What `SignTransaction` signs, and with which keys.
use factom.Base.{
  ℕ, zero, suc, ◌+◌, ◌<◌, ◌≡◌, ◌≢◌, ◌⊎◌, ◌∙◌, inl, inr, refl, sym, ap, Bool, true, false, Option,
  some, List, [], ◌∷◌, arith, Bytes, bytes_eq, ◌==◌, if◌then◌else◌, Result, ok, err, Error,
}
use factom.Base.Dict.{lookup, insert, lookup-insert}
use factom.Base.{Result-cases, get_elem?, bytes_eq_refl}
use factom.Address.FactoidAddress.{FactoidAddress}
use factom.Wallet.Factoid.{Factoid}
use factom.Wallet.Transactions.{Sources, Txs}
use factom.Wallet.Frames.{get_transaction-found}
use factom.Wallet.Signing.{sign_rcds, sign_checked, check_transaction, sign_transaction}

-- The signature blocks of a transaction, by their indices: `SetSignatureBlock` sets one.
pub record HasSignatures (f : Factoid) (signatures : f.Tx → ℕ → Option Bytes) : Type 0 where
  pub signatures-set_signature :
      (tx : f.Tx) (i j : ℕ) (s : Bytes)
      → signatures (f.set_signature tx i s) j ≡ (if i == j then some s else signatures tx j)

List-cases : {A : Type 0} (l : List A) → (l ≡ []) ⊎ ((x : A) × (xs : List A) × (l ≡ x ∷ xs))
List-cases [] = inl refl
List-cases (x ∷ xs) = inr (x, xs, refl)

module _ {f : Factoid} {signatures : f.Tx → ℕ → Option Bytes} (laws : HasSignatures f signatures)
    (src : Sources) where
  set_here : (tx : f.Tx) (i : ℕ) (s : Bytes) → signatures (f.set_signature tx i s) i ≡ some s
  set_here tx i s =
      let same : (i == i) ≡ true = ground arith in rw (laws.signatures-set_signature tx i i s, same)

  set_elsewhere :
      (tx : f.Tx) (i j : ℕ) (s : Bytes)
      → j < i
      → signatures (f.set_signature tx i s) j ≡ signatures tx j
  set_elsewhere tx i j s lt =
      let other : (i == j) ≡ false = ground arith in
      rw (laws.signatures-set_signature tx i j s, other)

  -- One round of the loop.
  sign_rcds-step :
      (bytes : Bytes) (n : ℕ) (a : Bytes) (rcds : List (Result Bytes)) (tx : f.Tx)
      {fa : FactoidAddress}
      → src.get_fct_address (f.user_string a) ≡ ok fa
      → sign_rcds f src bytes n (ok a ∷ rcds) tx
        ≡ sign_rcds f src bytes
            (n + 1)
            rcds
            (f.set_signature tx n (f.new_signature fa.secret bytes))
  unfolding sign_rcds
  sign_rcds-step bytes n a rcds tx held = rw (sign_rcds, held) refl

  sign_rcds-stop :
      (bytes : Bytes) (n : ℕ) (a : Bytes) (rcds : List (Result Bytes)) (tx : f.Tx) {e : Error}
      → src.get_fct_address (f.user_string a) ≡ err e
      → sign_rcds f src bytes n (ok a ∷ rcds) tx ≡ (err e, tx)
  unfolding sign_rcds
  sign_rcds-stop bytes n a rcds tx failed = rw (sign_rcds, failed) refl

  -- The loop leaves the signatures before its index.
  sign_rcds-below :
      (bytes : Bytes) (n : ℕ) (rcds : List (Result Bytes)) (tx : f.Tx) (j : ℕ)
      → j < n
      → signatures (sign_rcds f src bytes n rcds tx).1 j ≡ signatures tx j
  unfolding sign_rcds
  sign_rcds-below bytes n [] tx j lt = refl
  sign_rcds-below bytes n (err e ∷ rcds) tx j lt = refl
  sign_rcds-below bytes n (ok a ∷ rcds) tx j lt =
      elim (Result-cases (src.get_fct_address (f.user_string a))) [
        | inr (e, failed) ↦ ap (λ r. signatures r.1 j) (sign_rcds-stop bytes n a rcds tx failed)
        | inl (fa, held) ↦
            let s = f.new_signature fa.secret bytes in
            ap (λ r. signatures r.1 j) (sign_rcds-step bytes n a rcds tx held)
            ∙ (sign_rcds-below bytes (n + 1) rcds (f.set_signature tx n s) j (omega arith)
                ∙ set_elsewhere tx n j s lt)
      ]

  -- What a signature is made from: the address of the RCD, whose key the wallet has.
  abbrev pub IsSignedBy : Bytes → Result Bytes → Option Bytes → Type 0
  IsSignedBy bytes rcd signature =
      (a : Bytes) × (fa : FactoidAddress) × (rcd ≡ ok a)
      × (src.get_fct_address (f.user_string a) ≡ ok fa)
      × (signature ≡ some (f.new_signature fa.secret bytes))

  failed_rcd :
      (e : Error) (rcds : List (Result Bytes)) (bytes : Bytes) (n : ℕ) (tx : f.Tx)
      → (sign_rcds f src bytes n (err e ∷ rcds) tx).0 ≢ ok tt
  unfolding sign_rcds
  failed_rcd e rcds bytes n tx h = cc

  sign_rcds-IsSignedBy :
      (bytes : Bytes) (n : ℕ) (rcds : List (Result Bytes)) (tx : f.Tx) (i : ℕ) {r : Result Bytes}
      → (sign_rcds f src bytes n rcds tx).0 ≡ ok tt
      → get_elem? rcds i ≡ some r
      → IsSignedBy bytes r (signatures (sign_rcds f src bytes n rcds tx).1 (n + i))
  sign_rcds-IsSignedBy bytes n [] tx i done at = cc
  sign_rcds-IsSignedBy bytes n (err e ∷ rcds) tx i done at =
      absurd (failed_rcd e rcds bytes n tx done)
  sign_rcds-IsSignedBy bytes n (ok a ∷ rcds) tx zero {r} done at =
      elim (Result-cases (src.get_fct_address (f.user_string a))) [
        | inr (e, failed) ↦
            let stopped : err e ≡ ok tt =
              ap (λ r. r.0) (sym (sign_rcds-stop bytes n a rcds tx failed)) ∙ done in
            cc
        | inl (fa, held) ↦
            let s = f.new_signature fa.secret bytes in
            let here : ok a ≡ r = cc in
            let first : n + 0 ≡ n = omega arith in
            let run = sign_rcds-step bytes n a rcds tx held in
            (
              a,
              fa,
              sym here,
              held,
              ap (λ x. signatures x.1 (n + 0)) run
                  ∙ (sign_rcds-below bytes (n + 1) rcds (f.set_signature tx n s) (n + 0)
                        (omega arith)
                      ∙ (ap (signatures (f.set_signature tx n s)) first ∙ set_here tx n s)),
            )
      ]
  sign_rcds-IsSignedBy bytes n (ok a ∷ rcds) tx (suc i) {r} done at =
      elim (Result-cases (src.get_fct_address (f.user_string a))) [
        | inr (e, failed) ↦
            let stopped : err e ≡ ok tt =
              ap (λ r. r.0) (sym (sign_rcds-stop bytes n a rcds tx failed)) ∙ done in
            cc
        | inl (fa, held) ↦
            let tx1 = f.set_signature tx n (f.new_signature fa.secret bytes) in
            let run = sign_rcds-step bytes n a rcds tx held in
            let (b, fb, is, owned, signed) =
              sign_rcds-IsSignedBy bytes (n + 1) rcds tx1 i (ap (λ x. x.0) (sym run) ∙ done) at in
            let up : n + suc i ≡ n + 1 + i = omega arith in
            (
              b,
              fb,
              is,
              owned,
              ap (λ x. signatures x.1 (n + suc i)) run
                  ∙ (ap (signatures (sign_rcds f src bytes (n + 1) rcds tx1).1) up ∙ signed),
            )
      ]

  -- The loop is what signs a transaction that is checked.
  sign_checked-rcds :
      (tx : f.Tx)
      → (sign_checked f src tx).0 ≡ ok tt
      → (bytes : Bytes) × (f.marshal_binary_sig tx ≡ ok bytes)
        × (sign_checked f src tx ≡ sign_rcds f src bytes 0 (f.rcd_addresses tx) tx)
  unfolding sign_checked
  sign_checked-rcds tx done = elim (Result-cases (f.marshal_binary_sig tx)) [
    | inr (e, failed) ↦ let stopped = rw (sign_checked, failed) at done in cc
    | inl (bytes, made) ↦ elim (List-cases (f.rcd_addresses tx)) [
      | inl nothing ↦ let stopped = rw (sign_checked, made, nothing) at done in cc
      | inr (r, rcds, listed) ↦ (bytes, made, rw (sign_checked, made, listed) refl)
    ]
  ]

  -- A transaction that the wallet has signed has, for each of its RCDs, at the RCD's index a
  -- signature of its bytes without signatures by the key that the wallet holds for the RCD's
  -- address; and all other transactions are as they were.
  pub sign_transaction-IsSignedBy :
      (name : Bytes) (force : Bool) (txs : Txs f) (tx : f.Tx) (i : ℕ) (other : Bytes) {txs' : Txs f}
      {r : Result Bytes}
      → lookup name txs ≡ some tx
      → get_elem? (f.rcd_addresses tx) i ≡ some r
      → bytes_eq name other ≡ false
      → sign_transaction f src name force txs ≡ (ok tt, txs')
      → (tx' : f.Tx) × (bytes : Bytes) × (lookup name txs' ≡ some tx')
        × (f.marshal_binary_sig tx ≡ ok bytes)
        × IsSignedBy bytes r (signatures tx' i)
        × (lookup other txs' ≡ lookup other txs)
  unfolding sign_transaction
  sign_transaction-IsSignedBy name force txs tx i other {txs'} found at elsewhere h =
      let h1 = rw (get_transaction-found f name txs found, sign_transaction) at h in
      elim (Result-cases (check_transaction f src force tx)) [
        | inr (e, failed) ↦ let h2 = rw failed at h1 in cc
        | inl (u, passed) ↦
            let h2 = rw passed at h1 in
            let done : (sign_checked f src tx).0 ≡ ok tt = ap (λ p. p.0) h2 in
            let stored : insert name (sign_checked f src tx).1 txs ≡ txs' = ap (λ p. p.1) h2 in
            let (bytes, made, run) = sign_checked-rcds tx done in
            let done' : (sign_rcds f src bytes 0 (f.rcd_addresses tx) tx).0 ≡ ok tt =
              ap (λ p. p.0) (sym run) ∙ done in
            let looped = (sign_rcds f src bytes 0 (f.rcd_addresses tx) tx).1 in
            let at_i : i ≡ 0 + i = omega arith in
            let (a, fa, is, held, signature) =
              sign_rcds-IsSignedBy bytes 0 (f.rcd_addresses tx) tx i done' at in
            (
              (sign_checked f src tx).1,
              bytes,
              rw (← stored, lookup-insert, bytes_eq_refl name),
              made,
              (
                a,
                fa,
                is,
                held,
                ap (λ x. signatures x.1 i) run ∙ (ap (signatures looped) at_i ∙ signature),
              ),
              rw (← stored, lookup-insert, elsewhere),
            )
      ]
