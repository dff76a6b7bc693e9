-- ===== src/WalletApi/Lock.antt =====
-- Unlocking an encrypted wallet (`handleWalletPassphrase` of wallet/wsapi/wsapi.go) and the test for
-- a locked one. The encrypted database is securedb's: a parameter with laws.
use factom.Base.{
  ℕ, ◌+◌, ◌*◌, ◌/◌, ◌^◌, ◌≡◌, refl, Bool, true, false, ◌&&◌, Option, none, some, arith, Bytes, ltb,
  leb, if◌then◌else◌, Result, ok, err, Error,
}
use factom.Base.{and_then, incorrect_passphrase, always_unlocked}
use factom.Base.Int.{ℤ, pos, ltb_ℤ, ◌*ℤ◌, wrap64}
use factom.WalletDatabase.{Overlay}
use factom.WalletDatabase.Seed.{Gob, get_or_create_db_seed}
use factom.WalletApi.Addresses.{read_params}

-- `wallet.NewEncryptedBoltDB` at the wallet's path, by a password, `Lock`, `UnlockFor`, at a time
-- and for a duration, both in nanoseconds, and `UnlockedUntil.Unix()`.
pub record SecureDb (DB : Type 0) : Type 0 where
  pub new_encrypted_db : Bytes → Result DB
  pub lock : DB → DB
  pub unlock_for : ℕ → Bytes → ℤ → DB → Result (Unit {0}) × DB
  pub unlocked_until : DB → ℤ

-- What securedb documents, by the test for the right password.
pub record IsSecureDb {DB : Type 0} (s : SecureDb DB) (right : Bytes → Bool) : Type 0 where
  pub new_encrypted_db-wrong :
      (password : Bytes)
      → right password ≡ false
      → (e : Error) × (s.new_encrypted_db password ≡ err e)
  -- a wrong password leaves the database as it is
  pub unlock_for-wrong :
      (now : ℕ) (password : Bytes) (d : ℤ) (db : DB)
      → right password ≡ false
      → (e : Error) × (s.unlock_for now password d db ≡ (err e, db))
  -- the right one unlocks it until the duration, if it is not negative, is over
  pub unlock_for-right :
      (now : ℕ) (password : Bytes) (d : ℕ) (db : DB)
      → right password ≡ true
      → ((s.unlock_for now password (pos d) db).0 ≡ ok tt)
        × (s.unlocked_until (s.unlock_for now password (pos d) db).1 ≡ pos ((now + d) / 10 ^ 9))

-- `passphraseRequest`
pub record PassphraseRequest : Type 0 where
  pub password : Bytes
  pub timeout : ℤ

-- `unlockResponse`
pub record UnlockResponse : Type 0 where
  pub success : Bool
  pub unlocked_until : ℤ

-- The timeout in seconds, at most 2^30.
unfoldable pub capped_timeout : ℤ → ℤ
capped_timeout t = if ltb_ℤ (pos 1073741824) t then pos 1073741824 else t

-- `time.Second*time.Duration(req.Timeout)`, an int64.
unfoldable pub duration_of : ℤ → ℤ
duration_of t = wrap64 (pos (10 ^ 9) *ℤ t)

module _ (store : Overlay) (gob : Gob) (secure : SecureDb store.DB) (mnemonic : Result Bytes)
    (encrypted : Bool) where
  -- The database that is opened now, unless it was before. It stays if its seed cannot be read or
  -- made.
  unfoldable pub open_postponed : Bytes → Option store.DB → Result store.DB × Option store.DB
  open_postponed password (some db) = (ok db, some db)
  open_postponed password none = elim (secure.new_encrypted_db password) [
    | err _ ↦ (err incorrect_passphrase, none)
    | ok db ↦
        let (seeded, db1) = get_or_create_db_seed store gob mnemonic db in
        elim seeded [
          | err e ↦ (err (Error.internal e), some db1)
          | ok _ ↦ (ok (secure.lock db1), some (secure.lock db1))
        ]
  ]

  -- `UnlockFor`, on the database that is there. One that is not encrypted is no `EncryptedDB`.
  unfoldable pub unlock_opened : ℕ → Bytes → ℤ → store.DB → Result UnlockResponse × Option store.DB
  unlock_opened now password timeout db = elim encrypted [
    | false ↦ (err (Error.internal always_unlocked), some db)
    | true ↦
        let (unlocked, db1) = secure.unlock_for now password (duration_of timeout) db in
        elim unlocked [
          | err _ ↦ (err incorrect_passphrase, some db1)
          | ok _ ↦
              (ok (record { success = true; unlocked_until = secure.unlocked_until db1 }), some db1)
        ]
  ]

  -- `handleWalletPassphrase`, at a time in nanoseconds, on the database, which may not be open yet.
  unfoldable pub handle_wallet_passphrase :
      ℕ → Result PassphraseRequest → Option store.DB → Result UnlockResponse × Option store.DB
  handle_wallet_passphrase now params overlay =
      and_then (read_params params, overlay)
        (λ req overlay1.
          and_then (open_postponed req.password overlay1)
            (λ db _. unlock_opened now req.password (capped_timeout req.timeout) db))

  -- The test of `handleV2Request` for a wallet that waits to be unlocked.
  unfoldable pub is_locked : ℕ → Option store.DB → Bool
  is_locked now overlay = encrypted && elim overlay as (λ _. Bool) [
    | none ↦ true
    | some db ↦ ltb_ℤ (secure.unlocked_until db) (pos (now / 10 ^ 9))
  ]

-- The seconds for which a timeout unlocks.
abbrev pub seconds_of : ℕ → ℕ
seconds_of t = if leb t (2 ^ 30) then t else 2 ^ 30

-- A timeout that is not negative is taken in full up to 2^30 seconds, and never overflows.
duration_of-capped_timeout :
    (t : ℕ) → duration_of (capped_timeout (pos t)) ≡ pos (10 ^ 9 * seconds_of t)
unfolding duration_of capped_timeout ◌*ℤ◌
duration_of-capped_timeout t = ground arith

-- The right passphrase on a database that is open.
unlock_opened-right :
    (store : Overlay) (gob : Gob) {secure : SecureDb store.DB} {right : Bytes → Bool}
    (mnemonic : Result Bytes) (laws : IsSecureDb secure right) (now t : ℕ) (password : Bytes)
    (db : store.DB)
    → right password ≡ true
    → (db1 : store.DB) × (unlock_opened store gob secure mnemonic true now password
          (capped_timeout (pos t))
          db
        ≡ (
          ok (record { success = true; unlocked_until = pos (now / 10 ^ 9 + seconds_of t) }),
          some db1,
        ))
      × (secure.unlocked_until db1 ≡ pos (now / 10 ^ 9 + seconds_of t))
unfolding unlock_opened
unlock_opened-right store gob {secure} mnemonic laws now t password db correct =
    let d = 10 ^ 9 * seconds_of t in
    let (opened, ends) = laws.unlock_for-right now password d db correct in
    let whole : (now + d) / 10 ^ 9 ≡ now / 10 ^ 9 + seconds_of t = omega arith in
    let ends' = rw whole at ends in
    (
      (secure.unlock_for now password (pos d) db).1,
      rw (unlock_opened, duration_of-capped_timeout t, opened, duration_of-capped_timeout t, ends')
          refl,
      ends',
    )

-- The right passphrase unlocks an encrypted wallet whose database is open, for the seconds that are
-- asked for, at most 2^30: the answer says until when, and the wallet is locked again exactly after
-- that second.
pub handle_wallet_passphrase-until :
    (store : Overlay) (gob : Gob) {secure : SecureDb store.DB} {right : Bytes → Bool}
    (mnemonic : Result Bytes) (laws : IsSecureDb secure right) (now t later : ℕ) (password : Bytes)
    (db : store.DB)
    → right password ≡ true
    → let until = now / 10 ^ 9 + seconds_of t in
      let r =
        handle_wallet_passphrase store gob secure mnemonic true now
          (ok (record { password = password; timeout = pos t }))
          (some db) in
      (r.0 ≡ ok (record { success = true; unlocked_until = pos until }))
      × (is_locked store gob secure mnemonic true later r.1 ≡ ltb until (later / 10 ^ 9))
unfolding handle_wallet_passphrase is_locked and_then read_params open_postponed
handle_wallet_passphrase-until store gob {secure} mnemonic laws now t later password db correct =
    let (db1, opened, ends) =
      unlock_opened-right store gob mnemonic laws now t password db correct in
    rw opened (refl, rw ends (ground arith))
