-- ===== src/Tests/Serving.antt =====
-- A server with an encrypted wallet, whose database is the second until which it is unlocked.
use factom.Base.{
  ok-injective, ◌⊎◌, ap, ℕ, zero, suc, ◌+◌, ◌-◌, ◌*◌, ◌/◌, ◌%◌, ◌^◌, ◌≤◌, ◌<◌, ◌≡◌, ◌≢◌, ◌↔◌, ◌∙◌,
  inl, inr, refl, sym, Bool, true, false, not, ◌&&◌, ◌||◌, Option, none, some, List, [], ◌∷◌, ◌++◌,
  map, append_assoc, append-nil, arith, Bytes, codes, length, take, drop, replicate, copy, bytes_eq,
  ltb, leb, ◌==◌, if◌then◌else◌, Result, ok, err, Error, ◌>>=◌, ◌>>◌, fail_if, All, IsByte,
  Bool-cases, Option-cases, length-append,
}
use factom.Base.Int.{ℤ, pos, negsuc}
use factom.WalletDatabase.{Overlay}
use factom.WalletApi.Lock.{
  SecureDb, IsSecureDb, PassphraseRequest, handle_wallet_passphrase, handle_wallet_passphrase-until,
  is_locked, seconds_of,
}
use factom.WalletApi.Dispatch.{Env, Readers, Response}
use factom.WalletApi.Dispatch.State.{Call, WalletState, read_from}
use factom.WalletApi.Dispatch.Methods.{is_open_name}
use factom.WalletApi.Dispatch.Serve.{serve}
use factom.WalletApi.Dispatch.Locked.{start, step, IsWrong, Reaches-locked}
use factom.WalletApi.Http.{
  Access, HttpRequest, HttpAnswer, unauthorized_answer, handle_v2, handle_v2-authorized,
  http_basic_auth,
}
use factom.Tests.{toy_crypto, seed}
use factom.Tests.Wallets.{toy_factoid}
use factom.Tests.Answering.{toy_view}
use factom.Tests.Caching.{toy_api, toy_node}
use factom.Tests.Reading.{node}
use factom.Tests.Storing.{toy_gob, toy_bip, words}
use factom.Tests.Composing.{factomd_with, answers}

abbrev timed_store : Overlay
timed_store = record {
  DB = ℤ;
  get = λ db b k. ok (some seed);
  put = λ db b k x. (ok tt, db);
  delete = λ db b k. (ok tt, db);
  fetch_all = λ db b. ok [];
}

abbrev is_right : Bytes → Bool
is_right password = bytes_eq password (codes "secret")

abbrev end_of : ℕ → ℤ → ℤ
end_of now (pos d) = pos ((now + d) / 10 ^ 9)
end_of now (negsuc d) = pos 0

abbrev toy_secure : SecureDb ℤ
toy_secure = record {
  new_encrypted_db = λ p. if is_right p then ok (pos 0) else err Error.hex_byte;
  lock = λ db. pos 0;
  unlock_for = λ now p d db. if is_right p then (ok tt, end_of now d) else (err Error.hex_byte, db);
  unlocked_until = λ db. db;
}

toy_secure-IsSecureDb : IsSecureDb toy_secure is_right
toy_secure-IsSecureDb = record {
  new_encrypted_db-wrong = λ p wrong. (Error.hex_byte, rw wrong refl);
  unlock_for-wrong = λ now p d db wrong. (Error.hex_byte, rw wrong refl);
  unlock_for-right = λ now p d db correct. (rw correct refl, rw correct refl);
}

secret_is_right : is_right (codes "secret") ≡ true
unfolding bytes_eq
secret_is_right = refl

handle_wallet_passphrase-until_example :
    let r =
      handle_wallet_passphrase timed_store toy_gob toy_secure words true 3000000000
        (ok (record { password = codes "secret"; timeout = pos 60 }))
        (some (pos 0)) in
    (r.0 ≡ ok (record { success = true; unlocked_until = pos 63 }))
    × (is_locked timed_store toy_gob toy_secure words true 64000000000 r.1 ≡ true)
handle_wallet_passphrase-until_example =
    handle_wallet_passphrase-until timed_store toy_gob words toy_secure-IsSecureDb 3000000000 60
      64000000000 (codes "secret") (pos 0) secret_is_right

abbrev refuse : {A : Type 0} → Bytes → Result A
refuse b = err Error.hex_byte

-- A passphrase is read with a timeout of one minute.
abbrev toy_readers : Readers
toy_readers = record {
  address = λ b. ok b;
  addresses = refuse;
  words = refuse;
  passphrase = λ b. ok (record { password = b; timeout = pos 60 });
  txdb = refuse;
  transaction = refuse;
  transaction_value = refuse;
  transaction_address = refuse;
  chain = refuse;
  entry = refuse;
  public_key = refuse;
  secrets = refuse;
  active_keys = refuse;
  identity_chain = refuse;
  key_replacement = refuse;
  attribute = refuse;
  endorsement = refuse;
}

abbrev toy_env : Env
toy_env = record {
  encrypted = true;
  version = codes "v1";
  api_version = codes "2.0";
  store = timed_store;
  gob = toy_gob;
  secure = toy_secure;
  crypto = toy_crypto;
  bip = toy_bip;
  mnemonic = words;
  factoid = toy_factoid;
  view = toy_view;
  api = toy_api;
  tx_of = λ tx. toy_factoid.new_tx 0;
  readers = toy_readers;
  keys_json = λ keys. [];
  attributes_json = λ attributes. ok [];
  initial_keys = λ b. none;
  beyond = λ bits. pos 0;
  read_balances = refuse;
  factomd_request = factomd_with true;
  json = answers (pos 0);
  balance_of = λ a. ok (pos 0);
  rate = ok 1;
  node = toy_node;
  reader = node;
  heights = ok (pos 7);
  post = λ url body. none;
  server = codes "localhost:8088";
  quit = λ n. false;
  cache_fuel = 10;
  chain_fuel = 3;
}

abbrev locked_state : WalletState toy_env
locked_state = record { overlay = none; transactions = []; cache = none; count = 0 }

abbrev guess : Call
guess = record { now = 5000000000; method = codes "unlock-wallet"; params = some (codes "guess") }

guess-IsWrong : IsWrong toy_env is_right guess
unfolding read_from bytes_eq
guess-IsWrong req h = let same : _ ≡ req = ok-injective h in rw (← ap (λ r. r.password) same) refl

guessed :
    (answer : Result Response) × (serve toy_env guess locked_state ≡ some (answer, locked_state))
unfolding serve is_locked factom.WalletApi.Dispatch.Serve.serve_locked
    factom.WalletApi.Dispatch.Methods.method_of factom.Base.Dict.lookup
    factom.WalletApi.Dispatch.Methods.methods bytes_eq factom.WalletApi.Dispatch.State.serve_unlock
    handle_wallet_passphrase factom.Base.and_then factom.WalletApi.Addresses.read_params read_from
    factom.WalletApi.Lock.open_postponed
guessed = (_, refl)

starts_locked :
    is_locked timed_store toy_gob toy_secure words true 4000000000 locked_state.overlay ≡ true
unfolding is_locked
starts_locked = refl

abbrev backup : Call
backup = record { now = 6000000000; method = codes "wallet-backup"; params = none }

backup_closed : is_open_name backup.method ≡ false
unfolding is_open_name factom.WalletApi.Dispatch.Methods.method_of factom.Base.Dict.lookup
    factom.WalletApi.Dispatch.Methods.methods bytes_eq factom.WalletApi.Dispatch.Methods.is_open
backup_closed = refl

Reaches-locked_example :
    (locked_state.overlay ≡ locked_state.overlay)
    × (locked_state.transactions ≡ locked_state.transactions)
    × (serve toy_env backup locked_state ≡ some (err Error.wallet_is_locked, locked_state))
Reaches-locked_example =
    Reaches-locked toy_env is_right toy_secure-IsSecureDb 4000000000 backup starts_locked
      (step start guess (omega arith) guess-IsWrong guessed.1) (omega arith) backup_closed

abbrev access : Access
access = record { rpc_user = codes "user"; rpc_pass = codes "pass" }

abbrev request : HttpRequest
request = record { now = 0; authorization = []; body = none }

turned_away :
    handle_v2 toy_env (λ b. b) access refuse request locked_state
    ≡ some (unauthorized_answer, locked_state)
unfolding handle_v2 factom.WalletApi.Http.check_auth_header
turned_away = refl

handle_v2-authorized_example :
    ((unauthorized_answer ≡ unauthorized_answer) × (locked_state ≡ locked_state))
    ⊎ ((header : Bytes) × (rest : List Bytes) × ([] ≡ header ∷ rest)
        × (toy_crypto.sha256 header
            ≡ toy_crypto.sha256 (http_basic_auth (λ b. b) (codes "user") (codes "pass"))))
handle_v2-authorized_example =
    handle_v2-authorized toy_env (λ b. b) access refuse request locked_state (λ no. absurd cc)
      turned_away
