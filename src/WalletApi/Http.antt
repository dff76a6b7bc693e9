-- ===== src/WalletApi/Http.antt =====
-- How a request reaches the handlers (`checkAuthHeader` and `handleV2` of wallet/wsapi/wsapi.go),
-- and the errors of wallet/wsapi/errors.go as they are answered. HTTP, base64 and encoding/json are
-- parameters.
use factom.Base.{
  bytes_eq_sound, Result-cases, sym, Bool-cases, inl, inr, refl, ℕ, ◌≡◌, ◌≢◌, ◌⊎◌, not, Option,
  none, some, List, [], ◌∷◌, ◌++◌, Bytes, codes, bytes_eq, Result, ok, err, Error, fail_if,
}
use factom.Base.{
  no_auth, bad_auth, invalid_request, invalid_params, wallet_is_locked, method_not_found,
  incorrect_passphrase, internal, chain_already_exists, chain_was_not_found,
}
use factom.Base.Int.{ℤ, negsuc}
use factom.Crypto.{Crypto}
use factom.Rpc.Transport.{ParsedRequest, parse_json2_request}
use factom.WalletApi.Dispatch.{Env, Response}
use factom.WalletApi.Dispatch.State.{WalletState, Served}
use factom.WalletApi.Dispatch.Serve.{serve}

-- `JSONError`, by its code and its message, of the errors that the handlers make; any other is a
-- panic. The data beside them is the error's text.
unfoldable json_error : Error → Option (ℤ × Bytes)
json_error invalid_request = some (negsuc 32599, codes "Invalid Request")
json_error method_not_found = some (negsuc 32600, codes "Method not found")
json_error invalid_params = some (negsuc 32601, codes "Invalid params")
json_error (chain_already_exists _) = some (negsuc 32601, codes "Invalid params")
json_error (chain_was_not_found _) = some (negsuc 32601, codes "Invalid params")
json_error (internal _) = some (negsuc 32602, codes "Internal error")
json_error wallet_is_locked = some (negsuc 32000, codes "Wallet is locked")
json_error incorrect_passphrase = some (negsuc 32002, codes "Incorrect passphrase")
json_error _ = none

-- `httpBasicAuth`: "Basic ", and user and password in base64.
unfoldable pub http_basic_auth : (Bytes → Bytes) → Bytes → Bytes → Bytes
http_basic_auth base64 user password = codes "Basic " ++ base64 (user ++ (codes ":" ++ password))

-- What the server answers: the status 401, an error with the status 400 and the request's id, if one
-- was read, or a response with the id.
pub data HttpAnswer : Type 0 where
  unauthorized_answer : HttpAnswer
  error_answer : Option (Option Bytes) → Error → HttpAnswer
  response_answer : Option Bytes → Response → HttpAnswer

-- An HTTP request: its time, the values of the header `Authorization`, and the body, if it was read.
pub record HttpRequest : Type 0 where
  pub now : ℕ
  pub authorization : List Bytes
  pub body : Option Bytes

-- The configuration of `Start`.
pub record Access : Type 0 where
  pub rpc_user : Bytes
  pub rpc_pass : Bytes

-- `checkAuthHeader`, on the user that is set, the hash that `Start` makes of the expected header,
-- and the headers.
unfoldable pub check_auth_header : Crypto → Bytes → Bytes → List Bytes → Result (Unit {0})
check_auth_header c [] authsha headers = ok tt
check_auth_header c (_ ∷ _) authsha [] = err no_auth
check_auth_header c (_ ∷ _) authsha (header ∷ _) =
    fail_if (not (bytes_eq (c.sha256 header) authsha)) bad_auth

-- What a check that is passed shows.
check_auth_header-eq-ok :
    (c : Crypto) (user authsha : Bytes) (headers : List Bytes)
    → user ≢ []
    → check_auth_header c user authsha headers ≡ ok tt
    → (header : Bytes) × (rest : List Bytes) × (headers ≡ header ∷ rest)
      × (c.sha256 header ≡ authsha)
unfolding check_auth_header
check_auth_header-eq-ok c [] authsha headers named h = absurd (named refl)
check_auth_header-eq-ok c (_ ∷ _) authsha [] named h = cc
check_auth_header-eq-ok c (_ ∷ _) authsha (header ∷ rest) named h =
    elim (Bool-cases (bytes_eq (c.sha256 header) authsha)) [
      | inl same ↦ (header, rest, refl, bytes_eq_sound _ _ same)
      | inr other ↦ let failed = rw (check_auth_header, other) at h in cc
    ]

module _ (env : Env) (base64 : Bytes → Bytes) (access : Access)
    (read_request : Bytes → Result ParsedRequest) where
  -- `authsha`
  unfoldable pub authsha : Bytes
  authsha = env.crypto.sha256 (http_basic_auth base64 access.rpc_user access.rpc_pass)

  -- The answer to what was served.
  unfoldable pub answered :
      Option Bytes → Option (Served env) → Option (HttpAnswer × WalletState env)
  answered id none = none
  answered id (some (ok r, s)) = some (response_answer id r, s)
  answered id (some (err e, s)) = some (error_answer (some id) e, s)

  -- `handleV2`
  unfoldable pub handle_v2 : HttpRequest → WalletState env → Option (HttpAnswer × WalletState env)
  handle_v2 req s = elim (check_auth_header env.crypto access.rpc_user authsha req.authorization) [
    | err _ ↦ some (unauthorized_answer, s)
    | ok _ ↦ elim req.body [
      | none ↦ some (error_answer none invalid_request, s)
      | some text ↦ elim (parse_json2_request read_request text) [
        | err _ ↦ some (error_answer none invalid_request, s)
        | ok j ↦
            answered j.id
              (serve env (record { now = req.now; method = j.method; params = j.params }) s)
      ]
    ]
  ]

  -- With a user that is set, the wallet changes, or answers anything but the status 401, only for a
  -- request whose first header has the SHA-256 of the user's and the password's.
  pub handle_v2-authorized :
      (req : HttpRequest) (s : WalletState env) {answer : HttpAnswer} {s' : WalletState env}
      → access.rpc_user ≢ []
      → handle_v2 req s ≡ some (answer, s')
      → ((answer ≡ unauthorized_answer) × (s' ≡ s))
        ⊎ ((header : Bytes) × (rest : List Bytes) × (req.authorization ≡ header ∷ rest)
            × (env.crypto.sha256 header
                ≡ env.crypto.sha256 (http_basic_auth base64 access.rpc_user access.rpc_pass)))
  unfolding handle_v2 authsha
  handle_v2-authorized req s {answer} {s'} user h =
      elim (Result-cases (check_auth_header env.crypto access.rpc_user authsha req.authorization)) [
        | inl (_, passed) ↦ inr (
            check_auth_header-eq-ok env.crypto access.rpc_user authsha req.authorization user
              passed)
        | inr (e, failed) ↦
            let turned_away = rw (handle_v2, failed) at h in
            let same : unauthorized_answer ≡ answer = cc in
            let same' : s ≡ s' = cc in inl (sym same, sym same')
      ]
