-- ===== src/Rpc/Transport.antt =====
-- Where the requests go (`RPCConfig`, `factomdRequest` and `walletRequest` of jsonrpc.go), and the
-- check of a request that is read. HTTP itself is a parameter.
use factom.Base.{
  sym, bytes_eq_sound, ap, suc, zero, ◌⊎◌, inl, inr, ◌≢◌, Bool-cases, Option-cases, append_assoc,
  ◌≡◌, ◌∙◌, refl, true, false, ℕ, Bool, not, Option, none, some, [], ◌∷◌, ◌++◌, Bytes, codes, take,
  drop, bytes_eq, if◌then◌else◌, Result, ok, ◌>>=◌, ◌>>◌, fail_if,
}
use factom.Base.{invalid_version}

-- `RPCConfig`
pub record RpcConfig : Type 0 where
  pub wallet_tls_enable : Bool
  pub wallet_tls_key_file : Bytes
  pub wallet_tls_cert_file : Bytes
  pub wallet_rpc_user : Bytes
  pub wallet_rpc_password : Bytes
  pub wallet_cors_domains : Bytes
  pub factomd_tls_enable : Bool
  pub factomd_tls_cert_file : Bytes
  pub factomd_rpc_user : Bytes
  pub factomd_rpc_password : Bytes
  pub factomd_server : Bytes
  pub wallet_server : Bytes

-- `SetFactomdRpcConfig`, `SetFactomdEncryption`, `SetWalletRpcConfig`, `SetWalletEncryption`,
-- `SetFactomdServer` and `SetWalletServer`
unfoldable set_factomd_rpc_config : Bytes → Bytes → RpcConfig → RpcConfig
set_factomd_rpc_config user password cfg = record cfg {
  factomd_rpc_user = user;
  factomd_rpc_password = password;
}

unfoldable set_factomd_encryption : Bool → Bytes → RpcConfig → RpcConfig
set_factomd_encryption tls cert_file cfg = record cfg {
  factomd_tls_enable = tls;
  factomd_tls_cert_file = cert_file;
}

unfoldable set_wallet_rpc_config : Bytes → Bytes → RpcConfig → RpcConfig
set_wallet_rpc_config user password cfg = record cfg {
  wallet_rpc_user = user;
  wallet_rpc_password = password;
}

unfoldable set_wallet_encryption : Bool → Bytes → RpcConfig → RpcConfig
set_wallet_encryption tls cert_file cfg = record cfg {
  wallet_tls_enable = tls;
  wallet_tls_cert_file = cert_file;
}

unfoldable set_factomd_server : Bytes → RpcConfig → RpcConfig
set_factomd_server s cfg = record cfg { factomd_server = s }

unfoldable set_wallet_server : Bytes → RpcConfig → RpcConfig
set_wallet_server s cfg = record cfg { wallet_server = s }

-- What stands before and behind the first "://", if there is one.
unfoldable pub split_scheme : Bytes → Option (Bytes × Bytes)
split_scheme [] = none
split_scheme (b ∷ s) =
    let rest = split_scheme s in
    if bytes_eq (take 3 (b ∷ s)) (codes "://")
    then some ([], drop 3 (b ∷ s))
    else elim rest [ none ↦ none | some (scheme, host) ↦ some (b ∷ scheme, host) ]

-- The scheme and the host of `factomdRequest`, by whether TLS is enabled.
unfoldable pub factomd_endpoint : Bool → Bytes → Bytes × Bytes
factomd_endpoint true server = (codes "https", server)
factomd_endpoint false server = elim (split_scheme server) [
  | some (scheme, host) ↦ (scheme, host)
  | none ↦ (codes "http", server)
]

-- `fmt.Sprintf("%s://%s/v2", scheme, host)`
unfoldable pub url_of : Bytes × Bytes → Bytes
url_of endpoint = endpoint.0 ++ (codes "://" ++ (endpoint.1 ++ codes "/v2"))

unfoldable factomd_url : RpcConfig → Bytes
factomd_url cfg = url_of (factomd_endpoint cfg.factomd_tls_enable cfg.factomd_server)

-- The URL of `walletRequest`, which does not look for a scheme.
unfoldable wallet_url : RpcConfig → Bytes
wallet_url cfg =
    url_of (if cfg.wallet_tls_enable then codes "https" else codes "http", cfg.wallet_server)

-- `JSON2Request` as the server reads it.
pub record ParsedRequest : Type 0 where
  pub jsonrpc : Bytes
  pub id : Option Bytes
  pub params : Option Bytes
  pub method : Bytes

-- `ParseJSON2Request`, on encoding/json's reader.
unfoldable pub parse_json2_request : (Bytes → Result ParsedRequest) → Bytes → Result ParsedRequest
parse_json2_request unmarshal text = do
  j ← unmarshal text
  fail_if (not (bytes_eq j.jsonrpc (codes "2.0"))) (invalid_version j.jsonrpc)
  ok j

-- A prefix that is found, and the rest.
take++drop : (n : ℕ) (s : Bytes) → take n s ++ drop n s ≡ s
take++drop zero s = refl
take++drop (suc n) [] = refl
take++drop (suc n) (b ∷ s) = ap (λ x. b ∷ x) (take++drop n s)

-- The parts that are split make the string.
split_scheme-parts :
    (s : Bytes) {scheme host : Bytes}
    → split_scheme s ≡ some (scheme, host)
    → scheme ++ (codes "://" ++ host) ≡ s
unfolding split_scheme
split_scheme-parts [] h = cc
split_scheme-parts (b ∷ s) {scheme} {host} h =
    elim (Bool-cases (bytes_eq (take 3 (b ∷ s)) (codes "://"))) [
      | inl found ↦
          let made = rw (split_scheme, found) at h in
          let prefix = bytes_eq_sound (take 3 (b ∷ s)) (codes "://") found in
          let none_before : [] ≡ scheme = cc in
          let behind : drop 3 (b ∷ s) ≡ host = cc in
          rw (← none_before, ← behind)
            (ap (λ x. x ++ drop 3 (b ∷ s)) (sym prefix) ∙ take++drop 3 (b ∷ s))
      | inr other ↦ elim (Option-cases (split_scheme s)) [
        | inl missing ↦ let failed = rw (split_scheme, other, missing) at h in cc
        | inr ((before, behind), split) ↦
            let made = rw (split_scheme, other, split) at h in
            let same : b ∷ before ≡ scheme = cc in
            let same' : behind ≡ host = cc in
            rw (← same, ← same') (ap (λ x. b ∷ x) (split_scheme-parts s split))
      ]
    ]

-- Without TLS, requests go to the server that is set, if it names a scheme, and else to the server
-- by http.
endpoint-url :
    (server : Bytes)
    → ((split_scheme server ≡ none)
        × (url_of (factomd_endpoint false server) ≡ codes "http://" ++ (server ++ codes "/v2")))
      ⊎ ((split_scheme server ≢ none)
          × (url_of (factomd_endpoint false server) ≡ server ++ codes "/v2"))
unfolding url_of factomd_endpoint
endpoint-url server = elim (Option-cases (split_scheme server)) [
  | inl plain ↦ inl (plain, rw (factomd_endpoint, plain) refl)
  | inr ((scheme, host), split) ↦ inr (
    (λ no. absurd cc),
    rw (factomd_endpoint, split)
        (sym (append_assoc scheme (codes "://" ++ host) (codes "/v2"))
          ∙ ap (λ x. x ++ codes "/v2") (split_scheme-parts server split)),
  )
]
