-- ===== src/WalletApi/Balances/Url.antt =====
-- Where the balances are asked for, beside where all other requests of factomd go.
use factom.Base.{
  drop, ℕ, ap, ◌≡◌, ◌≢◌, ◌↔◌, ◌∙◌, inl, inr, refl, sym, Bool, true, false, none, [], ◌∷◌, ◌++◌,
  arith, Bytes, codes, length, bytes_eq, Bool-cases, length-append,
}
use factom.Rpc.Transport.{split_scheme, factomd_endpoint, url_of}
use factom.WalletApi.Balances.{balances_url}
use factom.Base.{bytes_eq_sound}

-- A server that is set.
set-balances_url :
    (server : Bytes)
    → server ≢ []
    → balances_url server ≡ codes "http://" ++ (server ++ codes "/v2")
unfolding balances_url
set-balances_url [] named = absurd (named refl)
set-balances_url (b ∷ s) named =
    elim (Bool-cases
      (bytes_eq (codes "http://" ++ ((b ∷ s) ++ codes "/v2")) (codes "http:///v2"))) [
        | inr other ↦ rw (balances_url, other) refl
        | inl same ↦
            let equal = bytes_eq_sound _ _ same in
            let long : length ((b ∷ s) ++ codes "/v2") ≡ 3 = ap (λ x. length (drop 7 x)) equal in
            absurd (omega (arith, length-append (b ∷ s) (codes "/v2")))
      ]

-- The balances are asked for where all other requests go exactly if TLS is off, for a server that
-- is set without a scheme.
pub balances_url-factomd_endpoint :
    (tls : Bool) (server : Bytes)
    → server ≢ []
    → split_scheme server ≡ none
    → (balances_url server ≡ url_of (factomd_endpoint tls server)) ↔ (tls ≡ false)
unfolding url_of factomd_endpoint
balances_url-factomd_endpoint true server named plain = (
  λ same.
      let wrong = sym (set-balances_url server named) ∙ same in
      let fifth : 58 ≡ 115 =
        ap (λ x. elim (drop {A = ℕ} 4 x) as (λ _. ℕ) [ [] ↦ 0 | b ∷ _ ↦ b ]) wrong in
      absurd (omega arith),
  λ off. cc,
)
balances_url-factomd_endpoint false server named plain =
    (λ same. refl, λ off. set-balances_url server named ∙ rw (factomd_endpoint, plain) refl)
