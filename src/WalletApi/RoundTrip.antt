-- ===== src/WalletApi/RoundTrip.antt =====
-- What the client reads of the wallet's answer is what the wallet holds.
use factom.Base.{internally, ◌≡◌, refl, List, [], ◌∷◌, map, Bytes, Result, ok, All}
use factom.Crypto.{Crypto, IsLawful}
use factom.Address.FactoidAddress.{FactoidAddress, make_factoid_address}
use factom.Address.EcAddress.{EcAddress, make_ec_address}
use factom.Address.Mnemonic.{Bip}
use factom.Address.FactoidAddress.RoundTrip.{
  make_factoid_address-eq-ok, factoid_string_types, get_factoid_address-sec_string,
}
use factom.Address.EcAddress.RoundTrip.{
  make_ec_address-eq-ok, ec_string_types, get_ec_address-sec_string,
}
use factom.Rpc.Keys.{AddressResponse, sort_fetched, with_factoid, with_ec}
use factom.WalletDatabase.{Overlay}
use factom.WalletDatabase.Seed.{Gob}
use factom.WalletDatabase.Tables.{get_all_addresses}
use factom.WalletApi.Addresses.{
  mk_factoid_response, mk_ec_response, address_responses, handle_all_addresses,
}

module _ (c : Crypto) where
  -- Addresses that are made from keys.
  abbrev AreMade : List FactoidAddress × List EcAddress → Type 0
  AreMade (fs, es) =
      All (λ f. (sec : Bytes) × (make_factoid_address c sec ≡ ok f)) fs
      × All (λ e. (sec : Bytes) × (make_ec_address c sec ≡ ok e)) es

module _ {c : Crypto} (laws : IsLawful c) where
  sort_fetched-ec :
      (es : List EcAddress)
      → All (λ e. (sec : Bytes) × (make_ec_address c sec ≡ ok e)) es
      → sort_fetched c (map (mk_ec_response c) es) ≡ ok ([], es)
  unfolding sort_fetched mk_ec_response with_ec
  sort_fetched-ec [] made = refl
  sort_fetched-ec (e ∷ es) ((sec, made), rest) =
      let (long, seed, full, full') = make_ec_address-eq-ok laws sec made in
      rw
        (
          sort_fetched,
          (ec_string_types laws e full full').0,
          with_ec,
          get_ec_address-sec_string laws sec made,
          sort_fetched-ec es rest,
        )
        refl

  sort_fetched-responses :
      (fs : List FactoidAddress) (es : List EcAddress)
      → AreMade c (fs, es)
      → sort_fetched c (address_responses c (fs, es)) ≡ ok (fs, es)
  unfolding address_responses sort_fetched mk_factoid_response with_factoid
  sort_fetched-responses [] es (_, made) = sort_fetched-ec es made
  sort_fetched-responses (f ∷ fs) es (((sec, made), rest), ecs) =
      let (long, seed, full, full') = make_factoid_address-eq-ok laws sec made in
      rw
        (
          sort_fetched,
          (factoid_string_types laws f full').0,
          with_factoid,
          get_factoid_address-sec_string laws sec made,
          sort_fetched-responses fs es (rest, ecs),
        )
        refl

  -- The addresses that the wallet holds are answered to all-addresses, and the client's
  -- FetchAddresses reads exactly these addresses from the answer, whole, in their order, private
  -- keys included: if each was made from a key.
  pub handle_all_addresses-fetched :
      (store : Overlay) (gob : Gob) (bip : Bip) (mnemonic : Result Bytes) (db : store.DB)
      (fs : List FactoidAddress) (es : List EcAddress)
      → AreMade c (fs, es)
      → get_all_addresses store c db ≡ ok (fs, es)
      → (responses : List AddressResponse) × (handle_all_addresses store gob c bip mnemonic db
          ≡ ok responses)
        × (sort_fetched c responses ≡ ok (fs, es))
  unfolding handle_all_addresses internally
  handle_all_addresses-fetched store gob bip mnemonic db fs es made all = (
    address_responses c (fs, es),
    rw (handle_all_addresses, all) refl,
    sort_fetched-responses fs es made,
  )
