-- ===== src/Tests/Composing.antt =====
-- A wallet that composes requests: its store has the same key under every name.
use factom.Base.{
  ℕ, zero, suc, ◌+◌, ◌-◌, ◌*◌, ◌/◌, ◌%◌, ◌^◌, ◌≤◌, ◌<◌, ◌≡◌, ◌≢◌, ◌↔◌, ◌⊎◌, ◌∙◌, inl, inr, refl,
  sym, ap, Bool, true, false, not, ◌&&◌, ◌||◌, Option, none, some, List, [], ◌∷◌, ◌++◌, map,
  append_assoc, append-nil, arith, Bytes, codes, length, take, drop, replicate, copy, bytes_eq, ltb,
  leb, ◌==◌, if◌then◌else◌, Result, ok, err, Error, ◌>>=◌, ◌>>◌, fail_if, All, IsByte, Bool-cases,
  Option-cases, length-append,
}
use factom.Base.Int.{pos, ℤ}
use factom.Crypto.{Crypto}
use factom.Address.EcAddress.{EcAddress}
use factom.Entry.{Entry}
use factom.Chain.{Chain, new_chain}
use factom.Identity.Entries.{is_valid_attribute, is_valid_endorsement}
use factom.Rpc.Request.{Json2Request}
use factom.Rpc.Client.{Json2Response, Unmarshal, get_ec_balance, chain_exists}
use factom.WalletDatabase.{Overlay}
use factom.WalletDatabase.Tables.{get_ec_address, get_identity_key}
use factom.WalletApi.Composing.{
  ChainRequest, EntryRequest, EntryResponse, handle_compose_chain, handle_compose_entry,
  compose_entry,
}
use factom.WalletApi.Composing.Identities.{
  IdentityAttribute, IdentityAttributeRequest, IdentityAttributeEndorsementRequest,
  handle_compose_identity_attribute, handle_compose_identity_attribute_endorsement,
}
use factom.WalletApi.Composing.Paid.{PaysForChain, PaysForEntry}
use factom.WalletApi.Composing.Affordable.{
  IsAffordable, handle_compose_chain-PaysForChain, handle_compose_entry-balance,
}
use factom.WalletApi.Composing.Valid.{handle_compose_identity_attribute-valid}
use factom.Tests.{toy_crypto, toy_crypto-IsLawful, seed}
use factom.Tests.Addresses.{ec_address, identity_key, identity_key-made}

abbrev pub one_key_store : Overlay
one_key_store = record {
  DB = Unit {0};
  get = λ db b k. ok (some seed);
  put = λ db b k x. (ok tt, db);
  delete = λ db b k. (ok tt, db);
  fetch_all = λ db b. ok [];
}

-- factomd, by whether it has the chain that it is asked for
abbrev pub factomd_with : Bool → Json2Request → Result Json2Response
factomd_with exists q = ok (record {
  error =
      if bytes_eq q.method (codes "chain-head") && not exists then some Error.no_chain else none;
  result = [];
})

abbrev pub answers : ℤ → Unmarshal
answers n = record {
  balance = λ _. ok n;
  rate = λ _. ok 1;
  key_mr = λ _. ok [];
  entry = λ _. err Error.hex_byte;
  chain_head = λ _. ok (record { chain_head = []; chain_in_process_list = false });
  eblock = λ _. err Error.hex_byte;
  raw_data = λ _. ok [];
}

abbrev target : Bytes
target = replicate 64 b'a'

abbrev entry : Entry
entry = record { chain_id = target; ext_ids = codes "one" ∷ []; content = codes "content" }

held : get_ec_address one_key_store toy_crypto [] tt ≡ ok ec_address
unfolding get_ec_address factom.WalletDatabase.Tables.get_from
    factom.Address.EcAddress.unmarshal_binary
held = refl

key_held : get_identity_key one_key_store toy_crypto [] tt ≡ ok identity_key
unfolding get_identity_key factom.WalletDatabase.Tables.get_from factom.IdentityKey.unmarshal_binary
key_held = refl

abbrev chain_request : ChainRequest
chain_request = record { first_entry = some entry; ec_pub = []; force = false }

chain_composed :
    (r : EntryResponse) × ((handle_compose_chain
        (factomd_with false)
        (answers (pos 11))
        one_key_store
        toy_crypto
        0
        tt
        (ok chain_request)
        0).0
      ≡ ok r)
unfolding handle_compose_chain factom.Base.and_then factom.WalletApi.Addresses.read_params
    factom.Base.internally get_ec_address factom.WalletDatabase.Tables.get_from
    factom.Address.EcAddress.unmarshal_binary factom.WalletApi.Composing.check_chain
    factom.WalletApi.Addresses.of_wallet get_ec_balance factom.Rpc.Client.call
    factom.Rpc.Client.read_response bytes_eq factom.Rpc.Request.new_json2_request
    factom.WalletApi.Composing.check_cost factom.Entry.Cost.entry_cost factom.Entry.marshal_binary
    factom.Base.Hex.decode_string factom.Address.EcAddress.sign factom.Base.Hex.big_endian16
    factom.Base.Hex.big_endian64 factom.Base.Hex.encode_to_string factom.Base.Hex.hex_digit
    factom.Base.Hex.hex_value factom.Base.Int.byte factom.Base.Int.int8 factom.Base.Int.◌+ℤ◌
    factom.Crypto.sha52 factom.Crypto.shad factom.Entry.Commit.milli_time
    factom.Entry.Commit.signed_by factom.Entry.hash factom.Entry.marshal_ext_ids_binary chain_exists
    factom.Rpc.Client.get_chain_head_and_status factom.WalletDatabase.ec_db_prefix
    factom.Chain.chain_commit_header factom.Chain.compose_chain_commit
    factom.Chain.compose_chain_reveal factom.Chain.ext_id_hashes new_chain
    factom.WalletApi.Composing.compose_chain
chain_composed = (_, refl)

handle_compose_chain-PaysForChain_example :
    (e : Entry) × (ec : EcAddress) × (some entry ≡ some e)
    × (get_ec_address one_key_store toy_crypto [] tt ≡ ok ec)
    × PaysForChain toy_crypto 0 (new_chain toy_crypto e) ec chain_composed.0
    × IsAffordable (factomd_with false) (answers (pos 11)) [] (new_chain toy_crypto e) 0
handle_compose_chain-PaysForChain_example =
    handle_compose_chain-PaysForChain (factomd_with false) (answers (pos 11)) one_key_store
      toy_crypto 0 tt chain_request 0 refl chain_composed.1

abbrev entry_request : EntryRequest
entry_request = record { entry = entry; ec_pub = []; force = false }

balance_answered : (get_ec_balance (factomd_with true) (answers (pos 0)) [] 0).0 ≡ ok (pos 0)
unfolding get_ec_balance factom.Rpc.Client.call factom.Rpc.Client.read_response bytes_eq
    factom.Rpc.Request.new_json2_request
balance_answered = refl

chain_there : (chain_exists (factomd_with true) (answers (pos 0)) target 1).0 ≡ true
unfolding chain_exists factom.Rpc.Client.get_chain_head_and_status factom.Rpc.Client.call
    factom.Rpc.Client.read_response bytes_eq factom.Rpc.Request.new_json2_request
chain_there = refl

-- An entry that costs one credit, on a balance of none.
handle_compose_entry-balance_example :
    handle_compose_entry
      (factomd_with true)
      (answers (pos 0))
      one_key_store
      toy_crypto
      0
      tt
      (ok entry_request)
      0
    ≡ compose_entry toy_crypto 0 entry ec_address 2
handle_compose_entry-balance_example =
    handle_compose_entry-balance (factomd_with true) (answers (pos 0)) one_key_store toy_crypto 0 tt
      entry_request 0 refl held balance_answered chain_there

abbrev attribute_request : IdentityAttributeRequest
attribute_request = record {
  receiver_chain_id = target;
  destination_chain_id = target;
  attributes = record { key = some (codes "k"); value = some (codes "v") } ∷ [];
  signer_key = [];
  signer_chain_id = target;
  ec_pub = [];
  force = false;
}

abbrev print_attributes : List IdentityAttribute → Result Bytes
print_attributes attributes = ok (codes "[]")

attribute_composed :
    (r : EntryResponse) × ((handle_compose_identity_attribute
        (factomd_with true)
        (answers (pos 0))
        one_key_store
        toy_crypto
        0
        tt
        print_attributes
        (ok attribute_request)
        0).0
      ≡ ok r)
unfolding handle_compose_identity_attribute factom.Base.and_then
    factom.WalletApi.Addresses.read_params factom.Base.internally get_ec_address
    factom.WalletDatabase.Tables.get_from factom.Address.EcAddress.unmarshal_binary
    factom.WalletApi.Composing.check_entry factom.WalletApi.Addresses.of_wallet get_ec_balance
    factom.Rpc.Client.call factom.Rpc.Client.read_response bytes_eq
    factom.Rpc.Request.new_json2_request factom.WalletApi.Composing.check_cost
    factom.Entry.Cost.entry_cost factom.Entry.marshal_binary factom.Base.Hex.decode_string
    factom.Address.EcAddress.sign factom.Base.Hex.big_endian16 factom.Base.Hex.big_endian64
    factom.Base.Hex.encode_to_string factom.Base.Hex.hex_digit factom.Base.Hex.hex_value
    factom.Base.Int.byte factom.Base.Int.int8 factom.Base.Int.◌+ℤ◌ factom.Crypto.sha52
    factom.Crypto.shad factom.Entry.Commit.milli_time factom.Entry.Commit.signed_by
    factom.Entry.hash factom.Entry.marshal_ext_ids_binary chain_exists
    factom.Rpc.Client.get_chain_head_and_status factom.WalletDatabase.ec_db_prefix get_identity_key
    factom.IdentityKey.unmarshal_binary factom.Entry.Commit.entry_commit_header
    factom.Entry.Commit.compose_entry_commit factom.Entry.Commit.compose_entry_reveal compose_entry
    factom.WalletApi.Composing.discard factom.WalletApi.Composing.Identities.signer_key_of
    factom.WalletApi.Composing.Identities.check_attributes
    factom.Identity.Entries.new_identity_attribute_entry factom.IdentityKey.sign
    factom.IdentityKey.pub_string factom.Address.Checksum.checksummed
attribute_composed = (_, refl)

handle_compose_identity_attribute-valid_example :
    (e : Entry) × (ec : EcAddress) × (get_ec_address one_key_store toy_crypto [] tt ≡ ok ec)
    × PaysForEntry toy_crypto 0 e ec attribute_composed.0
    × (e.chain_id ≡ target)
    × (print_attributes attribute_request.attributes ≡ ok e.content)
    × All (λ a. (a.key ≢ none) × (a.value ≢ none)) attribute_request.attributes
    × (is_valid_attribute toy_crypto e ≡ true)
handle_compose_identity_attribute-valid_example =
    handle_compose_identity_attribute-valid (factomd_with true) (answers (pos 0)) one_key_store
      toy_crypto-IsLawful 0 tt print_attributes seed attribute_request 0 identity_key-made key_held
      refl refl attribute_composed.1
