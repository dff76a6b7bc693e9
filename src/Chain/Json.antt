-- ===== src/Chain/Json.antt =====
-- The JSON form of an entry (`MarshalJSON` and `UnmarshalJSON` of entry.go), up to the structure of
-- strings that encoding/json prints and reads.
use factom.Base.{List, [], ◌∷◌, ◌++◌, map, Bytes, Result, ok, err, Error, ◌>>=◌}
use factom.Base.{bad_chain_name, bad_ext_id, bad_content}
use factom.Base.Hex.{encode_to_string, decode_string}
use factom.Entry.{Entry}
use factom.Crypto.{Crypto}
use factom.Chain.{new_chain}
use factom.Base.{◌≡◌, ◌≢◌, refl, All, IsByte}
use factom.Base.Hex.{decode_string-encode_to_string}

-- The structure `js` of both methods; `MarshalJSON` has no chain name.
pub record EntryJson : Type 0 where
  pub chain_id : Bytes
  pub chain_name : List Bytes
  pub ext_ids : List Bytes
  pub content : Bytes

-- `MarshalJSON`
unfoldable pub marshal_json : Entry → EntryJson
marshal_json e = record {
  chain_id = e.chain_id;
  chain_name = [];
  ext_ids = map encode_to_string e.ext_ids;
  content = encode_to_string e.content;
}

-- The loops that decode strings, with the error of the first that is not hexadecimal.
unfoldable pub decode_each : Error → List Bytes → Result (List Bytes)
decode_each bad [] = ok []
decode_each bad (v ∷ values) = elim (decode_string v) [
  | err _ ↦ err bad
  | ok p ↦ decode_each bad values >>= λ rest. ok (p ∷ rest)
]

-- The chain id, or the one of a new chain of the name.
unfoldable pub chain_id_of : Crypto → List Bytes → Bytes → Result Bytes
chain_id_of c name (b ∷ id) = ok (b ∷ id)
chain_id_of c name [] = do
  ids ← decode_each bad_chain_name name
  ok (new_chain c (record { chain_id = []; ext_ids = ids; content = [] })).chain_id

-- `UnmarshalJSON`, into an entry, to whose ExtIDs it appends.
unfoldable pub unmarshal_json : Crypto → Entry → EntryJson → Result Entry
unmarshal_json c e j = do
  id ← chain_id_of c j.chain_name j.chain_id
  ids ← decode_each bad_ext_id j.ext_ids
  elim (decode_string j.content) [
    | err _ ↦ err bad_content
    | ok p ↦ ok (record { chain_id = id; ext_ids = e.ext_ids ++ ids; content = p })
  ]

decode_each-encode :
    (bad : Error) (values : List Bytes)
    → All (All IsByte) values
    → decode_each bad (map encode_to_string values) ≡ ok values
unfolding decode_each
decode_each-encode bad [] h = refl
decode_each-encode bad (v ∷ values) (hv, h) =
    rw (decode_each, decode_string-encode_to_string v hv, decode_each-encode bad values h) refl

-- A chain id that is given.
given_id : (c : Crypto) (name : List Bytes) (id : Bytes) → id ≢ [] → chain_id_of c name id ≡ ok id
unfolding chain_id_of
given_id c name [] named = absurd (named refl)
given_id c name (b ∷ id) named = refl

-- The chain id that is read for an entry that has none, by the name of its chain, is that of the
-- new chain with this name.
chain_id_of-new_chain :
    (c : Crypto) (e : Entry) (name : List Bytes)
    → All (All IsByte) name
    → chain_id_of c (map encode_to_string name) []
      ≡ ok (new_chain c (record e { ext_ids = name })).chain_id
unfolding chain_id_of new_chain
chain_id_of-new_chain c e name h = rw (decode_each-encode bad_chain_name name h) refl

-- An entry of bytes that has a chain id is read back from its JSON form.
pub unmarshal_json-marshal_json :
    (c : Crypto) (e : Entry)
    → e.chain_id ≢ []
    → All (All IsByte) e.ext_ids
    → All IsByte e.content
    → unmarshal_json c (record { chain_id = []; ext_ids = []; content = [] }) (marshal_json e)
      ≡ ok e
unfolding unmarshal_json marshal_json
unmarshal_json-marshal_json c e named ids content =
    rw
      (
        unmarshal_json,
        given_id c [] e.chain_id named,
        decode_each-encode bad_ext_id e.ext_ids ids,
        decode_string-encode_to_string e.content content,
      )
      refl
