-- ===== src/Tests/Reading.antt =====
-- A chain of two blocks.
use factom.Base.{
  ◌≡◌, ◌≢◌, refl, false, some, List, [], ◌∷◌, Bytes, codes, bytes_eq, if◌then◌else◌, ok, err, Error,
  All,
}
use factom.Base.Int.{pos}
use factom.Entry.{Entry}
use factom.Reader.{get_entries, get_all_chain_entries, known_head, Node, zero_hash}
use factom.Reader.Walk.{get_all_chain_entries-Linked, Linked, all_entries, Block}

abbrev entry_of : Bytes → Entry
entry_of hash = record { chain_id = codes "chain"; ext_ids = []; content = hash }

abbrev first_block : Block
first_block = record {
  eblock = record {
    prev_key_mr = zero_hash;
    db_height = pos 5;
    entry_list = codes "e1" ∷ codes "e2" ∷ [];
  };
  entries = entry_of (codes "e1") ∷ entry_of (codes "e2") ∷ [];
}

abbrev second_block : Block
second_block = record {
  eblock = record { prev_key_mr = codes "first"; db_height = pos 9; entry_list = codes "e3" ∷ [] };
  entries = entry_of (codes "e3") ∷ [];
}

abbrev pub node : Node
node = record {
  get_chain_head =
      λ chain_id. ok (record { chain_head = codes "second"; chain_in_process_list = false });
  get_eblock = λ hash.
      if bytes_eq hash (codes "second")
      then ok second_block.eblock
      else if bytes_eq hash (codes "first")
      then ok first_block.eblock
      else err (Error.external hash);
  get_entry = λ hash. ok (entry_of hash);
}

abbrev pub blocks : List Block
blocks = second_block ∷ first_block ∷ []

pub head-known : known_head node (codes "chain") ≡ ok (codes "second")
unfolding known_head bytes_eq
head-known = refl

pub blocks-Linked : Linked node (codes "second") blocks
unfolding get_entries zero_hash bytes_eq
blocks-Linked = (refl, refl, refl, (refl, refl, refl, refl))

blocks-full : All (λ x. x.entries ≢ []) blocks
blocks-full = (λ h. cc, (λ h. cc, tt))

get_all_chain_entries-Linked_example :
    get_all_chain_entries node 3 (codes "chain") ≡ some (ok (all_entries node blocks))
get_all_chain_entries-Linked_example =
    get_all_chain_entries-Linked node (codes "chain") (codes "second") blocks head-known
      blocks-Linked

first-shape :
    all_entries node blocks
    ≡ entry_of (codes "e1") ∷ entry_of (codes "e2") ∷ entry_of (codes "e3") ∷ []
unfolding all_entries
first-shape = refl
