-- ===== src/Tests/Signing.antt =====
-- A transaction of two RCDs, whose keys the wallet has, and its signatures.
use factom.Base.{
  ℕ, ◌+◌, ◌≡◌, refl, true, Option, none, some, List, [], ◌∷◌, ◌++◌, map, Bytes, codes, bytes_eq,
  ◌==◌, if◌then◌else◌, ok, err, Error,
}
use factom.Base.Dict.{lookup}
use factom.Tests.Addresses.{factoid_address}
use factom.Wallet.Factoid.{Factoid}
use factom.Wallet.Transactions.{Sources, Txs}
use factom.Wallet.Signing.{sign_transaction}
use factom.Wallet.Signatures.{HasSignatures, IsSignedBy, sign_transaction-IsSignedBy}

record Transaction : Type 0 where
  rcds : List Bytes
  blocks : ℕ → Option Bytes

abbrev signing_factoid : Factoid
signing_factoid = record {
  Tx = Transaction;
  new_tx = λ now. record { rcds = []; blocks = λ i. none };
  inputs = λ tx. [];
  outputs = λ tx. [];
  ec_outputs = λ tx. [];
  set_input = λ tx i n. tx;
  set_output = λ tx i n. tx;
  set_ec_output = λ tx i n. tx;
  add_input = λ tx a n. tx;
  add_output = λ tx a n. tx;
  add_ec_output = λ tx a n. tx;
  add_rcd = λ tx r. record tx { rcds = tx.rcds ++ r ∷ [] };
  total_inputs = λ tx. ok 0;
  total_outputs = λ tx. ok 0;
  total_ecs = λ tx. ok 0;
  calculate_fee = λ tx rate. ok rate;
  validate_amounts = λ a b. ok (a + b);
  marshal_binary_sig = λ tx. ok (0 ∷ []);
  marshal_binary = λ tx. ok (1 ∷ []);
  unmarshal_binary = λ p. err Error.hex_length;
  rcd_addresses = λ tx. map (λ r. ok r) tx.rcds;
  new_signature = λ sec msg. sec ++ msg;
  set_signature = λ tx i s. record tx { blocks = λ j. if i == j then some s else tx.blocks j };
  user_string = λ a. a;
}

blocks_set : HasSignatures signing_factoid (λ tx. tx.blocks)
blocks_set = record { signatures-set_signature = λ tx i j s. refl }

-- Every address has the key of the one address.
abbrev one_key : Sources
one_key = record {
  get_fct_address = λ a. ok factoid_address;
  get_factoid_balance = λ a. err Error.hex_length;
  get_rate = err Error.hex_length;
}

abbrev name : Bytes
name = codes "tx"

abbrev two_rcds : Transaction
two_rcds = record { rcds = (1 ∷ []) ∷ (2 ∷ []) ∷ []; blocks = λ i. none }

abbrev after_signing : Txs signing_factoid
after_signing = (sign_transaction signing_factoid one_key name true ((name, two_rcds) ∷ [])).1

signing :
    sign_transaction signing_factoid one_key name true ((name, two_rcds) ∷ [])
    ≡ (ok tt, after_signing)
unfolding sign_transaction factom.Wallet.Transactions.get_transaction lookup bytes_eq
    factom.Wallet.Signing.check_transaction factom.Wallet.Signing.sign_checked
    factom.Wallet.Signing.sign_rcds
signing = refl

sign_transaction-IsSignedBy_example :
    (tx' : Transaction) × (bytes : Bytes) × (lookup name after_signing ≡ some tx')
    × (signing_factoid.marshal_binary_sig two_rcds ≡ ok bytes)
    × IsSignedBy blocks_set one_key bytes (ok (2 ∷ [])) (tx'.blocks 1)
    × (lookup (codes "other") after_signing ≡ lookup (codes "other") ((name, two_rcds) ∷ []))
unfolding lookup bytes_eq
sign_transaction-IsSignedBy_example =
    sign_transaction-IsSignedBy blocks_set one_key name true ((name, two_rcds) ∷ []) two_rcds 1
      (codes "other") refl refl refl signing
