-- ===== src/Tests/Wallets.antt =====
-- A wallet over a concrete representation of transactions, with one address.
use factom.Wallet.Fees.{add_fee-balances}
use factom.Base.Int.{pos}
use factom.Address.FactoidAddress.{rcd_hash}
use factom.Base.Dict.{insert, lookup}
use factom.Wallet.Transactions.{Sources, decoded_key, Txs}
use factom.Wallet.Building.{add_fee}
use factom.Base.{
  ℕ, ◌+◌, ◌*◌, ◌^◌, ◌<◌, ◌≡◌, refl, some, List, [], ◌∷◌, ◌++◌, map, arith, Bytes, codes, replicate,
  ok, err, Error,
}
use factom.Tests.{toy_crypto, seed}
use factom.Tests.Addresses.{factoid_address}
use factom.Address.FactoidAddress
use factom.Wallet.Factoid.{sum_amounts, set_amount, Factoid, IsFactoid, TransAddress}

pub record Transaction : Type 0 where
  pub inputs : List TransAddress
  pub outputs : List TransAddress
  pub ec_outputs : List TransAddress
  pub rcds : List Bytes

-- The fee is twelve times the rate.
abbrev pub toy_factoid : Factoid
toy_factoid = record {
  Tx = Transaction;
  new_tx = λ now. record { inputs = []; outputs = []; ec_outputs = []; rcds = [] };
  inputs = λ tx. tx.inputs;
  outputs = λ tx. tx.outputs;
  ec_outputs = λ tx. tx.ec_outputs;
  set_input = λ tx i n. record tx { inputs = set_amount tx.inputs i n };
  set_output = λ tx i n. record tx { outputs = set_amount tx.outputs i n };
  set_ec_output = λ tx i n. record tx { ec_outputs = set_amount tx.ec_outputs i n };
  add_input = λ tx a n. record tx { inputs = tx.inputs ++ record { address = a; amount = n } ∷ [] };
  add_output =
      λ tx a n. record tx { outputs = tx.outputs ++ record { address = a; amount = n } ∷ [] };
  add_ec_output =
      λ tx a n. record tx { ec_outputs = tx.ec_outputs ++ record { address = a; amount = n } ∷ [] };
  add_rcd = λ tx r. record tx { rcds = tx.rcds ++ r ∷ [] };
  total_inputs = λ tx. ok (sum_amounts tx.inputs);
  total_outputs = λ tx. ok (sum_amounts tx.outputs);
  total_ecs = λ tx. ok (sum_amounts tx.ec_outputs);
  calculate_fee = λ tx rate. ok (12 * rate);
  validate_amounts = λ a b. ok (a + b);
  marshal_binary_sig = λ tx. ok (0 ∷ []);
  marshal_binary = λ tx. ok (1 ∷ []);
  unmarshal_binary = λ p. err Error.hex_length;
  rcd_addresses = λ tx. map (λ r. ok r) tx.rcds;
  new_signature = λ sec msg. sec ++ msg;
  set_signature = λ tx i s. tx;
  user_string = λ a. a;
}

pub toy_factoid-IsFactoid : IsFactoid toy_factoid
toy_factoid-IsFactoid = record {
  new_inputs = λ now. refl;
  new_outputs = λ now. refl;
  new_ec_outputs = λ now. refl;
  inputs-set_input = λ tx i n. refl;
  outputs-set_input = λ tx i n. refl;
  ecs-set_input = λ tx i n. refl;
  inputs-set_output = λ tx i n. refl;
  outputs-set_output = λ tx i n. refl;
  ecs-set_output = λ tx i n. refl;
  inputs-set_ec_output = λ tx i n. refl;
  outputs-set_ec_output = λ tx i n. refl;
  ecs-set_ec_output = λ tx i n. refl;
  inputs-add_input = λ tx a n. refl;
  outputs-add_input = λ tx a n. refl;
  ecs-add_input = λ tx a n. refl;
  inputs-add_output = λ tx a n. refl;
  outputs-add_output = λ tx a n. refl;
  ecs-add_output = λ tx a n. refl;
  inputs-add_ec_output = λ tx a n. refl;
  outputs-add_ec_output = λ tx a n. refl;
  ecs-add_ec_output = λ tx a n. refl;
  inputs-add_rcd = λ tx r. refl;
  outputs-add_rcd = λ tx r. refl;
  ecs-add_rcd = λ tx r. refl;
  total_inputs-sum = λ tx h. cc;
  total_outputs-sum = λ tx h. cc;
  total_ecs-sum = λ tx h. cc;
  validate_amounts-sum = λ a b h. cc;
}

abbrev own_address : Bytes
own_address = replicate 32 5

-- The wallet knows one address, and each address holds 5000 factoshis; the rate is 10.
abbrev pub sources : Sources
sources = record {
  get_fct_address = λ address. ok factoid_address;
  get_factoid_balance = λ address. ok (pos 5000);
  get_rate = ok 10;
}

abbrev own_hash : Bytes
own_hash = rcd_hash toy_crypto factoid_address

-- The string of a public factoid address.
abbrev pub payee : Bytes
payee = FactoidAddress.public_string toy_crypto factoid_address

abbrev pub payee_key : Bytes
payee_key = decoded_key toy_crypto payee

-- 1000 factoshis, of which 200 buy entry credits.
abbrev pub transaction : Transaction
transaction = record {
  inputs = record { address = own_hash; amount = 1000 } ∷ [];
  outputs = record { address = payee_key; amount = 800 } ∷ [];
  ec_outputs = record { address = seed; amount = 200 } ∷ [];
  rcds = seed ∷ [];
}

abbrev pub raised : Transaction
raised = record transaction { inputs = record { address = own_hash; amount = 1120 } ∷ [] }

abbrev pub name : Bytes
name = codes "tx"

abbrev pub txs : Txs toy_factoid
txs = (name, transaction) ∷ []

pub found : lookup name txs ≡ some transaction
unfolding lookup factom.Base.bytes_eq
found = refl

pub fits : sum_amounts transaction.outputs + sum_amounts transaction.ec_outputs < 2 ^ 64
unfolding sum_amounts
fits = omega arith

pub fee-added :
    add_fee toy_factoid toy_crypto sources name payee 10 txs ≡ (ok tt, insert name raised txs)
unfolding add_fee factom.Wallet.Transactions.get_transaction lookup factom.Base.bytes_eq
    factom.Wallet.Building.check_adds_up sum_amounts factom.Wallet.Building.raise_input
    factom.Wallet.Transactions.find_address rcd_hash factom.Address.Rcd.hash factom.Crypto.shad
    set_amount
fee-added = refl

add_fee-balances_example :
    (tx' : Transaction) × (fee : ℕ) × (lookup name (insert name raised txs) ≡ some tx')
    × (ok (12 * 10) ≡ ok fee)
    × (tx'.outputs ≡ transaction.outputs)
    × (tx'.ec_outputs ≡ transaction.ec_outputs)
    × (sum_amounts tx'.inputs ≡ sum_amounts tx'.outputs + sum_amounts tx'.ec_outputs + fee)
add_fee-balances_example =
    add_fee-balances toy_factoid-IsFactoid toy_crypto sources name payee 10 txs transaction found
      fits fee-added
