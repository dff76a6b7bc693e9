-- ===== src/Wallet/Factoid.antt =====
-- The transactions of factomd (FactomProject/factomd/common/factoid), which the wallet builds and
-- does not implement: a parameter, with what the wallet relies on.
use factom.Base.{ℕ, zero, suc, ◌+◌, ◌≡◌, List, [], ◌∷◌, ◌++◌, Bytes, Result, ok}

-- An address with an amount, as `GetAddress` and `GetAmount` give them.
pub record TransAddress : Type 0 where
  pub address : Bytes
  pub amount : ℕ

-- The list with the amount at an index set.
unfoldable pub set_amount : List TransAddress → ℕ → ℕ → List TransAddress
set_amount [] i amount = []
set_amount (t ∷ ts) zero amount = record t { amount = amount } ∷ ts
set_amount (t ∷ ts) (suc i) amount = t ∷ set_amount ts i amount

-- The sum of the amounts.
unfoldable pub sum_amounts : List TransAddress → ℕ
sum_amounts [] = 0
sum_amounts (t ∷ ts) = t.amount + sum_amounts ts

pub record Factoid : Type 1 where
  pub Tx : Type 0
  -- `new(factoid.Transaction)` with its timestamp set
  pub new_tx : ℕ → Tx
  -- `GetInputs`, `GetOutputs`, `GetECOutputs`
  pub inputs : Tx → List TransAddress
  pub outputs : Tx → List TransAddress
  pub ec_outputs : Tx → List TransAddress
  -- `SetAmount` on the input, output or EC output at an index
  pub set_input : Tx → ℕ → ℕ → Tx
  pub set_output : Tx → ℕ → ℕ → Tx
  pub set_ec_output : Tx → ℕ → ℕ → Tx
  -- `AddInput`, `AddOutput`, `AddECOutput`, `AddRCD`
  pub add_input : Tx → Bytes → ℕ → Tx
  pub add_output : Tx → Bytes → ℕ → Tx
  pub add_ec_output : Tx → Bytes → ℕ → Tx
  pub add_rcd : Tx → Bytes → Tx
  -- `TotalInputs`, `TotalOutputs`, `TotalECs`, `CalculateFee`, and `factoid.ValidateAmounts` of two
  pub total_inputs : Tx → Result ℕ
  pub total_outputs : Tx → Result ℕ
  pub total_ecs : Tx → Result ℕ
  pub calculate_fee : Tx → ℕ → Result ℕ
  pub validate_amounts : ℕ → ℕ → Result ℕ
  -- `MarshalBinarySig`, `MarshalBinary`, `UnmarshalBinary`
  pub marshal_binary_sig : Tx → Result Bytes
  pub marshal_binary : Tx → Result Bytes
  pub unmarshal_binary : Bytes → Result Tx
  -- `GetRCDs`, each by what `GetAddress` of it returns
  pub rcd_addresses : Tx → List (Result Bytes)
  -- `NewSingleSignatureBlock` and `SetSignatureBlock`
  pub new_signature : Bytes → Bytes → Bytes
  pub set_signature : Tx → ℕ → Bytes → Tx
  -- `ConvertFctAddressToUserStr`, which `GetUserAddress` returns too
  pub user_string : Bytes → Bytes

-- What the wallet relies on.
pub record IsFactoid (f : Factoid) : Type 0 where
  pub new_inputs : (now : ℕ) → f.inputs (f.new_tx now) ≡ []
  pub new_outputs : (now : ℕ) → f.outputs (f.new_tx now) ≡ []
  pub new_ec_outputs : (now : ℕ) → f.ec_outputs (f.new_tx now) ≡ []
  -- an amount is set, or a pair added at the end, and the other two lists stay
  pub inputs-set_input :
      (tx : f.Tx) (i n : ℕ) → f.inputs (f.set_input tx i n) ≡ set_amount (f.inputs tx) i n
  pub outputs-set_input : (tx : f.Tx) (i n : ℕ) → f.outputs (f.set_input tx i n) ≡ f.outputs tx
  pub ecs-set_input : (tx : f.Tx) (i n : ℕ) → f.ec_outputs (f.set_input tx i n) ≡ f.ec_outputs tx
  pub inputs-set_output : (tx : f.Tx) (i n : ℕ) → f.inputs (f.set_output tx i n) ≡ f.inputs tx
  pub outputs-set_output :
      (tx : f.Tx) (i n : ℕ) → f.outputs (f.set_output tx i n) ≡ set_amount (f.outputs tx) i n
  pub ecs-set_output : (tx : f.Tx) (i n : ℕ) → f.ec_outputs (f.set_output tx i n) ≡ f.ec_outputs tx
  pub inputs-set_ec_output : (tx : f.Tx) (i n : ℕ) → f.inputs (f.set_ec_output tx i n) ≡ f.inputs tx
  pub outputs-set_ec_output :
      (tx : f.Tx) (i n : ℕ) → f.outputs (f.set_ec_output tx i n) ≡ f.outputs tx
  pub ecs-set_ec_output :
      (tx : f.Tx) (i n : ℕ)
      → f.ec_outputs (f.set_ec_output tx i n) ≡ set_amount (f.ec_outputs tx) i n
  pub inputs-add_input :
      (tx : f.Tx) (a : Bytes) (n : ℕ)
      → f.inputs (f.add_input tx a n) ≡ f.inputs tx ++ record { address = a; amount = n } ∷ []
  pub outputs-add_input :
      (tx : f.Tx) (a : Bytes) (n : ℕ) → f.outputs (f.add_input tx a n) ≡ f.outputs tx
  pub ecs-add_input :
      (tx : f.Tx) (a : Bytes) (n : ℕ) → f.ec_outputs (f.add_input tx a n) ≡ f.ec_outputs tx
  pub inputs-add_output :
      (tx : f.Tx) (a : Bytes) (n : ℕ) → f.inputs (f.add_output tx a n) ≡ f.inputs tx
  pub outputs-add_output :
      (tx : f.Tx) (a : Bytes) (n : ℕ)
      → f.outputs (f.add_output tx a n) ≡ f.outputs tx ++ record { address = a; amount = n } ∷ []
  pub ecs-add_output :
      (tx : f.Tx) (a : Bytes) (n : ℕ) → f.ec_outputs (f.add_output tx a n) ≡ f.ec_outputs tx
  pub inputs-add_ec_output :
      (tx : f.Tx) (a : Bytes) (n : ℕ) → f.inputs (f.add_ec_output tx a n) ≡ f.inputs tx
  pub outputs-add_ec_output :
      (tx : f.Tx) (a : Bytes) (n : ℕ) → f.outputs (f.add_ec_output tx a n) ≡ f.outputs tx
  pub ecs-add_ec_output :
      (tx : f.Tx) (a : Bytes) (n : ℕ)
      → f.ec_outputs (f.add_ec_output tx a n)
        ≡ f.ec_outputs tx ++ record { address = a; amount = n } ∷ []
  -- RCDs are kept beside the three lists
  pub inputs-add_rcd : (tx : f.Tx) (r : Bytes) → f.inputs (f.add_rcd tx r) ≡ f.inputs tx
  pub outputs-add_rcd : (tx : f.Tx) (r : Bytes) → f.outputs (f.add_rcd tx r) ≡ f.outputs tx
  pub ecs-add_rcd : (tx : f.Tx) (r : Bytes) → f.ec_outputs (f.add_rcd tx r) ≡ f.ec_outputs tx
  -- a total that is returned is the sum
  pub total_inputs-sum :
      (tx : f.Tx) {n : ℕ} → f.total_inputs tx ≡ ok n → n ≡ sum_amounts (f.inputs tx)
  pub total_outputs-sum :
      (tx : f.Tx) {n : ℕ} → f.total_outputs tx ≡ ok n → n ≡ sum_amounts (f.outputs tx)
  pub total_ecs-sum :
      (tx : f.Tx) {n : ℕ} → f.total_ecs tx ≡ ok n → n ≡ sum_amounts (f.ec_outputs tx)
  pub validate_amounts-sum : (a b : ℕ) {n : ℕ} → f.validate_amounts a b ≡ ok n → n ≡ a + b
