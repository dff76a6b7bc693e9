-- ===== src/Wallet/Totals.antt =====
-- What the fee operations and the fee check do to the totals of a transaction.
use factom.Base.{
  refl, ◌>>=◌, >>=-eq-ok, ℕ, ◌+◌, ◌*◌, ◌^◌, ◌≤◌, ◌<◌, ◌≡◌, ◌↔◌, inl, inr, some, List, [], ◌∷◌,
  arith, Bytes, Result, ok, Option-cases,
}
use factom.Base.Int.{
  pos_part, neg_part, negsuc, -ℤ_parts, -ℤ_bounds, ℤ, pos, ◌-ℤ◌, ◌*ℤ◌, signed64, wrap64,
}
use factom.Wallet.Factoid.{Factoid, IsFactoid, TransAddress, set_amount, sum_amounts}
use factom.Wallet.Transactions.{find_address}
use factom.Wallet.Building.{raise_input, check_adds_up}
use factom.Wallet.Signing.{fee_paid, ten_times, check_paid}

-- Setting the amount that was found changes the sum by the difference.
pub sum-set_amount :
    (adr : Bytes) (ts : List TransAddress) (n : ℕ) {i amount : ℕ}
    → find_address adr ts ≡ some (i, amount)
    → sum_amounts (set_amount ts i n) + amount ≡ sum_amounts ts + n
unfolding find_address set_amount sum_amounts
sum-set_amount adr [] n h = cc
sum-set_amount adr (t ∷ ts) n {i} {amount} h = elim (Option-cases (find_address adr ts)) [
  | inl absent ↦ ground (arith, absent, h)
  | inr (p, found) ↦ ground (arith, found, h, sum-set_amount adr ts n found)
]

wrap64-small : (z : ℤ) → pos_part z < 2 ^ 63 → neg_part z ≤ 2 ^ 63 → wrap64 z ≡ z
wrap64-small (pos n) h k = ground arith
wrap64-small (negsuc n) h k = ground arith

-- The fee that is paid, of totals that are no danger to an int64.
fee_paid_parts :
    (ins outs ecs : ℕ)
    → ins < 2 ^ 62
    → outs < 2 ^ 62
    → ecs < 2 ^ 62
    → pos_part (fee_paid ins outs ecs) + outs + ecs ≡ neg_part (fee_paid ins outs ecs) + ins
unfolding fee_paid
fee_paid_parts ins outs ecs hi ho he =
    let a = pos ins -ℤ pos outs in
    let b = a -ℤ pos ecs in
    let exact_ins : signed64 ins ≡ pos ins = ground arith in
    let exact_outs : signed64 outs ≡ pos outs = ground arith in
    let exact_ecs : signed64 ecs ≡ pos ecs = ground arith in
    let (a1, a2) = -ℤ_bounds (pos ins) outs in
    let (b1, b2) = -ℤ_bounds a ecs in
    rw
      (
        exact_ins,
        exact_outs,
        exact_ecs,
        wrap64-small a (omega arith) (omega arith),
        wrap64-small b (omega arith) (omega arith),
      )
      (omega (arith, -ℤ_parts a (pos ecs), -ℤ_parts (pos ins) (pos outs)))

ten_times-small : (due : ℕ) → due < 2 ^ 59 → ten_times (pos due) ≡ pos (due * 10)
unfolding ten_times ◌*ℤ◌
ten_times-small due h = ground arith

-- With totals below 2^62, a rate, and a due fee of it below 2^59, the check passes exactly if a fee
-- is due, and what the inputs exceed the outputs by is at least that fee and less than ten times as
-- much.
pub check_paid_iff :
    (ins outs ecs r due : ℕ) (calculate : ℕ → Result ℕ)
    → ins < 2 ^ 62
    → outs < 2 ^ 62
    → ecs < 2 ^ 62
    → due < 2 ^ 59
    → calculate r ≡ ok due
    → (check_paid ins outs ecs (ok r) calculate ≡ ok tt)
      ↔ ((0 < due) × (outs + ecs + due ≤ ins) × (ins < outs + ecs + 10 * due))
unfolding check_paid
check_paid_iff ins outs ecs r due calculate hi ho he hd e =
    let parts = fee_paid_parts ins outs ecs hi ho he in
    let exact : signed64 due ≡ pos due = ground arith in
    rw (e, exact, ten_times-small due hd)
      (λ h. ground (arith, parts, h), λ h. ground (arith, parts, h.0, h.1, h.2))

-- The totals agree, if their sum is a uint64.
pub check_adds_up-sum :
    {f : Factoid} (laws : IsFactoid f) (tx : f.Tx)
    → sum_amounts (f.outputs tx) + sum_amounts (f.ec_outputs tx) < 2 ^ 64
    → check_adds_up f tx ≡ ok tt
    → sum_amounts (f.inputs tx) ≡ sum_amounts (f.outputs tx) + sum_amounts (f.ec_outputs tx)
unfolding check_adds_up
check_adds_up-sum {f} laws tx fits h =
    let (ins, ti, h1) = >>=-eq-ok (f.total_inputs tx) _ h in
    let (outs, to, h2) = >>=-eq-ok (f.total_outputs tx) _ h1 in
    let (ecs, te, h3) = >>=-eq-ok (f.total_ecs tx) _ h2 in
    ground (
      arith,
      laws.total_inputs-sum tx ti,
      laws.total_outputs-sum tx to,
      laws.total_ecs-sum tx te,
      h3,
    )

pub raise_input-sum :
    {f : Factoid} (laws : IsFactoid f) (adr : Bytes) (fee : ℕ) (tx : f.Tx) {tx' : f.Tx}
    → raise_input f adr fee tx ≡ ok tx'
    → (sum_amounts (f.inputs tx') ≡ sum_amounts (f.inputs tx) + fee)
      × (f.outputs tx' ≡ f.outputs tx)
      × (f.ec_outputs tx' ≡ f.ec_outputs tx)
unfolding raise_input
raise_input-sum {f} laws adr fee tx {tx'} h = elim (Option-cases (find_address adr (f.inputs tx))) [
  | inl absent ↦ ground (arith, absent, h)
  | inr (p, found) ↦
      let h1 : f.validate_amounts p.1 fee >>= (λ amt. ok (f.set_input tx p.0 amt)) ≡ ok tx' =
        cc (found, h) in
      let (amt, v, h2) = >>=-eq-ok (f.validate_amounts p.1 fee) _ h1 in
      let e : f.set_input tx p.0 amt ≡ tx' = cc in
      let s = sum-set_amount adr (f.inputs tx) amt found in
      rw (← e, laws.inputs-set_input, laws.outputs-set_input, laws.ecs-set_input)
        (omega (arith, s, laws.validate_amounts-sum p.1 fee v), refl, refl)
]

-- An amount that was found is at most the sum.
pub find_address-le :
    (adr : Bytes) (ts : List TransAddress) {i amount : ℕ}
    → find_address adr ts ≡ some (i, amount)
    → amount ≤ sum_amounts ts
unfolding find_address sum_amounts
find_address-le adr [] h = cc
find_address-le adr (t ∷ ts) {i} {amount} h = elim (Option-cases (find_address adr ts)) [
  | inl absent ↦ ground (arith, absent, h)
  | inr (p, found) ↦ ground (arith, found, h, find_address-le adr ts found)
]
