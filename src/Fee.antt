-- ===== src/Fee.antt =====
-- The fees of a transaction: fuel-tx/src/transaction/fee.rs. The types of transactions are an
-- record of what the fees read, with the kind that overrides the gas in `types/script.rs` and
-- `types/upload.rs`; inputs are cut to those fields as well.
pub mod Bounds
pub mod Tests
use fuel_vm.Prelude.{
  ℕ, zero, suc, ◌+◌, ◌-◌, ◌*◌, ◌/◌, ◌%◌, ◌^◌, Bool, true, false, min, Option, none, some, List, [],
  ◌∷◌, ltb, leb, ◌==◌, if◌then◌else◌, word_max, saturating_add, saturating_mul, checked_sub,
  get_elem?,
}
use fuel_vm.Outcome.{Result, ok, err, crash, ◌>>=◌}
use fuel_vm.Vm.Gas.{DependentCost, resolve}

pub data Input : Type 0 where
  coin_signed message_coin_signed message_data_signed : ℕ → Input
  coin_predicate message_coin_predicate message_data_predicate : ℕ → ℕ → Input
  contract : Input

pub record FeeCosts : Type 0 where
  pub eck1 : ℕ
  pub contract_root : DependentCost
  pub vm_initialization : DependentCost
  pub new_storage_per_byte : ℕ

pub record FeeParameters : Type 0 where
  pub gas_price_factor : ℕ
  pub gas_per_byte : ℕ

-- The types that are charged. A script has its gas limit, and an upload the index of the witness with
-- the bytecode.
pub data Kind : Type 0 where
  create upgrade blob : Kind
  script upload : ℕ → Kind

pub record Chargeable : Type 0 where
  pub kind : Kind
  pub inputs : List Input
  pub tip_policy : Option ℕ
  pub witness_limit_policy : Option ℕ
  pub max_fee_policy : Option ℕ
  pub witness_lens : List ℕ
  pub witnesses_size : ℕ
  pub metered_bytes_size : ℕ
  pub gas_used_by_metadata : FeeCosts → ℕ

abbrev pub unwrap_or_zero : Option ℕ → ℕ
unwrap_or_zero none = 0
unwrap_or_zero (some n) = n

abbrev pub tip : Chargeable → ℕ
tip tx = unwrap_or_zero tx.tip_policy

abbrev pub witness_limit : Chargeable → ℕ
witness_limit tx = unwrap_or_zero tx.witness_limit_policy

abbrev pub max_fee_limit : Chargeable → ℕ
max_fee_limit tx = unwrap_or_zero tx.max_fee_policy

pub record TransactionFee : Type 0 where
  pub min_fee : ℕ
  pub max_fee : ℕ
  pub min_gas : ℕ
  pub max_gas : ℕ

abbrev pub double_max : ℕ
double_max = 2 ^ 128 - 1

-- `u128::div_ceil`, which stops the host on a zero
unfoldable pub div_ceil : ℕ → ℕ → Result ℕ
div_ceil a b = if b == 0 then err crash else if a % b == 0 then ok (a / b) else ok (a / b + 1)

-- `u128::checked_mul` with its `expect`
unfoldable pub expect_mul : ℕ → ℕ → Result ℕ
expect_mul a b = if leb (a * b) double_max then ok (a * b) else err crash

unfoldable pub gas_to_fee : ℕ → ℕ → ℕ → Result ℕ
gas_to_fee gas gas_price factor = do
  total_price ← expect_mul gas gas_price
  div_ceil total_price factor

contains : List ℕ → ℕ → Bool
contains [] i = false
contains (x ∷ xs) i = if x == i then true else contains xs i

-- The inputs that are charged, from the witnesses met so far
unfoldable pub charged_inputs : List ℕ → List Input → List Input
unfolding contains
charged_inputs cache [] = []
charged_inputs cache (coin_signed i ∷ rest) =
    let old = charged_inputs cache rest in
    let new = charged_inputs (i ∷ cache) rest in
    if contains cache i then old else coin_signed i ∷ new
charged_inputs cache (message_coin_signed i ∷ rest) =
    let old = charged_inputs cache rest in
    let new = charged_inputs (i ∷ cache) rest in
    if contains cache i then old else message_coin_signed i ∷ new
charged_inputs cache (message_data_signed i ∷ rest) =
    let old = charged_inputs cache rest in
    let new = charged_inputs (i ∷ cache) rest in
    if contains cache i then old else message_data_signed i ∷ new
charged_inputs cache (coin_predicate n g ∷ rest) = coin_predicate n g ∷ charged_inputs cache rest
charged_inputs cache (message_coin_predicate n g ∷ rest) =
    message_coin_predicate n g ∷ charged_inputs cache rest
charged_inputs cache (message_data_predicate n g ∷ rest) =
    message_data_predicate n g ∷ charged_inputs cache rest
charged_inputs cache (contract ∷ rest) = charged_inputs cache rest

unfoldable pub predicate_gas : FeeCosts → ℕ → ℕ → ℕ → Result ℕ
predicate_gas gas_costs bytes_size predicate_len predicate_gas_used = do
  vm_initialization_gas ← resolve gas_costs.vm_initialization bytes_size
  root ← resolve gas_costs.contract_root predicate_len
  ok (saturating_add (saturating_add root predicate_gas_used) vm_initialization_gas)

unfoldable pub input_gas : FeeCosts → ℕ → Input → Result ℕ
input_gas gas_costs bytes_size (coin_signed i) = ok gas_costs.eck1
input_gas gas_costs bytes_size (message_coin_signed i) = ok gas_costs.eck1
input_gas gas_costs bytes_size (message_data_signed i) = ok gas_costs.eck1
input_gas gas_costs bytes_size (coin_predicate n g) = predicate_gas gas_costs bytes_size n g
input_gas gas_costs bytes_size (message_coin_predicate n g) = predicate_gas gas_costs bytes_size n g
input_gas gas_costs bytes_size (message_data_predicate n g) = predicate_gas gas_costs bytes_size n g
input_gas gas_costs bytes_size contract = ok 0

unfoldable pub sum_gas : FeeCosts → ℕ → ℕ → List Input → Result ℕ
sum_gas gas_costs bytes_size acc [] = ok acc
sum_gas gas_costs bytes_size acc (input ∷ rest) = do
  cost ← input_gas gas_costs bytes_size input
  sum_gas gas_costs bytes_size (saturating_add acc cost) rest

unfoldable pub gas_used_by_inputs : Chargeable → FeeCosts → Result ℕ
gas_used_by_inputs tx gas_costs =
    sum_gas gas_costs tx.metered_bytes_size 0 (charged_inputs [] tx.inputs)

unfoldable pub min_gas : Chargeable → FeeCosts → FeeParameters → Result ℕ
min_gas tx gas_costs fee = do
  vm_initialization_gas ← resolve gas_costs.vm_initialization tx.metered_bytes_size
  inputs_gas ← gas_used_by_inputs tx gas_costs
  ok (
      saturating_add
        (saturating_add (saturating_add inputs_gas (tx.gas_used_by_metadata gas_costs))
          (saturating_mul fee.gas_per_byte tx.metered_bytes_size))
        vm_initialization_gas)

-- What an upload pays for the storage that its bytecode takes
unfoldable pub storage_charge : Kind → List ℕ → FeeCosts → ℕ
storage_charge (upload i) lens gas_costs =
    saturating_mul gas_costs.new_storage_per_byte (unwrap_or_zero (get_elem? lens i))
storage_charge _ lens gas_costs = 0

-- `Chargeable::min_gas`, which `Upload` overrides
unfoldable pub tx_min_gas : Chargeable → FeeCosts → FeeParameters → Result ℕ
tx_min_gas tx gas_costs fee = do
  gas ← min_gas tx gas_costs fee
  ok (saturating_add gas (storage_charge tx.kind tx.witness_lens gas_costs))

unfoldable pub script_gas_limit : Kind → ℕ
script_gas_limit (script limit) = limit
script_gas_limit _ = 0

-- `Chargeable::max_gas`, which `Script` overrides
unfoldable pub max_gas : Chargeable → FeeCosts → FeeParameters → Result ℕ
max_gas tx gas_costs fee = do
  gas ← tx_min_gas tx gas_costs fee
  ok (
      saturating_add
        (saturating_add gas
          (saturating_mul (witness_limit tx - tx.witnesses_size) fee.gas_per_byte))
        (script_gas_limit tx.kind))

-- A fee of `u128`, with the tip
unfoldable pub fee_with_tip : Chargeable → FeeParameters → ℕ → ℕ → Result ℕ
fee_with_tip tx fee gas gas_price = do
  gas_fee ← gas_to_fee gas gas_price fee.gas_price_factor
  ok (min (gas_fee + tip tx) double_max)

unfoldable pub min_fee : Chargeable → FeeCosts → FeeParameters → ℕ → Result ℕ
min_fee tx gas_costs fee gas_price = do
  gas ← tx_min_gas tx gas_costs fee
  fee_with_tip tx fee gas gas_price

unfoldable pub max_fee : Chargeable → FeeCosts → FeeParameters → ℕ → Result ℕ
max_fee tx gas_costs fee gas_price = do
  gas ← max_gas tx gas_costs fee
  fee_with_tip tx fee gas gas_price

-- The two fees as words, and in order
unfoldable pub checked_fee : ℕ → ℕ → ℕ → ℕ → Option TransactionFee
checked_fee least most gas gas_limit =
    if ltb word_max least
    then none
    else if ltb word_max most
    then none
    else if ltb most least
    then none
    else some (record { min_fee = least; max_fee = most; min_gas = gas; max_gas = gas_limit })

-- The greatest fee is computed once the least fits a word.
unfoldable pub checked_most : ℕ → ℕ → ℕ → Result ℕ → Result (Option TransactionFee)
checked_most least gas gas_limit max_fee =
    if ltb word_max least
    then ok none
    else (max_fee >>= (λ (most : ℕ). ok (checked_fee least most gas gas_limit)))

unfoldable pub checked_from_tx :
    FeeCosts → FeeParameters → Chargeable → ℕ → Result (Option TransactionFee)
checked_from_tx gas_costs params tx gas_price = do
  gas ← tx_min_gas tx gas_costs params
  gas_limit ← max_gas tx gas_costs params
  least ← min_fee tx gas_costs params gas_price
  checked_most least gas gas_limit (max_fee tx gas_costs params gas_price)

unfoldable pub refund : ℕ → ℕ → Option ℕ
refund limit used_fee = if ltb word_max used_fee then none else checked_sub limit used_fee

unfoldable pub refund_fee : Chargeable → FeeCosts → FeeParameters → ℕ → ℕ → Result (Option ℕ)
refund_fee tx gas_costs fee used_gas gas_price = do
  gas ← tx_min_gas tx gas_costs fee
  used_fee ← fee_with_tip tx fee (saturating_add gas used_gas) gas_price
  ok (refund (max_fee_limit tx) used_fee)
