-- ===== src/Calls/Contract.antt =====
-- Balances of contracts and transfers: fuel-vm/src/interpreter/contract.rs.
use fuel_vm.Reg
use fuel_vm.Prelude.{
  ℕ, Bool, true, false, Option, none, some, ◌&&◌, ◌==◌, if◌then◌else◌, length, checked_add,
  checked_sub, saturating_mul,
}
use fuel_vm.Outcome.{Error, Result, ok, err, panic, PanicReason}
use fuel_vm.Memory.Rollback.{bytes_eq}
use fuel_vm.Vm
use fuel_vm.Vm.Gas
use fuel_vm.Calls.Receipts.{Bytes32, Receipt}
use fuel_vm.Calls.{
  Storage, Interpreter, Parameters, Handler, pure, from_result, gets, on_vm, ◌>>=◌, ◌>>◌, reg, set,
  raise_if, read_id, or_zeroed, internal_contract, push_receipt, check_contract_in_inputs,
  external_asset_id_balance_sub,
}

unfoldable pub contract_size : Storage → Bytes32 → Result ℕ
contract_size storage contract = elim (storage.code contract) [
  | none ↦ err (panic PanicReason.contract_not_found)
  | some code ↦ ok (length code)
]

-- `unwrap_or_default`
abbrev pub or_zero : Option ℕ → ℕ
or_zero none = 0
or_zero (some value) = value

unfoldable pub balance : Storage → Bytes32 → Bytes32 → ℕ
balance storage contract asset_id = or_zero (storage.assets contract asset_id)

-- `contract_asset_id_balance_insert` and `_replace`
unfoldable pub balance_insert : Storage → Bytes32 → Bytes32 → ℕ → Storage
balance_insert storage contract asset_id value = record storage {
  assets =
      λ c a. if bytes_eq contract c && bytes_eq asset_id a then some value else storage.assets c a;
}

abbrev pub is_none : Option ℕ → Bool
is_none none = true
is_none (some n) = false

-- Whether a new entry was created
unfoldable pub balance_increase : Bytes32 → Bytes32 → ℕ → Handler Bool
balance_increase contract asset_id amount s =
    if amount == 0
    then (ok false, s)
    else elim (checked_add (balance s.storage contract asset_id) amount) [
      | none ↦ (err (panic PanicReason.balance_overflow), s)
      | some value ↦ (
        ok (is_none (s.storage.assets contract asset_id)),
        record s { storage = balance_insert s.storage contract asset_id value },
      )
    ]

unfoldable pub balance_decrease : Bytes32 → Bytes32 → ℕ → Handler (Unit {0})
balance_decrease contract asset_id amount s =
    if amount == 0
    then (ok tt, s)
    else elim (checked_sub (balance s.storage contract asset_id) amount) [
      | none ↦ (err (panic PanicReason.not_enough_balance), s)
      | some value ↦
          (ok tt, record s { storage = balance_insert s.storage contract asset_id value })
    ]

-- The source is a contract, or the free balance.
unfoldable pub debit : Option Bytes32 → Bytes32 → ℕ → Handler (Unit {0})
debit (some source_contract) asset_id amount = balance_decrease source_contract asset_id amount
debit none asset_id amount = external_asset_id_balance_sub asset_id amount

-- A new entry costs gas for its 40 bytes.
unfoldable pub charge_new_entry : Parameters → Bool → Handler (Unit {0})
charge_new_entry p false = pure tt
charge_new_entry p true = on_vm (Gas.gas_charge (saturating_mul 40 p.new_storage_per_byte))

-- The part of `prepare_call` (fuel-vm/src/interpreter/flow.rs) in which the coins go from the caller to the callee.
unfoldable pub forward_coins :
    Parameters → Option Bytes32 → Bytes32 → Bytes32 → ℕ → Handler (Unit {0})
forward_coins p source to asset_id amount = do
  debit source asset_id amount
  check_contract_in_inputs to
  created_new_entry ← balance_increase to asset_id amount
  charge_new_entry p created_new_entry

-- An external context is no error here.
unfoldable pub source_contract : Interpreter → Result (Option Bytes32)
source_contract s = elim (internal_contract s) [
  | ok id ↦ ok (some id)
  | err (Error.panic PanicReason.expected_internal_context) ↦ ok none
  | err e ↦ err e
]

unfoldable pub transfer : Parameters → ℕ → ℕ → ℕ → Handler (Unit {0})
transfer p recipient_contract_id_offset amount asset_id_offset = do
  destination ← read_id recipient_contract_id_offset
  asset_id ← read_id asset_id_offset
  check_contract_in_inputs destination
  raise_if (amount == 0) (panic PanicReason.transfer_zero_coins)
  r ← gets source_contract
  internal_context ← from_result r
  debit internal_context asset_id amount
  created_new_entry ← balance_increase destination asset_id amount
  charge_new_entry p created_new_entry
  pc ← reg Reg.pc
  is ← reg Reg.is
  push_receipt p (Receipt.transfer (or_zeroed internal_context) destination amount asset_id pc is)
  on_vm Vm.inc_pc

unfoldable pub contract_balance : ℕ → ℕ → ℕ → Handler (Unit {0})
contract_balance ra b c = do
  result ← on_vm (Vm.write_reg_key ra)
  asset_id ← read_id b
  contract_id ← read_id c
  check_contract_in_inputs contract_id
  value ← gets (λ s. balance s.storage contract_id asset_id)
  set result value
  on_vm Vm.inc_pc

-- The executors of BAL and TR
unfoldable pub execute_bal : Parameters → ℕ → ℕ → ℕ → Handler (Unit {0})
execute_bal p a b c = do
  on_vm (Gas.gas_charge p.bal)
  rb ← reg b
  rc ← reg c
  contract_balance a rb rc

unfoldable pub execute_tr : Parameters → ℕ → ℕ → ℕ → Handler (Unit {0})
execute_tr p a b c = do
  on_vm (Gas.gas_charge p.tr)
  ra ← reg a
  rb ← reg b
  rc ← reg c
  transfer p ra rb rc
