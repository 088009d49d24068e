-- ===== src/Calls/Mint.antt =====
-- New coins of a contract, and coins that it takes out of the world: `mint` and `burn` of
-- fuel-vm/src/interpreter/blockchain.rs.
pub mod Supply
use fuel_vm.Reg
use fuel_vm.Prelude.{ℕ, none, some, ◌++◌, Bool, checked_add, checked_sub}
use fuel_vm.Outcome.{ok, err, panic, PanicReason}
use fuel_vm.Vm
use fuel_vm.Vm.Gas
use fuel_vm.Calls.Receipts.{Bytes32, Receipt}
use fuel_vm.Calls.{
  Parameters, Handler, from_result, gets, on_vm, ◌>>=◌, ◌>>◌, reg, read_id, internal_contract,
  push_receipt,
}
use fuel_vm.Calls.Contract.{balance, balance_insert, is_none, charge_new_entry}

-- The asset of a contract
unfoldable pub asset_id : Parameters → Bytes32 → Bytes32 → Bytes32
asset_id p contract_id sub_id = p.sha256 (contract_id ++ sub_id)

-- Whether a new entry was created
unfoldable pub add_coins : Bytes32 → Bytes32 → ℕ → Handler Bool
add_coins contract_id asset a s = elim (checked_add (balance s.storage contract_id asset) a) [
  | none ↦ (err (panic PanicReason.balance_overflow), s)
  | some value ↦ (
    ok (is_none (s.storage.assets contract_id asset)),
    record s { storage = balance_insert s.storage contract_id asset value },
  )
]

unfoldable pub remove_coins : Bytes32 → Bytes32 → ℕ → Handler (Unit {0})
remove_coins contract_id asset a s = elim (checked_sub (balance s.storage contract_id asset) a) [
  | none ↦ (err (panic PanicReason.not_enough_balance), s)
  | some value ↦ (ok tt, record s { storage = balance_insert s.storage contract_id asset value })
]

unfoldable pub mint : Parameters → ℕ → ℕ → Handler (Unit {0})
mint p a b = do
  r ← gets internal_contract
  contract_id ← from_result r
  sub_id ← read_id b
  created_new_entry ← add_coins contract_id (asset_id p contract_id sub_id) a
  charge_new_entry p created_new_entry
  pc ← reg Reg.pc
  is ← reg Reg.is
  push_receipt p (Receipt.mint sub_id contract_id a pc is)
  on_vm Vm.inc_pc

unfoldable pub burn : Parameters → ℕ → ℕ → Handler (Unit {0})
burn p a b = do
  r ← gets internal_contract
  contract_id ← from_result r
  sub_id ← read_id b
  remove_coins contract_id (asset_id p contract_id sub_id) a
  pc ← reg Reg.pc
  is ← reg Reg.is
  push_receipt p (Receipt.burn sub_id contract_id a pc is)
  on_vm Vm.inc_pc

-- The executors of MINT and BURN
unfoldable pub execute_mint : Parameters → ℕ → ℕ → Handler (Unit {0})
execute_mint p a b = do on_vm (Gas.gas_charge p.mint); ra ← reg a; rb ← reg b; mint p ra rb

unfoldable pub execute_burn : Parameters → ℕ → ℕ → Handler (Unit {0})
execute_burn p a b = do on_vm (Gas.gas_charge p.burn); ra ← reg a; rb ← reg b; burn p ra rb
