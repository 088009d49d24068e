-- ===== src/Calls/Log.antt =====
-- Logs: fuel-vm/src/interpreter/log.rs.
use fuel_vm.Reg
use fuel_vm.Prelude.{ℕ, some, length}
use fuel_vm.Memory.{read}
use fuel_vm.Vm
use fuel_vm.Vm.Gas
use fuel_vm.Calls.Receipts.{Receipt}
use fuel_vm.Calls.{
  Parameters, Handler, from_result, gets, on_vm, ◌>>=◌, ◌>>◌, reg, internal_contract_or_zeroed,
  push_receipt,
}

unfoldable pub log : Parameters → ℕ → ℕ → ℕ → ℕ → Handler (Unit {0})
log p a b c d = do
  id ← gets internal_contract_or_zeroed
  pc ← reg Reg.pc
  is ← reg Reg.is
  push_receipt p (Receipt.log id a b c d pc is)
  on_vm Vm.inc_pc

-- `Receipt::log_data` has the digest of the bytes.
unfoldable pub log_data : Parameters → ℕ → ℕ → ℕ → ℕ → Handler (Unit {0})
log_data p a b c d = do
  r ← gets (λ s. read s.vm.memory c d)
  bytes ← from_result r
  id ← gets internal_contract_or_zeroed
  pc ← reg Reg.pc
  is ← reg Reg.is
  push_receipt p (Receipt.log_data id a b c (length bytes) (p.sha256 bytes) pc is (some bytes))
  on_vm Vm.inc_pc

-- The executors of LOG and LOGD
unfoldable pub execute_log : Parameters → ℕ → ℕ → ℕ → ℕ → Handler (Unit {0})
execute_log p a b c d = do
  on_vm (Gas.gas_charge p.log)
  ra ← reg a
  rb ← reg b
  rc ← reg c
  rd ← reg d
  log p ra rb rc rd

unfoldable pub execute_logd : Parameters → ℕ → ℕ → ℕ → ℕ → Handler (Unit {0})
execute_logd p a b c d = do
  len ← reg d
  on_vm (Gas.dependent_gas_charge p.logd len)
  ra ← reg a
  rb ← reg b
  rc ← reg c
  rd ← reg d
  log_data p ra rb rc rd
