-- ===== src/Vm/WideInt/Execute.antt =====
-- `Execute` for the instructions on wide integers, and their costs:
-- fuel-vm/src/interpreter/executors/opcodes_impl.rs and the fields of `GasCostsValues` of
-- fuel-tx/src/transaction/consensus_parameters/gas.rs. `u128` and `u256` are the two widths.
use fuel_vm.Prelude.{ℕ}
use fuel_vm.Outcome.{panic, PanicReason}
use fuel_vm.Vm.{Action, ◌>>=◌, ◌>>◌, reg, from_option}
use fuel_vm.Vm.Gas.{gas_charge}
use fuel_vm.Vm.WideInt.{
  WideOps, alu_wideint_cmp, alu_wideint_op, alu_wideint_mul, alu_wideint_div, alu_wideint_addmod,
  alu_wideint_mulmod, alu_wideint_muldiv,
}
use fuel_vm.Vm.WideInt.Args.{
  compare_args_from_imm, math_args_from_imm, mul_args_from_imm, div_args_from_imm,
}

pub record WideCosts : Type 0 where
  pub wdcm : ℕ
  pub wqcm : ℕ
  pub wdop : ℕ
  pub wqop : ℕ
  pub wdml : ℕ
  pub wqml : ℕ
  pub wddv : ℕ
  pub wqdv : ℕ
  pub wdmd : ℕ
  pub wqmd : ℕ
  pub wdam : ℕ
  pub wqam : ℕ
  pub wdmm : ℕ
  pub wqmm : ℕ

unfoldable pub execute_wdcm : WideCosts → WideOps → ℕ → ℕ → ℕ → ℕ → Action (Unit {0})
execute_wdcm costs ops a b c imm = do
  gas_charge costs.wdcm
  args ← from_option (compare_args_from_imm imm) (panic PanicReason.invalid_immediate_value)
  lhs ← reg b
  rhs ← reg c
  alu_wideint_cmp ops a lhs rhs args

unfoldable pub execute_wqcm : WideCosts → WideOps → ℕ → ℕ → ℕ → ℕ → Action (Unit {0})
execute_wqcm costs ops a b c imm = do
  gas_charge costs.wqcm
  args ← from_option (compare_args_from_imm imm) (panic PanicReason.invalid_immediate_value)
  lhs ← reg b
  rhs ← reg c
  alu_wideint_cmp ops a lhs rhs args

unfoldable pub execute_wdop : WideCosts → WideOps → ℕ → ℕ → ℕ → ℕ → Action (Unit {0})
execute_wdop costs ops a b c imm = do
  gas_charge costs.wdop
  args ← from_option (math_args_from_imm imm) (panic PanicReason.invalid_immediate_value)
  dest_addr ← reg a
  lhs ← reg b
  rhs ← reg c
  alu_wideint_op ops dest_addr lhs rhs args

unfoldable pub execute_wqop : WideCosts → WideOps → ℕ → ℕ → ℕ → ℕ → Action (Unit {0})
execute_wqop costs ops a b c imm = do
  gas_charge costs.wqop
  args ← from_option (math_args_from_imm imm) (panic PanicReason.invalid_immediate_value)
  dest_addr ← reg a
  lhs ← reg b
  rhs ← reg c
  alu_wideint_op ops dest_addr lhs rhs args

unfoldable pub execute_wdml : WideCosts → WideOps → ℕ → ℕ → ℕ → ℕ → Action (Unit {0})
execute_wdml costs ops a b c imm = do
  gas_charge costs.wdml
  args ← from_option (mul_args_from_imm imm) (panic PanicReason.invalid_immediate_value)
  dest_addr ← reg a
  lhs ← reg b
  rhs ← reg c
  alu_wideint_mul ops dest_addr lhs rhs args

unfoldable pub execute_wqml : WideCosts → WideOps → ℕ → ℕ → ℕ → ℕ → Action (Unit {0})
execute_wqml costs ops a b c imm = do
  gas_charge costs.wqml
  args ← from_option (mul_args_from_imm imm) (panic PanicReason.invalid_immediate_value)
  dest_addr ← reg a
  lhs ← reg b
  rhs ← reg c
  alu_wideint_mul ops dest_addr lhs rhs args

unfoldable pub execute_wddv : WideCosts → WideOps → ℕ → ℕ → ℕ → ℕ → Action (Unit {0})
execute_wddv costs ops a b c imm = do
  gas_charge costs.wddv
  args ← from_option (div_args_from_imm imm) (panic PanicReason.invalid_immediate_value)
  dest_addr ← reg a
  lhs ← reg b
  rhs ← reg c
  alu_wideint_div ops dest_addr lhs rhs args

unfoldable pub execute_wqdv : WideCosts → WideOps → ℕ → ℕ → ℕ → ℕ → Action (Unit {0})
execute_wqdv costs ops a b c imm = do
  gas_charge costs.wqdv
  args ← from_option (div_args_from_imm imm) (panic PanicReason.invalid_immediate_value)
  dest_addr ← reg a
  lhs ← reg b
  rhs ← reg c
  alu_wideint_div ops dest_addr lhs rhs args

unfoldable pub execute_wdmd : WideCosts → WideOps → ℕ → ℕ → ℕ → ℕ → Action (Unit {0})
execute_wdmd costs ops a b c d = do
  gas_charge costs.wdmd
  dest_addr ← reg a
  lhs ← reg b
  rhs ← reg c
  third ← reg d
  alu_wideint_muldiv ops dest_addr lhs rhs third

unfoldable pub execute_wqmd : WideCosts → WideOps → ℕ → ℕ → ℕ → ℕ → Action (Unit {0})
execute_wqmd costs ops a b c d = do
  gas_charge costs.wqmd
  dest_addr ← reg a
  lhs ← reg b
  rhs ← reg c
  third ← reg d
  alu_wideint_muldiv ops dest_addr lhs rhs third

unfoldable pub execute_wdam : WideCosts → WideOps → ℕ → ℕ → ℕ → ℕ → Action (Unit {0})
execute_wdam costs ops a b c d = do
  gas_charge costs.wdam
  dest_addr ← reg a
  lhs ← reg b
  rhs ← reg c
  third ← reg d
  alu_wideint_addmod ops dest_addr lhs rhs third

unfoldable pub execute_wqam : WideCosts → WideOps → ℕ → ℕ → ℕ → ℕ → Action (Unit {0})
execute_wqam costs ops a b c d = do
  gas_charge costs.wqam
  dest_addr ← reg a
  lhs ← reg b
  rhs ← reg c
  third ← reg d
  alu_wideint_addmod ops dest_addr lhs rhs third

unfoldable pub execute_wdmm : WideCosts → WideOps → ℕ → ℕ → ℕ → ℕ → Action (Unit {0})
execute_wdmm costs ops a b c d = do
  gas_charge costs.wdmm
  dest_addr ← reg a
  lhs ← reg b
  rhs ← reg c
  third ← reg d
  alu_wideint_mulmod ops dest_addr lhs rhs third

unfoldable pub execute_wqmm : WideCosts → WideOps → ℕ → ℕ → ℕ → ℕ → Action (Unit {0})
execute_wqmm costs ops a b c d = do
  gas_charge costs.wqmm
  dest_addr ← reg a
  lhs ← reg b
  rhs ← reg c
  third ← reg d
  alu_wideint_mulmod ops dest_addr lhs rhs third

pub data WideInstruction : Type 0 where
  wdcm wqcm wdop wqop wdml wqml wddv wqdv wdmd wqmd wdam wqam wdmm wqmm :
      ℕ → ℕ → ℕ → ℕ → WideInstruction

unfoldable pub execute_wide : WideCosts → WideOps → WideOps → WideInstruction → Action (Unit {0})
execute_wide costs u128 u256 (WideInstruction.wdcm a b c imm) = execute_wdcm costs u128 a b c imm
execute_wide costs u128 u256 (WideInstruction.wqcm a b c imm) = execute_wqcm costs u256 a b c imm
execute_wide costs u128 u256 (WideInstruction.wdop a b c imm) = execute_wdop costs u128 a b c imm
execute_wide costs u128 u256 (WideInstruction.wqop a b c imm) = execute_wqop costs u256 a b c imm
execute_wide costs u128 u256 (WideInstruction.wdml a b c imm) = execute_wdml costs u128 a b c imm
execute_wide costs u128 u256 (WideInstruction.wqml a b c imm) = execute_wqml costs u256 a b c imm
execute_wide costs u128 u256 (WideInstruction.wddv a b c imm) = execute_wddv costs u128 a b c imm
execute_wide costs u128 u256 (WideInstruction.wqdv a b c imm) = execute_wqdv costs u256 a b c imm
execute_wide costs u128 u256 (WideInstruction.wdmd a b c d) = execute_wdmd costs u128 a b c d
execute_wide costs u128 u256 (WideInstruction.wqmd a b c d) = execute_wqmd costs u256 a b c d
execute_wide costs u128 u256 (WideInstruction.wdam a b c d) = execute_wdam costs u128 a b c d
execute_wide costs u128 u256 (WideInstruction.wqam a b c d) = execute_wqam costs u256 a b c d
execute_wide costs u128 u256 (WideInstruction.wdmm a b c d) = execute_wdmm costs u128 a b c d
execute_wide costs u128 u256 (WideInstruction.wqmm a b c d) = execute_wqmm costs u256 a b c d
