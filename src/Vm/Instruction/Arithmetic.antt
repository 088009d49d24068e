-- ===== src/Vm/Instruction/Arithmetic.antt =====
-- `Execute` for the arithmetic instructions of fuel-vm/src/interpreter/executors/opcodes_impl.rs.
-- Each takes its operands unpacked: a register's number or an immediate value.
use fuel_vm.Prelude.{ℕ, ◌/◌, ◌%◌, ◌==◌}
use fuel_vm.Vm.{Action, ◌>>=◌, ◌>>◌, reg}
use fuel_vm.Vm.Gas.{gas_charge}
use fuel_vm.Vm.Gas.Costs.{GasCosts}
use fuel_vm.Vm.Alu.{
  alu_capture_overflow, alu_boolean_overflow, alu_error, alu_muldiv, exp, overflowing_pow,
  overflowing_add_u128, overflowing_sub_u128, overflowing_mul_u128,
}

unfoldable pub execute_add : GasCosts → ℕ → ℕ → ℕ → Action (Unit {0})
execute_add costs a b c = do
  gas_charge costs.add
  alu_capture_overflow a overflowing_add_u128 (← reg b) (← reg c)

unfoldable pub execute_addi : GasCosts → ℕ → ℕ → ℕ → Action (Unit {0})
execute_addi costs a b imm = do
  gas_charge costs.addi
  alu_capture_overflow a overflowing_add_u128 (← reg b) imm

unfoldable pub execute_div : GasCosts → ℕ → ℕ → ℕ → Action (Unit {0})
execute_div costs a b c = do
  gas_charge costs.div
  rc ← reg c
  alu_error a ◌/◌ (← reg b) rc (rc == 0)

unfoldable pub execute_divi : GasCosts → ℕ → ℕ → ℕ → Action (Unit {0})
execute_divi costs a b imm = do gas_charge costs.divi; alu_error a ◌/◌ (← reg b) imm (imm == 0)

unfoldable pub execute_exp : GasCosts → ℕ → ℕ → ℕ → Action (Unit {0})
execute_exp costs a b c = do gas_charge costs.exp; alu_boolean_overflow a exp (← reg b) (← reg c)

unfoldable pub execute_expi : GasCosts → ℕ → ℕ → ℕ → Action (Unit {0})
execute_expi costs a b imm = do
  gas_charge costs.expi
  alu_boolean_overflow a overflowing_pow (← reg b) imm

unfoldable pub execute_mod_op : GasCosts → ℕ → ℕ → ℕ → Action (Unit {0})
execute_mod_op costs a b c = do
  gas_charge costs.mod_op
  rc ← reg c
  alu_error a ◌%◌ (← reg b) rc (rc == 0)

unfoldable pub execute_modi : GasCosts → ℕ → ℕ → ℕ → Action (Unit {0})
execute_modi costs a b imm = do gas_charge costs.modi; alu_error a ◌%◌ (← reg b) imm (imm == 0)

unfoldable pub execute_mul : GasCosts → ℕ → ℕ → ℕ → Action (Unit {0})
execute_mul costs a b c = do
  gas_charge costs.mul
  alu_capture_overflow a overflowing_mul_u128 (← reg b) (← reg c)

unfoldable pub execute_muli : GasCosts → ℕ → ℕ → ℕ → Action (Unit {0})
execute_muli costs a b imm = do
  gas_charge costs.muli
  alu_capture_overflow a overflowing_mul_u128 (← reg b) imm

unfoldable pub execute_mldv : GasCosts → ℕ → ℕ → ℕ → ℕ → Action (Unit {0})
execute_mldv costs a b c d = do gas_charge costs.mldv; alu_muldiv a (← reg b) (← reg c) (← reg d)

unfoldable pub execute_sub : GasCosts → ℕ → ℕ → ℕ → Action (Unit {0})
execute_sub costs a b c = do
  gas_charge costs.sub
  alu_capture_overflow a overflowing_sub_u128 (← reg b) (← reg c)

unfoldable pub execute_subi : GasCosts → ℕ → ℕ → ℕ → Action (Unit {0})
execute_subi costs a b imm = do
  gas_charge costs.subi
  alu_capture_overflow a overflowing_sub_u128 (← reg b) imm
