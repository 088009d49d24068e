-- ===== src/Vm/Instruction/Access.antt =====
-- `Execute` for the instructions on memory, the stack and the flags:
-- fuel-vm/src/interpreter/executors/opcodes_impl.rs.
use fuel_vm.Prelude.{ℕ}
use fuel_vm.Vm.{Action, ◌>>=◌, ◌>>◌, reg, set_flag}
use fuel_vm.Vm.Gas.{gas_charge, dependent_gas_charge}
use fuel_vm.Vm.Gas.Costs.{GasCosts}
use fuel_vm.Vm.MemoryOps.{
  stack_pointer_overflow, overflowing_add, overflowing_sub, ProgramRegistersSegment,
  push_selected_registers, pop_selected_registers, load, store, malloc, memclear, memory_copy,
  memeq,
}

unfoldable pub execute_aloc : GasCosts → ℕ → Action (Unit {0})
execute_aloc costs a = do
  number_of_bytes ← reg a
  dependent_gas_charge costs.aloc number_of_bytes
  malloc number_of_bytes

unfoldable pub execute_cfei : GasCosts → ℕ → Action (Unit {0})
execute_cfei costs imm = do
  dependent_gas_charge costs.cfei imm
  stack_pointer_overflow overflowing_add imm

unfoldable pub execute_cfe : GasCosts → ℕ → Action (Unit {0})
execute_cfe costs a = do
  number_of_bytes ← reg a
  dependent_gas_charge costs.cfe number_of_bytes
  stack_pointer_overflow overflowing_add number_of_bytes

unfoldable pub execute_cfsi : GasCosts → ℕ → Action (Unit {0})
execute_cfsi costs imm = do gas_charge costs.cfsi; stack_pointer_overflow overflowing_sub imm

unfoldable pub execute_cfs : GasCosts → ℕ → Action (Unit {0})
execute_cfs costs a = do gas_charge costs.cfsi; stack_pointer_overflow overflowing_sub (← reg a)

unfoldable pub execute_pshl : GasCosts → ℕ → Action (Unit {0})
execute_pshl costs bitmask = do
  gas_charge costs.pshl
  push_selected_registers ProgramRegistersSegment.low bitmask

unfoldable pub execute_pshh : GasCosts → ℕ → Action (Unit {0})
execute_pshh costs bitmask = do
  gas_charge costs.pshh
  push_selected_registers ProgramRegistersSegment.high bitmask

unfoldable pub execute_popl : GasCosts → ℕ → Action (Unit {0})
execute_popl costs bitmask = do
  gas_charge costs.popl
  pop_selected_registers ProgramRegistersSegment.low bitmask

unfoldable pub execute_poph : GasCosts → ℕ → Action (Unit {0})
execute_poph costs bitmask = do
  gas_charge costs.poph
  pop_selected_registers ProgramRegistersSegment.high bitmask

unfoldable pub execute_lb : GasCosts → ℕ → ℕ → ℕ → Action (Unit {0})
execute_lb costs a b imm = do gas_charge costs.lb; load 1 a (← reg b) imm

unfoldable pub execute_lqw : GasCosts → ℕ → ℕ → ℕ → Action (Unit {0})
execute_lqw costs a b imm = do gas_charge costs.lw; load 2 a (← reg b) imm

unfoldable pub execute_lhw : GasCosts → ℕ → ℕ → ℕ → Action (Unit {0})
execute_lhw costs a b imm = do gas_charge costs.lw; load 4 a (← reg b) imm

unfoldable pub execute_lw : GasCosts → ℕ → ℕ → ℕ → Action (Unit {0})
execute_lw costs a b imm = do gas_charge costs.lw; load 8 a (← reg b) imm

unfoldable pub execute_mcl : GasCosts → ℕ → ℕ → Action (Unit {0})
execute_mcl costs a b = do
  number_of_bytes ← reg b
  dependent_gas_charge costs.mcl number_of_bytes
  memclear (← reg a) number_of_bytes

unfoldable pub execute_mcli : GasCosts → ℕ → ℕ → Action (Unit {0})
execute_mcli costs a imm = do dependent_gas_charge costs.mcli imm; memclear (← reg a) imm

unfoldable pub execute_mcp : GasCosts → ℕ → ℕ → ℕ → Action (Unit {0})
execute_mcp costs a b c = do
  number_of_bytes ← reg c
  dependent_gas_charge costs.mcp number_of_bytes
  memory_copy (← reg a) (← reg b) number_of_bytes

unfoldable pub execute_mcpi : GasCosts → ℕ → ℕ → ℕ → Action (Unit {0})
execute_mcpi costs a b imm = do
  dependent_gas_charge costs.mcpi imm
  memory_copy (← reg a) (← reg b) imm

unfoldable pub execute_meq : GasCosts → ℕ → ℕ → ℕ → ℕ → Action (Unit {0})
execute_meq costs a b c d = do
  number_of_bytes ← reg d
  dependent_gas_charge costs.meq number_of_bytes
  memeq a (← reg b) (← reg c) number_of_bytes

unfoldable pub execute_sb : GasCosts → ℕ → ℕ → ℕ → Action (Unit {0})
execute_sb costs a b imm = do gas_charge costs.sb; store 1 (← reg a) (← reg b) imm

unfoldable pub execute_sqw : GasCosts → ℕ → ℕ → ℕ → Action (Unit {0})
execute_sqw costs a b imm = do gas_charge costs.sw; store 2 (← reg a) (← reg b) imm

unfoldable pub execute_shw : GasCosts → ℕ → ℕ → ℕ → Action (Unit {0})
execute_shw costs a b imm = do gas_charge costs.sw; store 4 (← reg a) (← reg b) imm

unfoldable pub execute_sw : GasCosts → ℕ → ℕ → ℕ → Action (Unit {0})
execute_sw costs a b imm = do gas_charge costs.sw; store 8 (← reg a) (← reg b) imm

unfoldable pub execute_flag : GasCosts → ℕ → Action (Unit {0})
execute_flag costs a = do gas_charge costs.flag; set_flag (← reg a)
