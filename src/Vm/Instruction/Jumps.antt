-- ===== src/Vm/Instruction/Jumps.antt =====
-- `Execute` for the jumps of fuel-vm/src/interpreter/executors/opcodes_impl.rs.
use fuel_vm.Reg
use fuel_vm.Prelude.{ℕ, Bool, not, ◌==◌, saturating_add}
use fuel_vm.Vm.{Action, ◌>>=◌, ◌>>◌, reg, pure, set_user_reg_or_discard, instruction_size}
use fuel_vm.Vm.Gas.{gas_charge}
use fuel_vm.Vm.Gas.Costs.{GasCosts}
use fuel_vm.Vm.Jump.{JumpMode, jump_args, with_condition, to_address, plus_fixed, jump}

-- `interpreter.registers[a] != interpreter.registers[b]`
abbrev pub ne_registers : ℕ → ℕ → Action Bool
ne_registers a b = do ra ← reg a; rb ← reg b; pure (not (ra == rb))

-- `interpreter.registers[a] != 0`
abbrev pub nonzero_register : ℕ → Action Bool
nonzero_register a = do ra ← reg a; pure (not (ra == 0))

unfoldable pub execute_ji : GasCosts → ℕ → Action (Unit {0})
execute_ji costs imm = do
  gas_charge costs.ji
  jump (to_address (jump_args JumpMode.relative_is) imm)

unfoldable pub execute_jnei : GasCosts → ℕ → ℕ → ℕ → Action (Unit {0})
execute_jnei costs a b imm = do
  gas_charge costs.jnei
  condition ← ne_registers a b
  jump (to_address (with_condition (jump_args JumpMode.relative_is) condition) imm)

unfoldable pub execute_jnzi : GasCosts → ℕ → ℕ → Action (Unit {0})
execute_jnzi costs a imm = do
  gas_charge costs.jnzi
  condition ← nonzero_register a
  jump (to_address (with_condition (jump_args JumpMode.relative_is) condition) imm)

unfoldable pub execute_jmp : GasCosts → ℕ → Action (Unit {0})
execute_jmp costs a = do
  gas_charge costs.jmp
  jump (to_address (jump_args JumpMode.relative_is) (← reg a))

unfoldable pub execute_jne : GasCosts → ℕ → ℕ → ℕ → Action (Unit {0})
execute_jne costs a b c = do
  gas_charge costs.jne
  condition ← ne_registers a b
  jump (to_address (with_condition (jump_args JumpMode.relative_is) condition) (← reg c))

unfoldable pub execute_jmpf : GasCosts → ℕ → ℕ → Action (Unit {0})
execute_jmpf costs a offset = do
  gas_charge costs.jmpf
  jump (plus_fixed (to_address (jump_args JumpMode.relative_forwards) (← reg a)) offset)

unfoldable pub execute_jmpb : GasCosts → ℕ → ℕ → Action (Unit {0})
execute_jmpb costs a offset = do
  gas_charge costs.jmpb
  jump (plus_fixed (to_address (jump_args JumpMode.relative_backwards) (← reg a)) offset)

unfoldable pub execute_jnzf : GasCosts → ℕ → ℕ → ℕ → Action (Unit {0})
execute_jnzf costs a b offset = do
  gas_charge costs.jnzf
  condition ← nonzero_register a
  let args = with_condition (jump_args JumpMode.relative_forwards) condition
  jump (plus_fixed (to_address args (← reg b)) offset)

unfoldable pub execute_jnzb : GasCosts → ℕ → ℕ → ℕ → Action (Unit {0})
execute_jnzb costs a b offset = do
  gas_charge costs.jnzb
  condition ← nonzero_register a
  let args = with_condition (jump_args JumpMode.relative_backwards) condition
  jump (plus_fixed (to_address args (← reg b)) offset)

unfoldable pub execute_jnef : GasCosts → ℕ → ℕ → ℕ → ℕ → Action (Unit {0})
execute_jnef costs a b c offset = do
  gas_charge costs.jnef
  condition ← ne_registers a b
  let args = with_condition (jump_args JumpMode.relative_forwards) condition
  jump (plus_fixed (to_address args (← reg c)) offset)

unfoldable pub execute_jneb : GasCosts → ℕ → ℕ → ℕ → ℕ → Action (Unit {0})
execute_jneb costs a b c offset = do
  gas_charge costs.jneb
  condition ← ne_registers a b
  let args = with_condition (jump_args JumpMode.relative_backwards) condition
  jump (plus_fixed (to_address args (← reg c)) offset)

unfoldable pub execute_jal : GasCosts → ℕ → ℕ → ℕ → Action (Unit {0})
execute_jal costs ret_addr target offset = do
  gas_charge costs.jmp
  pc ← reg Reg.pc
  set_user_reg_or_discard ret_addr (saturating_add pc instruction_size)
  jump (plus_fixed (to_address (jump_args JumpMode.assign) (← reg target)) offset)
