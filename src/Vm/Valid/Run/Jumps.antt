-- ===== src/Vm/Valid/Run/Jumps.antt =====
-- The jumps of fuel-vm/src/interpreter/executors/opcodes_impl.rs keep the invariant.
use fuel_vm.Reg
use fuel_vm.Prelude.{ℕ, arith, saturating_add}
use fuel_vm.Vm.{instruction_size}
use fuel_vm.Vm.Gas.Costs.{GasCosts}
use fuel_vm.Vm.Jump.{JumpMode, jump_args, with_condition, to_address, plus_fixed, jump}
use fuel_vm.Vm.Instruction.{
  execute_ji, execute_jnei, execute_jnzi, execute_jmp, execute_jne, execute_jmpf, execute_jmpb,
  execute_jnzf, execute_jnzb, execute_jnef, execute_jneb, execute_jal,
}
use fuel_vm.Vm.Valid.{Keeps, Runs-bind, Runs-then, reg-Runs}
use fuel_vm.Vm.Valid.Handlers.{gas_charge-Keeps, jump-Keeps, set_user_reg_or_discard-Keeps}
use fuel_vm.Vm.Valid.Charged.{charged, charged_one, ne_registers-Runs, nonzero_register-Runs}

pub execute_ji-Keeps : (costs : GasCosts) (imm : ℕ) → Keeps (execute_ji costs imm)
unfolding execute_ji
execute_ji-Keeps costs imm =
    charged costs.ji (jump-Keeps (to_address (jump_args JumpMode.relative_is) imm))

pub execute_jnei-Keeps : (costs : GasCosts) (a b imm : ℕ) → Keeps (execute_jnei costs a b imm)
unfolding execute_jnei
execute_jnei-Keeps costs a b imm = Runs-then (gas_charge-Keeps costs.jnei) (
    Runs-bind (ne_registers-Runs a b) λ condition _.
      jump-Keeps (to_address (with_condition (jump_args JumpMode.relative_is) condition) imm))

pub execute_jnzi-Keeps : (costs : GasCosts) (a imm : ℕ) → Keeps (execute_jnzi costs a imm)
unfolding execute_jnzi
execute_jnzi-Keeps costs a imm = Runs-then (gas_charge-Keeps costs.jnzi) (
    Runs-bind (nonzero_register-Runs a) λ condition _.
      jump-Keeps (to_address (with_condition (jump_args JumpMode.relative_is) condition) imm))

pub execute_jmp-Keeps : (costs : GasCosts) (a : ℕ) → Keeps (execute_jmp costs a)
unfolding execute_jmp
execute_jmp-Keeps costs a =
    charged_one costs.jmp a (λ x. jump (to_address (jump_args JumpMode.relative_is) x))
      λ x p. jump-Keeps (to_address (jump_args JumpMode.relative_is) x)

pub execute_jne-Keeps : (costs : GasCosts) (a b c : ℕ) → Keeps (execute_jne costs a b c)
unfolding execute_jne
execute_jne-Keeps costs a b c = Runs-then (gas_charge-Keeps costs.jne) (
    Runs-bind (ne_registers-Runs a b) λ condition _.
      Runs-bind (reg-Runs c) λ x _.
        jump-Keeps (to_address (with_condition (jump_args JumpMode.relative_is) condition) x))

pub execute_jmpf-Keeps : (costs : GasCosts) (a offset : ℕ) → Keeps (execute_jmpf costs a offset)
unfolding execute_jmpf
execute_jmpf-Keeps costs a offset =
    charged_one costs.jmpf a
      (λ x. jump (plus_fixed (to_address (jump_args JumpMode.relative_forwards) x) offset))
      λ x p. jump-Keeps (plus_fixed (to_address (jump_args JumpMode.relative_forwards) x) offset)

pub execute_jmpb-Keeps : (costs : GasCosts) (a offset : ℕ) → Keeps (execute_jmpb costs a offset)
unfolding execute_jmpb
execute_jmpb-Keeps costs a offset =
    charged_one costs.jmpb a
      (λ x. jump (plus_fixed (to_address (jump_args JumpMode.relative_backwards) x) offset))
      λ x p. jump-Keeps (plus_fixed (to_address (jump_args JumpMode.relative_backwards) x) offset)

pub execute_jnzf-Keeps : (costs : GasCosts) (a b offset : ℕ) → Keeps (execute_jnzf costs a b offset)
unfolding execute_jnzf
execute_jnzf-Keeps costs a b offset = Runs-then (gas_charge-Keeps costs.jnzf) (
    Runs-bind (nonzero_register-Runs a) λ condition _. Runs-bind (reg-Runs b) λ x _. jump-Keeps (
      plus_fixed (to_address (with_condition (jump_args JumpMode.relative_forwards) condition) x)
        offset))

pub execute_jnzb-Keeps : (costs : GasCosts) (a b offset : ℕ) → Keeps (execute_jnzb costs a b offset)
unfolding execute_jnzb
execute_jnzb-Keeps costs a b offset = Runs-then (gas_charge-Keeps costs.jnzb) (
    Runs-bind (nonzero_register-Runs a) λ condition _. Runs-bind (reg-Runs b) λ x _. jump-Keeps (
      plus_fixed (to_address (with_condition (jump_args JumpMode.relative_backwards) condition) x)
        offset))

pub execute_jnef-Keeps :
    (costs : GasCosts) (a b c offset : ℕ) → Keeps (execute_jnef costs a b c offset)
unfolding execute_jnef
execute_jnef-Keeps costs a b c offset = Runs-then (gas_charge-Keeps costs.jnef) (
    Runs-bind (ne_registers-Runs a b) λ condition _. Runs-bind (reg-Runs c) λ x _. jump-Keeps (
      plus_fixed (to_address (with_condition (jump_args JumpMode.relative_forwards) condition) x)
        offset))

pub execute_jneb-Keeps :
    (costs : GasCosts) (a b c offset : ℕ) → Keeps (execute_jneb costs a b c offset)
unfolding execute_jneb
execute_jneb-Keeps costs a b c offset = Runs-then (gas_charge-Keeps costs.jneb) (
    Runs-bind (ne_registers-Runs a b) λ condition _. Runs-bind (reg-Runs c) λ x _. jump-Keeps (
      plus_fixed (to_address (with_condition (jump_args JumpMode.relative_backwards) condition) x)
        offset))

pub execute_jal-Keeps :
    (costs : GasCosts) (ret_addr target offset : ℕ)
    → Keeps (execute_jal costs ret_addr target offset)
unfolding execute_jal saturating_add
execute_jal-Keeps costs ret_addr target offset = Runs-then (gas_charge-Keeps costs.jmp) (
    Runs-bind (reg-Runs Reg.pc) λ pc _.
      Runs-then
        (set_user_reg_or_discard-Keeps ret_addr (saturating_add pc instruction_size) (omega arith))
        (Runs-bind (reg-Runs target)
          λ x _. jump-Keeps (plus_fixed (to_address (jump_args JumpMode.assign) x) offset)))
