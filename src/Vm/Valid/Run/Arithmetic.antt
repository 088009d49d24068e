-- ===== src/Vm/Valid/Run/Arithmetic.antt =====
-- The arithmetic instructions of fuel-vm/src/interpreter/executors/opcodes_impl.rs keep the
-- invariant.
use native.Mathlib.Nat.{mod-le}
use fuel_vm.Prelude.{ℕ, ◌/◌, ◌%◌, ◌≤◌, ◌==◌, arith}
use fuel_vm.Vm.Gas.Costs.{GasCosts}
use fuel_vm.Vm.Alu.{
  alu_capture_overflow, alu_boolean_overflow, alu_error, alu_muldiv, exp, overflowing_pow,
  overflowing_add_u128, overflowing_sub_u128, overflowing_mul_u128,
}
use fuel_vm.Vm.Instruction.{
  execute_add, execute_addi, execute_div, execute_divi, execute_exp, execute_expi, execute_mod_op,
  execute_modi, execute_mul, execute_muli, execute_mldv, execute_sub, execute_subi,
}
use fuel_vm.Vm.Valid.{Keeps, IsWord}
use fuel_vm.Vm.Valid.Handlers.{
  alu_capture_overflow-Keeps, alu_boolean_overflow-Keeps, alu_error-Keeps, alu_muldiv-Keeps, div_le,
}
use fuel_vm.Vm.Valid.Charged.{charged_one, charged_two, charged_three}

mod_le : (x y : ℕ) → x % y ≤ x
mod_le x y = mod-le x y

exp-IsWord : (b c : ℕ) → IsWord b → IsWord (exp b c).0
unfolding exp
exp-IsWord b c h = ground arith

pub execute_add-Keeps : (costs : GasCosts) (a b c : ℕ) → Keeps (execute_add costs a b c)
unfolding execute_add
execute_add-Keeps costs a b c =
    charged_two costs.add b c (λ x y. alu_capture_overflow a overflowing_add_u128 x y)
      λ x y p q. alu_capture_overflow-Keeps a overflowing_add_u128 x y (omega arith)

pub execute_addi-Keeps : (costs : GasCosts) (a b imm : ℕ) → Keeps (execute_addi costs a b imm)
unfolding execute_addi
execute_addi-Keeps costs a b imm =
    charged_one costs.addi b (λ x. alu_capture_overflow a overflowing_add_u128 x imm)
      λ x p. alu_capture_overflow-Keeps a overflowing_add_u128 x imm (omega arith)

pub execute_div-Keeps : (costs : GasCosts) (a b c : ℕ) → Keeps (execute_div costs a b c)
unfolding execute_div
execute_div-Keeps costs a b c =
    charged_two costs.div c b (λ y x. alu_error a ◌/◌ x y (y == 0))
      λ y x q p. alu_error-Keeps a ◌/◌ x y (y == 0) (λ _. omega (arith, div_le x y))

pub execute_divi-Keeps : (costs : GasCosts) (a b imm : ℕ) → Keeps (execute_divi costs a b imm)
unfolding execute_divi
execute_divi-Keeps costs a b imm =
    charged_one costs.divi b (λ x. alu_error a ◌/◌ x imm (imm == 0))
      λ x p. alu_error-Keeps a ◌/◌ x imm (imm == 0) (λ _. omega (arith, div_le x imm))

pub execute_exp-Keeps : (costs : GasCosts) (a b c : ℕ) → Keeps (execute_exp costs a b c)
unfolding execute_exp
execute_exp-Keeps costs a b c =
    charged_two costs.exp b c (λ x y. alu_boolean_overflow a exp x y)
      λ x y p q. alu_boolean_overflow-Keeps a exp x y (exp-IsWord x y p)

pub execute_expi-Keeps : (costs : GasCosts) (a b imm : ℕ) → Keeps (execute_expi costs a b imm)
unfolding execute_expi
execute_expi-Keeps costs a b imm =
    charged_one costs.expi b (λ x. alu_boolean_overflow a overflowing_pow x imm)
      λ x p. alu_boolean_overflow-Keeps a overflowing_pow x imm (omega arith)

pub execute_mod_op-Keeps : (costs : GasCosts) (a b c : ℕ) → Keeps (execute_mod_op costs a b c)
unfolding execute_mod_op
execute_mod_op-Keeps costs a b c =
    charged_two costs.mod_op c b (λ y x. alu_error a ◌%◌ x y (y == 0))
      λ y x q p. alu_error-Keeps a ◌%◌ x y (y == 0) (λ _. omega (arith, mod_le x y))

pub execute_modi-Keeps : (costs : GasCosts) (a b imm : ℕ) → Keeps (execute_modi costs a b imm)
unfolding execute_modi
execute_modi-Keeps costs a b imm =
    charged_one costs.modi b (λ x. alu_error a ◌%◌ x imm (imm == 0))
      λ x p. alu_error-Keeps a ◌%◌ x imm (imm == 0) (λ _. omega (arith, mod_le x imm))

pub execute_mul-Keeps : (costs : GasCosts) (a b c : ℕ) → Keeps (execute_mul costs a b c)
unfolding execute_mul
execute_mul-Keeps costs a b c =
    charged_two costs.mul b c (λ x y. alu_capture_overflow a overflowing_mul_u128 x y)
      λ x y p q. alu_capture_overflow-Keeps a overflowing_mul_u128 x y (omega arith)

pub execute_muli-Keeps : (costs : GasCosts) (a b imm : ℕ) → Keeps (execute_muli costs a b imm)
unfolding execute_muli
execute_muli-Keeps costs a b imm =
    charged_one costs.muli b (λ x. alu_capture_overflow a overflowing_mul_u128 x imm)
      λ x p. alu_capture_overflow-Keeps a overflowing_mul_u128 x imm (omega arith)

pub execute_mldv-Keeps : (costs : GasCosts) (a b c d : ℕ) → Keeps (execute_mldv costs a b c d)
unfolding execute_mldv
execute_mldv-Keeps costs a b c d =
    charged_three costs.mldv b c d (λ x y z. alu_muldiv a x y z)
      λ x y z p q r. alu_muldiv-Keeps a x y z p q

pub execute_sub-Keeps : (costs : GasCosts) (a b c : ℕ) → Keeps (execute_sub costs a b c)
unfolding execute_sub
execute_sub-Keeps costs a b c =
    charged_two costs.sub b c (λ x y. alu_capture_overflow a overflowing_sub_u128 x y)
      λ x y p q. alu_capture_overflow-Keeps a overflowing_sub_u128 x y (omega arith)

pub execute_subi-Keeps : (costs : GasCosts) (a b imm : ℕ) → Keeps (execute_subi costs a b imm)
unfolding execute_subi
execute_subi-Keeps costs a b imm =
    charged_one costs.subi b (λ x. alu_capture_overflow a overflowing_sub_u128 x imm)
      λ x p. alu_capture_overflow-Keeps a overflowing_sub_u128 x imm (omega arith)
