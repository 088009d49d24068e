-- ===== src/Vm/Valid/Run/Logic.antt =====
-- The instructions on bits, comparisons and moves of
-- fuel-vm/src/interpreter/executors/opcodes_impl.rs keep the invariant.
use Prim.Native.Nat.{bit_and, bit_or, bit_xor}
use fuel_vm.Prelude.{
  ℕ, ◌-◌, ◌^◌, ◌<◌, ltb, ◌==◌, arith, word_max, bit_and-lt, bit_or-lt, bit_xor-lt,
}
use fuel_vm.Vm.Gas.Costs.{GasCosts}
use fuel_vm.Vm.Alu.{alu_set, bool_word}
use fuel_vm.Vm.Instruction.{
  checked_shl, checked_shr, execute_and, execute_andi, execute_eq, execute_gt, execute_lt,
  execute_move_op, execute_movi, execute_noop, execute_not, execute_or, execute_ori, execute_sll,
  execute_slli, execute_srl, execute_srli, execute_xor, execute_xori,
}
use fuel_vm.Vm.Valid.{Keeps, IsWord}
use fuel_vm.Vm.Valid.Handlers.{alu_set-Keeps, alu_clear-Keeps, bool_word-IsWord, div_le}
use fuel_vm.Vm.Valid.Charged.{charged, charged_one, charged_two}

checked_shl-IsWord : (b c : ℕ) → IsWord (checked_shl b c)
unfolding checked_shl
checked_shl-IsWord b c = ground arith

checked_shr-IsWord : (b c : ℕ) → IsWord b → IsWord (checked_shr b c)
unfolding checked_shr
checked_shr-IsWord b c h = ground (arith, div_le b (2 ^ c))

pub execute_and-Keeps : (costs : GasCosts) (a b c : ℕ) → Keeps (execute_and costs a b c)
unfolding execute_and
execute_and-Keeps costs a b c =
    charged_two costs.and b c (λ x y. alu_set a (bit_and x y))
      λ x y p q.
        alu_set-Keeps a (bit_and x y) (omega (arith, bit_and-lt 64 x y (omega arith) (omega arith)))

pub execute_andi-Keeps :
    (costs : GasCosts) (a b imm : ℕ) → imm < 2 ^ 12 → Keeps (execute_andi costs a b imm)
unfolding execute_andi
execute_andi-Keeps costs a b imm h =
    charged_one costs.andi b (λ x. alu_set a (bit_and x imm))
      λ x p.
        alu_set-Keeps a (bit_and x imm)
          (omega (arith, bit_and-lt 64 x imm (omega arith) (omega arith)))

pub execute_eq-Keeps : (costs : GasCosts) (a b c : ℕ) → Keeps (execute_eq costs a b c)
unfolding execute_eq
execute_eq-Keeps costs a b c =
    charged_two costs.eq b c (λ x y. alu_set a (bool_word (x == y)))
      λ x y p q. alu_set-Keeps a (bool_word (x == y)) (bool_word-IsWord (x == y))

pub execute_gt-Keeps : (costs : GasCosts) (a b c : ℕ) → Keeps (execute_gt costs a b c)
unfolding execute_gt
execute_gt-Keeps costs a b c =
    charged_two costs.gt c b (λ x y. alu_set a (bool_word (ltb x y)))
      λ x y p q. alu_set-Keeps a (bool_word (ltb x y)) (bool_word-IsWord (ltb x y))

pub execute_lt-Keeps : (costs : GasCosts) (a b c : ℕ) → Keeps (execute_lt costs a b c)
unfolding execute_lt
execute_lt-Keeps costs a b c =
    charged_two costs.lt b c (λ x y. alu_set a (bool_word (ltb x y)))
      λ x y p q. alu_set-Keeps a (bool_word (ltb x y)) (bool_word-IsWord (ltb x y))

pub execute_move_op-Keeps : (costs : GasCosts) (a b : ℕ) → Keeps (execute_move_op costs a b)
unfolding execute_move_op
execute_move_op-Keeps costs a b =
    charged_one costs.move_op b (λ x. alu_set a x) λ x p. alu_set-Keeps a x (p)

pub execute_movi-Keeps :
    (costs : GasCosts) (a imm : ℕ) → imm < 2 ^ 18 → Keeps (execute_movi costs a imm)
unfolding execute_movi
execute_movi-Keeps costs a imm h = charged costs.movi (alu_set-Keeps a imm (omega arith))

pub execute_noop-Keeps : (costs : GasCosts) → Keeps (execute_noop costs)
unfolding execute_noop
execute_noop-Keeps costs = charged costs.noop (alu_clear-Keeps)

pub execute_not-Keeps : (costs : GasCosts) (a b : ℕ) → Keeps (execute_not costs a b)
unfolding execute_not
execute_not-Keeps costs a b =
    charged_one costs.not b (λ x. alu_set a (word_max - x))
      λ x p. alu_set-Keeps a (word_max - x) (omega arith)

pub execute_or-Keeps : (costs : GasCosts) (a b c : ℕ) → Keeps (execute_or costs a b c)
unfolding execute_or
execute_or-Keeps costs a b c =
    charged_two costs.or b c (λ x y. alu_set a (bit_or x y))
      λ x y p q.
        alu_set-Keeps a (bit_or x y) (omega (arith, bit_or-lt 64 x y (omega arith) (omega arith)))

pub execute_ori-Keeps :
    (costs : GasCosts) (a b imm : ℕ) → imm < 2 ^ 12 → Keeps (execute_ori costs a b imm)
unfolding execute_ori
execute_ori-Keeps costs a b imm h =
    charged_one costs.ori b (λ x. alu_set a (bit_or x imm))
      λ x p.
        alu_set-Keeps a (bit_or x imm)
          (omega (arith, bit_or-lt 64 x imm (omega arith) (omega arith)))

pub execute_sll-Keeps : (costs : GasCosts) (a b c : ℕ) → Keeps (execute_sll costs a b c)
unfolding execute_sll
execute_sll-Keeps costs a b c =
    charged_two costs.sll b c (λ x y. alu_set a (checked_shl x y))
      λ x y p q. alu_set-Keeps a (checked_shl x y) (checked_shl-IsWord x y)

pub execute_slli-Keeps : (costs : GasCosts) (a b imm : ℕ) → Keeps (execute_slli costs a b imm)
unfolding execute_slli
execute_slli-Keeps costs a b imm =
    charged_one costs.slli b (λ x. alu_set a (checked_shl x imm))
      λ x p. alu_set-Keeps a (checked_shl x imm) (checked_shl-IsWord x imm)

pub execute_srl-Keeps : (costs : GasCosts) (a b c : ℕ) → Keeps (execute_srl costs a b c)
unfolding execute_srl
execute_srl-Keeps costs a b c =
    charged_two costs.srl b c (λ x y. alu_set a (checked_shr x y))
      λ x y p q. alu_set-Keeps a (checked_shr x y) (checked_shr-IsWord x y p)

pub execute_srli-Keeps : (costs : GasCosts) (a b imm : ℕ) → Keeps (execute_srli costs a b imm)
unfolding execute_srli
execute_srli-Keeps costs a b imm =
    charged_one costs.srli b (λ x. alu_set a (checked_shr x imm))
      λ x p. alu_set-Keeps a (checked_shr x imm) (checked_shr-IsWord x imm p)

pub execute_xor-Keeps : (costs : GasCosts) (a b c : ℕ) → Keeps (execute_xor costs a b c)
unfolding execute_xor
execute_xor-Keeps costs a b c =
    charged_two costs.xor b c (λ x y. alu_set a (bit_xor x y))
      λ x y p q.
        alu_set-Keeps a (bit_xor x y) (omega (arith, bit_xor-lt 64 x y (omega arith) (omega arith)))

pub execute_xori-Keeps :
    (costs : GasCosts) (a b imm : ℕ) → imm < 2 ^ 12 → Keeps (execute_xori costs a b imm)
unfolding execute_xori
execute_xori-Keeps costs a b imm h =
    charged_one costs.xori b (λ x. alu_set a (bit_xor x imm))
      λ x p.
        alu_set-Keeps a (bit_xor x imm)
          (omega (arith, bit_xor-lt 64 x imm (omega arith) (omega arith)))
