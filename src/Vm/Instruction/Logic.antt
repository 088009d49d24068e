-- ===== src/Vm/Instruction/Logic.antt =====
-- `Execute` for the instructions that set a register from bits, comparisons and moves:
-- fuel-vm/src/interpreter/executors/opcodes_impl.rs.
use Prim.Native.Nat.{bit_and, bit_or, bit_xor}
use fuel_vm.Prelude.{ℕ, ◌-◌, ◌*◌, ◌/◌, ◌%◌, ◌^◌, ltb, ◌==◌, if◌then◌else◌, word_max}
use fuel_vm.Vm.{Action, ◌>>=◌, ◌>>◌, reg}
use fuel_vm.Vm.Gas.{gas_charge}
use fuel_vm.Vm.Gas.Costs.{GasCosts}
use fuel_vm.Vm.Alu.{alu_set, alu_clear, bool_word}

-- `Word::checked_shl(b, c).unwrap_or_default()`, and zero where `c` does not fit a `u32`
unfoldable pub checked_shl : ℕ → ℕ → ℕ
checked_shl b c = if ltb c 64 then (b * 2 ^ c) % 2 ^ 64 else 0

unfoldable pub checked_shr : ℕ → ℕ → ℕ
checked_shr b c = if ltb c 64 then b / 2 ^ c else 0

unfoldable pub execute_and : GasCosts → ℕ → ℕ → ℕ → Action (Unit {0})
execute_and costs a b c = do gas_charge costs.and; alu_set a (bit_and (← reg b) (← reg c))

unfoldable pub execute_andi : GasCosts → ℕ → ℕ → ℕ → Action (Unit {0})
execute_andi costs a b imm = do gas_charge costs.andi; alu_set a (bit_and (← reg b) imm)

unfoldable pub execute_eq : GasCosts → ℕ → ℕ → ℕ → Action (Unit {0})
execute_eq costs a b c = do gas_charge costs.eq; alu_set a (bool_word ((← reg b) == (← reg c)))

unfoldable pub execute_gt : GasCosts → ℕ → ℕ → ℕ → Action (Unit {0})
execute_gt costs a b c = do gas_charge costs.gt; alu_set a (bool_word (ltb (← reg c) (← reg b)))

unfoldable pub execute_lt : GasCosts → ℕ → ℕ → ℕ → Action (Unit {0})
execute_lt costs a b c = do gas_charge costs.lt; alu_set a (bool_word (ltb (← reg b) (← reg c)))

unfoldable pub execute_move_op : GasCosts → ℕ → ℕ → Action (Unit {0})
execute_move_op costs a b = do gas_charge costs.move_op; alu_set a (← reg b)

unfoldable pub execute_movi : GasCosts → ℕ → ℕ → Action (Unit {0})
execute_movi costs a imm = do gas_charge costs.movi; alu_set a imm

unfoldable pub execute_noop : GasCosts → Action (Unit {0})
execute_noop costs = do gas_charge costs.noop; alu_clear

unfoldable pub execute_not : GasCosts → ℕ → ℕ → Action (Unit {0})
execute_not costs a b = do gas_charge costs.not; alu_set a (word_max - (← reg b))

unfoldable pub execute_or : GasCosts → ℕ → ℕ → ℕ → Action (Unit {0})
execute_or costs a b c = do gas_charge costs.or; alu_set a (bit_or (← reg b) (← reg c))

unfoldable pub execute_ori : GasCosts → ℕ → ℕ → ℕ → Action (Unit {0})
execute_ori costs a b imm = do gas_charge costs.ori; alu_set a (bit_or (← reg b) imm)

unfoldable pub execute_sll : GasCosts → ℕ → ℕ → ℕ → Action (Unit {0})
execute_sll costs a b c = do gas_charge costs.sll; alu_set a (checked_shl (← reg b) (← reg c))

unfoldable pub execute_slli : GasCosts → ℕ → ℕ → ℕ → Action (Unit {0})
execute_slli costs a b imm = do gas_charge costs.slli; alu_set a (checked_shl (← reg b) imm)

unfoldable pub execute_srl : GasCosts → ℕ → ℕ → ℕ → Action (Unit {0})
execute_srl costs a b c = do gas_charge costs.srl; alu_set a (checked_shr (← reg b) (← reg c))

unfoldable pub execute_srli : GasCosts → ℕ → ℕ → ℕ → Action (Unit {0})
execute_srli costs a b imm = do gas_charge costs.srli; alu_set a (checked_shr (← reg b) imm)

unfoldable pub execute_xor : GasCosts → ℕ → ℕ → ℕ → Action (Unit {0})
execute_xor costs a b c = do gas_charge costs.xor; alu_set a (bit_xor (← reg b) (← reg c))

unfoldable pub execute_xori : GasCosts → ℕ → ℕ → ℕ → Action (Unit {0})
execute_xori costs a b imm = do gas_charge costs.xori; alu_set a (bit_xor (← reg b) imm)
