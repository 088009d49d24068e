-- ===== src/Vm/Valid/Run.antt =====
-- A whole instruction, and a run of instructions, keep the invariant.
mod Arithmetic
mod Logic
mod Jumps
mod Access
use fuel_vm.Prelude.{ℕ, ◌<◌, ◌^◌, List, [], ◌∷◌}
use fuel_vm.Vm.{Vm, Action, ◌>>◌, pure}
use fuel_vm.Vm.Gas.Costs.{GasCosts}
use fuel_vm.Vm.Instruction.{Instruction, execute}
use fuel_vm.Vm.Valid.{IsValid, Post, Keeps, Runs-then, pure-Runs}
use fuel_vm.Vm.Valid.Charged.{IsChargeable}
use Arithmetic.*
use Logic.*
use Jumps.*
use Access.*

-- The immediate value has the width that the instruction's encoding gives it, where it reaches a
-- register as it is.
abbrev pub IsEncodable : Instruction → Type 0
IsEncodable (Instruction.andi a b imm) = imm < 2 ^ 12
IsEncodable (Instruction.ori a b imm) = imm < 2 ^ 12
IsEncodable (Instruction.xori a b imm) = imm < 2 ^ 12
IsEncodable (Instruction.movi a imm) = imm < 2 ^ 18
IsEncodable instruction = Unit

pub execute-Keeps :
    (costs : GasCosts) (instruction : Instruction)
    → IsChargeable costs
    → IsEncodable instruction
    → Keeps (execute costs instruction)
unfolding execute
execute-Keeps costs (Instruction.add a b c) h e = execute_add-Keeps costs a b c
execute-Keeps costs (Instruction.addi a b imm) h e = execute_addi-Keeps costs a b imm
execute-Keeps costs (Instruction.div a b c) h e = execute_div-Keeps costs a b c
execute-Keeps costs (Instruction.divi a b imm) h e = execute_divi-Keeps costs a b imm
execute-Keeps costs (Instruction.exp a b c) h e = execute_exp-Keeps costs a b c
execute-Keeps costs (Instruction.expi a b imm) h e = execute_expi-Keeps costs a b imm
execute-Keeps costs (Instruction.mod_op a b c) h e = execute_mod_op-Keeps costs a b c
execute-Keeps costs (Instruction.modi a b imm) h e = execute_modi-Keeps costs a b imm
execute-Keeps costs (Instruction.mul a b c) h e = execute_mul-Keeps costs a b c
execute-Keeps costs (Instruction.muli a b imm) h e = execute_muli-Keeps costs a b imm
execute-Keeps costs (Instruction.mldv a b c d) h e = execute_mldv-Keeps costs a b c d
execute-Keeps costs (Instruction.sub a b c) h e = execute_sub-Keeps costs a b c
execute-Keeps costs (Instruction.subi a b imm) h e = execute_subi-Keeps costs a b imm
execute-Keeps costs (Instruction.and a b c) h e = execute_and-Keeps costs a b c
execute-Keeps costs (Instruction.andi a b imm) h e = execute_andi-Keeps costs a b imm e
execute-Keeps costs (Instruction.eq a b c) h e = execute_eq-Keeps costs a b c
execute-Keeps costs (Instruction.gt a b c) h e = execute_gt-Keeps costs a b c
execute-Keeps costs (Instruction.lt a b c) h e = execute_lt-Keeps costs a b c
execute-Keeps costs (Instruction.move_op a b) h e = execute_move_op-Keeps costs a b
execute-Keeps costs (Instruction.movi a imm) h e = execute_movi-Keeps costs a imm e
execute-Keeps costs Instruction.noop h e = execute_noop-Keeps costs
execute-Keeps costs (Instruction.not a b) h e = execute_not-Keeps costs a b
execute-Keeps costs (Instruction.or a b c) h e = execute_or-Keeps costs a b c
execute-Keeps costs (Instruction.ori a b imm) h e = execute_ori-Keeps costs a b imm e
execute-Keeps costs (Instruction.sll a b c) h e = execute_sll-Keeps costs a b c
execute-Keeps costs (Instruction.slli a b imm) h e = execute_slli-Keeps costs a b imm
execute-Keeps costs (Instruction.srl a b c) h e = execute_srl-Keeps costs a b c
execute-Keeps costs (Instruction.srli a b imm) h e = execute_srli-Keeps costs a b imm
execute-Keeps costs (Instruction.xor a b c) h e = execute_xor-Keeps costs a b c
execute-Keeps costs (Instruction.xori a b imm) h e = execute_xori-Keeps costs a b imm e
execute-Keeps costs (Instruction.ji imm) h e = execute_ji-Keeps costs imm
execute-Keeps costs (Instruction.jnei a b imm) h e = execute_jnei-Keeps costs a b imm
execute-Keeps costs (Instruction.jnzi a imm) h e = execute_jnzi-Keeps costs a imm
execute-Keeps costs (Instruction.jmp a) h e = execute_jmp-Keeps costs a
execute-Keeps costs (Instruction.jne a b c) h e = execute_jne-Keeps costs a b c
execute-Keeps costs (Instruction.jmpf a offset) h e = execute_jmpf-Keeps costs a offset
execute-Keeps costs (Instruction.jmpb a offset) h e = execute_jmpb-Keeps costs a offset
execute-Keeps costs (Instruction.jnzf a b offset) h e = execute_jnzf-Keeps costs a b offset
execute-Keeps costs (Instruction.jnzb a b offset) h e = execute_jnzb-Keeps costs a b offset
execute-Keeps costs (Instruction.jnef a b c offset) h e = execute_jnef-Keeps costs a b c offset
execute-Keeps costs (Instruction.jneb a b c offset) h e = execute_jneb-Keeps costs a b c offset
execute-Keeps costs (Instruction.jal ret_addr target offset) h e =
    execute_jal-Keeps costs ret_addr target offset
execute-Keeps costs (Instruction.aloc a) h e = execute_aloc-Keeps costs a h
execute-Keeps costs (Instruction.cfei imm) h e = execute_cfei-Keeps costs imm h
execute-Keeps costs (Instruction.cfe a) h e = execute_cfe-Keeps costs a h
execute-Keeps costs (Instruction.cfsi imm) h e = execute_cfsi-Keeps costs imm
execute-Keeps costs (Instruction.cfs a) h e = execute_cfs-Keeps costs a
execute-Keeps costs (Instruction.pshl bitmask) h e = execute_pshl-Keeps costs bitmask
execute-Keeps costs (Instruction.pshh bitmask) h e = execute_pshh-Keeps costs bitmask
execute-Keeps costs (Instruction.popl bitmask) h e = execute_popl-Keeps costs bitmask
execute-Keeps costs (Instruction.poph bitmask) h e = execute_poph-Keeps costs bitmask
execute-Keeps costs (Instruction.lb a b imm) h e = execute_lb-Keeps costs a b imm
execute-Keeps costs (Instruction.lqw a b imm) h e = execute_lqw-Keeps costs a b imm
execute-Keeps costs (Instruction.lhw a b imm) h e = execute_lhw-Keeps costs a b imm
execute-Keeps costs (Instruction.lw a b imm) h e = execute_lw-Keeps costs a b imm
execute-Keeps costs (Instruction.mcl a b) h e = execute_mcl-Keeps costs a b h
execute-Keeps costs (Instruction.mcli a imm) h e = execute_mcli-Keeps costs a imm h
execute-Keeps costs (Instruction.mcp a b c) h e = execute_mcp-Keeps costs a b c h
execute-Keeps costs (Instruction.mcpi a b imm) h e = execute_mcpi-Keeps costs a b imm h
execute-Keeps costs (Instruction.meq a b c d) h e = execute_meq-Keeps costs a b c d h
execute-Keeps costs (Instruction.sb a b imm) h e = execute_sb-Keeps costs a b imm
execute-Keeps costs (Instruction.sqw a b imm) h e = execute_sqw-Keeps costs a b imm
execute-Keeps costs (Instruction.shw a b imm) h e = execute_shw-Keeps costs a b imm
execute-Keeps costs (Instruction.sw a b imm) h e = execute_sw-Keeps costs a b imm
execute-Keeps costs (Instruction.flag a) h e = execute_flag-Keeps costs a

-- In a valid state an instruction leaves a valid state, whether it succeeds or panics, and it
-- neither reports a bug of the interpreter nor stops the host, if no cost per unit is a division by
-- zero and the immediate value is one that an encoded instruction can hold.
pub execute-IsValid :
    (costs : GasCosts) (instruction : Instruction) (vm : Vm)
    → IsChargeable costs
    → IsEncodable instruction
    → IsValid vm
    → IsValid (execute costs instruction vm).1
      × Post (λ _. Unit {0}) (execute costs instruction vm).0
execute-IsValid costs instruction vm h e v =
    let keeps = execute-Keeps costs instruction h e in (keeps.keeps vm v, keeps.post vm v)
