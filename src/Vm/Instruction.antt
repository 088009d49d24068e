-- ===== src/Vm/Instruction.antt =====
-- The modelled instructions, and the dispatch of `Execute for Instruction` in
-- fuel-vm/src/interpreter/executors/instruction.rs.
mod Arithmetic
mod Logic
mod Jumps
mod Access
unfoldable pub use Arithmetic.*
unfoldable pub use Logic.*
unfoldable pub use Jumps.*
unfoldable pub use Access.*
use fuel_vm.Prelude.{ℕ}
use fuel_vm.Vm.{Action}
use fuel_vm.Vm.Gas.Costs.{GasCosts}

pub data Instruction : Type 0 where
  noop : Instruction
  ji jmp aloc cfei cfe cfsi cfs pshl pshh : ℕ → Instruction
  popl poph flag : ℕ → Instruction
  move_op movi not jnzi jmpf jmpb mcl mcli : ℕ → ℕ → Instruction
  add addi div divi exp expi mod_op modi mul : ℕ → ℕ → ℕ → Instruction
  muli sub subi and andi eq gt lt or : ℕ → ℕ → ℕ → Instruction
  ori sll slli srl srli xor xori jnei jne : ℕ → ℕ → ℕ → Instruction
  jnzf jnzb jal lb lqw lhw lw mcp mcpi : ℕ → ℕ → ℕ → Instruction
  sb sqw shw sw : ℕ → ℕ → ℕ → Instruction
  mldv jnef jneb meq : ℕ → ℕ → ℕ → ℕ → Instruction

unfoldable pub execute : GasCosts → Instruction → Action (Unit {0})
execute costs (Instruction.add a b c) = execute_add costs a b c
execute costs (Instruction.addi a b imm) = execute_addi costs a b imm
execute costs (Instruction.div a b c) = execute_div costs a b c
execute costs (Instruction.divi a b imm) = execute_divi costs a b imm
execute costs (Instruction.exp a b c) = execute_exp costs a b c
execute costs (Instruction.expi a b imm) = execute_expi costs a b imm
execute costs (Instruction.mod_op a b c) = execute_mod_op costs a b c
execute costs (Instruction.modi a b imm) = execute_modi costs a b imm
execute costs (Instruction.mul a b c) = execute_mul costs a b c
execute costs (Instruction.muli a b imm) = execute_muli costs a b imm
execute costs (Instruction.mldv a b c d) = execute_mldv costs a b c d
execute costs (Instruction.sub a b c) = execute_sub costs a b c
execute costs (Instruction.subi a b imm) = execute_subi costs a b imm
execute costs (Instruction.and a b c) = execute_and costs a b c
execute costs (Instruction.andi a b imm) = execute_andi costs a b imm
execute costs (Instruction.eq a b c) = execute_eq costs a b c
execute costs (Instruction.gt a b c) = execute_gt costs a b c
execute costs (Instruction.lt a b c) = execute_lt costs a b c
execute costs (Instruction.move_op a b) = execute_move_op costs a b
execute costs (Instruction.movi a imm) = execute_movi costs a imm
execute costs Instruction.noop = execute_noop costs
execute costs (Instruction.not a b) = execute_not costs a b
execute costs (Instruction.or a b c) = execute_or costs a b c
execute costs (Instruction.ori a b imm) = execute_ori costs a b imm
execute costs (Instruction.sll a b c) = execute_sll costs a b c
execute costs (Instruction.slli a b imm) = execute_slli costs a b imm
execute costs (Instruction.srl a b c) = execute_srl costs a b c
execute costs (Instruction.srli a b imm) = execute_srli costs a b imm
execute costs (Instruction.xor a b c) = execute_xor costs a b c
execute costs (Instruction.xori a b imm) = execute_xori costs a b imm
execute costs (Instruction.ji imm) = execute_ji costs imm
execute costs (Instruction.jnei a b imm) = execute_jnei costs a b imm
execute costs (Instruction.jnzi a imm) = execute_jnzi costs a imm
execute costs (Instruction.jmp a) = execute_jmp costs a
execute costs (Instruction.jne a b c) = execute_jne costs a b c
execute costs (Instruction.jmpf a offset) = execute_jmpf costs a offset
execute costs (Instruction.jmpb a offset) = execute_jmpb costs a offset
execute costs (Instruction.jnzf a b offset) = execute_jnzf costs a b offset
execute costs (Instruction.jnzb a b offset) = execute_jnzb costs a b offset
execute costs (Instruction.jnef a b c offset) = execute_jnef costs a b c offset
execute costs (Instruction.jneb a b c offset) = execute_jneb costs a b c offset
execute costs (Instruction.jal ret_addr target offset) = execute_jal costs ret_addr target offset
execute costs (Instruction.aloc a) = execute_aloc costs a
execute costs (Instruction.cfei imm) = execute_cfei costs imm
execute costs (Instruction.cfe a) = execute_cfe costs a
execute costs (Instruction.cfsi imm) = execute_cfsi costs imm
execute costs (Instruction.cfs a) = execute_cfs costs a
execute costs (Instruction.pshl bitmask) = execute_pshl costs bitmask
execute costs (Instruction.pshh bitmask) = execute_pshh costs bitmask
execute costs (Instruction.popl bitmask) = execute_popl costs bitmask
execute costs (Instruction.poph bitmask) = execute_poph costs bitmask
execute costs (Instruction.lb a b imm) = execute_lb costs a b imm
execute costs (Instruction.lqw a b imm) = execute_lqw costs a b imm
execute costs (Instruction.lhw a b imm) = execute_lhw costs a b imm
execute costs (Instruction.lw a b imm) = execute_lw costs a b imm
execute costs (Instruction.mcl a b) = execute_mcl costs a b
execute costs (Instruction.mcli a imm) = execute_mcli costs a imm
execute costs (Instruction.mcp a b c) = execute_mcp costs a b c
execute costs (Instruction.mcpi a b imm) = execute_mcpi costs a b imm
execute costs (Instruction.meq a b c d) = execute_meq costs a b c d
execute costs (Instruction.sb a b imm) = execute_sb costs a b imm
execute costs (Instruction.sqw a b imm) = execute_sqw costs a b imm
execute costs (Instruction.shw a b imm) = execute_shw costs a b imm
execute costs (Instruction.sw a b imm) = execute_sw costs a b imm
execute costs (Instruction.flag a) = execute_flag costs a
