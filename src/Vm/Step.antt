-- ===== src/Vm/Step.antt =====
-- One round of the interpreter: fuel-vm/src/interpreter/executors/instruction.rs. An instruction is
-- fetched, parsed and executed. A round stops at an instruction that the machine of Vm does not
-- execute, and hands it out. The debugger is off.
pub mod Safe
pub mod Valid
mod Tests
use fuel_vm.Reg
use fuel_vm.Prelude.{
  ℕ, zero, suc, Bool, true, false, ◌&&◌, ◌||◌, not, Option, none, some, List, [], ◌∷◌, ltb, leb,
  if◌then◌else◌,
}
use fuel_vm.Outcome.{panic, PanicReason}
use fuel_vm.Memory.{read}
use fuel_vm.Asm
use fuel_vm.Asm.{try_from_four}
use fuel_vm.Asm.Table.{Opcode, is_predicate_allowed}
use fuel_vm.Asm.Packing.{
  Data, ra_from_bytes, rb_from_bytes, rc_from_bytes, rd_from_bytes, imm06_from_bytes,
  imm12_from_bytes, imm18_from_bytes, imm24_from_bytes,
}
use fuel_vm.Vm.{Action, ◌>>=◌, ◌>>◌, pure, raise, raise_if, reg, gets}
use fuel_vm.Vm.Gas.Costs.{GasCosts}
use fuel_vm.Vm.Instruction.{Instruction, execute}
use fuel_vm.Vm.WideInt.{WideOps}
use fuel_vm.Vm.WideInt.Execute.{WideCosts, WideInstruction, execute_wide}

-- `ExecuteState`, with the debugger off
pub data ExecuteState : Type 0 where
  proceed : ExecuteState
  return revert : ℕ → ExecuteState
  return_data : List ℕ → ExecuteState

-- What a round leaves: the source's state, or an instruction that is not one of `Instruction` and
-- `WideInstruction`, fetched, parsed and allowed, and not executed.
pub data Progress : Type 0 where
  state : ExecuteState → Progress
  pending : Asm.Instruction → Progress

-- The executor of an instruction with its unpacked arguments
pub data Decoded : Type 0 where
  plain : Instruction → Decoded
  wide : WideInstruction → Decoded
  other : Asm.Instruction → Decoded

unfoldable pub select : Opcode → Data → Decoded
select Opcode.add bs =
    plain (Instruction.add (ra_from_bytes bs) (rb_from_bytes bs) (rc_from_bytes bs))
select Opcode.and bs =
    plain (Instruction.and (ra_from_bytes bs) (rb_from_bytes bs) (rc_from_bytes bs))
select Opcode.div bs =
    plain (Instruction.div (ra_from_bytes bs) (rb_from_bytes bs) (rc_from_bytes bs))
select Opcode.eq bs =
    plain (Instruction.eq (ra_from_bytes bs) (rb_from_bytes bs) (rc_from_bytes bs))
select Opcode.exp bs =
    plain (Instruction.exp (ra_from_bytes bs) (rb_from_bytes bs) (rc_from_bytes bs))
select Opcode.gt bs =
    plain (Instruction.gt (ra_from_bytes bs) (rb_from_bytes bs) (rc_from_bytes bs))
select Opcode.lt bs =
    plain (Instruction.lt (ra_from_bytes bs) (rb_from_bytes bs) (rc_from_bytes bs))
select Opcode.mod_op bs =
    plain (Instruction.mod_op (ra_from_bytes bs) (rb_from_bytes bs) (rc_from_bytes bs))
select Opcode.move_op bs = plain (Instruction.move_op (ra_from_bytes bs) (rb_from_bytes bs))
select Opcode.mul bs =
    plain (Instruction.mul (ra_from_bytes bs) (rb_from_bytes bs) (rc_from_bytes bs))
select Opcode.not bs = plain (Instruction.not (ra_from_bytes bs) (rb_from_bytes bs))
select Opcode.or bs =
    plain (Instruction.or (ra_from_bytes bs) (rb_from_bytes bs) (rc_from_bytes bs))
select Opcode.sll bs =
    plain (Instruction.sll (ra_from_bytes bs) (rb_from_bytes bs) (rc_from_bytes bs))
select Opcode.srl bs =
    plain (Instruction.srl (ra_from_bytes bs) (rb_from_bytes bs) (rc_from_bytes bs))
select Opcode.sub bs =
    plain (Instruction.sub (ra_from_bytes bs) (rb_from_bytes bs) (rc_from_bytes bs))
select Opcode.xor bs =
    plain (Instruction.xor (ra_from_bytes bs) (rb_from_bytes bs) (rc_from_bytes bs))
select Opcode.mldv bs =
    plain
      (Instruction.mldv (ra_from_bytes bs) (rb_from_bytes bs) (rc_from_bytes bs) (rd_from_bytes bs))
select Opcode.aloc bs = plain (Instruction.aloc (ra_from_bytes bs))
select Opcode.mcl bs = plain (Instruction.mcl (ra_from_bytes bs) (rb_from_bytes bs))
select Opcode.mcp bs =
    plain (Instruction.mcp (ra_from_bytes bs) (rb_from_bytes bs) (rc_from_bytes bs))
select Opcode.meq bs =
    plain
      (Instruction.meq (ra_from_bytes bs) (rb_from_bytes bs) (rc_from_bytes bs) (rd_from_bytes bs))
select Opcode.noop bs = plain Instruction.noop
select Opcode.flag bs = plain (Instruction.flag (ra_from_bytes bs))
select Opcode.jmp bs = plain (Instruction.jmp (ra_from_bytes bs))
select Opcode.jne bs =
    plain (Instruction.jne (ra_from_bytes bs) (rb_from_bytes bs) (rc_from_bytes bs))
select Opcode.addi bs =
    plain (Instruction.addi (ra_from_bytes bs) (rb_from_bytes bs) (imm12_from_bytes bs))
select Opcode.andi bs =
    plain (Instruction.andi (ra_from_bytes bs) (rb_from_bytes bs) (imm12_from_bytes bs))
select Opcode.divi bs =
    plain (Instruction.divi (ra_from_bytes bs) (rb_from_bytes bs) (imm12_from_bytes bs))
select Opcode.expi bs =
    plain (Instruction.expi (ra_from_bytes bs) (rb_from_bytes bs) (imm12_from_bytes bs))
select Opcode.modi bs =
    plain (Instruction.modi (ra_from_bytes bs) (rb_from_bytes bs) (imm12_from_bytes bs))
select Opcode.muli bs =
    plain (Instruction.muli (ra_from_bytes bs) (rb_from_bytes bs) (imm12_from_bytes bs))
select Opcode.ori bs =
    plain (Instruction.ori (ra_from_bytes bs) (rb_from_bytes bs) (imm12_from_bytes bs))
select Opcode.slli bs =
    plain (Instruction.slli (ra_from_bytes bs) (rb_from_bytes bs) (imm12_from_bytes bs))
select Opcode.srli bs =
    plain (Instruction.srli (ra_from_bytes bs) (rb_from_bytes bs) (imm12_from_bytes bs))
select Opcode.subi bs =
    plain (Instruction.subi (ra_from_bytes bs) (rb_from_bytes bs) (imm12_from_bytes bs))
select Opcode.xori bs =
    plain (Instruction.xori (ra_from_bytes bs) (rb_from_bytes bs) (imm12_from_bytes bs))
select Opcode.jnei bs =
    plain (Instruction.jnei (ra_from_bytes bs) (rb_from_bytes bs) (imm12_from_bytes bs))
select Opcode.lb bs =
    plain (Instruction.lb (ra_from_bytes bs) (rb_from_bytes bs) (imm12_from_bytes bs))
select Opcode.lw bs =
    plain (Instruction.lw (ra_from_bytes bs) (rb_from_bytes bs) (imm12_from_bytes bs))
select Opcode.sb bs =
    plain (Instruction.sb (ra_from_bytes bs) (rb_from_bytes bs) (imm12_from_bytes bs))
select Opcode.sw bs =
    plain (Instruction.sw (ra_from_bytes bs) (rb_from_bytes bs) (imm12_from_bytes bs))
select Opcode.mcpi bs =
    plain (Instruction.mcpi (ra_from_bytes bs) (rb_from_bytes bs) (imm12_from_bytes bs))
select Opcode.lqw bs =
    plain (Instruction.lqw (ra_from_bytes bs) (rb_from_bytes bs) (imm12_from_bytes bs))
select Opcode.lhw bs =
    plain (Instruction.lhw (ra_from_bytes bs) (rb_from_bytes bs) (imm12_from_bytes bs))
select Opcode.sqw bs =
    plain (Instruction.sqw (ra_from_bytes bs) (rb_from_bytes bs) (imm12_from_bytes bs))
select Opcode.shw bs =
    plain (Instruction.shw (ra_from_bytes bs) (rb_from_bytes bs) (imm12_from_bytes bs))
select Opcode.mcli bs = plain (Instruction.mcli (ra_from_bytes bs) (imm18_from_bytes bs))
select Opcode.movi bs = plain (Instruction.movi (ra_from_bytes bs) (imm18_from_bytes bs))
select Opcode.jnzi bs = plain (Instruction.jnzi (ra_from_bytes bs) (imm18_from_bytes bs))
select Opcode.jmpf bs = plain (Instruction.jmpf (ra_from_bytes bs) (imm18_from_bytes bs))
select Opcode.jmpb bs = plain (Instruction.jmpb (ra_from_bytes bs) (imm18_from_bytes bs))
select Opcode.jnzf bs =
    plain (Instruction.jnzf (ra_from_bytes bs) (rb_from_bytes bs) (imm12_from_bytes bs))
select Opcode.jnzb bs =
    plain (Instruction.jnzb (ra_from_bytes bs) (rb_from_bytes bs) (imm12_from_bytes bs))
select Opcode.jnef bs = plain (
    Instruction.jnef (ra_from_bytes bs) (rb_from_bytes bs) (rc_from_bytes bs) (imm06_from_bytes bs))
select Opcode.jneb bs = plain (
    Instruction.jneb (ra_from_bytes bs) (rb_from_bytes bs) (rc_from_bytes bs) (imm06_from_bytes bs))
select Opcode.ji bs = plain (Instruction.ji (imm24_from_bytes bs))
select Opcode.cfei bs = plain (Instruction.cfei (imm24_from_bytes bs))
select Opcode.cfsi bs = plain (Instruction.cfsi (imm24_from_bytes bs))
select Opcode.cfe bs = plain (Instruction.cfe (ra_from_bytes bs))
select Opcode.cfs bs = plain (Instruction.cfs (ra_from_bytes bs))
select Opcode.pshl bs = plain (Instruction.pshl (imm24_from_bytes bs))
select Opcode.pshh bs = plain (Instruction.pshh (imm24_from_bytes bs))
select Opcode.popl bs = plain (Instruction.popl (imm24_from_bytes bs))
select Opcode.poph bs = plain (Instruction.poph (imm24_from_bytes bs))
select Opcode.jal bs =
    plain (Instruction.jal (ra_from_bytes bs) (rb_from_bytes bs) (imm12_from_bytes bs))
select Opcode.wdcm bs = wide (
    WideInstruction.wdcm (ra_from_bytes bs) (rb_from_bytes bs) (rc_from_bytes bs)
      (imm06_from_bytes bs))
select Opcode.wqcm bs = wide (
    WideInstruction.wqcm (ra_from_bytes bs) (rb_from_bytes bs) (rc_from_bytes bs)
      (imm06_from_bytes bs))
select Opcode.wdop bs = wide (
    WideInstruction.wdop (ra_from_bytes bs) (rb_from_bytes bs) (rc_from_bytes bs)
      (imm06_from_bytes bs))
select Opcode.wqop bs = wide (
    WideInstruction.wqop (ra_from_bytes bs) (rb_from_bytes bs) (rc_from_bytes bs)
      (imm06_from_bytes bs))
select Opcode.wdml bs = wide (
    WideInstruction.wdml (ra_from_bytes bs) (rb_from_bytes bs) (rc_from_bytes bs)
      (imm06_from_bytes bs))
select Opcode.wqml bs = wide (
    WideInstruction.wqml (ra_from_bytes bs) (rb_from_bytes bs) (rc_from_bytes bs)
      (imm06_from_bytes bs))
select Opcode.wddv bs = wide (
    WideInstruction.wddv (ra_from_bytes bs) (rb_from_bytes bs) (rc_from_bytes bs)
      (imm06_from_bytes bs))
select Opcode.wqdv bs = wide (
    WideInstruction.wqdv (ra_from_bytes bs) (rb_from_bytes bs) (rc_from_bytes bs)
      (imm06_from_bytes bs))
select Opcode.wdmd bs = wide (
    WideInstruction.wdmd (ra_from_bytes bs) (rb_from_bytes bs) (rc_from_bytes bs)
      (rd_from_bytes bs))
select Opcode.wqmd bs = wide (
    WideInstruction.wqmd (ra_from_bytes bs) (rb_from_bytes bs) (rc_from_bytes bs)
      (rd_from_bytes bs))
select Opcode.wdam bs = wide (
    WideInstruction.wdam (ra_from_bytes bs) (rb_from_bytes bs) (rc_from_bytes bs)
      (rd_from_bytes bs))
select Opcode.wqam bs = wide (
    WideInstruction.wqam (ra_from_bytes bs) (rb_from_bytes bs) (rc_from_bytes bs)
      (rd_from_bytes bs))
select Opcode.wdmm bs = wide (
    WideInstruction.wdmm (ra_from_bytes bs) (rb_from_bytes bs) (rc_from_bytes bs)
      (rd_from_bytes bs))
select Opcode.wqmm bs = wide (
    WideInstruction.wqmm (ra_from_bytes bs) (rb_from_bytes bs) (rc_from_bytes bs)
      (rd_from_bytes bs))
select op bs = other (record { opcode = op; data_bytes = bs })

-- What the interpreter is given: the costs and the integer types
pub record Environment : Type 0 where
  pub costs : GasCosts
  pub wide_costs : WideCosts
  pub u128 : WideOps
  pub u256 : WideOps

unfoldable pub execute_decoded : Environment → Decoded → Action Progress
unfolding execute execute_wide
execute_decoded env (plain instruction) = execute env.costs instruction >> pure (state proceed)
execute_decoded env (wide instruction) =
    execute_wide env.wide_costs env.u128 env.u256 instruction >> pure (state proceed)
execute_decoded env (other instruction) = pure (pending instruction)

unfoldable pub fetch_instruction : Action (List ℕ)
fetch_instruction = do
  pc ← reg Reg.pc
  raw ← λ vm. (read vm.memory pc 4, vm)
  is ← reg Reg.is
  ssp ← reg Reg.ssp
  raise_if (ltb pc is || leb ssp pc) (panic PanicReason.memory_not_executable)
  pure raw

unfoldable pub instruction_parsed : Environment → Bool → Option Asm.Instruction → Action Progress
unfolding select execute_decoded
instruction_parsed env predicate none = raise (panic PanicReason.invalid_instruction)
instruction_parsed env predicate (some instruction) = do
  raise_if (predicate && not (is_predicate_allowed instruction.opcode))
      (panic PanicReason.contract_instruction_not_allowed)
  execute_decoded env (select instruction.opcode instruction.data_bytes)

unfoldable pub instruction_inner : Environment → Bool → List ℕ → Action Progress
unfolding instruction_parsed
instruction_inner env predicate raw = instruction_parsed env predicate (try_from_four raw)

-- `Interpreter::execute`
unfoldable pub step : Environment → Bool → Action Progress
unfolding fetch_instruction instruction_inner
step env predicate = do raw ← fetch_instruction; instruction_inner env predicate raw

-- The end of a round of `run_program`'s loop: whether the loop goes on. A return ends it outside
-- calls only.
abbrev continue_with : Bool → Progress → Action Progress → Action Progress
continue_with in_call (state proceed) next = next
continue_with in_call (state (return w)) next = if in_call then next else pure (state (return w))
continue_with in_call (state (return_data digest)) next =
    if in_call then next else pure (state (return_data digest))
continue_with in_call (state (revert w)) next = pure (state (revert w))
continue_with in_call (pending instruction) next = pure (pending instruction)

abbrev nonempty {ℓ} : {A : Type ℓ} → List A → Bool
nonempty [] = false
nonempty (x ∷ xs) = true

-- The first rounds of the loop of `run_program`; `proceed` where it has not ended by then,
-- and the instruction that is not executed where it has met one.
unfoldable pub rounds : ℕ → Environment → Action Progress
unfolding step
rounds zero env = pure (state proceed)
rounds (suc n) env = do
  in_call ← gets (λ vm. nonempty vm.frames)
  progress ← step env false
  continue_with in_call progress (rounds n env)
