-- ===== src/Vm/Step/Valid.antt =====
-- Every round of the interpreter (fuel-vm/src/interpreter/executors/instruction.rs) keeps the
-- invariant of the state.
use fuel_vm.Reg
use fuel_vm.Prelude.{
  ℕ, zero, suc, ◌^◌, ◌<◌, Bool, false, Option, none, some, ◌&&◌, ◌||◌, not, ltb, leb, arith,
}
use fuel_vm.Outcome.{PanicReason}
use fuel_vm.Asm
use fuel_vm.Asm.Table.{Opcode, is_predicate_allowed}
use fuel_vm.Asm.Packing.{Data, imm12_from_bytes, imm18_from_bytes}
use fuel_vm.Vm.{Vm, Action}
use fuel_vm.Vm.WideInt.Laws.{IsWide}
use fuel_vm.Vm.WideInt.Run.{execute_wide-Keeps}
use fuel_vm.Vm.Valid.{
  IsValid, Post, Runs, Runs-bind, Runs-then, reg-Runs, pure-Runs, if-Runs, raise-Runs,
  raise_if-Runs,
}
use fuel_vm.Vm.Valid.Access.{read-Runs, gets-Runs}
use fuel_vm.Vm.Valid.Charged.{IsChargeable}
use fuel_vm.Vm.Valid.Run.{IsEncodable, execute-Keeps}
use fuel_vm.Vm.Step
use fuel_vm.Vm.Step.{
  ExecuteState, Progress, state, pending, proceed, return, revert, return_data, Decoded, plain,
  wide, other, select, Environment, execute_decoded, fetch_instruction, instruction_parsed,
  instruction_inner, step, rounds,
}

abbrev IsSelected : Decoded → Type 0
IsSelected (plain instruction) = IsEncodable instruction
IsSelected (wide instruction) = Unit
IsSelected (other instruction) = Unit

imm12-lt : (bs : Data) → imm12_from_bytes bs < 2 ^ 12
unfolding imm12_from_bytes
imm12-lt bs = omega arith

imm18-lt : (bs : Data) → imm18_from_bytes bs < 2 ^ 18
unfolding imm18_from_bytes
imm18-lt bs = omega arith

select-IsSelected : (op : Opcode) (bs : Data) → IsSelected (select op bs)
unfolding select
select-IsSelected Opcode.add bs = tt
select-IsSelected Opcode.and bs = tt
select-IsSelected Opcode.div bs = tt
select-IsSelected Opcode.eq bs = tt
select-IsSelected Opcode.exp bs = tt
select-IsSelected Opcode.gt bs = tt
select-IsSelected Opcode.lt bs = tt
select-IsSelected Opcode.mlog bs = tt
select-IsSelected Opcode.mroo bs = tt
select-IsSelected Opcode.mod_op bs = tt
select-IsSelected Opcode.move_op bs = tt
select-IsSelected Opcode.mul bs = tt
select-IsSelected Opcode.not bs = tt
select-IsSelected Opcode.or bs = tt
select-IsSelected Opcode.sll bs = tt
select-IsSelected Opcode.srl bs = tt
select-IsSelected Opcode.sub bs = tt
select-IsSelected Opcode.xor bs = tt
select-IsSelected Opcode.mldv bs = tt
select-IsSelected Opcode.ret bs = tt
select-IsSelected Opcode.retd bs = tt
select-IsSelected Opcode.aloc bs = tt
select-IsSelected Opcode.mcl bs = tt
select-IsSelected Opcode.mcp bs = tt
select-IsSelected Opcode.meq bs = tt
select-IsSelected Opcode.bhsh bs = tt
select-IsSelected Opcode.bhei bs = tt
select-IsSelected Opcode.burn bs = tt
select-IsSelected Opcode.call bs = tt
select-IsSelected Opcode.ccp bs = tt
select-IsSelected Opcode.croo bs = tt
select-IsSelected Opcode.csiz bs = tt
select-IsSelected Opcode.cb bs = tt
select-IsSelected Opcode.ldc bs = tt
select-IsSelected Opcode.log bs = tt
select-IsSelected Opcode.logd bs = tt
select-IsSelected Opcode.mint bs = tt
select-IsSelected Opcode.rvrt bs = tt
select-IsSelected Opcode.scwq bs = tt
select-IsSelected Opcode.srw bs = tt
select-IsSelected Opcode.srwq bs = tt
select-IsSelected Opcode.sww bs = tt
select-IsSelected Opcode.swwq bs = tt
select-IsSelected Opcode.tr bs = tt
select-IsSelected Opcode.tro bs = tt
select-IsSelected Opcode.eck1 bs = tt
select-IsSelected Opcode.ecr1 bs = tt
select-IsSelected Opcode.ed19 bs = tt
select-IsSelected Opcode.k256 bs = tt
select-IsSelected Opcode.s256 bs = tt
select-IsSelected Opcode.time bs = tt
select-IsSelected Opcode.noop bs = tt
select-IsSelected Opcode.flag bs = tt
select-IsSelected Opcode.bal bs = tt
select-IsSelected Opcode.jmp bs = tt
select-IsSelected Opcode.jne bs = tt
select-IsSelected Opcode.smo bs = tt
select-IsSelected Opcode.addi bs = tt
select-IsSelected Opcode.andi bs = imm12-lt bs
select-IsSelected Opcode.divi bs = tt
select-IsSelected Opcode.expi bs = tt
select-IsSelected Opcode.modi bs = tt
select-IsSelected Opcode.muli bs = tt
select-IsSelected Opcode.ori bs = imm12-lt bs
select-IsSelected Opcode.slli bs = tt
select-IsSelected Opcode.srli bs = tt
select-IsSelected Opcode.subi bs = tt
select-IsSelected Opcode.xori bs = imm12-lt bs
select-IsSelected Opcode.jnei bs = tt
select-IsSelected Opcode.lb bs = tt
select-IsSelected Opcode.lw bs = tt
select-IsSelected Opcode.sb bs = tt
select-IsSelected Opcode.sw bs = tt
select-IsSelected Opcode.mcpi bs = tt
select-IsSelected Opcode.gtf bs = tt
select-IsSelected Opcode.lqw bs = tt
select-IsSelected Opcode.lhw bs = tt
select-IsSelected Opcode.sqw bs = tt
select-IsSelected Opcode.shw bs = tt
select-IsSelected Opcode.mcli bs = tt
select-IsSelected Opcode.gm bs = tt
select-IsSelected Opcode.movi bs = imm18-lt bs
select-IsSelected Opcode.jnzi bs = tt
select-IsSelected Opcode.jmpf bs = tt
select-IsSelected Opcode.jmpb bs = tt
select-IsSelected Opcode.jnzf bs = tt
select-IsSelected Opcode.jnzb bs = tt
select-IsSelected Opcode.jnef bs = tt
select-IsSelected Opcode.jneb bs = tt
select-IsSelected Opcode.ji bs = tt
select-IsSelected Opcode.cfei bs = tt
select-IsSelected Opcode.cfsi bs = tt
select-IsSelected Opcode.cfe bs = tt
select-IsSelected Opcode.cfs bs = tt
select-IsSelected Opcode.pshl bs = tt
select-IsSelected Opcode.pshh bs = tt
select-IsSelected Opcode.popl bs = tt
select-IsSelected Opcode.poph bs = tt
select-IsSelected Opcode.jal bs = tt
select-IsSelected Opcode.wdcm bs = tt
select-IsSelected Opcode.wqcm bs = tt
select-IsSelected Opcode.wdop bs = tt
select-IsSelected Opcode.wqop bs = tt
select-IsSelected Opcode.wdml bs = tt
select-IsSelected Opcode.wqml bs = tt
select-IsSelected Opcode.wddv bs = tt
select-IsSelected Opcode.wqdv bs = tt
select-IsSelected Opcode.wdmd bs = tt
select-IsSelected Opcode.wqmd bs = tt
select-IsSelected Opcode.wdam bs = tt
select-IsSelected Opcode.wqam bs = tt
select-IsSelected Opcode.wdmm bs = tt
select-IsSelected Opcode.wqmm bs = tt
select-IsSelected Opcode.ecal bs = tt
select-IsSelected Opcode.bsiz bs = tt
select-IsSelected Opcode.bldd bs = tt
select-IsSelected Opcode.ecop bs = tt
select-IsSelected Opcode.epar bs = tt

-- Costs that can be charged, integer types that compute as documented, and other executors that
-- keep the invariant
pub record IsEnvironment (env : Environment) : Type 0 where
  pub chargeable : IsChargeable env.costs
  pub u128 : IsWide env.u128
  pub u256 : IsWide env.u256

module _ (env : Environment) (h : IsEnvironment env) where
  execute_decoded-Runs :
      (decoded : Decoded) → IsSelected decoded → Runs (λ _. Unit {0}) (execute_decoded env decoded)
  unfolding execute_decoded
  execute_decoded-Runs (plain instruction) e =
      Runs-then (execute-Keeps env.costs instruction h.chargeable e)
        (pure-Runs {a = state proceed} tt)
  execute_decoded-Runs (wide instruction) e =
      Runs-then (execute_wide-Keeps env.wide_costs env.u128 env.u256 instruction h.u128 h.u256)
        (pure-Runs {a = state proceed} tt)
  execute_decoded-Runs (other instruction) e = pure-Runs {a = pending instruction} tt

  fetch_instruction-Runs : Runs (λ _. Unit {0}) fetch_instruction
  unfolding fetch_instruction
  fetch_instruction-Runs = Runs-bind (reg-Runs Reg.pc) λ pc _. Runs-bind (read-Runs pc 4) λ raw _.
      Runs-bind (reg-Runs Reg.is) λ is _. Runs-bind (reg-Runs Reg.ssp) λ ssp _.
        Runs-bind (raise_if-Runs (ltb pc is || leb ssp pc) PanicReason.memory_not_executable)
          λ _ _. pure-Runs {a = raw} tt

  instruction_parsed-Runs :
      (predicate : Bool) (o : Option Asm.Instruction)
      → Runs (λ _. Unit {0}) (instruction_parsed env predicate o)
  unfolding instruction_parsed
  instruction_parsed-Runs predicate none = raise-Runs PanicReason.invalid_instruction
  instruction_parsed-Runs predicate (some i) =
      Runs-bind
        (raise_if-Runs (predicate && not (is_predicate_allowed i.opcode))
          PanicReason.contract_instruction_not_allowed)
        λ _ _.
          execute_decoded-Runs (select i.opcode i.data_bytes)
            (select-IsSelected i.opcode i.data_bytes)

  step-Runs : (predicate : Bool) → Runs (λ _. Unit {0}) (step env predicate)
  unfolding step instruction_inner
  step-Runs predicate =
      Runs-bind fetch_instruction-Runs
        (λ raw _. instruction_parsed-Runs predicate (Asm.try_from_four raw))

  continue-Runs :
      (in_call : Bool) (progress : Progress) {next : Action Progress}
      → Runs (λ _. Unit {0}) next
      → Runs (λ _. Unit {0}) (Step.continue_with in_call progress next)
  continue-Runs in_call (state proceed) k = k
  continue-Runs in_call (state (return w)) k = if-Runs in_call k (pure-Runs tt)
  continue-Runs in_call (state (return_data digest)) k = if-Runs in_call k (pure-Runs tt)
  continue-Runs in_call (state (revert w)) k = pure-Runs tt
  continue-Runs in_call (pending instruction) k = pure-Runs tt

  rounds-Runs : (n : ℕ) → Runs (λ _. Unit {0}) (rounds n env)
  unfolding rounds
  rounds-Runs zero = pure-Runs {a = state proceed} tt
  rounds-Runs (suc n) =
      Runs-bind (gets-Runs (λ _. Unit {0}) (λ vm. Step.nonempty vm.frames) (λ vm v. tt))
        λ in_call _.
          Runs-bind (step-Runs false) (λ progress _. continue-Runs in_call progress (rounds-Runs n))

  -- After any number of rounds from a valid state, the state is valid, and the interpreter has
  -- neither reported a bug of its own nor stopped the host, whatever bytes stand in the memory. The
  -- rounds end where the code returns, fails, or comes to an instruction that is handed out.
  pub rounds-IsValid :
      (n : ℕ) (vm : Vm)
      → IsValid vm
      → IsValid (rounds n env vm).1 × Post (λ _. Unit {0}) (rounds n env vm).0
  rounds-IsValid n vm v = let runs = rounds-Runs n in (runs.keeps vm v, runs.post vm v)
