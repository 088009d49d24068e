-- ===== src/Vm/Tests.antt =====
-- The theorems on the interpreter, at a small concrete state.
use fuel_vm.Reg
use fuel_vm.Prelude.{
  ℕ, ◌+◌, ◌*◌, ◌/◌, ◌%◌, ◌^◌, ◌≤◌, ◌<◌, ◌≡◌, ◌≢◌, refl, ◌⊎◌, [], ◌∷◌, some, true, false,
  if◌then◌else◌, ◌==◌, arith, word_max,
}
use fuel_vm.Outcome.{ok, err, panic, PanicReason}
use fuel_vm.Memory.{mem_size, vm_max_ram, has_ownership_range}
use fuel_vm.Memory.Valid.{byte}
use fuel_vm.Memory.Write.{owns}
use fuel_vm.Vm.{Vm, Registers, update, ◌>>◌, ownership_registers, instruction_size, is_unsafe_math}
use fuel_vm.Vm.Gas.{gas_charge}
use fuel_vm.Vm.Gas.Costs.{unit_costs}
use fuel_vm.Vm.Gas.Charge.{Spent, gas_charge_lem}
use fuel_vm.Vm.Alu.{alu_capture_overflow, overflowing_add_u128, alu_error, muldiv}
use fuel_vm.Vm.Alu.Correct.{Wraps, Finished, alu_capture_overflow_lem, alu_error_lem, muldiv_lem}
use fuel_vm.Vm.Alu.Root.{checked_nth_root, IsNthRoot, checked_nth_root_lem}
use fuel_vm.Vm.Jump.{JumpMode, JumpArgs, jump_args, to_address, jump}
use fuel_vm.Vm.Jump.Target.{Reaches, jump_lem}
use fuel_vm.Vm.MemoryOps.{
  store, load, ProgramRegistersSegment, segment_len, count_ones, push_selected_registers,
  pop_selected_registers,
}
use fuel_vm.Vm.MemoryOps.{try_update_stack_pointer, selected_bytes, bit_set}
use fuel_vm.Vm.{inc_pc}
use fuel_vm.Memory.{grow_stack, write_noownerchecks, copy_from_slice, verify, to_addr, heap_offset}
use fuel_vm.Prelude.{
  true, replicate, saturating_add, overwrite, resize, to_be_bytes, take, drop, word_max, ◌<◌,
}
use fuel_vm.Vm.MemoryOps.LoadStore.{store-load}
use fuel_vm.Vm.MemoryOps.Stack.{push-pop, Unselected}
use fuel_vm.Vm.Instruction.{Instruction, execute}
use fuel_vm.Vm.Valid.{IsValid, Post}
use fuel_vm.Vm.Valid.Charged.{IsChargeable}
use fuel_vm.Vm.Valid.Run.{execute-IsValid}

-- Eight bytes on the stack, all of them the program's
abbrev start_registers : Registers
start_registers r =
    if r == Reg.one
    then 1
    else if r == Reg.sp
    then 8
    else if r == Reg.hp
    then mem_size
    else if r == Reg.ggas
    then 1000
    else if r == Reg.cgas
    then 900
    else if r == 17
    then 70
    else 0

abbrev start : Vm
start = record {
  registers = start_registers;
  memory = record { stack = 1 ∷ 2 ∷ 3 ∷ 4 ∷ 5 ∷ 6 ∷ 7 ∷ 8 ∷ []; heap = []; hp = mem_size };
  frames = [];
}

octet_at : (j b : ℕ) → byte start.memory j ≡ some b → b < 256
unfolding byte
octet_at j b e = ground arith

start-IsValid : IsValid start
start-IsValid = record {
  words = λ r. ground arith;
  zero_reg = refl;
  one_reg = refl;
  memory = record {
    hp_bound = omega arith;
    stack_below = omega arith;
    heap_fits = omega arith;
    heap_covers = omega arith;
  };
  octets = octet_at;
  heap_pointer = refl;
  stack_grown = omega arith;
  stack_order = omega arith;
  gas_order = omega arith;
}

unit_costs-IsChargeable : IsChargeable unit_costs
unit_costs-IsChargeable = record {
  aloc = tt;
  cfe = tt;
  cfei = tt;
  mcl = tt;
  mcli = tt;
  mcp = tt;
  mcpi = tt;
  meq = tt;
}

execute-IsValid_example :
    IsValid (execute unit_costs (Instruction.addi 16 17 5) start).1
    × Post (λ _. Unit {0}) (execute unit_costs (Instruction.addi 16 17 5) start).0
execute-IsValid_example =
    execute-IsValid unit_costs (Instruction.addi 16 17 5) start unit_costs-IsChargeable tt
      start-IsValid

owned : owns (ownership_registers start) (0 + 0 * 8) 8 ≡ true
unfolding has_ownership_range ownership_registers
owned = refl

store-load_example :
    (vm' : Vm) × ((store 8 0 70 0 >> load 8 16 0 0) start ≡ (ok tt, vm'))
    × (vm'.registers 16 ≡ 70 % 256 ^ 8)
    × (vm'.registers Reg.pc ≡ start.registers Reg.pc + 2 * instruction_size)
store-load_example =
    store-load 8 0 70 0 16 start start-IsValid.memory (omega arith) owned (omega arith)
      (omega arith)

gas_charge_lem_example :
    ((950 ≤ start.registers Reg.cgas)
      × ((gas_charge 950 start).0 ≡ ok tt)
      × Spent 950 start (gas_charge 950 start).1)
    ⊎ ((start.registers Reg.cgas < 950)
        × ((gas_charge 950 start).0 ≡ err (panic PanicReason.out_of_gas))
        × Spent (start.registers Reg.cgas) start (gas_charge 950 start).1)
gas_charge_lem_example = gas_charge_lem 950 start (omega arith)

alu_capture_overflow_lem_example :
    Wraps 16
      (overflowing_add_u128 70 2).0
      start
      (alu_capture_overflow 16 overflowing_add_u128 70 2 start)
alu_capture_overflow_lem_example =
    alu_capture_overflow_lem 16 overflowing_add_u128 70 2 start (omega arith)

alu_error_lem_example :
    ((16 < Reg.writable)
      × (alu_error 16 ◌/◌ 70 0 true start
          ≡ (err (panic PanicReason.reserved_register_not_writable), start)))
    ⊎ ((Reg.writable ≤ 16)
        × (true ≡ true)
        × (is_unsafe_math (start.registers Reg.flag) ≡ false)
        × (alu_error 16 ◌/◌ 70 0 true start ≡ (err (panic PanicReason.arithmetic_error), start)))
    ⊎ ((Reg.writable ≤ 16)
        × (true ≡ true)
        × (is_unsafe_math (start.registers Reg.flag) ≡ true)
        × Finished 16 0 0 1 start (alu_error 16 ◌/◌ 70 0 true start))
    ⊎ ((Reg.writable ≤ 16)
        × (true ≡ false)
        × Finished 16 (70 / 0) 0 0 start (alu_error 16 ◌/◌ 70 0 true start))
alu_error_lem_example = alu_error_lem 16 ◌/◌ 70 0 true start (omega arith)

muldiv_lem_example :
    ((muldiv word_max 70 2).0 + (muldiv word_max 70 2).1 * 2 ^ 64
      ≡ (word_max * 70) / (if 2 == 0 then 2 ^ 64 else 2))
    × ((muldiv word_max 70 2).0 ≤ word_max)
    × ((muldiv word_max 70 2).1 ≤ word_max)
muldiv_lem_example = muldiv_lem word_max 70 2 (omega arith) (omega arith)

abbrev forwards : JumpArgs
forwards = to_address (jump_args JumpMode.relative_forwards) 70

jump_lem_example :
    ((t : ℕ) × (t < vm_max_ram)
      × Reaches JumpMode.relative_forwards 70 0 (start.registers Reg.is) (start.registers Reg.pc) t
      × (jump forwards start
          ≡ (ok tt, record start { registers = update start.registers Reg.pc t })))
    ⊎ (((t : ℕ)
          → t < vm_max_ram
          → ¬ Reaches JumpMode.relative_forwards 70 0
              (start.registers Reg.is)
              (start.registers Reg.pc)
              t)
        × (jump forwards start ≡ (err (panic PanicReason.memory_overflow), start)))
jump_lem_example = jump_lem forwards start refl (omega arith)

-- The registers 16 and 17
room : start.registers Reg.sp + count_ones segment_len 0 3 * 8 ≤ start.registers Reg.hp
unfolding count_ones
room = omega arith

-- The program loses both registers between a push and a pop.
abbrev overwritten : Vm
overwritten = record (push_selected_registers ProgramRegistersSegment.low 3 start).1 {
  registers =
      update
        (update (push_selected_registers ProgramRegistersSegment.low 3 start).1.registers 16 99) 17
        98;
}

push_keeps_ssp : overwritten.registers Reg.ssp ≡ start.registers Reg.ssp
unfolding push_selected_registers try_update_stack_pointer count_ones selected_bytes replicate
    saturating_add grow_stack write_noownerchecks copy_from_slice verify to_addr overwrite resize
    to_be_bytes inc_pc heap_offset take drop
push_keeps_ssp = refl

push_keeps_hp : overwritten.registers Reg.hp ≡ start.registers Reg.hp
unfolding push_selected_registers try_update_stack_pointer count_ones selected_bytes replicate
    saturating_add grow_stack write_noownerchecks copy_from_slice verify to_addr overwrite resize
    to_be_bytes inc_pc heap_offset take drop
push_keeps_hp = refl

next_word : overwritten.registers Reg.pc + instruction_size ≤ word_max
unfolding push_selected_registers try_update_stack_pointer count_ones selected_bytes replicate
    saturating_add grow_stack write_noownerchecks copy_from_slice verify to_addr overwrite resize
    to_be_bytes inc_pc heap_offset take drop
next_word = omega arith

push-pop_example :
    ((push_selected_registers ProgramRegistersSegment.low 3 start).0 ≡ ok tt)
    × ((vm' : Vm) × (pop_selected_registers ProgramRegistersSegment.low 3 overwritten
          ≡ (ok tt, vm'))
        × ((j : ℕ)
            → j < segment_len
            → bit_set 3 j ≡ true
            → vm'.registers (16 + j) ≡ start.registers (16 + j))
        × ((r : ℕ)
            → r ≢ Reg.pc
            → r ≢ Reg.sp
            → Unselected segment_len 0 16 3 r
            → vm'.registers r ≡ overwritten.registers r)
        × (vm'.registers Reg.sp ≡ start.registers Reg.sp)
        × (vm'.registers Reg.pc ≡ overwritten.registers Reg.pc + instruction_size)
        × (vm'.memory ≡ overwritten.memory))
push-pop_example =
    push-pop ProgramRegistersSegment.low 3 start overwritten start-IsValid room (omega arith) refl
      refl push_keeps_ssp push_keeps_hp next_word

-- A guess that is one too high is corrected.
checked_nth_root_lem_example :
    (root : ℕ) × (checked_nth_root (λ (target nth_root : ℕ). 4) 27 3 ≡ ok (some root))
    × IsNthRoot 27 3 root
checked_nth_root_lem_example =
    checked_nth_root_lem (λ (target nth_root : ℕ). 4) 27 3
      (λ h k l. record { not_high = omega arith; not_low = omega arith }) (omega arith)
      (omega arith)
