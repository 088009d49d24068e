-- ===== src/Vm/MemoryOps.antt =====
-- The handlers of the memory instructions: the second half of
-- fuel-vm/src/interpreter/memory.rs.
pub mod Push
pub mod Stack
pub mod LoadStore
use fuel_vm.Reg
use fuel_vm.Prelude.{
  length, ℕ, zero, suc, ◌+◌, ◌-◌, ◌*◌, ◌/◌, ◌%◌, ◌^◌, Bool, true, false, List, [], ◌∷◌, ◌++◌, ltb,
  leb, ◌==◌, if◌then◌else◌, take, drop, replicate, saturating_add, checked_add, checked_sub,
  word_max, to_be_bytes, from_be_bytes,
}
use fuel_vm.Outcome.{Result, ok, err, panic, crash, PanicReason}
use fuel_vm.Memory.{
  MemoryInstance, OwnershipRegisters, grow_stack, grow_heap_by, read, write, write_noownerchecks,
  copy_from_slice, write_bytes,
}
use fuel_vm.Memory.Copy.{memcopy}
use fuel_vm.Memory.Rollback.{bytes_eq}
use fuel_vm.Vm.{
  Vm, Action, ◌>>=◌, ◌>>◌, gets, reg, set_reg, raise, raise_if, from_option, from_result, on_memory,
  write_reg_key, inc_pc, ownership_registers, update, Registers,
}
use fuel_vm.Vm.Alu.{bool_word}

-- The new stack pointer is stored before the stack grows.
unfoldable pub try_update_stack_pointer : ℕ → Action (Unit {0})
try_update_stack_pointer new_sp = do
  ssp ← reg Reg.ssp
  raise_if (ltb new_sp ssp) (panic PanicReason.memory_overflow)
  hp ← reg Reg.hp
  raise_if (ltb hp new_sp) (panic PanicReason.memory_growth_overlap)
  set_reg Reg.sp new_sp
  on_memory (λ m. grow_stack m new_sp)

-- `u64::overflowing_add` and `overflowing_sub`
abbrev pub overflowing_add : ℕ → ℕ → ℕ × Bool
overflowing_add a b = ((a + b) % 2 ^ 64, ltb word_max (a + b))

abbrev pub overflowing_sub : ℕ → ℕ → ℕ × Bool
overflowing_sub a b = ((a + 2 ^ 64 - b) % 2 ^ 64, ltb a b)

unfoldable pub stack_pointer_overflow : (ℕ → ℕ → ℕ × Bool) → ℕ → Action (Unit {0})
unfolding try_update_stack_pointer inc_pc
stack_pointer_overflow f v = do
  sp ← reg Reg.sp
  let (new_sp, overflow) = f sp v
  raise_if overflow (panic PanicReason.memory_overflow)
  try_update_stack_pointer new_sp
  inc_pc

-- `ProgramRegistersSegment`, by the number of its first register
pub data ProgramRegistersSegment : Type 0 where
  low high : ProgramRegistersSegment

abbrev pub segment_start : ProgramRegistersSegment → ℕ
segment_start ProgramRegistersSegment.low = 16
segment_start ProgramRegistersSegment.high = 40

abbrev pub segment_len : ℕ
segment_len = 24

-- `bitmask & (1 << i) != 0`
abbrev pub bit_set : ℕ → ℕ → Bool
bit_set bitmask i = bitmask / 2 ^ i % 2 == 1

-- `bitmask.count_ones()` over the bits from `i` on, `n` of them
unfoldable pub count_ones : ℕ → ℕ → ℕ → ℕ
count_ones zero i bitmask = 0
count_ones (suc n) i bitmask = (if bit_set bitmask i then 1 else 0) + count_ones n (suc i) bitmask

-- The bytes of the selected registers among the `n` from the `i`-th of the segment on
unfoldable pub selected_bytes : ℕ → ℕ → ℕ → ℕ → Registers → List ℕ
selected_bytes zero i start bitmask regs = []
selected_bytes (suc n) i start bitmask regs =
    (if bit_set bitmask i then to_be_bytes 8 (regs (start + i)) else [])
    ++ selected_bytes n (suc i) start bitmask regs

unfoldable pub push_selected_registers : ProgramRegistersSegment → ℕ → Action (Unit {0})
unfolding try_update_stack_pointer inc_pc
push_selected_registers segment bitmask = do
  write_at ← reg Reg.sp
  let write_size = count_ones segment_len 0 bitmask * 8
  try_update_stack_pointer (saturating_add write_at write_size)
  regs ← gets (λ vm. vm.registers)
  slot ← λ vm. (write_noownerchecks vm.memory write_at write_size, vm)
  on_memory (λ m.
      copy_from_slice m slot (selected_bytes segment_len 0 (segment_start segment) bitmask regs))
  inc_pc

-- The loop that reads the selected registers back, a word at a time. That a word is missing, where
-- the source stops the host, is tested before the loop.
unfoldable pub restore_selected : ℕ → ℕ → ℕ → ℕ → List ℕ → Registers → Registers
restore_selected zero i start bitmask bytes regs = regs
restore_selected (suc n) i start bitmask bytes regs =
    restore_selected n (suc i) start bitmask (if bit_set bitmask i then drop 8 bytes else bytes)
      (if bit_set bitmask i then update regs (start + i) (from_be_bytes (take 8 bytes)) else regs)

unfoldable pub pop_selected_registers : ProgramRegistersSegment → ℕ → Action (Unit {0})
unfolding try_update_stack_pointer inc_pc
pop_selected_registers segment bitmask = do
  sp ← reg Reg.sp
  let size_in_stack = count_ones segment_len 0 bitmask * 8
  new_sp ← from_option (checked_sub sp size_in_stack) (panic PanicReason.memory_overflow)
  try_update_stack_pointer new_sp
  bytes ← λ vm. (read vm.memory new_sp size_in_stack, vm)
  raise_if (ltb (length bytes) size_in_stack) crash
  (λ vm. (
    ok tt,
    record vm {
      registers = restore_selected segment_len 0 (segment_start segment) bitmask bytes vm.registers;
    },
  ))
  inc_pc

-- `store_u8` to `store_u64`, by the size of the type
unfoldable pub store : ℕ → ℕ → ℕ → ℕ → Action (Unit {0})
unfolding inc_pc
store size dst_addr value offset = do
  owner ← gets ownership_registers
  addr ← from_option (checked_add dst_addr (offset * size)) (panic PanicReason.memory_overflow)
  on_memory (λ m. write_bytes m owner addr (to_be_bytes size value))
  inc_pc

-- `load_u8` to `load_u64`
unfoldable pub load : ℕ → ℕ → ℕ → ℕ → Action (Unit {0})
unfolding write_reg_key inc_pc
load size ra src_addr offset = do
  result ← write_reg_key ra
  addr ← from_option (checked_add src_addr (offset * size)) (panic PanicReason.memory_overflow)
  bytes ← λ vm. (read vm.memory addr size, vm)
  set_reg result (from_be_bytes bytes)
  inc_pc

-- The memory sets the register of the heap pointer as well.
unfoldable pub malloc : ℕ → Action (Unit {0})
unfolding inc_pc
malloc amount = do
  sp ← reg Reg.sp
  on_memory (λ m. grow_heap_by m sp amount)
  hp ← gets (λ vm. vm.memory.hp)
  set_reg Reg.hp hp
  inc_pc

unfoldable pub memclear : ℕ → ℕ → Action (Unit {0})
unfolding inc_pc
memclear a b = do
  owner ← gets ownership_registers
  slot ← λ vm. (write vm.memory owner a b, vm)
  on_memory (λ m. copy_from_slice m slot (replicate b 0))
  inc_pc

unfoldable pub memory_copy : ℕ → ℕ → ℕ → Action (Unit {0})
unfolding inc_pc
memory_copy dst src len = do
  owner ← gets ownership_registers
  on_memory (λ m. memcopy m dst src len owner)
  inc_pc

unfoldable pub memeq : ℕ → ℕ → ℕ → ℕ → Action (Unit {0})
unfolding write_reg_key inc_pc
memeq ra b c d = do
  result ← write_reg_key ra
  left ← λ vm. (read vm.memory b d, vm)
  right ← λ vm. (read vm.memory c d, vm)
  set_reg result (bool_word (bytes_eq left right))
  inc_pc
