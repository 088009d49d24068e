-- ===== src/Memory/Valid.antt =====
-- The invariant of `MemoryInstance` and the memory that a program sees: the byte at an address,
-- if the address lies on the stack or above the heap pointer.
use fuel_vm.Prelude.{
  ℕ, ◌+◌, ◌-◌, ◌≤◌, ◌≡◌, ◌&&◌, Option, none, ltb, leb, if◌then◌else◌, length, get_elem?, arith,
  length-truncate,
}
use fuel_vm.Memory.{MemoryInstance, mem_size, heap_offset, new_memory, reset}

pub record IsValid (m : MemoryInstance) : Type 0 where
  pub hp_bound : m.hp ≤ mem_size
  pub stack_below : length m.stack ≤ m.hp
  pub heap_fits : length m.heap ≤ mem_size
  pub heap_covers : mem_size - m.hp ≤ length m.heap

-- What a read of one byte finds.
unfoldable pub byte : MemoryInstance → ℕ → Option ℕ
byte m a =
    if ltb a (length m.stack)
    then get_elem? m.stack a
    else if leb m.hp a && ltb a mem_size
    then get_elem? m.heap (a - heap_offset m)
    else none

pub new_memory-IsValid : IsValid new_memory
unfolding new_memory
new_memory-IsValid = omega arith

pub reset-IsValid : (m : MemoryInstance) → IsValid m → IsValid (reset m)
unfolding reset
reset-IsValid m v = omega (arith, length-truncate {0} m.stack 0)

-- The heap's offset in address space does not pass the heap pointer.
pub heap_offset-le : (m : MemoryInstance) → IsValid m → heap_offset m ≤ m.hp
unfolding heap_offset
heap_offset-le m v = omega arith

pub heap_offset-add-length :
    (m : MemoryInstance) → IsValid m → heap_offset m + length m.heap ≡ mem_size
unfolding heap_offset
heap_offset-add-length m v = omega arith
