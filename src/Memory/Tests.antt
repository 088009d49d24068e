-- ===== src/Memory/Tests.antt =====
-- The theorems on the memory, at small concrete memories.
use fuel_vm.Prelude.{
  ℕ, ◌-◌, ◌≤◌, ◌<◌, ◌≡◌, ◌≢◌, refl, ◌⊎◌, List, [], ◌∷◌, none, some, true, false, arith, overwrite,
  take, drop,
}
use fuel_vm.Outcome.{ok, err, panic, crash, PanicReason}
use fuel_vm.Memory.{
  MemoryInstance, OwnershipRegisters, mem_size, vm_max_ram, grow_stack, grow_heap_by, read, write,
  verify, has_ownership_range, verify_ownership, write_noownerchecks, copy_from_slice, write_bytes,
}
use fuel_vm.Memory.Valid.{IsValid, byte}
use fuel_vm.Memory.Access.{Accessible, Overflows, Uninitialized, BytesAt, read_lem}
use fuel_vm.Memory.Write.{Stores, owns, write_bytes_lem, write_bytes-owned}
use fuel_vm.Memory.Grow.{StackGrown, grow_stack_lem}
use fuel_vm.Memory.GrowHeap.{HeapGrown, heap_grown, grow_heap_by-ok, grow_heap_by_lem}
use fuel_vm.Memory.Copy.{memcopy, Shares, memcopy_lem}
use fuel_vm.Memory.Rollback.{MemoryRollbackData, collect_rollback_data, rollback}
use fuel_vm.Memory.Rollback.Restore.{SameMemory, rollback-collect}
use fuel_vm.Memory.Rollback.Crash.{collect_rollback_data-grow_heap_by}

-- Bytes on the stack, and a heap that was never used
abbrev with_stack : List ℕ → MemoryInstance
with_stack stack = record { stack = stack; heap = []; hp = mem_size }

abbrev small : MemoryInstance
small = with_stack (1 ∷ 2 ∷ 3 ∷ 4 ∷ 5 ∷ 6 ∷ [])

abbrev later : MemoryInstance
later = with_stack (1 ∷ 9 ∷ 9 ∷ 4 ∷ 5 ∷ 7 ∷ 8 ∷ [])

-- The program owns the addresses from 2 up to 6.
abbrev owner : OwnershipRegisters
owner = record { sp = 6; ssp = 2; hp = mem_size; prev_hp = mem_size }

small-IsValid : IsValid small
small-IsValid = record {
  hp_bound = omega arith;
  stack_below = omega arith;
  heap_fits = omega arith;
  heap_covers = omega arith;
}

later-IsValid : IsValid later
later-IsValid = record {
  hp_bound = omega arith;
  stack_below = omega arith;
  heap_fits = omega arith;
  heap_covers = omega arith;
}

read_lem_example :
    (Accessible small 1 3 × ((bs : List ℕ) × (read small 1 3 ≡ ok bs) × BytesAt small 1 3 bs))
    ⊎ (Overflows 1 3 × (read small 1 3 ≡ err (panic PanicReason.memory_overflow)))
    ⊎ (Uninitialized small 1 3
        × (read small 1 3 ≡ err (panic PanicReason.uninitalized_memory_access)))
read_lem_example = read_lem small 1 3 small-IsValid

write_bytes_lem_example :
    (Accessible small 3 2
      × (owns owner 3 2 ≡ true)
      × ((m' : MemoryInstance) × (write_bytes small owner 3 (7 ∷ 8 ∷ []) ≡ ok m')
          × Stores small 3 (7 ∷ 8 ∷ []) m'))
    ⊎ (Accessible small 3 2
        × (owns owner 3 2 ≡ false)
        × (write_bytes small owner 3 (7 ∷ 8 ∷ []) ≡ err (panic PanicReason.memory_ownership)))
    ⊎ (Overflows 3 2
        × (write_bytes small owner 3 (7 ∷ 8 ∷ []) ≡ err (panic PanicReason.memory_overflow)))
    ⊎ (Uninitialized small 3 2
        × (write_bytes small owner 3 (7 ∷ 8 ∷ [])
            ≡ err (panic PanicReason.uninitalized_memory_access)))
write_bytes_lem_example = write_bytes_lem small owner 3 (7 ∷ 8 ∷ []) small-IsValid

write_small : write_bytes small owner 3 (7 ∷ 8 ∷ []) ≡ ok (with_stack (1 ∷ 2 ∷ 3 ∷ 7 ∷ 8 ∷ 6 ∷ []))
unfolding write_bytes write verify has_ownership_range write_noownerchecks copy_from_slice overwrite
    verify_ownership take drop
write_small = refl

differs : byte (with_stack (1 ∷ 2 ∷ 3 ∷ 7 ∷ 8 ∷ 6 ∷ [])) 4 ≢ byte small 4
unfolding byte
differs = λ e. ground arith

write_bytes-owned_example :
    ((owner.ssp ≤ 4) × (4 < owner.sp)) ⊎ ((owner.hp ≤ 4) × (4 < owner.prev_hp))
write_bytes-owned_example =
    write_bytes-owned small owner 3 (7 ∷ 8 ∷ []) small-IsValid write_small 4 differs

memcopy_lem_example :
    (Shares 3 0 2 × (memcopy small 3 0 2 owner ≡ err (panic PanicReason.memory_write_overlap)))
    ⊎ ((¬ Shares 3 0 2)
        × (owns owner 3 2 ≡ false)
        × (memcopy small 3 0 2 owner ≡ err (panic PanicReason.memory_ownership)))
    ⊎ ((¬ Shares 3 0 2)
        × (owns owner 3 2 ≡ true)
        × ((m' : MemoryInstance) × (bs : List ℕ) × (memcopy small 3 0 2 owner ≡ ok m')
            × BytesAt small 0 2 bs
            × Stores small 3 bs m'))
memcopy_lem_example = memcopy_lem small 3 0 2 owner small-IsValid (omega arith) (omega arith)

grow_stack_lem_example :
    ((9 ≤ small.hp)
      × ((m' : MemoryInstance) × (grow_stack small 9 ≡ ok m') × StackGrown small 9 m'))
    ⊎ ((small.hp < 9)
        × (9 ≤ vm_max_ram)
        × (grow_stack small 9 ≡ err (panic PanicReason.memory_growth_overlap)))
    ⊎ ((vm_max_ram < 9) × (grow_stack small 9 ≡ err (panic PanicReason.memory_overflow)))
grow_stack_lem_example = grow_stack_lem small 9 small-IsValid

grow_heap_by_lem_example :
    ((64 ≤ small.hp)
      × (6 ≤ small.hp - 64)
      × ((m' : MemoryInstance) × (grow_heap_by small 6 64 ≡ ok m')
          × HeapGrown small (small.hp - 64) m'))
    ⊎ ((64 ≤ small.hp)
        × (small.hp - 64 < 6)
        × (grow_heap_by small 6 64 ≡ err (panic PanicReason.memory_growth_overlap)))
    ⊎ ((small.hp < 64) × (grow_heap_by small 6 64 ≡ err (panic PanicReason.memory_overflow)))
grow_heap_by_lem_example = grow_heap_by_lem small 6 64 small-IsValid

rollback-collect_example :
    ((collect_rollback_data later small ≡ ok none) × SameMemory later small)
    ⊎ ((found : MemoryRollbackData) × (m' : MemoryInstance) × (collect_rollback_data later small
          ≡ ok (some found))
        × (rollback later found ≡ ok m')
        × IsValid m'
        × SameMemory m' small)
rollback-collect_example =
    rollback-collect later small later-IsValid small-IsValid (omega arith) (omega arith)

-- The stack's vector has six bytes, `$sp` is 1, and the heap takes all but two bytes.
heap_taken : grow_heap_by small 1 (mem_size - 2) ≡ ok (heap_grown small (small.hp - (mem_size - 2)))
heap_taken = grow_heap_by-ok small 1 (mem_size - 2) small-IsValid (omega arith) (omega arith)

collect_rollback_data-grow_heap_by_example :
    collect_rollback_data (heap_grown small (small.hp - (mem_size - 2))) small ≡ err crash
collect_rollback_data-grow_heap_by_example =
    collect_rollback_data-grow_heap_by small 1 (mem_size - 2) small-IsValid heap_taken (omega arith)
