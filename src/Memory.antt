-- ===== src/Memory.antt =====
-- The memory of the VM: `MemoryInstance` of fuel-vm/src/interpreter/memory.rs, its constants of
-- fuel-vm/src/consts.rs and the registers that decide who owns a range. A byte is a number. The
-- target has 64 bits, so a `Word` converts to a `usize` unchanged. An operation that returns an
-- error has written nothing before it, so a result carries the new memory only on success. What
-- the host would stop at (`unreachable!`, a slice index out of range, a subtraction that
-- underflows) is the error `crash`.
pub mod Valid
pub mod Access
pub mod Write
pub mod Grow
pub mod GrowHeap
pub mod Copy
pub mod Rollback
mod Tests
use fuel_vm.Prelude.{
  ℕ, ◌+◌, ◌-◌, ◌*◌, ◌^◌, ◌≡◌, Bool, true, false, ◌&&◌, ◌||◌, not, List, [], ◌∷◌, ltb, leb, ◌==◌,
  if◌then◌else◌, length, slice, overwrite, resize, truncate, replicate, saturating_add,
  next_power_of_two, clamp,
}
use fuel_vm.Outcome.{Result, ok, err, panic, crash, PanicReason, ◌>>=◌}

-- `VM_MAX_RAM` and `MEM_SIZE`: 64 MiB
abbrev pub vm_max_ram : ℕ
vm_max_ram = 1024 * 1024 * 64

abbrev pub mem_size : ℕ
mem_size = vm_max_ram

pub record MemoryInstance : Type 0 where
  pub stack : List ℕ
  pub heap : List ℕ
  pub hp : ℕ

-- `MemoryInstance::new`
unfoldable pub new_memory : MemoryInstance
new_memory = record { stack = []; heap = []; hp = mem_size }

unfoldable pub reset : MemoryInstance → MemoryInstance
reset m = record m { stack = truncate m.stack 0; hp = mem_size }

-- `MEM_SIZE.saturating_sub(self.heap.len())`
unfoldable pub heap_offset : MemoryInstance → ℕ
heap_offset m = mem_size - length m.heap

unfoldable pub grow_stack : MemoryInstance → ℕ → Result MemoryInstance
grow_stack m new_sp =
    if ltb vm_max_ram new_sp
    then err (panic PanicReason.memory_overflow)
    else if ltb (length m.stack) new_sp
    then if ltb m.hp new_sp
      then err (panic PanicReason.memory_growth_overlap)
      else ok (record m { stack = resize m.stack new_sp 0 })
    else ok m

-- `a - b` where the source relies on `b <= a`
abbrev pub sub_or_crash : ℕ → ℕ → Result ℕ
sub_or_crash a b = if leb b a then ok (a - b) else err crash

-- `&xs[a..b]`
abbrev pub slice_or_crash : List ℕ → ℕ → ℕ → Result (List ℕ)
slice_or_crash xs a b = if leb a b && leb b (length xs) then ok (slice xs a b) else err crash

-- `xs[a..b].copy_from_slice(new)`
abbrev pub store_or_crash : List ℕ → ℕ → ℕ → List ℕ → Result (List ℕ)
store_or_crash xs a b new =
    if leb a b && leb b (length xs) && (b - a == length new)
    then ok (overwrite xs a new)
    else err crash

-- `xs[a..b].fill(0)`
abbrev pub zero_fill : List ℕ → ℕ → ℕ → Result (List ℕ)
zero_fill xs a b =
    if leb a b && leb b (length xs) then ok (overwrite xs a (replicate (b - a) 0)) else err crash

-- The heap of `grow_heap_by` where the vector is long enough: the new part is cleared.
unfoldable pub reuse_heap : MemoryInstance → ℕ → Result (List ℕ)
reuse_heap m new_hp = do
  start ← sub_or_crash new_hp (heap_offset m)
  end ← sub_or_crash m.hp (heap_offset m)
  zero_fill m.heap start end

-- `self.heap[..end].fill(0)` where `hp` is not below the heap's offset
unfoldable pub clear_dirty : MemoryInstance → Result (List ℕ)
clear_dirty m =
    if leb (heap_offset m) m.hp then zero_fill m.heap 0 (m.hp - heap_offset m) else ok m.heap

-- The heap of `grow_heap_by` where it must be reallocated: what was there moves to the end.
unfoldable pub reallocate_heap : MemoryInstance → ℕ → Result (List ℕ)
reallocate_heap m new_len = do
  heap ← clear_dirty m
  let cap = clamp (next_power_of_two new_len) 256 mem_size
  let old_len = length heap
  prefix_zeroes ← sub_or_crash cap old_len
  let resized = resize heap cap 0
  moved ← slice_or_crash resized 0 old_len
  copied ← store_or_crash resized prefix_zeroes (prefix_zeroes + old_len) moved
  zero_fill copied 0 prefix_zeroes

-- The new memory; its `hp` is also the new value of the register.
unfoldable pub grow_heap_by : MemoryInstance → ℕ → ℕ → Result MemoryInstance
grow_heap_by m sp_reg amount =
    if ltb m.hp amount
    then err (panic PanicReason.memory_overflow)
    else let new_hp = m.hp - amount in
      if ltb new_hp sp_reg then err (panic PanicReason.memory_growth_overlap) else do
        new_len ← sub_or_crash mem_size new_hp
        heap ←
            if leb new_len (length m.heap) then reuse_heap m new_hp else reallocate_heap m new_len
        ok (record { stack = truncate m.stack new_hp; heap = heap; hp = new_hp })

-- `ToAddr::to_addr`
unfoldable pub to_addr : ℕ → Result ℕ
to_addr a = if ltb mem_size a then err (panic PanicReason.memory_overflow) else ok a

pub record MemoryRange : Type 0 where
  pub start : ℕ
  pub end : ℕ

abbrev pub range_len : MemoryRange → ℕ
range_len r = r.end - r.start

unfoldable pub verify : MemoryInstance → ℕ → ℕ → Result MemoryRange
unfolding to_addr saturating_add
verify m addr count = do
  start ← to_addr addr
  len ← to_addr count
  let end = saturating_add start len
  if ltb mem_size end
      then err (panic PanicReason.memory_overflow)
      else if leb end (length m.stack) || leb m.hp start
      then ok (record { start = start; end = end })
      else err (panic PanicReason.uninitalized_memory_access)

unfoldable pub read : MemoryInstance → ℕ → ℕ → Result (List ℕ)
read m addr count = do
  range ← verify m addr count
  if leb range.end (length m.stack)
      then slice_or_crash m.stack range.start range.end
      else if leb (heap_offset m) range.start
      then slice_or_crash m.heap (range.start - heap_offset m) (range.end - heap_offset m)
      else err crash

-- The mutable slice that `write` hands out: a part of one of the two vectors.
pub data Slot : Type 0 where
  in_stack : ℕ → ℕ → Slot
  in_heap : ℕ → ℕ → Slot

unfoldable pub write_noownerchecks : MemoryInstance → ℕ → ℕ → Result Slot
write_noownerchecks m addr len = do
  range ← verify m addr len
  if leb range.end (length m.stack)
      then ok (in_stack range.start range.end)
      else if leb (heap_offset m) range.start
      then ok (in_heap (range.start - heap_offset m) (range.end - heap_offset m))
      else err crash

-- `slot.copy_from_slice(new)`
unfoldable pub copy_from_slice : MemoryInstance → Slot → List ℕ → Result MemoryInstance
copy_from_slice m (in_stack a b) new = do
  s ← store_or_crash m.stack a b new
  ok (record m { stack = s })
copy_from_slice m (in_heap a b) new = do
  h ← store_or_crash m.heap a b new
  ok (record m { heap = h })

unfoldable pub write_bytes_noownerchecks : MemoryInstance → ℕ → List ℕ → Result MemoryInstance
write_bytes_noownerchecks m addr new = do
  slot ← write_noownerchecks m addr (length new)
  copy_from_slice m slot new

pub record OwnershipRegisters : Type 0 where
  pub sp : ℕ
  pub ssp : ℕ
  pub hp : ℕ
  pub prev_hp : ℕ

unfoldable pub has_ownership_stack : OwnershipRegisters → MemoryRange → Bool
has_ownership_stack o range =
    if leb range.end range.start && range.start == o.ssp
    then true
    else if not (leb o.ssp range.start && ltb range.start o.sp)
    then false
    else if ltb vm_max_ram range.end
    then false
    else leb o.ssp range.end && leb range.end o.sp

unfoldable pub has_ownership_heap : OwnershipRegisters → MemoryRange → Bool
has_ownership_heap o range =
    if leb range.end range.start && range.start == o.hp
    then true
    else if ltb range.start o.hp
    then false
    else not (o.hp == o.prev_hp) && leb range.end o.prev_hp

unfoldable pub has_ownership_range : OwnershipRegisters → MemoryRange → Bool
unfolding has_ownership_stack has_ownership_heap
has_ownership_range o range = has_ownership_stack o range || has_ownership_heap o range

unfoldable pub verify_ownership : OwnershipRegisters → MemoryRange → Result (Unit {0})
verify_ownership o range =
    if has_ownership_range o range then ok tt else err (panic PanicReason.memory_ownership)

unfoldable pub write : MemoryInstance → OwnershipRegisters → ℕ → ℕ → Result Slot
unfolding verify_ownership
write m owner addr len = do
  range ← verify m addr len
  _ ← verify_ownership owner range
  write_noownerchecks m range.start (range_len range)

unfoldable pub write_bytes :
    MemoryInstance → OwnershipRegisters → ℕ → List ℕ → Result MemoryInstance
write_bytes m owner addr new = do slot ← write m owner addr (length new); copy_from_slice m slot new
