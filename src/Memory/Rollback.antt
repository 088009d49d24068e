-- ===== src/Memory/Rollback.antt =====
-- Rolling the memory back: `collect_rollback_data`, `rollback` and `get_changes` of
-- fuel-vm/src/interpreter/memory.rs. A range that the source slices or asserts on is checked, and
-- ends in `crash` where the source would stop the host.
pub mod Changes
pub mod Restore
pub mod Crash
use fuel_vm.Prelude.{
  ℕ, suc, ◌+◌, ◌-◌, ◌≡◌, Bool, true, false, ◌&&◌, Option, none, some, List, [], ◌∷◌, ◌++◌, ltb, leb,
  ◌==◌, if◌then◌else◌, length, slice, resize, saturating_add,
}
use fuel_vm.Outcome.{Result, ok, err, crash, ◌>>=◌}
use fuel_vm.Memory.{
  MemoryInstance, mem_size, heap_offset, sub_or_crash, slice_or_crash, store_or_crash,
}

pub record MemorySliceChange : Type 0 where
  pub global_start : ℕ
  pub bytes : List ℕ

pub record MemoryRollbackData : Type 0 where
  pub sp : ℕ
  pub hp : ℕ
  pub stack_changes : List MemorySliceChange
  pub heap_changes : List MemorySliceChange

-- `changes.push(MemorySliceChange { … })`, if a range is open
unfoldable pub flush : List ℕ → ℕ → Option (ℕ × ℕ) → List MemorySliceChange
flush desired offset none = []
flush desired offset (some (start, count)) =
    record {
      global_start = saturating_add offset start;
      bytes = slice desired start (saturating_add start count);
    }
    ∷ []

-- The open range after a byte that differs.
unfoldable pub extend : ℕ → Option (ℕ × ℕ) → ℕ × ℕ
extend i none = (i, 1)
extend i (some (start, count)) = (start, saturating_add count 1)

-- The loop of `get_changes` at index `i`, with what it pushes from there on.
unfoldable pub changes_from :
    List ℕ → ℕ → List ℕ → List ℕ → ℕ → Option (ℕ × ℕ) → List MemorySliceChange
changes_from desired offset [] new i range = flush desired offset range
changes_from desired offset (o ∷ old) [] i range = flush desired offset range
changes_from desired offset (o ∷ old) (n ∷ new) i range =
    (if o == n then flush desired offset range else [])
    ++ changes_from desired offset old new (suc i) (if o == n then none else some (extend i range))

unfoldable pub get_changes : List ℕ → List ℕ → ℕ → List MemorySliceChange
get_changes latest desired offset = changes_from desired offset latest desired 0 none

-- `==` of two byte slices
unfoldable pub bytes_eq : List ℕ → List ℕ → Bool
bytes_eq [] [] = true
bytes_eq [] (y ∷ ys) = false
bytes_eq (x ∷ xs) [] = false
bytes_eq (x ∷ xs) (y ∷ ys) = x == y && bytes_eq xs ys

-- `self.heap[hp - offset..]`
unfoldable pub heap_from : MemoryInstance → ℕ → Result (List ℕ)
heap_from m hp = do
  start ← sub_or_crash hp (heap_offset m)
  slice_or_crash m.heap start (length m.heap)

-- `PartialEq::eq`: the accessible memory is the same
unfoldable pub memory_eq : MemoryInstance → MemoryInstance → Result Bool
memory_eq a b =
    if bytes_eq a.stack b.stack && a.hp == b.hp
    then (do x ← heap_from a a.hp; y ← heap_from b b.hp; ok (bytes_eq x y))
    else ok false

-- The data for a memory that differs from the desired one.
unfoldable pub rollback_data : MemoryInstance → MemoryInstance → Result MemoryRollbackData
rollback_data m desired =
    if leb m.hp desired.hp
    then (do
      stack ← slice_or_crash m.stack 0 (length desired.stack)
      heap ← heap_from m desired.hp
      desired_heap ← heap_from desired desired.hp
      ok (record {
        sp = length desired.stack;
        hp = desired.hp;
        stack_changes = get_changes stack desired.stack 0;
        heap_changes = get_changes heap desired_heap desired.hp;
      }))
    else err crash

unfoldable pub collect_rollback_data :
    MemoryInstance → MemoryInstance → Result (Option MemoryRollbackData)
collect_rollback_data m desired = do
  same ← memory_eq m desired
  if same then ok none else (do found ← rollback_data m desired; ok (some found))

-- One change is copied into a vector that begins at `offset`; then the loop over all of them.
unfoldable pub apply_change : ℕ → MemorySliceChange → List ℕ → Result (List ℕ)
apply_change offset c xs = do
  start ← sub_or_crash c.global_start offset
  store_or_crash xs start (saturating_add start (length c.bytes)) c.bytes

unfoldable pub apply_changes : ℕ → List MemorySliceChange → List ℕ → Result (List ℕ)
apply_changes offset [] xs = ok xs
apply_changes offset (c ∷ cs) xs = do ys ← apply_change offset c xs; apply_changes offset cs ys

unfoldable pub rollback : MemoryInstance → MemoryRollbackData → Result MemoryInstance
rollback m to =
    if leb m.hp to.hp
    then (do
      stack ← apply_changes 0 to.stack_changes (resize m.stack to.sp 0)
      heap ← apply_changes (heap_offset m) to.heap_changes m.heap
      ok (record { stack = stack; heap = heap; hp = to.hp }))
    else err crash
