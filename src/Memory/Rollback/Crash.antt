-- ===== src/Memory/Rollback/Crash.antt =====
-- Where the data for rolling back cannot be collected.
use fuel_vm.Prelude.{ℕ, ◌-◌, ◌<◌, ◌≡◌, ap, subst, inl, inr, length, arith}
use fuel_vm.Outcome.{ok, err, crash}
use fuel_vm.Memory.{MemoryInstance, grow_heap_by}
use fuel_vm.Memory.Valid.{IsValid}
use fuel_vm.Memory.GrowHeap.{grow_heap_by_lem}
use fuel_vm.Memory.Rollback.{rollback_data, collect_rollback_data}
use fuel_vm.Memory.Rollback.Restore.{memory_eq_cases}

-- Where the later memory's stack is the shorter one and both are valid, collecting the data stops
-- the host: the slice `self.stack[..sp]` is out of range.
collect_rollback_data-crash :
    (m desired : MemoryInstance)
    → IsValid m
    → IsValid desired
    → length m.stack < length desired.stack
    → collect_rollback_data m desired ≡ err crash
unfolding collect_rollback_data rollback_data
collect_rollback_data-crash m desired vm vd s = elim (memory_eq_cases m desired vm vd) [
  | inl (e, (same, _, _)) ↦ absurd (omega (arith, ap length same))
  | inr e ↦ rw e (ground arith)
]

-- After a heap of a valid memory has grown into the stack's vector, so that the vector was cut,
-- collecting the data for rolling back to the memory before stops the host.
pub collect_rollback_data-grow_heap_by :
    (desired : MemoryInstance) (sp_reg amount : ℕ) {m : MemoryInstance}
    → IsValid desired
    → grow_heap_by desired sp_reg amount ≡ ok m
    → desired.hp - amount < length desired.stack
    → collect_rollback_data m desired ≡ err crash
collect_rollback_data-grow_heap_by desired sp_reg amount {m = m} v e short =
    elim (grow_heap_by_lem desired sp_reg amount v) [
      | inl (_, _, (m', e', g)) ↦
          let same : m' ≡ m = cc in
          collect_rollback_data-crash m desired (subst IsValid same g.valid) v
            (rw (← same) (omega (arith, g.cut)))
      | inr (inl (_, _, e')) ↦ cc
      | inr (inr (_, e')) ↦ cc
    ]
