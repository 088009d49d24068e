-- ===== src/Memory/Grow.antt =====
-- `grow_stack`: what the program sees after the stack has grown.
use fuel_vm.Prelude.{
  ℕ, ◌≤◌, ◌<◌, ◌≡◌, ◌⊎◌, inl, inr, ◌&&◌, ltb, leb, if◌then◌else◌, length, some, arith, tests,
  Bool-cases, resize, length-resize, get_elem?-resize,
}
use fuel_vm.Outcome.{ok, err, panic, PanicReason}
use fuel_vm.Memory.{MemoryInstance, vm_max_ram, heap_offset, grow_stack}
use fuel_vm.Memory.Valid.{IsValid, byte}

-- `m'` is `m` with the addresses from `a` up to `b` fresh, and zero.
abbrev pub Fresh : MemoryInstance → ℕ → ℕ → MemoryInstance → Type 0
Fresh m a b m' = (j : ℕ) → byte m' j ≡ (if leb a j && ltb j b then some 0 else byte m j)

pub record StackGrown (m : MemoryInstance) (new_sp : ℕ) (m' : MemoryInstance) : Type 0 where
  pub valid : IsValid m'
  pub same_hp : m'.hp ≡ m.hp
  pub covers : new_sp ≤ length m'.stack
  pub keeps : length m.stack ≤ length m'.stack
  pub fresh : Fresh m (length m.stack) new_sp m'

grown : MemoryInstance → ℕ → MemoryInstance
grown m new_sp =
    if ltb (length m.stack) new_sp then record m { stack = resize m.stack new_sp 0 } else m

grown-StackGrown :
    (m : MemoryInstance) (new_sp : ℕ)
    → IsValid m
    → new_sp ≤ m.hp
    → StackGrown m new_sp (grown m new_sp)
unfolding grown byte heap_offset
grown-StackGrown m new_sp v h = record {
  valid = ground (arith, length-resize m.stack new_sp 0);
  same_hp = ground arith;
  covers = ground (arith, length-resize m.stack new_sp 0);
  keeps = ground (arith, length-resize m.stack new_sp 0);
  fresh = λ j. ground (arith, length-resize m.stack new_sp 0, get_elem?-resize m.stack new_sp 0 j);
}

-- In a valid memory the stack grows exactly up to the heap pointer: what it gains reads as zero and
-- all else as before. Past the heap pointer it fails with `MemoryGrowthOverlap`, and past the end
-- of the memory with `MemoryOverflow`.
pub grow_stack_lem :
    (m : MemoryInstance) (new_sp : ℕ)
    → IsValid m
    → ((new_sp ≤ m.hp)
        × ((m' : MemoryInstance) × (grow_stack m new_sp ≡ ok m') × StackGrown m new_sp m'))
      ⊎ ((m.hp < new_sp)
          × (new_sp ≤ vm_max_ram)
          × (grow_stack m new_sp ≡ err (panic PanicReason.memory_growth_overlap)))
      ⊎ ((vm_max_ram < new_sp) × (grow_stack m new_sp ≡ err (panic PanicReason.memory_overflow)))
unfolding grow_stack grown
grow_stack_lem m new_sp v = elim (Bool-cases (leb new_sp m.hp)) [
  | inl p ↦
      inl (omega tests, (grown m new_sp, ground arith, grown-StackGrown m new_sp v (omega tests)))
  | inr p ↦ elim (Bool-cases (leb new_sp vm_max_ram)) [
    | inl q ↦ inr (inl (omega tests, omega tests, ground arith))
    | inr q ↦ inr (inr (omega tests, ground arith))
  ]
]
