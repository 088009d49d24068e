-- ===== src/Memory/GrowHeap.antt =====
-- `grow_heap_by`: what the program sees after the heap has grown, also where the heap's vector
-- still holds what an earlier run left there.
use fuel_vm.Prelude.{
  ℕ, refl, ◌-◌, ◌≤◌, ◌<◌, ◌≡◌, ◌⊎◌, inl, inr, List, ltb, leb, if◌then◌else◌, length, ◌∙◌, get_elem?,
  some, arith, tests, Bool-cases, resize, overwrite, replicate, slice, truncate, length-resize,
  get_elem?-resize, length-overwrite, get_elem?-overwrite, length-replicate, get_elem?-replicate,
  length-slice, get_elem?-slice, length-truncate, get_elem?-truncate, min, clamp, next_power_of_two,
  next_power_of_two-le,
}
use fuel_vm.Outcome.{ok, err, panic, PanicReason}
use fuel_vm.Memory.{
  MemoryInstance, mem_size, heap_offset, reuse_heap, clear_dirty, reallocate_heap, grow_heap_by,
}
use fuel_vm.Memory.Valid.{IsValid, byte, heap_offset-le, heap_offset-add-length}
use fuel_vm.Memory.Grow.{Fresh}

reused : MemoryInstance → ℕ → List ℕ
reused m new_hp =
    overwrite m.heap (new_hp - heap_offset m)
      (replicate (m.hp - heap_offset m - (new_hp - heap_offset m)) 0)

reuse_heap-ok :
    (m : MemoryInstance) (new_hp : ℕ)
    → IsValid m
    → new_hp ≤ m.hp
    → heap_offset m ≤ new_hp
    → reuse_heap m new_hp ≡ ok (reused m new_hp)
unfolding reuse_heap reused
reuse_heap-ok m new_hp v h k = ground (arith, heap_offset-add-length m v)

cleared : MemoryInstance → List ℕ
cleared m = overwrite m.heap 0 (replicate (m.hp - heap_offset m) 0)

length-cleared : (m : MemoryInstance) → IsValid m → length (cleared m) ≡ length m.heap
unfolding cleared
length-cleared m v =
    length-overwrite m.heap 0 (replicate (m.hp - heap_offset m) 0)
      (omega (arith, length-replicate {A = ℕ} (m.hp - heap_offset m) 0, heap_offset-add-length m v))

get_elem?-cleared :
    (m : MemoryInstance) (i : ℕ)
    → IsValid m
    → get_elem? (cleared m) i
      ≡ (if ltb i (m.hp - heap_offset m) then some 0 else get_elem? m.heap i)
unfolding cleared
get_elem?-cleared m i v = ground (
  arith,
  heap_offset-add-length m v,
  length-replicate {A = ℕ} (m.hp - heap_offset m) 0,
  get_elem?-overwrite m.heap 0 (replicate (m.hp - heap_offset m) 0) i,
  get_elem?-replicate {A = ℕ} (m.hp - heap_offset m) i 0,
)

clear_dirty-ok : (m : MemoryInstance) → IsValid m → clear_dirty m ≡ ok (cleared m)
unfolding clear_dirty cleared
clear_dirty-ok m v = ground (arith, heap_offset-add-length m v, heap_offset-le m v)

abbrev capacity : ℕ → ℕ
capacity new_len = clamp (next_power_of_two new_len) 256 mem_size

capacity_bounds :
    (new_len : ℕ)
    → new_len ≤ mem_size
    → (new_len ≤ capacity new_len) × (capacity new_len ≤ mem_size)
capacity_bounds new_len h = ground (arith, next_power_of_two-le new_len)

-- A vector moved to the end of a longer one, as `resize` and `copy_within` do it.
shifted : List ℕ → ℕ → List ℕ
shifted xs cap =
    overwrite
      (overwrite (resize xs cap 0) (cap - length xs) (slice (resize xs cap 0) 0 (length xs))) 0
      (replicate (cap - length xs) 0)

module _ (xs : List ℕ) (cap : ℕ) (h : length xs ≤ cap) where
  length-moved : length (slice (resize xs cap 0) 0 (length xs)) ≡ length xs
  length-moved =
      length-slice (resize xs cap 0) 0 (length xs) (omega (arith, length-resize xs cap 0))
      ∙ omega arith

  length-copied :
      length (overwrite (resize xs cap 0) (cap - length xs) (slice (resize xs cap 0) 0 (length xs)))
      ≡ cap
  length-copied =
      length-overwrite (resize xs cap 0) (cap - length xs) (slice (resize xs cap 0) 0 (length xs))
        (omega (arith, length-moved, length-resize xs cap 0))
      ∙ length-resize xs cap 0

  length-shifted : length (shifted xs cap) ≡ cap
  unfolding shifted
  length-shifted =
      length-overwrite
        (overwrite (resize xs cap 0) (cap - length xs) (slice (resize xs cap 0) 0 (length xs))) 0
        (replicate (cap - length xs) 0)
        (omega (arith, length-copied, length-replicate {A = ℕ} (cap - length xs) 0))
      ∙ length-copied

  get_elem?-shifted :
      (i : ℕ)
      → i < cap
      → get_elem? (shifted xs cap) i
        ≡ (if ltb i (cap - length xs) then some 0 else get_elem? xs (i - (cap - length xs)))
  unfolding shifted
  get_elem?-shifted i hi = ground (
    arith,
    length-moved,
    length-copied,
    length-resize xs cap 0,
    length-replicate {A = ℕ} (cap - length xs) 0,
    get_elem?-overwrite
        (overwrite (resize xs cap 0) (cap - length xs) (slice (resize xs cap 0) 0 (length xs))) 0
        (replicate (cap - length xs) 0) i,
    get_elem?-replicate {A = ℕ} (cap - length xs) i 0,
    get_elem?-overwrite (resize xs cap 0) (cap - length xs) (slice (resize xs cap 0) 0 (length xs))
        i,
    get_elem?-slice (resize xs cap 0) 0 (length xs) (i - (cap - length xs)),
    get_elem?-resize xs cap 0 (i - (cap - length xs)),
  )

reallocate_heap-ok :
    (m : MemoryInstance) (new_len : ℕ)
    → IsValid m
    → length m.heap < new_len
    → new_len ≤ mem_size
    → reallocate_heap m new_len ≡ ok (shifted (cleared m) (capacity new_len))
unfolding reallocate_heap shifted
reallocate_heap-ok m new_len v lt le = rw (clear_dirty-ok m v) (
    let bounds = capacity_bounds new_len le in
    let fits : length (cleared m) ≤ capacity new_len = omega (arith, length-cleared m v) in
    ground (
      arith,
      length-cleared m v,
      length-resize (cleared m) (capacity new_len) 0,
      length-moved (cleared m) (capacity new_len) fits,
      length-copied (cleared m) (capacity new_len) fits,
    ))

pub record HeapGrown (m : MemoryInstance) (new_hp : ℕ) (m' : MemoryInstance) : Type 0 where
  pub valid : IsValid m'
  pub moved : m'.hp ≡ new_hp
  pub cut : length m'.stack ≡ min new_hp (length m.stack)
  pub fresh : Fresh m new_hp m.hp m'

pub heap_grown : MemoryInstance → ℕ → MemoryInstance
heap_grown m new_hp = record {
  stack = truncate m.stack new_hp;
  heap =
      if leb (mem_size - new_hp) (length m.heap)
      then reused m new_hp
      else shifted (cleared m) (capacity (mem_size - new_hp));
  hp = new_hp;
}

module _ (m : MemoryInstance) (new_hp : ℕ) (v : IsValid m) (h : new_hp ≤ m.hp) where
  reused-HeapGrown :
      mem_size - new_hp ≤ length m.heap
      → HeapGrown m new_hp
          (record { stack = truncate m.stack new_hp; heap = reused m new_hp; hp = new_hp })
  unfolding reused byte heap_offset
  reused-HeapGrown k =
      let a : ℕ = new_hp - (mem_size - length m.heap) in
      let n : ℕ = m.hp - (mem_size - length m.heap) - a in
      let same : length (overwrite m.heap a (replicate n 0)) ≡ length m.heap =
        length-overwrite m.heap a (replicate n 0) (omega (arith, length-replicate {A = ℕ} n 0)) in
      record {
        valid = ground (arith, same, length-truncate m.stack new_hp);
        moved = refl;
        cut = length-truncate m.stack new_hp;
        fresh = λ j. ground (
          arith,
          same,
          length-truncate m.stack new_hp,
          get_elem?-truncate m.stack new_hp j,
          length-replicate {A = ℕ} n 0,
          get_elem?-overwrite m.heap a (replicate n 0) (j - (mem_size - length m.heap)),
          get_elem?-replicate {A = ℕ} n (j - (mem_size - length m.heap) - a) 0,
        );
      }

  shifted-HeapGrown :
      (cap : ℕ)
      → length m.heap ≤ cap
      → mem_size - new_hp ≤ cap
      → cap ≤ mem_size
      → HeapGrown m new_hp
          (record { stack = truncate m.stack new_hp; heap = shifted (cleared m) cap; hp = new_hp })
  unfolding byte heap_offset
  shifted-HeapGrown cap k l u =
      let same = length-cleared m v in
      let fits : length (cleared m) ≤ cap = omega arith in
      let long = length-shifted (cleared m) cap fits in
      record {
        valid = ground (arith, long, length-truncate m.stack new_hp);
        moved = refl;
        cut = length-truncate m.stack new_hp;
        fresh = λ j. ground (
          arith,
          long,
          same,
          length-truncate m.stack new_hp,
          get_elem?-truncate m.stack new_hp j,
          get_elem?-shifted (cleared m) cap fits (j - (mem_size - cap)),
          get_elem?-cleared m (j - (mem_size - cap) - (cap - length (cleared m))) v,
        );
      }

  heap_grown-HeapGrown : HeapGrown m new_hp (heap_grown m new_hp)
  unfolding heap_grown
  heap_grown-HeapGrown = elim (Bool-cases (leb (mem_size - new_hp) (length m.heap))) [
    | inl p ↦ rw p (reused-HeapGrown (omega tests))
    | inr p ↦
        let bounds = capacity_bounds (mem_size - new_hp) (omega arith) in
        rw p (
          shifted-HeapGrown (capacity (mem_size - new_hp)) (omega tests) (omega arith)
            (omega arith))
  ]

pub grow_heap_by-ok :
    (m : MemoryInstance) (sp_reg amount : ℕ)
    → IsValid m
    → amount ≤ m.hp
    → sp_reg ≤ m.hp - amount
    → grow_heap_by m sp_reg amount ≡ ok (heap_grown m (m.hp - amount))
unfolding grow_heap_by heap_offset heap_grown
grow_heap_by-ok m sp_reg amount v p q =
    ground (
      arith,
      reuse_heap-ok m (m.hp - amount) v,
      reallocate_heap-ok m (mem_size - (m.hp - amount)) v,
    )

-- In a valid memory `grow_heap_by` succeeds exactly if the heap has room above `$sp`: the heap
-- pointer falls by the amount, the new part of the heap reads as zero, and every other address
-- reads as before; a stack that reached into the new part is cut. Otherwise it fails with
-- `MemoryOverflow` or, at the stack, with `MemoryGrowthOverlap`. It never stops the host.
pub grow_heap_by_lem :
    (m : MemoryInstance) (sp_reg amount : ℕ)
    → IsValid m
    → ((amount ≤ m.hp)
        × (sp_reg ≤ m.hp - amount)
        × ((m' : MemoryInstance) × (grow_heap_by m sp_reg amount ≡ ok m')
            × HeapGrown m (m.hp - amount) m'))
      ⊎ ((amount ≤ m.hp)
          × (m.hp - amount < sp_reg)
          × (grow_heap_by m sp_reg amount ≡ err (panic PanicReason.memory_growth_overlap)))
      ⊎ ((m.hp < amount) × (grow_heap_by m sp_reg amount ≡ err (panic PanicReason.memory_overflow)))
unfolding grow_heap_by
grow_heap_by_lem m sp_reg amount v = elim (Bool-cases (ltb m.hp amount)) [
  | inl p ↦ inr (inr (omega tests, rw p))
  | inr p ↦ elim (Bool-cases (ltb (m.hp - amount) sp_reg)) [
    | inl q ↦ inr (inl (omega tests, omega tests, rw (p, q)))
    | inr q ↦
        let a : amount ≤ m.hp = omega tests in
        let b : sp_reg ≤ m.hp - amount = omega tests in
        inl (
          a,
          b,
          (
            heap_grown m (m.hp - amount),
            grow_heap_by-ok m sp_reg amount v a b,
            heap_grown-HeapGrown m (m.hp - amount) v (omega arith),
          ),
        )
  ]
]
