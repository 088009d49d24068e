-- ===== src/Memory/Rollback/Restore.antt =====
-- Rolling back with the collected data restores the memory that the program sees.
use fuel_vm.Prelude.{
  ℕ, ◌+◌, ◌-◌, ◌≤◌, ◌≡◌, refl, ap, sym, subst, ◌∙◌, ◌⊎◌, inl, inr, true, false, ◌&&◌, none, some,
  List, [], ◌∷◌, ltb, ◌==◌, if◌then◌else◌, length, get_elem?, slice, resize, arith, Bool-cases,
  le→leb, length-slice, get_elem?-slice, length-resize, get_elem?-resize, get_elem?-none,
  get_elem?-ext,
}
use fuel_vm.Outcome.{ok}
use fuel_vm.Memory.{MemoryInstance, mem_size, heap_offset}
use fuel_vm.Memory.Valid.{IsValid, byte, heap_offset-le, heap_offset-add-length}
use fuel_vm.Memory.Rollback.{
  bytes_eq, heap_from, memory_eq, MemoryRollbackData, get_changes, rollback_data,
  collect_rollback_data, apply_changes, rollback,
}
use fuel_vm.Memory.Rollback.Changes.{get_changes-Mixed}

-- Two memories with the same stack and heap pointer, in which every address reads the same.
abbrev pub SameMemory : MemoryInstance → MemoryInstance → Type 0
SameMemory a b = (a.stack ≡ b.stack) × (a.hp ≡ b.hp) × ((j : ℕ) → byte a j ≡ byte b j)

pub bytes_eq→eq : (xs ys : List ℕ) → bytes_eq xs ys ≡ true → xs ≡ ys
unfolding bytes_eq
bytes_eq→eq [] [] h = refl
bytes_eq→eq [] (y ∷ ys) h = cc
bytes_eq→eq (x ∷ xs) [] h = cc
bytes_eq→eq (x ∷ xs) (y ∷ ys) h = ground (arith, bytes_eq→eq xs ys)

-- The heap from the address `a` on.
abbrev tail_at : MemoryInstance → ℕ → List ℕ
tail_at m a = slice m.heap (a - heap_offset m) (length m.heap)

module _ (m : MemoryInstance) (a : ℕ) (v : IsValid m) (from : m.hp ≤ a) (upto : a ≤ mem_size) where
  heap_from-ok : heap_from m a ≡ ok (tail_at m a)
  unfolding heap_from
  heap_from-ok = ground (arith, heap_offset-le m v, heap_offset-add-length m v)

  length-tail_at : length (tail_at m a) ≡ mem_size - a
  length-tail_at =
      length-slice m.heap (a - heap_offset m) (length m.heap) (omega arith)
      ∙ omega (arith, heap_offset-le m v, heap_offset-add-length m v)

  get_elem?-tail_at : (j : ℕ) → get_elem? (tail_at m a) j ≡ byte m (a + j)
  unfolding byte
  get_elem?-tail_at j = ground (
    arith,
    heap_offset-le m v,
    heap_offset-add-length m v,
    get_elem?-slice m.heap (a - heap_offset m) (length m.heap) j,
    get_elem?-none m.heap (a - heap_offset m + j),
  )

byte-heap :
    (m : MemoryInstance) (j : ℕ)
    → IsValid m
    → byte m (m.hp + j) ≡ get_elem? m.heap (m.hp - heap_offset m + j)
unfolding byte
byte-heap m j v = ground (
  arith,
  heap_offset-le m v,
  heap_offset-add-length m v,
  get_elem?-none m.heap (m.hp - heap_offset m + j),
)

-- Equal stacks, heap pointers and heaps above them make the memories read the same.
same_of_parts :
    (a b : MemoryInstance)
    → IsValid a
    → IsValid b
    → a.stack ≡ b.stack
    → a.hp ≡ b.hp
    → ((j : ℕ) → byte a (a.hp + j) ≡ byte b (b.hp + j))
    → SameMemory a b
unfolding byte
same_of_parts a b va vb s h t =
    (s, h, λ j. ground (arith, t (j - a.hp), ap (λ (xs : List ℕ). get_elem? xs j) s, ap length s))

le_self : {a : ℕ} → a ≤ a
le_self = omega arith

pub memory_eq_cases :
    (a b : MemoryInstance)
    → IsValid a
    → IsValid b
    → ((memory_eq a b ≡ ok true) × SameMemory a b) ⊎ (memory_eq a b ≡ ok false)
unfolding memory_eq
memory_eq_cases a b va vb = elim (Bool-cases (bytes_eq a.stack b.stack && a.hp == b.hp)) [
  | inr differs ↦ inr (rw differs)
  | inl p ↦ elim (Bool-cases (bytes_eq (tail_at a a.hp) (tail_at b b.hp))) [
    | inr differs ↦ inr (
        rw
          (
            p,
            heap_from-ok a a.hp va le_self va.hp_bound,
            heap_from-ok b b.hp vb le_self vb.hp_bound,
          )
          (ap ok differs))
    | inl q ↦ inl (
      rw (p, heap_from-ok a a.hp va le_self va.hp_bound, heap_from-ok b b.hp vb le_self vb.hp_bound)
          (ap ok q),
      same_of_parts a b va vb (bytes_eq→eq a.stack b.stack (ground arith)) (ground arith) (λ j.
          sym (get_elem?-tail_at a a.hp va le_self va.hp_bound j)
          ∙ ap (λ xs. get_elem? xs j) (bytes_eq→eq (tail_at a a.hp) (tail_at b b.hp) q)
          ∙ get_elem?-tail_at b b.hp vb le_self vb.hp_bound j),
    )
  ]
]

mixed_whole :
    (d l ys : List ℕ)
    → length ys ≡ 0 + length d
    → ((j : ℕ) → get_elem? ys (0 + j) ≡ (if ltb j (length d) then get_elem? d j else get_elem? l j))
    → ys ≡ d
mixed_whole d l ys len el =
    get_elem?-ext ys d (λ j. ground (arith, el j, get_elem?-none ys j, get_elem?-none d j))

-- Past the end of both lists there is nothing to choose.
beyond :
    (old new : List ℕ) (j : ℕ)
    → length old ≡ length new
    → (if ltb j (length new) then get_elem? new j else get_elem? old j) ≡ get_elem? new j
beyond old new j e = ground (arith, get_elem?-none old j, get_elem?-none new j)

module _ (m desired : MemoryInstance) (vm : IsValid m) (vd : IsValid desired)
    (heap_order : m.hp ≤ desired.hp) (stack_order : length desired.stack ≤ length m.stack) where
  collected : MemoryRollbackData
  collected = record {
    sp = length desired.stack;
    hp = desired.hp;
    stack_changes = get_changes (slice m.stack 0 (length desired.stack)) desired.stack 0;
    heap_changes = get_changes (tail_at m desired.hp) (tail_at desired desired.hp) desired.hp;
  }

  rollback_data-ok : rollback_data m desired ≡ ok collected
  unfolding rollback_data collected
  rollback_data-ok =
      rw
        (
          heap_from-ok m desired.hp vm heap_order vd.hp_bound,
          heap_from-ok desired desired.hp vd le_self vd.hp_bound,
        )
        (ground arith)

  stack_restored :
      apply_changes 0
        (get_changes (slice m.stack 0 (length desired.stack)) desired.stack 0)
        (resize m.stack (length desired.stack) 0)
      ≡ ok desired.stack
  stack_restored =
      let n : ℕ = length desired.stack in
      let (ys, e, (len, el)) =
        get_changes-Mixed desired.stack (slice m.stack 0 n) 0 0 (omega arith) (resize m.stack n 0)
          (length-slice m.stack 0 n stack_order ∙ omega arith)
          (
            length-resize m.stack n 0 ∙ omega arith,
            λ j.
                ground (arith, get_elem?-resize m.stack n 0 (0 + j), get_elem?-slice m.stack 0 n j),
          ) in
      e ∙ ap ok (mixed_whole desired.stack (slice m.stack 0 n) ys len el)

  heap_restored :
      (ys : List ℕ) × (apply_changes
          (heap_offset m)
          (get_changes (tail_at m desired.hp) (tail_at desired desired.hp) desired.hp)
          m.heap
        ≡ ok ys)
      × (length ys ≡ length m.heap)
      × ((j : ℕ) → get_elem? ys (desired.hp - heap_offset m + j) ≡ byte desired (desired.hp + j))
  heap_restored =
      let old : List ℕ = tail_at m desired.hp in
      let new : List ℕ = tail_at desired desired.hp in
      let old_len = length-tail_at m desired.hp vm heap_order vd.hp_bound in
      let new_len = length-tail_at desired desired.hp vd le_self vd.hp_bound in
      let base : ℕ = desired.hp - heap_offset m in
      let whole = heap_offset-add-length m vm in
      let below = heap_offset-le m vm in
      let at : heap_offset m + base ≡ desired.hp = omega arith in
      let (ys, e, (len, el)) =
        get_changes-Mixed new old (heap_offset m) base (omega arith) m.heap (omega arith) (
          omega arith,
          λ j. ground (
            arith,
            get_elem?-slice m.heap base (length m.heap) j,
            get_elem?-none m.heap (base + j),
          ),
        ) in
      (
        ys,
        subst (λ g. apply_changes (heap_offset m) (get_changes old new g) m.heap ≡ ok ys) at e,
        len ∙ omega arith,
        λ j.
            el j
            ∙ beyond old new j (old_len ∙ sym new_len)
            ∙ get_elem?-tail_at desired desired.hp vd le_self vd.hp_bound j,
      )

  abbrev restored_memory : List ℕ → MemoryInstance
  restored_memory ys = record { stack = desired.stack; heap = ys; hp = desired.hp }

  restored-eq :
      (ys : List ℕ)
      → apply_changes
          (heap_offset m)
          (get_changes (tail_at m desired.hp) (tail_at desired desired.hp) desired.hp)
          m.heap
        ≡ ok ys
      → rollback m collected ≡ ok (restored_memory ys)
  unfolding rollback collected
  restored-eq ys e = rw (le→leb m.hp desired.hp heap_order, stack_restored, e) refl

  restored-IsValid : (ys : List ℕ) → length ys ≡ length m.heap → IsValid (restored_memory ys)
  restored-IsValid ys len = omega arith

  restored-offset :
      (ys : List ℕ) → length ys ≡ length m.heap → heap_offset (restored_memory ys) ≡ heap_offset m
  unfolding heap_offset
  restored-offset ys len = omega arith

  restored-SameMemory :
      (ys : List ℕ)
      → length ys ≡ length m.heap
      → ((j : ℕ) → get_elem? ys (desired.hp - heap_offset m + j) ≡ byte desired (desired.hp + j))
      → SameMemory (restored_memory ys) desired
  restored-SameMemory ys len el =
      same_of_parts (restored_memory ys) desired (restored-IsValid ys len) vd refl refl (λ j.
        byte-heap (restored_memory ys) j (restored-IsValid ys len)
        ∙ ap (λ o. get_elem? ys (desired.hp - o + j)) (restored-offset ys len)
        ∙ el j)

  restored :
      (m' : MemoryInstance) × (rollback m collected ≡ ok m') × IsValid m' × SameMemory m' desired
  restored =
      let (ys, e, len, el) = heap_restored in
      (restored_memory ys, restored-eq ys e, restored-IsValid ys len, restored-SameMemory ys len el)

-- Rolling back to an earlier memory, both valid: if the heap has only grown since and the stack is
-- at least as long, either there is nothing to roll back and the two memories read the same, or
-- `rollback` with the collected data succeeds and gives a valid memory with the earlier stack and
-- heap pointer, in which every address reads as it did.
pub rollback-collect :
    (m desired : MemoryInstance)
    → IsValid m
    → IsValid desired
    → m.hp ≤ desired.hp
    → length desired.stack ≤ length m.stack
    → ((collect_rollback_data m desired ≡ ok none) × SameMemory m desired)
      ⊎ ((found : MemoryRollbackData) × (m' : MemoryInstance) × (collect_rollback_data m desired
            ≡ ok (some found))
          × (rollback m found ≡ ok m')
          × IsValid m'
          × SameMemory m' desired)
unfolding collect_rollback_data
rollback-collect m desired vm vd h s = elim (memory_eq_cases m desired vm vd) [
  | inl (e, same) ↦ inl (rw e, same)
  | inr e ↦
      let (m', r, v, same) = restored m desired vm vd h s in
      inr (
        collected m desired vm vd h s,
        m',
        rw (e, rollback_data-ok m desired vm vd h s) refl,
        r,
        v,
        same,
      )
]
