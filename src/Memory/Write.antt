-- ===== src/Memory/Write.antt =====
-- Writes to `MemoryInstance`: what they change, what they leave, and who may make them.
use fuel_vm.Prelude.{
  ℕ, ◌+◌, ◌-◌, ◌≤◌, ◌<◌, ◌≡◌, ◌≢◌, ◌⊎◌, inl, inr, List, Bool, true, false, ◌&&◌, ltb, leb,
  if◌then◌else◌, length, get_elem?, arith, sym, ap, ◌∙◌, overwrite, length-overwrite,
  get_elem?-overwrite, Bool-cases,
}
use fuel_vm.Outcome.{ok, err, panic, PanicReason}
use fuel_vm.Memory.{
  MemoryInstance, heap_offset, write_noownerchecks, copy_from_slice, write_bytes_noownerchecks,
  OwnershipRegisters, has_ownership_range, write, write_bytes,
}
use fuel_vm.Memory.Valid.{IsValid, byte, heap_offset-le, heap_offset-add-length}
use fuel_vm.Memory.Access.{Accessible, Overflows, Uninitialized, verify-ok, verify_cases}

-- `m'` is `m` with the bytes `new` stored from the address `a` on: those bytes are found there,
-- every other address reads as before, and neither the stack's length nor the heap pointer moves.
pub record Stores (m : MemoryInstance) (a : ℕ) (new : List ℕ) (m' : MemoryInstance) : Type 0 where
  pub valid : IsValid m'
  pub same_stack : length m'.stack ≡ length m.stack
  pub same_heap : length m'.heap ≡ length m.heap
  pub same_hp : m'.hp ≡ m.hp
  pub bytes :
      (j : ℕ)
      → byte m' j ≡ (if leb a j && ltb j (a + length new) then get_elem? new (j - a) else byte m j)

pub add-sub_left : (a n : ℕ) → a + n - a ≡ n
add-sub_left a n = omega arith

abbrev pub stored : MemoryInstance → ℕ → List ℕ → MemoryInstance
stored m a new =
    if leb (a + length new) (length m.stack)
    then record m { stack = overwrite m.stack a new }
    else record m { heap = overwrite m.heap (a - heap_offset m) new }

pub stored-Stores :
    (m : MemoryInstance) (a : ℕ) (new : List ℕ)
    → IsValid m
    → Accessible m a (length new)
    → Stores m a new (stored m a new)
unfolding byte heap_offset
stored-Stores m a new v h = record {
  valid =
      ground
        (arith, length-overwrite m.stack a new, length-overwrite m.heap (a - heap_offset m) new);
  same_stack = ground (arith, length-overwrite m.stack a new);
  same_heap = ground (arith, length-overwrite m.heap (a - heap_offset m) new);
  same_hp = ground arith;
  bytes = λ j. ground (
    arith,
    length-overwrite m.stack a new,
    length-overwrite m.heap (a - heap_offset m) new,
    get_elem?-overwrite m.stack a new j,
    get_elem?-overwrite m.heap (a - heap_offset m) new (j - heap_offset m),
  );
}

pub write_bytes_noownerchecks-ok :
    (m : MemoryInstance) (a : ℕ) (new : List ℕ)
    → IsValid m
    → Accessible m a (length new)
    → write_bytes_noownerchecks m a new ≡ ok (stored m a new)
unfolding write_bytes_noownerchecks write_noownerchecks copy_from_slice
write_bytes_noownerchecks-ok m a new v h =
    ground (arith, verify-ok m a (length new) h, heap_offset-le m v, heap_offset-add-length m v)

-- In a valid memory and without the ownership check a write stores its bytes exactly where a read
-- of the range would succeed, and fails as that read does otherwise.
pub write_bytes_noownerchecks_lem :
    (m : MemoryInstance) (a : ℕ) (new : List ℕ)
    → IsValid m
    → (Accessible m a (length new)
        × ((m' : MemoryInstance) × (write_bytes_noownerchecks m a new ≡ ok m') × Stores m a new m'))
      ⊎ (Overflows a (length new)
          × (write_bytes_noownerchecks m a new ≡ err (panic PanicReason.memory_overflow)))
      ⊎ (Uninitialized m a (length new)
          × (write_bytes_noownerchecks m a new
              ≡ err (panic PanicReason.uninitalized_memory_access)))
unfolding write_bytes_noownerchecks write_noownerchecks
write_bytes_noownerchecks_lem m a new v = elim (verify_cases m a (length new)) [
  | inl (h, e) ↦
      inl (h, (stored m a new, write_bytes_noownerchecks-ok m a new v h, stored-Stores m a new v h))
  | inr (inl (h, e)) ↦ inr (inl (h, rw e))
  | inr (inr (h, e)) ↦ inr (inr (h, rw e))
]

abbrev pub owns : OwnershipRegisters → ℕ → ℕ → Bool
owns o a n = has_ownership_range o (record { start = a; end = a + n })

-- In a valid memory a checked write of a range that may be accessed stores its bytes if the
-- registers own the range, and fails with `MemoryOwnership` if they do not; outside such a range it
-- fails as a read does.
pub write_bytes_lem :
    (m : MemoryInstance) (o : OwnershipRegisters) (a : ℕ) (new : List ℕ)
    → IsValid m
    → (Accessible m a (length new)
        × (owns o a (length new) ≡ true)
        × ((m' : MemoryInstance) × (write_bytes m o a new ≡ ok m') × Stores m a new m'))
      ⊎ (Accessible m a (length new)
          × (owns o a (length new) ≡ false)
          × (write_bytes m o a new ≡ err (panic PanicReason.memory_ownership)))
      ⊎ (Overflows a (length new)
          × (write_bytes m o a new ≡ err (panic PanicReason.memory_overflow)))
      ⊎ (Uninitialized m a (length new)
          × (write_bytes m o a new ≡ err (panic PanicReason.uninitalized_memory_access)))
unfolding write_bytes write write_noownerchecks write_bytes_noownerchecks
write_bytes_lem m o a new v = elim (verify_cases m a (length new)) [
  | inl (h, e) ↦ elim (Bool-cases (owns o a (length new))) [
    | inl w ↦ inl (
      h,
      w,
      (
        stored m a new,
        rw (e, w) (rw (add-sub_left a (length new)) (write_bytes_noownerchecks-ok m a new v h)),
        stored-Stores m a new v h,
      ),
    )
    | inr w ↦ inr (inl (h, w, rw (e, w)))
  ]
  | inr (inl (h, e)) ↦ inr (inr (inl (h, rw e)))
  | inr (inr (h, e)) ↦ inr (inr (inr (h, rw e)))
]

owns-inside :
    (o : OwnershipRegisters) (a n j : ℕ)
    → owns o a n ≡ true
    → (a ≤ j) × (j < a + n)
    → ((o.ssp ≤ j) × (j < o.sp)) ⊎ ((o.hp ≤ j) × (j < o.prev_hp))
unfolding has_ownership_range
owns-inside o a n j w h = ground arith

Stores-inside :
    (m : MemoryInstance) (a : ℕ) (new : List ℕ) (m' : MemoryInstance) (j : ℕ)
    → Stores m a new m'
    → byte m' j ≢ byte m j
    → (a ≤ j) × (j < a + length new)
Stores-inside m a new m' j s ne = ground (arith, s.bytes j)

-- In a valid memory, what a successful checked write changes lies between `$ssp` and `$sp`, or
-- between `$hp` and the caller's `$hp`.
pub write_bytes-owned :
    (m : MemoryInstance) (o : OwnershipRegisters) (a : ℕ) (new : List ℕ) {m' : MemoryInstance}
    → IsValid m
    → write_bytes m o a new ≡ ok m'
    → (j : ℕ) → byte m' j ≢ byte m j
    → ((o.ssp ≤ j) × (j < o.sp)) ⊎ ((o.hp ≤ j) × (j < o.prev_hp))
write_bytes-owned m o a new {m' = m'} v e j ne = elim (write_bytes_lem m o a new v) [
  | inl (h, w, (m₁, e₁, s)) ↦
      let same : m₁ ≡ m' = cc in
      owns-inside o a (length new) j w
        (Stores-inside m a new m₁ j s (λ p. ne (ap (λ t. byte t j) (sym same) ∙ p)))
  | inr (inl (h, w, e₁)) ↦ cc
  | inr (inr (inl (h, e₁))) ↦ cc
  | inr (inr (inr (h, e₁))) ↦ cc
]
