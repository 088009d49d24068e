-- ===== src/Memory/Access.antt =====
-- Reads and writes of `MemoryInstance` against the memory as a map from addresses to bytes.
use fuel_vm.Prelude.{
  ℕ, ◌+◌, ◌-◌, ◌≤◌, ◌<◌, ◌≡◌, ◌≢◌, ◌⊎◌, inl, inr, List, leb, if◌then◌else◌, length, get_elem?,
  arith, length-slice, get_elem?-slice, slice,
}
use fuel_vm.Outcome.{Error, ok, err, panic, crash, PanicReason}
use fuel_vm.Memory.{MemoryInstance, MemoryRange, mem_size, heap_offset, verify, read}
use fuel_vm.Memory.Valid.{IsValid, byte, heap_offset-le, heap_offset-add-length}

-- A range that may be read: it ends on the stack, or lies in the heap.
abbrev pub Accessible : MemoryInstance → ℕ → ℕ → Type 0
Accessible m a n = (a + n ≤ mem_size) × ((a + n ≤ length m.stack) ⊎ (m.hp ≤ a))

pub verify-ok :
    (m : MemoryInstance) (a n : ℕ)
    → Accessible m a n
    → verify m a n ≡ ok (record { start = a; end = a + n })
unfolding verify
verify-ok m a n h = ground arith

pub verify_ok_inv :
    (m : MemoryInstance) (a n : ℕ) {r : MemoryRange}
    → verify m a n ≡ ok r
    → (r ≡ record { start = a; end = a + n }) × Accessible m a n
unfolding verify
verify_ok_inv m a n h = ground arith

pub verify-ne-crash : (m : MemoryInstance) (a n : ℕ) → verify m a n ≢ err crash
unfolding verify
verify-ne-crash m a n = ground arith

-- The range reaches past the end of the memory.
abbrev pub Overflows : ℕ → ℕ → Type 0
Overflows a n = mem_size < a + n

-- The range lies in the memory, and touches the gap between the stack and the heap.
abbrev pub Uninitialized : MemoryInstance → ℕ → ℕ → Type 0
Uninitialized m a n = (a + n ≤ mem_size) × (length m.stack < a + n) × (a < m.hp)

pub verify_cases :
    (m : MemoryInstance) (a n : ℕ)
    → (Accessible m a n × (verify m a n ≡ ok (record { start = a; end = a + n })))
      ⊎ (Overflows a n × (verify m a n ≡ err (panic PanicReason.memory_overflow)))
      ⊎ (Uninitialized m a n × (verify m a n ≡ err (panic PanicReason.uninitalized_memory_access)))
unfolding verify
verify_cases m a n = ground arith

-- The bytes of a list are those that the memory holds from an address on.
abbrev pub BytesAt : MemoryInstance → ℕ → ℕ → List ℕ → Type 0
BytesAt m a n bs = (length bs ≡ n) × ((i : ℕ) → i < n → get_elem? bs i ≡ byte m (a + i))

abbrev pub bytes_read : MemoryInstance → ℕ → ℕ → List ℕ
bytes_read m a n =
    if leb (a + n) (length m.stack)
    then slice m.stack a (a + n)
    else slice m.heap (a - heap_offset m) (a + n - heap_offset m)

pub read-ok :
    (m : MemoryInstance) (a n : ℕ)
    → IsValid m
    → Accessible m a n
    → (read m a n ≡ ok (bytes_read m a n)) × BytesAt m a n (bytes_read m a n)
unfolding read byte
read-ok m a n v h = (
  ground (arith, verify-ok m a n h, heap_offset-le m v, heap_offset-add-length m v),
  (
    ground (
      arith,
      heap_offset-le m v,
      heap_offset-add-length m v,
      length-slice m.stack a (a + n),
      length-slice m.heap (a - heap_offset m) (a + n - heap_offset m),
    ),
    λ i hi. ground (
      arith,
      heap_offset-le m v,
      heap_offset-add-length m v,
      get_elem?-slice m.stack a (a + n) i,
      get_elem?-slice m.heap (a - heap_offset m) (a + n - heap_offset m) i,
    ),
  ),
)

read-err : (m : MemoryInstance) (a n : ℕ) {e : Error} → verify m a n ≡ err e → read m a n ≡ err e
unfolding read
read-err m a n h = rw h

-- In a valid memory a read of `n` bytes at `a` gives exactly the bytes that the program sees there
-- if the whole range lies on the stack or in the heap; it fails with `MemoryOverflow` if the range
-- passes the end of the memory, and with `UninitalizedMemoryAccess` otherwise. It never stops the
-- host.
pub read_lem :
    (m : MemoryInstance) (a n : ℕ)
    → IsValid m
    → (Accessible m a n × ((bs : List ℕ) × (read m a n ≡ ok bs) × BytesAt m a n bs))
      ⊎ (Overflows a n × (read m a n ≡ err (panic PanicReason.memory_overflow)))
      ⊎ (Uninitialized m a n × (read m a n ≡ err (panic PanicReason.uninitalized_memory_access)))
read_lem m a n v = elim (verify_cases m a n) [
  | inl (h, e) ↦ let (r, b) = read-ok m a n v h in inl (h, (bytes_read m a n, r, b))
  | inr (inl (h, e)) ↦ inr (inl (h, read-err m a n e))
  | inr (inr (h, e)) ↦ inr (inr (h, read-err m a n e))
]
