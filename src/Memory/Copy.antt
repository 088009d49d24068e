-- ===== src/Memory/Copy.antt =====
-- `MemoryInstance::memcopy` of fuel-vm/src/interpreter/memory.rs, and what a copy does to the
-- memory that the program sees.
use fuel_vm.Prelude.{
  ℕ, ◌+◌, ◌-◌, ◌<◌, ◌≡◌, ◌⊎◌, inl, inr, ◌∙◌, List, Bool, true, false, ◌&&◌, ◌||◌, ltb, leb,
  if◌then◌else◌, length, arith, Bool-cases,
}
use fuel_vm.Outcome.{Result, ok, err, panic, crash, PanicReason, ◌>>=◌}
use fuel_vm.Memory.{
  MemoryInstance, MemoryRange, heap_offset, verify, slice_or_crash, in_stack, in_heap,
  copy_from_slice, OwnershipRegisters, verify_ownership,
}
use fuel_vm.Memory.Valid.{IsValid, heap_offset-le, heap_offset-add-length}
use fuel_vm.Memory.Access.{Accessible, verify-ok, BytesAt, bytes_read, read-ok}
use fuel_vm.Memory.Write.{Stores, stored, stored-Stores, owns}

-- The test of `memcopy` for ranges that overlap.
unfoldable pub overlaps : MemoryRange → MemoryRange → Bool
overlaps dst src =
    leb dst.start src.start && ltb src.start dst.end
    || leb src.start dst.start && ltb dst.start src.end
    || ltb dst.start src.end && leb src.end dst.end
    || ltb src.start dst.end && leb dst.end src.end

-- The destination's part of either vector receives the bytes.
unfoldable pub copy_into : MemoryInstance → MemoryRange → List ℕ → Result MemoryInstance
unfolding copy_from_slice
copy_into m dst part =
    if leb dst.end (length m.stack)
    then copy_from_slice m (in_stack dst.start dst.end) part
    else if leb (heap_offset m) dst.start
    then copy_from_slice m (in_heap (dst.start - heap_offset m) (dst.end - heap_offset m)) part
    else err crash

-- The copy itself, between the two vectors or inside one.
unfoldable pub copy_range : MemoryInstance → MemoryRange → MemoryRange → Result MemoryInstance
copy_range m dst src =
    if leb src.end (length m.stack)
    then (do part ← slice_or_crash m.stack src.start src.end; copy_into m dst part)
    else if leb (heap_offset m) src.start
    then (do
      part ← slice_or_crash m.heap (src.start - heap_offset m) (src.end - heap_offset m)
      copy_into m dst part)
    else err crash

unfoldable pub memcopy : MemoryInstance → ℕ → ℕ → ℕ → OwnershipRegisters → Result MemoryInstance
memcopy m dst src len owner = do
  dst_range ← verify m dst len
  src_range ← verify m src len
  if overlaps dst_range src_range
      then err (panic PanicReason.memory_write_overlap)
      else do _ ← verify_ownership owner dst_range; copy_range m dst_range src_range

-- The two ranges share an address.
abbrev pub Shares : ℕ → ℕ → ℕ → Type 0
Shares dst src len = (0 < len) × (dst < src + len) × (src < dst + len)

abbrev pub range : ℕ → ℕ → MemoryRange
range a n = record { start = a; end = a + n }

overlaps-Shares : (dst src n : ℕ) → overlaps (range dst n) (range src n) ≡ true → Shares dst src n
unfolding overlaps
overlaps-Shares dst src n h = ground arith

Shares-overlaps : (dst src n : ℕ) → Shares dst src n → overlaps (range dst n) (range src n) ≡ true
unfolding overlaps
Shares-overlaps dst src n h = ground arith

copy_into-ok :
    (m : MemoryInstance) (dst n : ℕ) (part : List ℕ)
    → IsValid m
    → Accessible m dst n
    → length part ≡ n
    → copy_into m (range dst n) part ≡ ok (stored m dst part)
unfolding copy_into
copy_into-ok m dst n part v h e = ground (arith, heap_offset-le m v, heap_offset-add-length m v)

copy_range-source :
    (m : MemoryInstance) (dst src n : ℕ)
    → IsValid m
    → Accessible m src n
    → copy_range m (range dst n) (range src n) ≡ copy_into m (range dst n) (bytes_read m src n)
unfolding copy_range
copy_range-source m dst src n v h = ground (arith, heap_offset-le m v, heap_offset-add-length m v)

memcopy-verified :
    (m : MemoryInstance) (dst src n : ℕ) (o : OwnershipRegisters)
    → Accessible m dst n
    → Accessible m src n
    → memcopy m dst src n o ≡ (
        if overlaps (range dst n) (range src n)
        then err (panic PanicReason.memory_write_overlap)
        else if owns o dst n
        then copy_range m (range dst n) (range src n)
        else err (panic PanicReason.memory_ownership))
unfolding memcopy verify_ownership
memcopy-verified m dst src n o hd hs = ground (arith, verify-ok m dst n hd, verify-ok m src n hs)

-- Between two accessible ranges of a valid memory `memcopy` stores at the destination exactly the
-- bytes that the program sees at the source, if the ranges share no address and the destination is
-- owned; it fails with `MemoryWriteOverlap` if they share one, and with `MemoryOwnership` if not
-- owned.
pub memcopy_lem :
    (m : MemoryInstance) (dst src n : ℕ) (o : OwnershipRegisters)
    → IsValid m
    → Accessible m dst n
    → Accessible m src n
    → (Shares dst src n × (memcopy m dst src n o ≡ err (panic PanicReason.memory_write_overlap)))
      ⊎ ((¬ Shares dst src n)
          × (owns o dst n ≡ false)
          × (memcopy m dst src n o ≡ err (panic PanicReason.memory_ownership)))
      ⊎ ((¬ Shares dst src n)
          × (owns o dst n ≡ true)
          × ((m' : MemoryInstance) × (bs : List ℕ) × (memcopy m dst src n o ≡ ok m')
              × BytesAt m src n bs
              × Stores m dst bs m'))
memcopy_lem m dst src n o v hd hs =
    let e = memcopy-verified m dst src n o hd hs in
    let apart : overlaps (range dst n) (range src n) ≡ false → ¬ Shares dst src n =
      λ p s. cc (Shares-overlaps dst src n s) in
    elim (Bool-cases (overlaps (range dst n) (range src n))) [
      | inl p ↦ inl (overlaps-Shares dst src n p, rw (e, p))
      | inr p ↦ elim (Bool-cases (owns o dst n)) [
        | inr q ↦ inr (inl (apart p, q, rw (e, p, q)))
        | inl q ↦
            let (_, b) = read-ok m src n v hs in
            inr (
              inr (
                apart p,
                q,
                (
                  stored m dst (bytes_read m src n),
                  bytes_read m src n,
                  rw (e, p, q)
                      (copy_range-source m dst src n v hs
                        ∙ copy_into-ok m dst n (bytes_read m src n) v hd b.0),
                  b,
                  stored-Stores m dst (bytes_read m src n) v (rw b.0 hd),
                ),
              ))
      ]
    ]
