-- ===== src/Vm/Valid/Access.antt =====
-- The handlers of fuel-vm/src/interpreter/memory.rs that read and write the memory keep the
-- invariant.
use fuel_vm.Prelude.{
  ℕ, ◌+◌, ◌*◌, ◌^◌, ◌≤◌, ◌≡◌, refl, sym, subst, ◌∙◌, List, length, inl, inr, ltb, arith, tests,
  Bool-cases, checked_add, replicate, to_be_bytes, from_be_bytes, AllOctets, AllOctets-elements,
  AllOctets-to_be_bytes, AllOctets-zeros, from_be_bytes-lt, length-replicate, get_elem?-none,
}
use fuel_vm.Outcome.{Error, Result, ok, err, PanicReason, ◌>>=◌ as ◌>=>◌}
use fuel_vm.Memory.{
  MemoryInstance, MemoryRange, OwnershipRegisters, Slot, verify, read, write, write_bytes,
  write_bytes_noownerchecks, copy_from_slice,
}
use fuel_vm.Memory.Valid
use fuel_vm.Memory.Valid.{byte}
use fuel_vm.Memory.Access.{BytesAt, verify_cases, read_lem}
use fuel_vm.Memory.Write.{write_bytes_lem, write_bytes_noownerchecks_lem}
use fuel_vm.Memory.Copy.{memcopy, memcopy_lem}
use fuel_vm.Vm.{Vm, Action, ◌>>=◌, ◌>>◌, on_memory, gets, inc_pc, ownership_registers}
use fuel_vm.Memory.Rollback.{bytes_eq}
use fuel_vm.Vm.Alu.{bool_word}
use fuel_vm.Vm.MemoryOps.{store, load, memclear, memory_copy, memeq}
use fuel_vm.Vm.Valid.{
  IsValid, Post, Runs, Keeps, Runs-bind, Runs-then, IsWord, from_option-Runs, set_reg-Keeps,
}
use fuel_vm.Vm.Valid.Handlers.{bool_word-IsWord, inc_pc-Keeps, write_reg_key-Runs, writable-Free}
use fuel_vm.Vm.Valid.Stack.{Octets, MemoryPost, on_memory-Keeps, Stores-KeepsMemory, Runs-equal}

BytesAt-AllOctets :
    (m : MemoryInstance) (a n : ℕ) (bs : List ℕ) → Octets m → BytesAt m a n bs → AllOctets bs
BytesAt-AllOctets m a n bs o h = AllOctets-elements bs λ i b e. elim (Bool-cases (ltb i n)) [
  | inl p ↦ o (a + i) b (sym (h.1 i (omega tests)) ∙ e)
  | inr p ↦ absurd (cc (e, get_elem?-none bs i (omega (arith, tests, h.0))))
]

-- Bytes that were read, `n` of them
abbrev pub IsRead : ℕ → List ℕ → Type 0
IsRead n bs = (length bs ≡ n) × AllOctets bs

read_result : (vm : Vm) (a n : ℕ) → IsValid vm → Post (IsRead n) (read vm.memory a n)
read_result vm a n v = elim (read_lem vm.memory a n v.memory) [
  | inl (h, (bs, e, b)) ↦
      subst (Post (IsRead n)) (sym e) (b.0, BytesAt-AllOctets vm.memory a n bs v.octets b)
  | inr (inl (h, e)) ↦ subst (Post (IsRead n)) (sym e) tt
  | inr (inr (h, e)) ↦ subst (Post (IsRead n)) (sym e) tt
]

pub read-Runs : (a n : ℕ) → Runs (IsRead n) (λ vm. (read vm.memory a n, vm))
read-Runs a n = record { keeps = λ vm v. v; post = λ vm v. read_result vm a n v }

pub write_bytes-MemoryPost :
    (o : OwnershipRegisters) (a : ℕ) (new : List ℕ) (m : MemoryInstance)
    → AllOctets new
    → Valid.IsValid m
    → Octets m
    → MemoryPost m (write_bytes m o a new)
write_bytes-MemoryPost o a new m h v k = elim (write_bytes_lem m o a new v) [
  | inl (_, _, (m', e, s)) ↦ subst (MemoryPost m) (sym e) (Stores-KeepsMemory m a new m' k h s)
  | inr (inl (_, _, e)) ↦ subst (MemoryPost m) (sym e) tt
  | inr (inr (inl (_, e))) ↦ subst (MemoryPost m) (sym e) tt
  | inr (inr (inr (_, e))) ↦ subst (MemoryPost m) (sym e) tt
]

pub write_bytes_noownerchecks-MemoryPost :
    (a : ℕ) (new : List ℕ) (m : MemoryInstance)
    → AllOctets new
    → Valid.IsValid m
    → Octets m
    → MemoryPost m (write_bytes_noownerchecks m a new)
write_bytes_noownerchecks-MemoryPost a new m h v k =
    elim (write_bytes_noownerchecks_lem m a new v) [
      | inl (_, (m', e, s)) ↦ subst (MemoryPost m) (sym e) (Stores-KeepsMemory m a new m' k h s)
      | inr (inl (_, e)) ↦ subst (MemoryPost m) (sym e) tt
      | inr (inr (_, e)) ↦ subst (MemoryPost m) (sym e) tt
    ]

memcopy-dst :
    (m : MemoryInstance) (dst src n : ℕ) (o : OwnershipRegisters) {e : Error}
    → verify m dst n ≡ err e
    → memcopy m dst src n o ≡ err e
unfolding memcopy
memcopy-dst m dst src n o h = rw h

memcopy-src :
    (m : MemoryInstance) (dst src n : ℕ) (o : OwnershipRegisters) {r : MemoryRange} {e : Error}
    → verify m dst n ≡ ok r
    → verify m src n ≡ err e
    → memcopy m dst src n o ≡ err e
unfolding memcopy
memcopy-src m dst src n o h k = rw (h, k)

memcopy-MemoryPost :
    (dst src n : ℕ) (o : OwnershipRegisters) (m : MemoryInstance)
    → Valid.IsValid m
    → Octets m
    → MemoryPost m (memcopy m dst src n o)
memcopy-MemoryPost dst src n o m v k = elim (verify_cases m dst n) [
  | inr (inl (_, e)) ↦ subst (MemoryPost m) (sym (memcopy-dst m dst src n o e)) tt
  | inr (inr (_, e)) ↦ subst (MemoryPost m) (sym (memcopy-dst m dst src n o e)) tt
  | inl (hd, d) ↦ elim (verify_cases m src n) [
    | inr (inl (_, e)) ↦ subst (MemoryPost m) (sym (memcopy-src m dst src n o d e)) tt
    | inr (inr (_, e)) ↦ subst (MemoryPost m) (sym (memcopy-src m dst src n o d e)) tt
    | inl (hs, _) ↦ elim (memcopy_lem m dst src n o v hd hs) [
      | inl (_, e) ↦ subst (MemoryPost m) (sym e) tt
      | inr (inl (_, _, e)) ↦ subst (MemoryPost m) (sym e) tt
      | inr (inr (_, _, (m', bs, e, b, s))) ↦
          subst (MemoryPost m) (sym e)
            (Stores-KeepsMemory m dst bs m' k (BytesAt-AllOctets m src n bs k b) s)
    ]
  ]
]

pub gets-Runs :
    {A : Type 0} (P : A → Type 0) (f : Vm → A)
    → ((vm : Vm) → IsValid vm → P (f vm))
    → Runs P (gets f)
gets-Runs P f h = record { keeps = λ vm v. v; post = λ vm v. h vm v }

pub owner-Runs : Runs (λ _. Unit) (gets ownership_registers)
owner-Runs = gets-Runs (λ _. Unit) ownership_registers (λ vm v. tt)

pub store-Keeps : (size dst value offset : ℕ) → Keeps (store size dst value offset)
unfolding store
store-Keeps size dst value offset = Runs-bind owner-Runs λ owner _.
    Runs-bind (from_option-Runs (checked_add dst (offset * size)) PanicReason.memory_overflow)
      λ addr _.
        Runs-then
          (on_memory-Keeps (λ m. write_bytes m owner addr (to_be_bytes size value))
            (λ m.
              write_bytes-MemoryPost owner addr (to_be_bytes size value) m
                (AllOctets-to_be_bytes size value)))
          inc_pc-Keeps

pub read-IsWord : (n : ℕ) (bs : List ℕ) → 256 ^ n ≤ 2 ^ 64 → IsRead n bs → IsWord (from_be_bytes bs)
read-IsWord n bs h k =
    omega (arith, from_be_bytes-lt bs k.1, subst (λ l. 256 ^ l ≤ 2 ^ 64) (sym k.0) h)

pub load-Keeps : (size ra src offset : ℕ) → 256 ^ size ≤ 2 ^ 64 → Keeps (load size ra src offset)
unfolding load
load-Keeps size ra src offset h = Runs-bind (write_reg_key-Runs ra) λ result d.
    Runs-bind (from_option-Runs (checked_add src (offset * size)) PanicReason.memory_overflow)
      λ addr _. Runs-bind (read-Runs addr size) λ bs k.
        Runs-then
          (set_reg-Keeps result (from_be_bytes bs) (writable-Free d) (read-IsWord size bs h k))
          inc_pc-Keeps

-- A slot that is filled at once
pub fill_slot :
    (r : Result Slot) (new : List ℕ) (vm : Vm)
    → (on_memory (λ m. r >=> λ slot. copy_from_slice m slot new) >> inc_pc) vm
      ≡ ((λ vm. (r, vm)) >>= λ slot. on_memory (λ m. copy_from_slice m slot new) >> inc_pc) vm
fill_slot (ok slot) new vm = refl
fill_slot (err e) new vm = refl

clear_slot : OwnershipRegisters → ℕ → ℕ → Action (Unit {0})
clear_slot owner a b = do
  slot ← λ vm. (write vm.memory owner a b, vm)
  on_memory (λ m. copy_from_slice m slot (replicate b 0))
  inc_pc

clear_slot-writes :
    (owner : OwnershipRegisters) (a b : ℕ) (vm : Vm)
    → (on_memory (λ m. write_bytes m owner a (replicate b 0)) >> inc_pc) vm
      ≡ clear_slot owner a b vm
unfolding clear_slot write_bytes
clear_slot-writes owner a b vm =
    rw (length-replicate {A = ℕ} b 0) (fill_slot (write vm.memory owner a b) (replicate b 0) vm)

clear_slot-Keeps : (owner : OwnershipRegisters) (a b : ℕ) → Keeps (clear_slot owner a b)
clear_slot-Keeps owner a b =
    Runs-equal (clear_slot owner a b)
      (Runs-then
        (on_memory-Keeps (λ m. write_bytes m owner a (replicate b 0))
          (λ m. write_bytes-MemoryPost owner a (replicate b 0) m (AllOctets-zeros b)))
        inc_pc-Keeps)
      (λ vm _. clear_slot-writes owner a b vm)

pub memclear-Keeps : (a b : ℕ) → Keeps (memclear a b)
unfolding memclear clear_slot
memclear-Keeps a b = Runs-bind owner-Runs (λ owner _. clear_slot-Keeps owner a b)

pub memory_copy-Keeps : (dst src len : ℕ) → Keeps (memory_copy dst src len)
unfolding memory_copy
memory_copy-Keeps dst src len = Runs-bind owner-Runs λ owner _.
    Runs-then
      (on_memory-Keeps (λ m. memcopy m dst src len owner)
        (λ m. memcopy-MemoryPost dst src len owner m))
      inc_pc-Keeps

pub memeq-Keeps : (ra b c d : ℕ) → Keeps (memeq ra b c d)
unfolding memeq
memeq-Keeps ra b c d = Runs-bind (write_reg_key-Runs ra) λ result h.
    Runs-bind (read-Runs b d) λ left _. Runs-bind (read-Runs c d) λ right _.
      Runs-then
        (set_reg-Keeps result (bool_word (bytes_eq left right)) (writable-Free h)
          (bool_word-IsWord (bytes_eq left right)))
        inc_pc-Keeps
