-- ===== src/Vm/MemoryOps/LoadStore.antt =====
-- A value that a store instruction wrote is the value that a load reads back.
use fuel_vm.Reg
use fuel_vm.Prelude.{
  ℕ, ◌+◌, ◌*◌, ◌%◌, ◌^◌, ◌≤◌, ◌<◌, ◌≡◌, refl, sym, ap, subst, ◌∙◌, inl, inr, true, some, List,
  length, ltb, leb, arith, tests, word_max, checked_add, to_be_bytes, from_be_bytes,
  from_be_bytes-to_be_bytes, length-to_be_bytes, get_elem?-ext, get_elem?-none, Bool-cases,
}
use fuel_vm.Outcome.{Result, ok}
use fuel_vm.Memory.{MemoryInstance, OwnershipRegisters, read, write_bytes}
use fuel_vm.Memory.Valid
use fuel_vm.Memory.Valid.{byte}
use fuel_vm.Memory.Access.{Accessible, BytesAt, bytes_read, read-ok}
use fuel_vm.Memory.Write.{Stores, owns, write_bytes_lem, add-sub_left}
use fuel_vm.Vm.{
  Vm, Action, ◌>>=◌, ◌>>◌, on_memory, set_reg, update, write_reg_key, inc_pc, instruction_size,
  ownership_registers,
}
use fuel_vm.Vm.MemoryOps.{store, load}

pub write_bytes-owner :
    (m : MemoryInstance) (o : OwnershipRegisters) (a : ℕ) (new : List ℕ)
    → Valid.IsValid m
    → Accessible m a (length new)
    → owns o a (length new) ≡ true
    → (m' : MemoryInstance) × (write_bytes m o a new ≡ ok m') × Stores m a new m'
write_bytes-owner m o a new v h w = elim (write_bytes_lem m o a new v) [
  | inl (_, _, r) ↦ r
  | inr (inl (_, f, _)) ↦ cc
  | inr (inr (inl (f, _))) ↦ absurd (omega (arith, h, f))
  | inr (inr (inr (f, _))) ↦ absurd (omega (arith, h, f))
]

-- What was stored is what a read of the place gives.
same_bytes :
    (m : MemoryInstance) (a : ℕ) (new : List ℕ) (m' : MemoryInstance) (bs : List ℕ)
    → Stores m a new m'
    → BytesAt m' a (length new) bs
    → bs ≡ new
same_bytes m a new m' bs s b = get_elem?-ext bs new λ i. elim (Bool-cases (ltb i (length new))) [
  | inl p ↦
      let k : i < length new = omega tests in
      b.1 i k ∙ ground (arith, s.bytes (a + i), add-sub_left a i)
  | inr p ↦
      let k : length new ≤ i = omega tests in
      get_elem?-none bs i (omega (arith, b.0)) ∙ sym (get_elem?-none new i k)
]

pub Stores-read :
    (m : MemoryInstance) (a : ℕ) (new : List ℕ) (m' : MemoryInstance)
    → Accessible m a (length new)
    → Stores m a new m'
    → read m' a (length new) ≡ ok new
Stores-read m a new m' h s =
    let h' : Accessible m' a (length new) = omega (arith, h, s.same_stack, s.same_hp) in
    let (e, b) = read-ok m' a (length new) s.valid h' in
    e ∙ ap ok (same_bytes m a new m' (bytes_read m' a (length new)) s b)

after : Action (Unit {0}) → Result (Unit {0}) × Vm → Result (Unit {0}) × Vm
after n p = ((λ _. p) >> n) p.1

pub then-ok :
    (m n : Action (Unit {0})) (vm : Vm) {vm' : Vm} {r : Result (Unit {0}) × Vm}
    → m vm ≡ (ok tt, vm')
    → n vm' ≡ r
    → (m >> n) vm ≡ r
unfolding after
then-ok m n vm e f = ap (after n) e ∙ f

store_result : Result MemoryInstance → Action (Unit {0})
store_result r = on_memory (λ _. r) >> inc_pc

load_result : ℕ → Result (List ℕ) → Action (Unit {0})
load_result ra r = do bytes ← λ vm. (r, vm); set_reg ra (from_be_bytes bytes); inc_pc

store-ok :
    (size dst value offset a n : ℕ) (vm : Vm) (m' : MemoryInstance)
    → checked_add dst (offset * size) ≡ some a
    → write_bytes vm.memory (ownership_registers vm) a (to_be_bytes size value) ≡ ok m'
    → checked_add (vm.registers Reg.pc) instruction_size ≡ some n
    → store size dst value offset vm
      ≡ (ok tt, record vm { memory = m'; registers = update vm.registers Reg.pc n })
unfolding store store_result inc_pc
store-ok size dst value offset a n vm m' ea ew en =
    let to : store size dst value offset vm
        ≡ store_result (write_bytes vm.memory (ownership_registers vm) a (to_be_bytes size value))
            vm =
      rw ea refl in
    to ∙ ap (λ r. store_result r vm) ew ∙ rw en refl

load-ok :
    (size ra src offset a n : ℕ) (vm : Vm) (bs : List ℕ)
    → leb Reg.writable ra ≡ true
    → checked_add src (offset * size) ≡ some a
    → read vm.memory a size ≡ ok bs
    → checked_add (update vm.registers ra (from_be_bytes bs) Reg.pc) instruction_size ≡ some n
    → load size ra src offset vm ≡ (
      ok tt,
      record vm { registers = update (update vm.registers ra (from_be_bytes bs)) Reg.pc n },
    )
unfolding load write_reg_key load_result inc_pc
load-ok size ra src offset a n vm bs er ea eb en =
    let to : load size ra src offset vm ≡ load_result ra (read vm.memory a size) vm =
      rw (er, ea) refl in
    to ∙ ap (λ r. load_result ra r vm) eb ∙ rw en refl

-- In a valid memory a store of `size` bytes into a place that the program may access and owns,
-- followed by a load of the same size from the same address into a writable register, succeeds and
-- leaves the value modulo 2^(8 size) there. The program counter stays a word.
pub store-load :
    (size dst value offset ra : ℕ) (vm : Vm)
    → Valid.IsValid vm.memory
    → Accessible vm.memory (dst + offset * size) size
    → owns (ownership_registers vm) (dst + offset * size) size ≡ true
    → Reg.writable ≤ ra
    → vm.registers Reg.pc + 2 * instruction_size ≤ word_max
    → (vm' : Vm) × ((store size dst value offset >> load size ra dst offset) vm ≡ (ok tt, vm'))
      × (vm'.registers ra ≡ value % 256 ^ size)
      × (vm'.registers Reg.pc ≡ vm.registers Reg.pc + 2 * instruction_size)
store-load size dst value offset ra vm v h w k p =
    let a : ℕ = dst + offset * size in
    let new = to_be_bytes size value in
    let len = sym (length-to_be_bytes size value) in
    let h' = subst (λ n. Accessible vm.memory a n) len h in
    let w' = subst (λ n. owns (ownership_registers vm) a n ≡ true) len w in
    let (m', e, s) = write_bytes-owner vm.memory (ownership_registers vm) a new v h' w' in
    let n : ℕ = vm.registers Reg.pc + instruction_size in
    let mid : Vm = record vm { memory = m'; registers = update vm.registers Reg.pc n } in
    let stored = store-ok size dst value offset a n vm m' (ground arith) e (ground arith) in
    let r = subst (λ n. read m' a n ≡ ok new) (sym len) (Stores-read vm.memory a new m' h' s) in
    let loaded =
      load-ok size ra dst offset a (n + instruction_size) mid new (ground arith) (ground arith) r
        (ground arith) in
    (
      record mid {
        registers =
            update (update mid.registers ra (from_be_bytes new)) Reg.pc (n + instruction_size);
      },
      then-ok (store size dst value offset) (load size ra dst offset) vm stored loaded,
      ground (arith, from_be_bytes-to_be_bytes size value),
      ground arith,
    )
