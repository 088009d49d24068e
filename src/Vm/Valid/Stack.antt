-- ===== src/Vm/Valid/Stack.antt =====
-- The handlers of fuel-vm/src/interpreter/memory.rs that move the stack pointer or the heap pointer
-- keep the invariant.
use fuel_vm.Reg
use fuel_vm.Prelude.{
  ℕ, ◌-◌, ◌≤◌, ◌<◌, ◌≡◌, refl, sym, subst, ◌∙◌, Bool, false, some, List, length, inl, inr, ltb,
  arith, tests, Bool-cases, AllOctets, AllOctets-get_elem?,
}
use fuel_vm.Outcome.{Result, ok, err, panic, bug, crash, PanicReason}
use fuel_vm.Memory.{MemoryInstance, grow_stack, grow_heap_by}
use fuel_vm.Memory.Valid
use fuel_vm.Memory.Valid.{byte}
use fuel_vm.Memory.Write.{Stores}
use fuel_vm.Memory.Grow.{Fresh, StackGrown, grow_stack_lem}
use fuel_vm.Memory.GrowHeap.{HeapGrown, grow_heap_by_lem}
use fuel_vm.Vm.{Vm, Action, ◌>>=◌, ◌>>◌, on_memory, gets, set_reg, inc_pc, update}
use fuel_vm.Vm.MemoryOps.{try_update_stack_pointer, stack_pointer_overflow, malloc}
use fuel_vm.Vm.Valid.{IsValid, Post, Runs, Keeps, Runs-bind, Runs-then, reg-Runs, raise_if-Runs}
use fuel_vm.Vm.Valid.Handlers.{inc_pc-Keeps}

abbrev pub Octets : MemoryInstance → Type 0
Octets m = (j b : ℕ) → byte m j ≡ some b → b < 256

-- A memory operation that keeps the heap pointer and does not shrink the stack.
pub record KeepsMemory (m m' : MemoryInstance) : Type 0 where
  valid : Valid.IsValid m'
  octets : Octets m'
  same_hp : m'.hp ≡ m.hp
  covers : length m.stack ≤ length m'.stack

abbrev pub MemoryPost : MemoryInstance → Result MemoryInstance → Type 0
MemoryPost m (ok m') = KeepsMemory m m'
MemoryPost m (err (panic reason)) = Unit
MemoryPost m (err (bug variant)) = ⊥
MemoryPost m (err crash) = ⊥

with_memory :
    (vm : Vm) (m : MemoryInstance)
    → IsValid vm
    → KeepsMemory vm.memory m
    → IsValid (record vm { memory = m })
with_memory vm m v k = record {
  words = v.words;
  zero_reg = v.zero_reg;
  one_reg = v.one_reg;
  memory = k.valid;
  octets = k.octets;
  heap_pointer = v.heap_pointer ∙ sym k.same_hp;
  stack_grown = omega (arith, k.covers, v.stack_grown);
  stack_order = v.stack_order;
  gas_order = v.gas_order;
}

abbrev stored_result : Vm → Result MemoryInstance → Result (Unit {0}) × Vm
stored_result vm r = on_memory (λ _. r) vm

stored_result-IsValid :
    (vm : Vm) (r : Result MemoryInstance)
    → IsValid vm
    → MemoryPost vm.memory r
    → IsValid (stored_result vm r).1 × Post (λ _. Unit {0}) (stored_result vm r).0
stored_result-IsValid vm (ok m) v h = (with_memory vm m v h, tt)
stored_result-IsValid vm (err (panic reason)) v h = (v, tt)
stored_result-IsValid vm (err (bug variant)) v h = absurd h
stored_result-IsValid vm (err crash) v h = absurd h

pub on_memory-Keeps :
    (f : MemoryInstance → Result MemoryInstance)
    → ((m : MemoryInstance) → Valid.IsValid m → Octets m → MemoryPost m (f m))
    → Keeps (on_memory f)
on_memory-Keeps f h = record {
  keeps = λ vm v. (stored_result-IsValid vm (f vm.memory) v (h vm.memory v.memory v.octets)).0;
  post = λ vm v. (stored_result-IsValid vm (f vm.memory) v (h vm.memory v.memory v.octets)).1;
}

-- Fresh bytes are zero, and stored bytes are octets.
Fresh-Octets :
    (m : MemoryInstance) (a b : ℕ) (m' : MemoryInstance) → Octets m → Fresh m a b m' → Octets m'
Fresh-Octets m a b m' o f j x e = ground (arith, f j, o j x)

pub Stores-KeepsMemory :
    (m : MemoryInstance) (a : ℕ) (new : List ℕ) (m' : MemoryInstance)
    → Octets m
    → AllOctets new
    → Stores m a new m'
    → KeepsMemory m m'
Stores-KeepsMemory m a new m' o h s = record {
  valid = s.valid;
  octets = λ j b e. ground (arith, s.bytes j, o j b, AllOctets-get_elem? new (j - a) {b = b} h);
  same_hp = s.same_hp;
  covers = omega (arith, s.same_stack);
}

pub Runs-action :
    {A : Type 0} {P : A → Type 0} (m : Action A)
    → ((vm : Vm) → IsValid vm → IsValid (m vm).1 × Post P (m vm).0)
    → Runs P m
Runs-action m h = record { keeps = λ vm v. (h vm v).0; post = λ vm v. (h vm v).1 }

stack_moved : Vm → ℕ → MemoryInstance → Vm
stack_moved vm new_sp m = record vm { registers = update vm.registers Reg.sp new_sp; memory = m }

stack_moved-IsValid :
    (vm : Vm) (new_sp : ℕ) (m : MemoryInstance)
    → IsValid vm
    → vm.registers Reg.ssp ≤ new_sp
    → new_sp ≤ vm.registers Reg.hp
    → StackGrown vm.memory new_sp m
    → IsValid (stack_moved vm new_sp m)
unfolding stack_moved
stack_moved-IsValid vm new_sp m v h k s = record {
  words = λ i. ground (arith, v.words i, v.words Reg.hp);
  zero_reg = v.zero_reg;
  one_reg = v.one_reg;
  memory = s.valid;
  octets = Fresh-Octets vm.memory (length vm.memory.stack) new_sp m v.octets s.fresh;
  heap_pointer = v.heap_pointer ∙ sym s.same_hp;
  stack_grown = s.covers;
  stack_order = h;
  gas_order = v.gas_order;
}

-- What a method leaves is valid.
abbrev Leaves : Result (Unit {0}) × Vm → Type 0
Leaves r = IsValid r.1 × Post (λ _. Unit {0}) r.0

move_stack : ℕ → Vm → Result MemoryInstance → Result (Unit {0}) × Vm
move_stack new_sp vm r = (set_reg Reg.sp new_sp >> on_memory (λ _. r)) vm

try_update_stack_pointer-moves :
    (new_sp : ℕ) (vm : Vm)
    → ltb new_sp (vm.registers Reg.ssp) ≡ false
    → ltb (vm.registers Reg.hp) new_sp ≡ false
    → try_update_stack_pointer new_sp vm ≡ move_stack new_sp vm (grow_stack vm.memory new_sp)
unfolding try_update_stack_pointer move_stack
try_update_stack_pointer-moves new_sp vm p q = rw (p, q) refl

move_stack-Leaves :
    (new_sp : ℕ) (vm : Vm)
    → IsValid vm
    → vm.registers Reg.ssp ≤ new_sp
    → new_sp ≤ vm.registers Reg.hp
    → Leaves (move_stack new_sp vm (grow_stack vm.memory new_sp))
unfolding move_stack stack_moved
move_stack-Leaves new_sp vm v h k = elim (grow_stack_lem vm.memory new_sp v.memory) [
  | inl (_, (m, e, s)) ↦
      subst (λ r. Leaves (move_stack new_sp vm r)) (sym e)
        (stack_moved-IsValid vm new_sp m v h k s, tt)
  | inr other ↦ absurd (ground (arith, v.heap_pointer, v.memory.hp_bound))
]

try_update_stack_pointer-Leaves :
    (new_sp : ℕ) (vm : Vm) → IsValid vm → Leaves (try_update_stack_pointer new_sp vm)
unfolding try_update_stack_pointer
try_update_stack_pointer-Leaves new_sp vm v =
    elim (Bool-cases (ltb new_sp (vm.registers Reg.ssp))) [
      | inl p ↦ rw p (v, tt)
      | inr p ↦ elim (Bool-cases (ltb (vm.registers Reg.hp) new_sp)) [
        | inl q ↦ rw (p, q) (v, tt)
        | inr q ↦
            subst Leaves (sym (try_update_stack_pointer-moves new_sp vm p q))
              (move_stack-Leaves new_sp vm v (omega tests) (omega tests))
      ]
    ]

pub try_update_stack_pointer-Keeps : (new_sp : ℕ) → Keeps (try_update_stack_pointer new_sp)
try_update_stack_pointer-Keeps new_sp =
    Runs-action (try_update_stack_pointer new_sp) (try_update_stack_pointer-Leaves new_sp)

pub stack_pointer_overflow-Keeps :
    (f : ℕ → ℕ → ℕ × Bool) (n : ℕ) → Keeps (stack_pointer_overflow f n)
unfolding stack_pointer_overflow
stack_pointer_overflow-Keeps f n = Runs-bind (reg-Runs Reg.sp) λ sp _.
    Runs-bind (raise_if-Runs (f sp n).1 PanicReason.memory_overflow)
      λ _ _. Runs-then (try_update_stack_pointer-Keeps (f sp n).0) inc_pc-Keeps

heap_moved-IsValid :
    (vm : Vm) (new_hp : ℕ) (m : MemoryInstance)
    → IsValid vm
    → new_hp ≤ vm.memory.hp
    → vm.registers Reg.sp ≤ new_hp
    → HeapGrown vm.memory new_hp m
    → IsValid (record vm { registers = update vm.registers Reg.hp m.hp; memory = m })
heap_moved-IsValid vm new_hp m v h k g = record {
  words = λ i. ground (arith, v.words i, v.memory.hp_bound, g.moved);
  zero_reg = v.zero_reg;
  one_reg = v.one_reg;
  memory = g.valid;
  octets = Fresh-Octets vm.memory new_hp vm.memory.hp m v.octets g.fresh;
  heap_pointer = refl;
  stack_grown = ground (arith, g.cut, v.stack_grown);
  stack_order = v.stack_order;
  gas_order = v.gas_order;
}

-- `malloc` without the program counter, for the memory's answer
move_heap : Result MemoryInstance → Action (Unit {0})
move_heap r = do on_memory (λ _. r); hp ← gets (λ vm. vm.memory.hp); set_reg Reg.hp hp

grow_heap : ℕ → Action (Unit {0})
grow_heap amount vm = move_heap (grow_heap_by vm.memory (vm.registers Reg.sp) amount) vm

grow_heap-Leaves : (amount : ℕ) (vm : Vm) → IsValid vm → Leaves (grow_heap amount vm)
unfolding grow_heap move_heap
grow_heap-Leaves amount vm v =
    elim (grow_heap_by_lem vm.memory (vm.registers Reg.sp) amount v.memory) [
      | inl (a, b, (m, e, g)) ↦
          subst (λ r. Leaves (move_heap r vm)) (sym e)
            (heap_moved-IsValid vm (vm.memory.hp - amount) m v (omega arith) b g, tt)
      | inr (inl (a, b, e)) ↦ subst (λ r. Leaves (move_heap r vm)) (sym e) (v, tt)
      | inr (inr (a, e)) ↦ subst (λ r. Leaves (move_heap r vm)) (sym e) (v, tt)
    ]

malloc_with : Result MemoryInstance → Action (Unit {0})
malloc_with r = do on_memory (λ _. r); hp ← gets (λ vm. vm.memory.hp); set_reg Reg.hp hp; inc_pc

move_heap-inc_pc :
    (r : Result MemoryInstance) (vm : Vm) → (move_heap r >> inc_pc) vm ≡ malloc_with r vm
unfolding move_heap malloc_with
move_heap-inc_pc (ok m) vm = refl
move_heap-inc_pc (err e) vm = refl

malloc-split : (amount : ℕ) (vm : Vm) → (grow_heap amount >> inc_pc) vm ≡ malloc amount vm
unfolding malloc grow_heap malloc_with
malloc-split amount vm = move_heap-inc_pc (grow_heap_by vm.memory (vm.registers Reg.sp) amount) vm

pub Runs-equal :
    {A : Type 0} {P : A → Type 0} {m : Action A} (n : Action A)
    → Runs P m
    → ((vm : Vm) → IsValid vm → m vm ≡ n vm)
    → Runs P n
Runs-equal {P = P} n h same = record {
  keeps = λ vm v. subst (λ r. IsValid r.1) (same vm v) (h.keeps vm v);
  post = λ vm v. subst (λ r. Post P r.0) (same vm v) (h.post vm v);
}

pub malloc-Keeps : (amount : ℕ) → Keeps (malloc amount)
malloc-Keeps amount =
    Runs-equal (malloc amount)
      (Runs-then (Runs-action (grow_heap amount) (grow_heap-Leaves amount)) inc_pc-Keeps)
      (λ vm _. malloc-split amount vm)
