-- ===== src/Vm/MemoryOps/Push.antt =====
-- What a push of registers leaves on the stack.
use fuel_vm.Reg
use fuel_vm.Prelude.{
  ℕ, ◌+◌, ◌*◌, ◌≤◌, ◌≡◌, ◌≢◌, refl, sym, ap, subst, ◌∙◌, inl, inr, false, some, List, length, ltb,
  arith, word_max, saturating_add, checked_add,
}
use fuel_vm.Outcome.{Result, ok}
use fuel_vm.Memory.{MemoryInstance, grow_stack, read, write_bytes_noownerchecks}
use fuel_vm.Memory.Valid
use fuel_vm.Memory.Valid.{byte}
use fuel_vm.Memory.Access.{Accessible}
use fuel_vm.Memory.Write.{Stores, write_bytes_noownerchecks_lem}
use fuel_vm.Memory.Grow.{StackGrown, grow_stack_lem}
use fuel_vm.Vm.{
  Vm, Action, Registers, ◌>>=◌, ◌>>◌, gets, on_memory, set_reg, update, inc_pc, instruction_size,
}
use fuel_vm.Vm.MemoryOps.{
  try_update_stack_pointer, ProgramRegistersSegment, segment_start, segment_len, count_ones,
  selected_bytes, push_selected_registers,
}
use fuel_vm.Vm.MemoryOps.LoadStore.{then-ok, Stores-read}
use fuel_vm.Vm.Valid.{IsValid}
use fuel_vm.Vm.Valid.Push.{push_slot, push_slot-writes, length-selected_bytes}

move_to : ℕ → Vm → Result MemoryInstance → Result (Unit {0}) × Vm
move_to new_sp vm r = (set_reg Reg.sp new_sp >> on_memory (λ _. r)) vm

pub try_update_stack_pointer-ok :
    (new_sp : ℕ) (vm : Vm) (m : MemoryInstance)
    → ltb new_sp (vm.registers Reg.ssp) ≡ false
    → ltb (vm.registers Reg.hp) new_sp ≡ false
    → grow_stack vm.memory new_sp ≡ ok m
    → try_update_stack_pointer new_sp vm
      ≡ (ok tt, record vm { registers = update vm.registers Reg.sp new_sp; memory = m })
unfolding try_update_stack_pointer move_to
try_update_stack_pointer-ok new_sp vm m p q e =
    let to : try_update_stack_pointer new_sp vm ≡ move_to new_sp vm (grow_stack vm.memory new_sp) =
      rw (p, q) refl in
    to ∙ ap (λ r. move_to new_sp vm r) e

stored_with : Result MemoryInstance → Action (Unit {0})
stored_with r = on_memory (λ _. r) >> inc_pc

push_slot-ok :
    (a k : ℕ) (new : List ℕ) (vm : Vm) (m : MemoryInstance)
    → write_bytes_noownerchecks vm.memory a new ≡ ok m
    → checked_add (vm.registers Reg.pc) instruction_size ≡ some k
    → push_slot a (length new) new vm
      ≡ (ok tt, record vm { memory = m; registers = update vm.registers Reg.pc k })
unfolding stored_with inc_pc
push_slot-ok a k new vm m e f =
    let to : stored_with (write_bytes_noownerchecks vm.memory a new) vm
        ≡ push_slot a (length new) new vm =
      push_slot-writes a new vm in
    sym to ∙ ap (λ r. stored_with r vm) e ∙ rw f refl

push_rest : ProgramRegistersSegment → ℕ → ℕ → Action (Unit {0})
push_rest segment bitmask at = do
  regs ← gets (λ vm. vm.registers)
  push_slot at (count_ones segment_len 0 bitmask * 8)
      (selected_bytes segment_len 0 (segment_start segment) bitmask regs)

push-split :
    (segment : ProgramRegistersSegment) (bitmask : ℕ) (vm : Vm)
    → push_selected_registers segment bitmask vm
      ≡ (try_update_stack_pointer
              (saturating_add (vm.registers Reg.sp) (count_ones segment_len 0 bitmask * 8))
            >> push_rest segment bitmask (vm.registers Reg.sp))
          vm
unfolding push_selected_registers push_rest push_slot
push-split segment bitmask vm = refl

grow_stack-below :
    (m : MemoryInstance) (new_sp : ℕ)
    → Valid.IsValid m
    → new_sp ≤ m.hp
    → (m' : MemoryInstance) × (grow_stack m new_sp ≡ ok m') × StackGrown m new_sp m'
grow_stack-below m new_sp v h = elim (grow_stack_lem m new_sp v) [
  | inl (_, r) ↦ r
  | inr (inl (f, _, _)) ↦ absurd (omega arith)
  | inr (inr (f, _)) ↦ absurd (omega (arith, v.hp_bound))
]

pub grow_stack-again :
    (m : MemoryInstance) (new_sp : ℕ)
    → Valid.IsValid m
    → new_sp ≤ length m.stack
    → grow_stack m new_sp ≡ ok m
unfolding grow_stack
grow_stack-again m new_sp v h = ground (arith, v.hp_bound, v.stack_below)

write-Accessible :
    (m : MemoryInstance) (a : ℕ) (new : List ℕ)
    → Valid.IsValid m
    → Accessible m a (length new)
    → (m' : MemoryInstance) × (write_bytes_noownerchecks m a new ≡ ok m') × Stores m a new m'
write-Accessible m a new v h = elim (write_bytes_noownerchecks_lem m a new v) [
  | inl (_, r) ↦ r
  | inr (inl (f, _)) ↦ absurd (omega (arith, h, f))
  | inr (inr (f, _)) ↦ absurd (omega (arith, h, f))
]

saturates : (a b : ℕ) {c : ℕ} → c ≤ word_max → a + b ≤ c → saturating_add a b ≡ a + b
unfolding saturating_add
saturates a b h k = omega arith

-- The place on the stack that a push fills, from `$sp` on
pub record Pushed (segment : ProgramRegistersSegment) (bitmask : ℕ) (vm vm' : Vm) : Type 0 where
  pub pushes : push_selected_registers segment bitmask vm ≡ (ok tt, vm')
  pub same : (r : ℕ) → r ≢ Reg.sp → r ≢ Reg.pc → vm'.registers r ≡ vm.registers r
  pub moved : vm'.registers Reg.sp ≡ vm.registers Reg.sp + count_ones segment_len 0 bitmask * 8
  pub next : vm'.registers Reg.pc ≡ vm.registers Reg.pc + instruction_size
  pub valid : Valid.IsValid vm'.memory
  pub covers : vm.registers Reg.sp ≤ length vm'.memory.stack
  pub holds :
      read vm'.memory (vm.registers Reg.sp) (count_ones segment_len 0 bitmask * 8)
      ≡ ok (
          selected_bytes segment_len 0 (segment_start segment) bitmask (
            update vm.registers Reg.sp
              (vm.registers Reg.sp + count_ones segment_len 0 bitmask * 8)))

pub push-Pushed :
    (segment : ProgramRegistersSegment) (bitmask : ℕ) (vm : Vm)
    → IsValid vm
    → vm.registers Reg.sp + count_ones segment_len 0 bitmask * 8 ≤ vm.registers Reg.hp
    → vm.registers Reg.pc + instruction_size ≤ word_max
    → (vm' : Vm) × Pushed segment bitmask vm vm'
unfolding push_rest
push-Pushed segment bitmask vm v room k =
    let n : ℕ = count_ones segment_len 0 bitmask * 8 in
    let sp : ℕ = vm.registers Reg.sp in
    let regs : Registers = update vm.registers Reg.sp (sp + n) in
    let new = selected_bytes segment_len 0 (segment_start segment) bitmask regs in
    let long : length new ≡ n =
      length-selected_bytes segment_len 0 (segment_start segment) bitmask regs in
    let (m₁, grows, g) =
      grow_stack-below vm.memory (sp + n) v.memory (omega (arith, v.heap_pointer)) in
    let place : Accessible m₁ sp (length new) =
      omega (arith, long, g.covers, g.valid.stack_below, g.valid.hp_bound) in
    let (m₂, writes, s) = write-Accessible m₁ sp new g.valid place in
    let mid : Vm = record vm { registers = regs; memory = m₁ } in
    let moved =
      try_update_stack_pointer-ok (sp + n) vm m₁ (ground (arith, v.stack_order)) (ground arith)
        grows in
    let filled =
      subst
        (λ l. push_slot sp l new mid ≡ (
          ok tt,
          record mid {
            memory = m₂;
            registers = update regs Reg.pc (vm.registers Reg.pc + instruction_size);
          },
        ))
        long
        (push_slot-ok sp (vm.registers Reg.pc + instruction_size) new mid m₂ writes
          (ground arith)) in
    (
      record mid {
        memory = m₂;
        registers = update regs Reg.pc (vm.registers Reg.pc + instruction_size);
      },
      record {
        pushes =
            push-split segment bitmask vm
            ∙ then-ok (try_update_stack_pointer (saturating_add sp n))
                (push_rest segment bitmask sp) vm
                (ap (λ a. try_update_stack_pointer a vm) (saturates sp n (v.words Reg.hp) room)
                  ∙ moved)
                filled;
        same = λ r a b. ground arith;
        moved = ground arith;
        next = ground arith;
        valid = s.valid;
        covers = omega (arith, s.same_stack, g.keeps, v.stack_grown);
        holds = subst (λ l. read m₂ sp l ≡ ok new) long (Stores-read m₁ sp new m₂ place s);
      },
    )
