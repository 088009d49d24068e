-- ===== src/Vm/Valid/Push.antt =====
-- Pushing and popping registers keeps the invariant: fuel-vm/src/interpreter/memory.rs.
use fuel_vm.Reg
use fuel_vm.Prelude.{
  ltb, ℕ, zero, suc, ◌+◌, ◌*◌, ◌<◌, ◌≡◌, refl, subst, ◌∙◌, Bool, true, false, List, length, inl,
  inr, if◌then◌else◌, arith, Bool-cases, saturating_add, checked_sub, take, drop, to_be_bytes,
  from_be_bytes, AllOctets, AllOctets-append, AllOctets-take, AllOctets-drop, AllOctets-to_be_bytes,
  length-append, length-take, length-drop, length-to_be_bytes,
}
use fuel_vm.Outcome.{ok, crash, PanicReason}
use fuel_vm.Memory.{write_noownerchecks, write_bytes_noownerchecks, copy_from_slice}
use fuel_vm.Vm.{Vm, Action, Registers, raise_if, update, ◌>>=◌, ◌>>◌, on_memory, inc_pc}
use fuel_vm.Vm.MemoryOps.{
  ProgramRegistersSegment, segment_start, segment_len, bit_set, count_ones, selected_bytes,
  push_selected_registers, restore_selected, pop_selected_registers,
}
use fuel_vm.Vm.Valid.{IsValid, Keeps, Runs-bind, Runs-then, IsWord, reg-Runs, from_option-Runs}
use fuel_vm.Vm.Valid.Handlers.{inc_pc-Keeps}
use fuel_vm.Vm.Valid.Stack.{on_memory-Keeps, Runs-equal, try_update_stack_pointer-Keeps}
use fuel_vm.Vm.Valid.Access.{
  IsRead, fill_slot, read-IsWord, read-Runs, gets-Runs, write_bytes_noownerchecks-MemoryPost,
}

selected_bytes-AllOctets :
    (n i start bitmask : ℕ) (regs : Registers) → AllOctets (selected_bytes n i start bitmask regs)
unfolding selected_bytes
selected_bytes-AllOctets zero i start bitmask regs = tt
selected_bytes-AllOctets (suc n) i start bitmask regs =
    let rest = selected_bytes-AllOctets n (suc i) start bitmask regs in
    elim (Bool-cases (bit_set bitmask i)) [
      | inl p ↦ rw p (
          AllOctets-append (to_be_bytes 8 (regs (start + i)))
            (selected_bytes n (suc i) start bitmask regs)
            (AllOctets-to_be_bytes 8 (regs (start + i))) rest)
      | inr p ↦ rw p rest
    ]

pub length-selected_bytes :
    (n i start bitmask : ℕ) (regs : Registers)
    → length (selected_bytes n i start bitmask regs) ≡ count_ones n i bitmask * 8
unfolding selected_bytes count_ones
length-selected_bytes zero i start bitmask regs = refl
length-selected_bytes (suc n) i start bitmask regs =
    let rest = length-selected_bytes n (suc i) start bitmask regs in
    elim (Bool-cases (bit_set bitmask i)) [
      | inl p ↦ rw p (rw (length-append, length-to_be_bytes) (omega (arith, rest)))
      | inr p ↦ rw p (omega (arith, rest))
    ]

unfoldable pub push_slot : ℕ → ℕ → List ℕ → Action (Unit {0})
push_slot a n new = do
  slot ← λ vm. (write_noownerchecks vm.memory a n, vm)
  on_memory (λ m. copy_from_slice m slot new)
  inc_pc

pub push_slot-writes :
    (a : ℕ) (new : List ℕ) (vm : Vm)
    → (on_memory (λ m. write_bytes_noownerchecks m a new) >> inc_pc) vm
      ≡ push_slot a (length new) new vm
unfolding push_slot write_bytes_noownerchecks
push_slot-writes a new vm = fill_slot (write_noownerchecks vm.memory a (length new)) new vm

push_slot-Keeps :
    (a n : ℕ) (new : List ℕ) → length new ≡ n → AllOctets new → Keeps (push_slot a n new)
push_slot-Keeps a n new e h =
    subst (λ n. Keeps (push_slot a n new)) e
      (Runs-equal (push_slot a (length new) new)
        (Runs-then
          (on_memory-Keeps (λ m. write_bytes_noownerchecks m a new)
            (λ m. write_bytes_noownerchecks-MemoryPost a new m h))
          inc_pc-Keeps)
        (λ vm _. push_slot-writes a new vm))

pub push_selected_registers-Keeps :
    (segment : ProgramRegistersSegment) (bitmask : ℕ)
    → Keeps (push_selected_registers segment bitmask)
unfolding push_selected_registers push_slot
push_selected_registers-Keeps segment bitmask =
    let n : ℕ = count_ones segment_len 0 bitmask * 8 in
    Runs-bind (reg-Runs Reg.sp) λ at _.
      Runs-then (try_update_stack_pointer-Keeps (saturating_add at n)) (
        Runs-bind (gets-Runs (λ _. Unit) (λ vm. vm.registers) (λ vm v. tt)) λ regs _.
          push_slot-Keeps at n (selected_bytes segment_len 0 (segment_start segment) bitmask regs)
            (length-selected_bytes segment_len 0 (segment_start segment) bitmask regs)
            (selected_bytes-AllOctets segment_len 0 (segment_start segment) bitmask regs))

step-IsRead :
    (b : Bool) (n : ℕ) (bytes : List ℕ)
    → IsRead (((if b then 1 else 0) + n) * 8) bytes
    → IsRead (n * 8) (if b then drop 8 bytes else bytes)
step-IsRead true n bytes h = (rw length-drop (omega (arith, h.0)), AllOctets-drop 8 bytes h.1)
step-IsRead false n bytes h = (omega (arith, h.0), h.1)

step-words :
    (b : Bool) (n k : ℕ) (bytes : List ℕ) (regs : Registers)
    → IsRead (((if b then 1 else 0) + n) * 8) bytes
    → ((r : ℕ) → IsWord (regs r))
    → (r : ℕ) → IsWord ((if b then update regs k (from_be_bytes (take 8 bytes)) else regs) r)
step-words true n k bytes regs h w r =
    let word =
      read-IsWord 8 (take 8 bytes) (omega arith)
        (rw length-take (omega (arith, h.0)), AllOctets-take 8 bytes h.1) in
    ground (arith, word, w r)
step-words false n k bytes regs h w r = w r

-- The restored registers are words.
restore_selected-words :
    (n i start bitmask : ℕ) (bytes : List ℕ) (regs : Registers)
    → IsRead (count_ones n i bitmask * 8) bytes
    → ((r : ℕ) → IsWord (regs r))
    → (r : ℕ) → IsWord (restore_selected n i start bitmask bytes regs r)
unfolding restore_selected count_ones
restore_selected-words zero i start bitmask bytes regs h w r = w r
restore_selected-words (suc n) i start bitmask bytes regs h w r =
    restore_selected-words n (suc i) start bitmask
      (if bit_set bitmask i then drop 8 bytes else bytes)
      (if bit_set bitmask i then update regs (start + i) (from_be_bytes (take 8 bytes)) else regs)
      (step-IsRead (bit_set bitmask i) (count_ones n (suc i) bitmask) bytes h)
      (step-words (bit_set bitmask i) (count_ones n (suc i) bitmask) (start + i) bytes regs h w) r

pub restore_selected-below :
    (n i start bitmask : ℕ) (bytes : List ℕ) (regs : Registers) (r : ℕ)
    → r < start + i
    → restore_selected n i start bitmask bytes regs r ≡ regs r
unfolding restore_selected
restore_selected-below zero i start bitmask bytes regs r h = refl
restore_selected-below (suc n) i start bitmask bytes regs r h =
    restore_selected-below n (suc i) start bitmask
      (if bit_set bitmask i then drop 8 bytes else bytes)
      (if bit_set bitmask i then update regs (start + i) (from_be_bytes (take 8 bytes)) else regs) r
      (omega arith)
    ∙ ground arith

-- The registers below the segment stay as they are.
restored : ProgramRegistersSegment → ℕ → List ℕ → Registers → Registers
restored segment bitmask = restore_selected segment_len 0 (segment_start segment) bitmask

restored-reserved :
    (segment : ProgramRegistersSegment) (bitmask : ℕ) (bytes : List ℕ) (regs : Registers) (r : ℕ)
    → r < Reg.writable
    → restored segment bitmask bytes regs r ≡ regs r
unfolding restored
restored-reserved ProgramRegistersSegment.low bitmask bytes regs r h =
    restore_selected-below segment_len 0 16 bitmask bytes regs r (omega arith)
restored-reserved ProgramRegistersSegment.high bitmask bytes regs r h =
    restore_selected-below segment_len 0 40 bitmask bytes regs r (omega arith)

restored-IsValid :
    (segment : ProgramRegistersSegment) (bitmask : ℕ) (bytes : List ℕ) (vm : Vm)
    → IsRead (count_ones segment_len 0 bitmask * 8) bytes
    → IsValid vm
    → IsValid (record vm { registers = restored segment bitmask bytes vm.registers })
unfolding restored
restored-IsValid segment bitmask bytes vm h v =
    let same = restored-reserved segment bitmask bytes vm.registers in
    record {
      words =
          restore_selected-words segment_len 0 (segment_start segment) bitmask bytes vm.registers h
            v.words;
      zero_reg = same Reg.zero (omega arith) ∙ v.zero_reg;
      one_reg = same Reg.one (omega arith) ∙ v.one_reg;
      memory = v.memory;
      octets = v.octets;
      heap_pointer = same Reg.hp (omega arith) ∙ v.heap_pointer;
      stack_grown = omega (arith, same Reg.sp (omega arith), v.stack_grown);
      stack_order =
          omega (arith, same Reg.sp (omega arith), same Reg.ssp (omega arith), v.stack_order);
      gas_order =
          omega (arith, same Reg.cgas (omega arith), same Reg.ggas (omega arith), v.gas_order);
    }

restore : ProgramRegistersSegment → ℕ → List ℕ → Action (Unit {0})
restore segment bitmask bytes vm =
    (ok tt, record vm { registers = restored segment bitmask bytes vm.registers })

restore-Keeps :
    (segment : ProgramRegistersSegment) (bitmask : ℕ) (bytes : List ℕ)
    → IsRead (count_ones segment_len 0 bitmask * 8) bytes
    → Keeps (restore segment bitmask bytes)
unfolding restore
restore-Keeps segment bitmask bytes h = record {
  keeps = λ vm v. restored-IsValid segment bitmask bytes vm h v;
  post = λ vm v. tt;
}

-- No word is missing.
complete-Keeps :
    (bytes : List ℕ) (n : ℕ) → length bytes ≡ n → Keeps (raise_if (ltb (length bytes) n) crash)
complete-Keeps bytes n h = record { keeps = λ vm v. v; post = λ vm v. ground (arith, h) }

pub pop_selected_registers-Keeps :
    (segment : ProgramRegistersSegment) (bitmask : ℕ)
    → Keeps (pop_selected_registers segment bitmask)
unfolding pop_selected_registers restore restored
pop_selected_registers-Keeps segment bitmask =
    let n : ℕ = count_ones segment_len 0 bitmask * 8 in
    Runs-bind (reg-Runs Reg.sp) λ sp _.
      Runs-bind (from_option-Runs (checked_sub sp n) PanicReason.memory_overflow) λ new_sp _.
        Runs-then (try_update_stack_pointer-Keeps new_sp) (
          Runs-bind (read-Runs new_sp n) λ bytes h.
            Runs-then (complete-Keeps bytes n h.0)
              (Runs-then (restore-Keeps segment bitmask bytes h) inc_pc-Keeps))
