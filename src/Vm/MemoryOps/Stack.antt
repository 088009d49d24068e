-- ===== src/Vm/MemoryOps/Stack.antt =====
-- Registers that were pushed are the registers that a pop restores.
use fuel_vm.Reg
use fuel_vm.Prelude.{
  length, ltb, false, true, ◌==◌, ◌<◌, subst, sym, ℕ, zero, suc, ◌+◌, ◌*◌, ◌≤◌, ◌≡◌, ◌≢◌, refl, ap,
  ◌∙◌, inl, inr, some, List, ◌++◌, arith, Bool-cases, word_max, checked_add, checked_sub,
  to_be_bytes, from_be_bytes, from_be_bytes-to_be_bytes, take, drop,
}
use fuel_vm.Outcome.{Result, ok, crash}
use fuel_vm.Memory.{MemoryInstance, read}
use fuel_vm.Memory.Valid
use fuel_vm.Vm.{Vm, Action, Registers, raise_if, ◌>>=◌, ◌>>◌, update, inc_pc, instruction_size}
use fuel_vm.Vm.MemoryOps.{
  try_update_stack_pointer, ProgramRegistersSegment, segment_start, segment_len, bit_set,
  count_ones, selected_bytes, push_selected_registers, restore_selected, pop_selected_registers,
}
use fuel_vm.Vm.MemoryOps.LoadStore.{then-ok}
use fuel_vm.Vm.Valid.{IsValid}
use fuel_vm.Vm.Valid.Push.{length-selected_bytes}
use fuel_vm.Vm.MemoryOps.Push.{push-Pushed, try_update_stack_pointer-ok, grow_stack-again}

take_word : (w : ℕ) (bs : List ℕ) → take 8 (to_be_bytes 8 w ++ bs) ≡ to_be_bytes 8 w
unfolding to_be_bytes take
take_word w bs = refl

drop_word : (w : ℕ) (bs : List ℕ) → drop 8 (to_be_bytes 8 w ++ bs) ≡ bs
unfolding to_be_bytes drop
drop_word w bs = refl

read_word : (w : ℕ) → w ≤ word_max → from_be_bytes (to_be_bytes 8 w) ≡ w
read_word w h = from_be_bytes-to_be_bytes 8 w ∙ omega arith

-- A register that the mask does not select
abbrev pub Unselected : ℕ → ℕ → ℕ → ℕ → ℕ → Type 0
Unselected n i start bitmask r =
    (j : ℕ) → i ≤ j → j < i + n → bit_set bitmask j ≡ true → r ≢ start + j

-- A register that is not selected stays.
restore-Unselected :
    (n i start bitmask : ℕ) (bytes : List ℕ) (now : Registers) (r : ℕ)
    → Unselected n i start bitmask r
    → restore_selected n i start bitmask bytes now r ≡ now r
unfolding restore_selected
restore-Unselected zero i start bitmask bytes now r h = refl
restore-Unselected (suc n) i start bitmask bytes now r h =
    let later : Unselected n (suc i) start bitmask r = λ j l k. h j (omega arith) (omega arith) in
    elim (Bool-cases (bit_set bitmask i)) [
      | inr p ↦ rw p (restore-Unselected n (suc i) start bitmask bytes now r later)
      | inl p ↦ rw p (
          restore-Unselected n (suc i) start bitmask (drop 8 bytes)
            (update now (start + i) (from_be_bytes (take 8 bytes))) r later
          ∙ ground (arith, h i (omega arith) (omega arith) p))
    ]

-- A selected register is what it was when the bytes were selected.
restore-selected :
    (n i start bitmask : ℕ) (regs now : Registers)
    → ((r : ℕ) → regs r ≤ word_max)
    → (j : ℕ) → i ≤ j
    → j < i + n
    → bit_set bitmask j ≡ true
    → restore_selected n i start bitmask (selected_bytes n i start bitmask regs) now (start + j)
      ≡ regs (start + j)
unfolding restore_selected selected_bytes
restore-selected zero i start bitmask regs now w j l h e = absurd (omega arith)
restore-selected (suc n) i start bitmask regs now w j l h e =
    let rest = selected_bytes n (suc i) start bitmask regs in
    let word = to_be_bytes 8 (regs (start + i)) in
    elim (Bool-cases (bit_set bitmask i)) [
      | inr p ↦
          let later : suc i ≤ j = elim (Bool-cases (i == j)) [
            | inl q ↦ absurd (ground (arith, p, e))
            | inr q ↦ ground arith
          ] in
          rw p (restore-selected n (suc i) start bitmask regs now w j later (omega arith) e)
      | inl p ↦ rw p (
          rw (take_word, drop_word)
            (elim (Bool-cases (i == j)) [
              | inl q ↦
                  let same : i ≡ j = ground arith in
                  restore-Unselected n (suc i) start bitmask rest
                    (update now (start + i) (from_be_bytes word)) (start + j)
                    (λ k a b c d. omega arith)
                  ∙ ground (arith, same, read_word (regs (start + i)) (w (start + i)))
              | inr q ↦
                  restore-selected n (suc i) start bitmask regs
                    (update now (start + i) (from_be_bytes word)) w j (ground arith) (omega arith) e
            ]))
    ]

restore_with : ProgramRegistersSegment → ℕ → Result (List ℕ) → Action (Unit {0})
restore_with segment bitmask r = do
  bytes ← λ vm. (r, vm)
  raise_if (ltb (length bytes) (count_ones segment_len 0 bitmask * 8)) crash
  (λ vm. (
    ok tt,
    record vm {
      registers = restore_selected segment_len 0 (segment_start segment) bitmask bytes vm.registers;
    },
  ))
  inc_pc

pop_rest : ProgramRegistersSegment → ℕ → ℕ → Action (Unit {0})
pop_rest segment bitmask new_sp vm =
    restore_with segment bitmask (read vm.memory new_sp (count_ones segment_len 0 bitmask * 8)) vm

pop-split :
    (segment : ProgramRegistersSegment) (bitmask new_sp : ℕ) (vm : Vm)
    → checked_sub (vm.registers Reg.sp) (count_ones segment_len 0 bitmask * 8) ≡ some new_sp
    → pop_selected_registers segment bitmask vm
      ≡ (try_update_stack_pointer new_sp >> pop_rest segment bitmask new_sp) vm
unfolding pop_selected_registers pop_rest restore_with
pop-split segment bitmask new_sp vm e = rw e refl

segment-reserved : (segment : ProgramRegistersSegment) → Reg.writable ≤ segment_start segment
segment-reserved ProgramRegistersSegment.low = omega arith
segment-reserved ProgramRegistersSegment.high = omega arith

same_length : (n : ℕ) → ltb n n ≡ false
same_length n = ground arith

restore_with-ok :
    (segment : ProgramRegistersSegment) (bitmask k : ℕ) (bytes : List ℕ) (vm : Vm)
    → length bytes ≡ count_ones segment_len 0 bitmask * 8
    → checked_add
        (restore_selected segment_len 0 (segment_start segment) bitmask bytes vm.registers Reg.pc)
        instruction_size
      ≡ some k
    → restore_with segment bitmask (ok bytes) vm ≡ (
      ok tt,
      record vm {
        registers =
            update
              (restore_selected segment_len 0 (segment_start segment) bitmask bytes vm.registers)
              Reg.pc
              k;
      },
    )
unfolding restore_with inc_pc
restore_with-ok segment bitmask k bytes vm h e =
    rw (h, same_length (count_ones segment_len 0 bitmask * 8), e) refl

-- From a valid state with room for the selected registers below the heap, a push succeeds; then the
-- program may do to its registers what it will, with the memory, `$sp`, `$ssp` and `$hp` as the push
-- has left them, and a pop with the same mask succeeds: every selected register is what it was at the
-- push, `$sp` is back, all other registers and the memory stay, and the program counter, which stays a
-- word, moves on.
pub push-pop :
    (segment : ProgramRegistersSegment) (bitmask : ℕ) (vm t : Vm)
    → IsValid vm
    → vm.registers Reg.sp + count_ones segment_len 0 bitmask * 8 ≤ vm.registers Reg.hp
    → vm.registers Reg.pc + instruction_size ≤ word_max
    → t.memory ≡ (push_selected_registers segment bitmask vm).1.memory
    → t.registers Reg.sp ≡ (push_selected_registers segment bitmask vm).1.registers Reg.sp
    → t.registers Reg.ssp ≡ vm.registers Reg.ssp
    → t.registers Reg.hp ≡ vm.registers Reg.hp
    → t.registers Reg.pc + instruction_size ≤ word_max
    → ((push_selected_registers segment bitmask vm).0 ≡ ok tt)
      × ((vm' : Vm) × (pop_selected_registers segment bitmask t ≡ (ok tt, vm'))
          × ((j : ℕ)
              → j < segment_len
              → bit_set bitmask j ≡ true
              → vm'.registers (segment_start segment + j)
                ≡ vm.registers (segment_start segment + j))
          × ((r : ℕ)
              → r ≢ Reg.pc
              → r ≢ Reg.sp
              → Unselected segment_len 0 (segment_start segment) bitmask r
              → vm'.registers r ≡ t.registers r)
          × (vm'.registers Reg.sp ≡ vm.registers Reg.sp)
          × (vm'.registers Reg.pc ≡ t.registers Reg.pc + instruction_size)
          × (vm'.memory ≡ t.memory))
unfolding pop_rest
push-pop segment bitmask vm t v room k mem top ssp hp l =
    let n : ℕ = count_ones segment_len 0 bitmask * 8 in
    let sp : ℕ = vm.registers Reg.sp in
    let regs : Registers = update vm.registers Reg.sp (sp + n) in
    let new = selected_bytes segment_len 0 (segment_start segment) bitmask regs in
    let (mid, p) = push-Pushed segment bitmask vm v room k in
    let same : t.memory ≡ mid.memory =
      mem ∙ ap (λ (r : Result (Unit {0}) × Vm). r.1.memory) p.pushes in
    let at : t.registers Reg.sp ≡ sp + n =
      top ∙ (ap (λ (r : Result (Unit {0}) × Vm). r.1.registers Reg.sp) p.pushes ∙ p.moved) in
    let now : Registers = update t.registers Reg.sp sp in
    let back =
      try_update_stack_pointer-ok sp t t.memory (ground (arith, ssp, v.stack_order))
        (ground (arith, hp, room))
        (grow_stack-again t.memory sp
          (subst (λ (m : MemoryInstance). Valid.IsValid m) (sym same) p.valid)
          (subst (λ (m : MemoryInstance). sp ≤ length m.stack) (sym same) p.covers)) in
    let holds : read t.memory sp n ≡ ok new =
      subst (λ (m : MemoryInstance). read m sp n ≡ ok new) (sym same) p.holds in
    let reserved = segment-reserved segment in
    let kept = λ (r : ℕ) (h : Unselected segment_len 0 (segment_start segment) bitmask r).
      restore-Unselected segment_len 0 (segment_start segment) bitmask new now r h in
    let counter = kept Reg.pc (λ j a b c d. omega (arith, reserved)) in
    let pointer = kept Reg.sp (λ j a b c d. omega (arith, reserved)) in
    let next : ℕ = t.registers Reg.pc + instruction_size in
    let restored =
      ap (λ r. restore_with segment bitmask r (record t { registers = now })) holds
      ∙ restore_with-ok segment bitmask next new (record t { registers = now })
          (length-selected_bytes segment_len 0 (segment_start segment) bitmask regs)
          (ground (arith, counter)) in
    (
      ap (λ (r : Result (Unit {0}) × Vm). r.0) p.pushes,
      (
        record t {
          registers =
              update (restore_selected segment_len 0 (segment_start segment) bitmask new now) Reg.pc
                next;
        },
        pop-split segment bitmask sp t (ground (arith, at))
            ∙ then-ok (try_update_stack_pointer sp) (pop_rest segment bitmask sp) t back restored,
        λ j h e. ground (
          arith,
          reserved,
          restore-selected segment_len 0 (segment_start segment) bitmask regs now
              (λ r. ground (arith, v.words r, v.words Reg.hp, room)) j (omega arith) (omega arith)
              e,
        ),
        λ r c d h. ground (arith, kept r h),
        ground (arith, pointer),
        ground arith,
        refl,
      ),
    )
