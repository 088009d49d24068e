-- ===== src/Vm/WideInt/Stored.antt =====
-- What a store of the handlers of fuel-vm/src/interpreter/alu/wideint.rs leaves.
use fuel_vm.Reg
use fuel_vm.Prelude.{
  ℕ, ◌+◌, ◌≤◌, ◌≡◌, ◌≢◌, refl, sym, ap, subst, ◌⊎◌, inl, inr, Bool, true, false, Option, none, some,
  arith, le→leb, word_max, to_be_bytes, length-to_be_bytes, Bool-cases,
}
use fuel_vm.Outcome.{Result, ok, err, panic, PanicReason}
use fuel_vm.Memory.{MemoryInstance, write_bytes}
use fuel_vm.Memory.Access.{Accessible, Overflows, Uninitialized}
use fuel_vm.Memory.Write.{Stores, owns, write_bytes_lem}
use fuel_vm.Vm.{
  Vm, Registers, Action, ◌>>◌, on_memory, update, inc_pc, instruction_size, ownership_registers,
  is_wrapping, is_unsafe_math,
}
use fuel_vm.Vm.{set_reg}
use fuel_vm.Vm.Binds.{bind_ok, bind_err}
use fuel_vm.Vm.Alu.{bool_word}
use fuel_vm.Vm.WideInt.{WideOps, store_wide, store_overflowing, result_or_error, store_quotient}
use fuel_vm.Vm.Valid.{IsValid}

module _ (ops : WideOps) where
  -- A number is stored at `dest`, and nothing else changes but the three registers.
  pub record StoredAt (dest value overflow error : ℕ) (vm : Vm) (r : Result (Unit {0}) × Vm)
      : Type 0 where
    pub succeeded : r.0 ≡ ok tt
    pub bytes : Stores vm.memory dest (to_be_bytes ops.size value) r.1.memory
    pub overflow_stored : r.1.registers Reg.of ≡ overflow
    pub error_stored : r.1.registers Reg.err ≡ error
    pub next : r.1.registers Reg.pc ≡ vm.registers Reg.pc + instruction_size
    pub others : (i : ℕ) → i ≢ Reg.of → i ≢ Reg.err → i ≢ Reg.pc → r.1.registers i ≡ vm.registers i

  -- The ways out of a store: the range is owned and the number is stored, or it cannot be accessed
  -- or is not owned, and the memory stays.
  abbrev pub Writes : (dest value overflow error : ℕ) → Vm → Result (Unit {0}) × Vm → Type 0
  Writes dest value overflow error vm r =
      (Accessible vm.memory dest ops.size
        × (owns (ownership_registers vm) dest ops.size ≡ true)
        × StoredAt dest value overflow error vm r)
      ⊎ (Accessible vm.memory dest ops.size
          × (owns (ownership_registers vm) dest ops.size ≡ false)
          × (r.0 ≡ err (panic PanicReason.memory_ownership))
          × (r.1.memory ≡ vm.memory))
      ⊎ (Overflows dest ops.size
          × (r.0 ≡ err (panic PanicReason.memory_overflow))
          × (r.1.memory ≡ vm.memory))
      ⊎ (Uninitialized vm.memory dest ops.size
          × (r.0 ≡ err (panic PanicReason.uninitalized_memory_access))
          × (r.1.memory ≡ vm.memory))

  stored_with : Result MemoryInstance → Action (Unit {0})
  stored_with r = on_memory (λ _. r) >> inc_pc

  -- The registers on the way to the store
  record Ready (overflow error : ℕ) (vm : Vm) (regs : Registers) : Type 0 where
    pub overflow_stored : regs Reg.of ≡ overflow
    pub error_stored : regs Reg.err ≡ error
    pub others : (i : ℕ) → i ≢ Reg.of → i ≢ Reg.err → regs i ≡ vm.registers i

  stored_with-ok :
      (dest value overflow error : ℕ) (vm : Vm) (regs : Registers) (m : MemoryInstance)
      → Ready overflow error vm regs
      → vm.registers Reg.pc + instruction_size ≤ word_max
      → Stores vm.memory dest (to_be_bytes ops.size value) m
      → StoredAt dest value overflow error vm (stored_with (ok m) (record vm { registers = regs }))
  unfolding stored_with inc_pc
  stored_with-ok dest value overflow error vm regs m h k s =
      let counter = h.others Reg.pc (omega arith) (omega arith) in
      rw (le→leb (regs Reg.pc + instruction_size) word_max (omega (arith, counter))) (record {
        succeeded = refl;
        bytes = s;
        overflow_stored = ground (arith, h.overflow_stored);
        error_stored = ground (arith, h.error_stored);
        next = ground (arith, counter);
        others = λ i a b c. ground (arith, h.others i a b);
      })

  store_wide-Writes :
      (dest value overflow error : ℕ) (vm : Vm) (regs : Registers)
      → IsValid vm
      → Ready overflow error vm regs
      → vm.registers Reg.pc + instruction_size ≤ word_max
      → Writes dest value overflow error vm
          (store_wide ops (ownership_registers vm) dest value (record vm { registers = regs }))
  unfolding store_wide stored_with
  store_wide-Writes dest value overflow error vm regs v h k =
      let bytes = to_be_bytes ops.size value in
      let start : Vm = record vm { registers = regs } in
      let long = length-to_be_bytes ops.size value in
      let owner = ownership_registers vm in
      let run = λ (q : Result MemoryInstance) (e : write_bytes vm.memory owner dest bytes ≡ q).
        sym (ap (λ (r : Result MemoryInstance). stored_with r start) e) in
      elim (write_bytes_lem vm.memory owner dest bytes v.memory) [
        | inl (a, w, (m, e, s)) ↦ inl (
          subst (λ n. Accessible vm.memory dest n) long a,
          subst (λ n. owns owner dest n ≡ true) long w,
          subst (λ r. StoredAt dest value overflow error vm r) (run (ok m) e)
              (stored_with-ok dest value overflow error vm regs m h k s),
        )
        | inr (inl (a, w, e)) ↦ inr (
            inl (
              subst (λ n. Accessible vm.memory dest n) long a,
              subst (λ n. owns owner dest n ≡ false) long w,
              sym (ap (λ r. r.0) (run (err (panic PanicReason.memory_ownership)) e)),
              sym (ap (λ r. r.1.memory) (run (err (panic PanicReason.memory_ownership)) e)),
            ))
        | inr (inr (inl (a, e))) ↦ inr (
            inr (
              inl (
                subst (λ n. Overflows dest n) long a,
                sym (ap (λ r. r.0) (run (err (panic PanicReason.memory_overflow)) e)),
                sym (ap (λ r. r.1.memory) (run (err (panic PanicReason.memory_overflow)) e)),
              )))
        | inr (inr (inr (a, e))) ↦ inr (
            inr (
              inr (
                subst (λ n. Uninitialized vm.memory dest n) long a,
                sym (ap (λ r. r.0) (run (err (panic PanicReason.uninitalized_memory_access)) e)),
                sym (
                    ap (λ r. r.1.memory)
                      (run (err (panic PanicReason.uninitalized_memory_access)) e)),
              )))
      ]

  quotient-Ready :
      (error : ℕ) (vm : Vm) → Ready 0 error vm (update (update vm.registers Reg.err error) Reg.of 0)
  quotient-Ready error vm = record {
    overflow_stored = ground arith;
    error_stored = ground arith;
    others = λ i a b. ground arith;
  }

  overflow-Ready :
      (overflow : ℕ) (vm : Vm)
      → Ready overflow 0 vm (update (update vm.registers Reg.of overflow) Reg.err 0)
  overflow-Ready overflow vm = record {
    overflow_stored = ground arith;
    error_stored = ground arith;
    others = λ i a b. ground arith;
  }

  -- The ways out of a division or a remainder: without a result it fails or stores zero and sets
  -- `$err`, as the flag says.
  abbrev pub Divides : ℕ → Option ℕ → Vm → Result (Unit {0}) × Vm → Type 0
  Divides dest none vm r =
      ((is_unsafe_math (vm.registers Reg.flag) ≡ false)
        × (r ≡ (err (panic PanicReason.arithmetic_error), vm)))
      ⊎ ((is_unsafe_math (vm.registers Reg.flag) ≡ true) × Writes dest 0 0 1 vm r)
  Divides dest (some n) vm r = Writes dest n 0 0 vm r

  pub store_quotient-Divides :
      (dest : ℕ) (quotient : Option ℕ) (vm : Vm)
      → IsValid vm
      → vm.registers Reg.pc + instruction_size ≤ word_max
      → Divides dest quotient vm (store_quotient ops (ownership_registers vm) dest quotient vm)
  unfolding store_quotient result_or_error
  store_quotient-Divides dest (some n) vm v k =
      store_wide-Writes dest n 0 0 vm (update (update vm.registers Reg.err 0) Reg.of 0) v
        (quotient-Ready 0 vm) k
  store_quotient-Divides dest none vm v k =
      elim (Bool-cases (is_unsafe_math (vm.registers Reg.flag))) [
        | inl p ↦
            let regs : Registers = update (update vm.registers Reg.err 1) Reg.of 0 in
            let run : store_quotient ops (ownership_registers vm) dest none vm
                ≡ store_wide ops (ownership_registers vm) dest 0 (record vm { registers = regs }) =
              bind_ok (result_or_error none)
                (λ result. set_reg Reg.of 0 >> store_wide ops (ownership_registers vm) dest result)
                vm (rw (p) refl) refl in
            inr (
              p,
              subst (λ r. Writes dest 0 0 1 vm r) (sym run)
                  (store_wide-Writes dest 0 0 1 vm regs v (quotient-Ready 1 vm) k),
            )
        | inr p ↦ inl (
          p,
          bind_err (result_or_error none)
              (λ result. set_reg Reg.of 0 >> store_wide ops (ownership_registers vm) dest result) vm
              (rw (p) refl),
        )
      ]

  -- The ways out of an operation with a result and an overflow
  abbrev pub Overflowing : ℕ → ℕ → Bool → Vm → Result (Unit {0}) × Vm → Type 0
  Overflowing dest wrapped overflow vm r =
      ((overflow ≡ true)
        × (is_wrapping (vm.registers Reg.flag) ≡ false)
        × (r ≡ (err (panic PanicReason.arithmetic_overflow), vm)))
      ⊎ (((overflow ≡ false) ⊎ (is_wrapping (vm.registers Reg.flag) ≡ true))
          × Writes dest wrapped (bool_word overflow) 0 vm r)

  pub store_overflowing-Overflowing :
      (dest wrapped : ℕ) (overflow : Bool) (vm : Vm)
      → IsValid vm
      → vm.registers Reg.pc + instruction_size ≤ word_max
      → Overflowing dest wrapped overflow vm
          (store_overflowing ops (ownership_registers vm) dest wrapped overflow vm)
  unfolding store_overflowing
  store_overflowing-Overflowing dest wrapped false vm v k = inr (
    inl refl,
    store_wide-Writes dest wrapped 0 0 vm (update (update vm.registers Reg.of 0) Reg.err 0) v
        (overflow-Ready 0 vm) k,
  )
  store_overflowing-Overflowing dest wrapped true vm v k =
      elim (Bool-cases (is_wrapping (vm.registers Reg.flag))) [
        | inl p ↦ inr (
          inr p,
          rw (p) (
              store_wide-Writes dest wrapped 1 0 vm
                (update (update vm.registers Reg.of 1) Reg.err 0) v (overflow-Ready 1 vm) k),
        )
        | inr p ↦ inl (refl, p, rw (p) refl)
      ]
