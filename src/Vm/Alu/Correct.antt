-- ===== src/Vm/Alu/Correct.antt =====
-- What the arithmetic handlers compute: fuel-vm/src/interpreter/alu.rs and alu/muldiv.rs.
use native.Mathlib.Nat.{div-le_self}
use fuel_vm.Reg
use fuel_vm.Prelude.{
  ℕ, ◌+◌, ◌*◌, ◌/◌, ◌%◌, ◌^◌, ◌≤◌, ◌<◌, ◌≡◌, ◌≢◌, ◌⊎◌, inl, inr, Bool, true, false, ltb, leb, ◌==◌,
  if◌then◌else◌, arith, tests, Bool-cases, word_max,
}
use fuel_vm.Outcome.{Result, ok, err, panic, PanicReason}
use fuel_vm.Vm.{
  Vm, Action, ◌>>◌, set_reg, is_wrapping, is_unsafe_math, instruction_size, write_reg_key, inc_pc,
}
use fuel_vm.Vm.Alu.{capture_overflow, alu_capture_overflow, error_result, alu_error, muldiv}

-- The handler has succeeded, stored its result, its overflow and its error, and moved on; all else
-- is as before.
pub record Finished (dest result overflow error : ℕ) (vm : Vm) (r : Result (Unit {0}) × Vm)
    : Type 0 where
  pub succeeded : r.0 ≡ ok tt
  pub result_stored : r.1.registers dest ≡ result
  pub overflow_stored : r.1.registers Reg.of ≡ overflow
  pub error_stored : r.1.registers Reg.err ≡ error
  pub next : r.1.registers Reg.pc ≡ vm.registers Reg.pc + instruction_size
  pub others :
      (i : ℕ) → i ≢ dest → i ≢ Reg.of → i ≢ Reg.err → i ≢ Reg.pc → r.1.registers i ≡ vm.registers i
  pub same_memory : r.1.memory ≡ vm.memory

-- The three ways out of a handler with the exact result `value`.
abbrev pub Wraps : ℕ → ℕ → Vm → Result (Unit {0}) × Vm → Type 0
Wraps ra value vm r =
    ((ra < Reg.writable) × (r ≡ (err (panic PanicReason.reserved_register_not_writable), vm)))
    ⊎ ((Reg.writable ≤ ra)
        × (word_max < value)
        × (is_wrapping (vm.registers Reg.flag) ≡ false)
        × (r ≡ (err (panic PanicReason.arithmetic_overflow), vm)))
    ⊎ ((Reg.writable ≤ ra)
        × ((value ≤ word_max) ⊎ (is_wrapping (vm.registers Reg.flag) ≡ true))
        × Finished ra (value % 2 ^ 64) (value / 2 ^ 64) 0 vm r)

finish : ℕ → ℕ → ℕ → ℕ → Action (Unit {0})
finish dest result overflow error = do
  set_reg Reg.of overflow
  set_reg Reg.err error
  set_reg dest result
  inc_pc

finish-Finished :
    (dest result overflow error : ℕ) (vm : Vm)
    → Reg.writable ≤ dest
    → vm.registers Reg.pc + instruction_size ≤ word_max
    → Finished dest result overflow error vm (finish dest result overflow error vm)
unfolding finish inc_pc
finish-Finished dest result overflow error vm h k = record {
  succeeded = ground arith;
  result_stored = ground arith;
  overflow_stored = ground arith;
  error_stored = ground arith;
  next = ground arith;
  others = λ i d o e p. ground arith;
  same_memory = ground arith;
}

-- `alu_capture_overflow` with an operation whose exact result is below 2^128: a reserved
-- destination and, unless the flag allows it to wrap, a result that is no word fail and change
-- nothing; otherwise the destination holds the result modulo 2^64, `$of` what is above, and `$err`
-- is zero. The next program counter is a word.
pub alu_capture_overflow_lem :
    (ra : ℕ) (f : ℕ → ℕ → ℕ × Bool) (b c : ℕ) (vm : Vm)
    → vm.registers Reg.pc + instruction_size ≤ word_max
    → Wraps ra (f b c).0 vm (alu_capture_overflow ra f b c vm)
unfolding alu_capture_overflow capture_overflow write_reg_key finish
alu_capture_overflow_lem ra f b c vm k = elim (Bool-cases (leb Reg.writable ra)) [
  | inr p ↦ inl (omega tests, rw p)
  | inl p ↦ elim (Bool-cases (ltb word_max (f b c).0)) [
    | inr q ↦ inr (
        inr (
          omega tests,
          inl (omega tests),
          rw (p, q)
              (finish-Finished ra ((f b c).0 % 2 ^ 64) ((f b c).0 / 2 ^ 64) 0 vm (omega tests) k),
        ))
    | inl q ↦ elim (Bool-cases (is_wrapping (vm.registers Reg.flag))) [
      | inr w ↦ inr (inl (omega tests, omega tests, w, rw (p, q, w)))
      | inl w ↦ inr (
          inr (
            omega tests,
            inr w,
            rw (p, q, w)
                (finish-Finished ra ((f b c).0 % 2 ^ 64) ((f b c).0 / 2 ^ 64) 0 vm (omega tests) k),
          ))
    ]
  ]
]

-- The sum and the product of two words are below 2^128, so that `ADD` and `MUL` are exact.
word_product : (a b : ℕ) → a ≤ word_max → b ≤ word_max → a * b < 2 ^ 128
word_product a b h k = grind arith

-- `alu_error`, the handler of the divisions: a reserved destination fails; an error of the
-- operation fails with `ArithmeticError` and changes nothing unless the flag allows it, and then
-- gives zero and sets `$err`; without an error the destination holds the result. The next program
-- counter is a word.
pub alu_error_lem :
    (ra : ℕ) (f : ℕ → ℕ → ℕ) (b c : ℕ) (err_bool : Bool) (vm : Vm)
    → vm.registers Reg.pc + instruction_size ≤ word_max
    → ((ra < Reg.writable)
        × (alu_error ra f b c err_bool vm
            ≡ (err (panic PanicReason.reserved_register_not_writable), vm)))
      ⊎ ((Reg.writable ≤ ra)
          × (err_bool ≡ true)
          × (is_unsafe_math (vm.registers Reg.flag) ≡ false)
          × (alu_error ra f b c err_bool vm ≡ (err (panic PanicReason.arithmetic_error), vm)))
      ⊎ ((Reg.writable ≤ ra)
          × (err_bool ≡ true)
          × (is_unsafe_math (vm.registers Reg.flag) ≡ true)
          × Finished ra 0 0 1 vm (alu_error ra f b c err_bool vm))
      ⊎ ((Reg.writable ≤ ra)
          × (err_bool ≡ false)
          × Finished ra (f b c) 0 0 vm (alu_error ra f b c err_bool vm))
unfolding alu_error error_result write_reg_key finish
alu_error_lem ra f b c err_bool vm k = elim (Bool-cases (leb Reg.writable ra)) [
  | inr p ↦ inl (omega tests, rw p)
  | inl p ↦ elim (Bool-cases err_bool) [
    | inr q ↦
        inr (
          inr (inr (omega tests, q, rw (p, q) (finish-Finished ra (f b c) 0 0 vm (omega tests) k))))
    | inl q ↦ elim (Bool-cases (is_unsafe_math (vm.registers Reg.flag))) [
      | inr w ↦ inr (inl (omega tests, q, w, rw (p, q, w)))
      | inl w ↦ inr (
          inr (inl (omega tests, q, w, rw (p, q, w) (finish-Finished ra 0 0 1 vm (omega tests) k))))
    ]
  ]
]

quotient-le : (n d : ℕ) → n / d ≤ n
quotient-le n d = div-le_self n d

-- The two results of `muldiv` are words that together make the floor of the product over the
-- divider, where a divider of zero stands for 2^64. The factors are words.
pub muldiv_lem :
    (lhs rhs divider : ℕ)
    → lhs ≤ word_max
    → rhs ≤ word_max
    → ((muldiv lhs rhs divider).0 + (muldiv lhs rhs divider).1 * 2 ^ 64
        ≡ (lhs * rhs) / (if divider == 0 then 2 ^ 64 else divider))
      × ((muldiv lhs rhs divider).0 ≤ word_max)
      × ((muldiv lhs rhs divider).1 ≤ word_max)
unfolding muldiv
muldiv_lem lhs rhs divider h k =
    ground (arith, word_product lhs rhs h k, quotient-le (lhs * rhs) divider)
