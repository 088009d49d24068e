-- ===== src/Vm/Valid/Handlers.antt =====
-- The handlers of fuel-vm/src/interpreter (gas.rs, internal.rs, alu.rs, alu/muldiv.rs and the jumps
-- of flow.rs) keep the invariant.
use native.Mathlib.Nat.{div-le_self}
use fuel_vm.Reg
use fuel_vm.Prelude.{
  ℕ, ◌*◌, ◌/◌, ◌%◌, ◌^◌, ◌≤◌, ◌<◌, ◌≡◌, refl, sym, ap, subst, ◌∙◌, Bool, false, ◌&&◌, not, ltb, leb,
  ◌==◌, if◌then◌else◌, arith, tests, Bool-cases, inl, inr, word_max, saturating_add, saturating_mul,
  checked_add,
}
use fuel_vm.Outcome.{Result, ok, PanicReason}
use fuel_vm.Memory.{vm_max_ram}
use fuel_vm.Memory.Valid.{byte}
use fuel_vm.Vm.{
  Vm, ◌>>◌, set_reg, write_reg_key, inc_pc, instruction_size, set_user_reg_or_discard, set_flag,
  is_wrapping, is_unsafe_math, from_result,
}
use fuel_vm.Vm.Gas.{
  DependentCost, light_operation, heavy_operation, resolve, resolve_without_base, gas_charge,
  dependent_gas_charge,
}
use fuel_vm.Vm.Alu.{
  alu_capture_overflow, alu_boolean_overflow, alu_error, alu_set, alu_clear, muldiv, alu_muldiv,
  bool_word,
}
use fuel_vm.Vm.Jump.{JumpArgs, target_addr, jump, take_jump}
use fuel_vm.Vm.Valid.{
  Runs, Keeps, Runs-bind, Runs-then, IsWord, reg-Runs, pure-Runs, raise-Runs, raise_if-Runs,
  from_option-Runs, if-Runs, Free, set_reg-Keeps,
}

pub write_reg_key-Runs : (k : ℕ) → Runs (λ r. Reg.writable ≤ r) (write_reg_key k)
unfolding write_reg_key
write_reg_key-Runs k = elim (Bool-cases (leb Reg.writable k)) [
  | inl p ↦ rw p (pure-Runs (omega tests))
  | inr p ↦ rw p (raise-Runs PanicReason.reserved_register_not_writable)
]

-- A program's register is free.
pub writable-Free : {r : ℕ} → Reg.writable ≤ r → Free r
writable-Free h = omega arith

pub inc_pc-Keeps : Keeps inc_pc
unfolding inc_pc
inc_pc-Keeps = Runs-bind (reg-Runs Reg.pc) λ pc h.
    Runs-bind (from_option-Runs (checked_add pc instruction_size) PanicReason.memory_overflow)
      λ next e. set_reg-Keeps Reg.pc next (omega arith) (ground arith)

pub set_user_reg_or_discard-Keeps : (r w : ℕ) → IsWord w → Keeps (set_user_reg_or_discard r w)
unfolding set_user_reg_or_discard
set_user_reg_or_discard-Keeps r w h =
    if-Runs (r == Reg.zero) (pure-Runs tt) (elim (Bool-cases (ltb r Reg.writable)) [
      | inl p ↦ rw p (raise-Runs PanicReason.reserved_register_not_writable)
      | inr p ↦ rw p (set_reg-Keeps r w (omega tests) h)
    ])

pub set_flag-Keeps : (a : ℕ) → IsWord a → Keeps (set_flag a)
unfolding set_flag
set_flag-Keeps a h =
    Runs-bind (raise_if-Runs (ltb 3 a) PanicReason.invalid_flags)
      λ _ _. Runs-then (set_reg-Keeps Reg.flag a (omega arith) h) inc_pc-Keeps

-- `$of` and `$err` are set, then the result, and the program counter moves on.
finish-Keeps :
    (overflow error dest result : ℕ)
    → IsWord overflow
    → IsWord error
    → Reg.writable ≤ dest
    → IsWord result
    → Keeps (do set_reg Reg.of overflow; set_reg Reg.err error; set_reg dest result; inc_pc)
finish-Keeps overflow error dest result h k d r =
    Runs-then (set_reg-Keeps Reg.of overflow (omega arith) h) (
      Runs-then (set_reg-Keeps Reg.err error (omega arith) k)
        (Runs-then (set_reg-Keeps dest result (writable-Free d) r) inc_pc-Keeps))

pub bool_word-IsWord : (b : Bool) → IsWord (bool_word b)
bool_word-IsWord b = ground arith

pub alu_capture_overflow-Keeps :
    (ra : ℕ) (f : ℕ → ℕ → ℕ × Bool) (b c : ℕ)
    → (f b c).0 < 2 ^ 128
    → Keeps (alu_capture_overflow ra f b c)
unfolding alu_capture_overflow
alu_capture_overflow-Keeps ra f b c h = Runs-bind (write_reg_key-Runs ra) λ dest d.
    Runs-bind (reg-Runs Reg.flag) λ flag _.
      Runs-bind
        (raise_if-Runs (ltb word_max (f b c).0 && not (is_wrapping flag))
          PanicReason.arithmetic_overflow)
        λ _ _.
          finish-Keeps ((f b c).0 / 2 ^ 64) 0 dest ((f b c).0 % 2 ^ 64) (omega arith) (omega arith)
            d (omega arith)

pub alu_boolean_overflow-Keeps :
    (ra : ℕ) (f : ℕ → ℕ → ℕ × Bool) (b c : ℕ)
    → IsWord (f b c).0
    → Keeps (alu_boolean_overflow ra f b c)
unfolding alu_boolean_overflow
alu_boolean_overflow-Keeps ra f b c h = Runs-bind (write_reg_key-Runs ra) λ dest d.
    Runs-bind (reg-Runs Reg.flag) λ flag _.
      Runs-bind
        (raise_if-Runs ((f b c).1 && not (is_wrapping flag)) PanicReason.arithmetic_overflow)
        λ _ _.
          finish-Keeps (bool_word (f b c).1) 0 dest (if (f b c).1 then 0 else (f b c).0)
            (bool_word-IsWord (f b c).1) (omega arith) d (ground arith)

pub alu_error-Keeps :
    (ra : ℕ) (f : ℕ → ℕ → ℕ) (b c : ℕ) (err_bool : Bool)
    → (err_bool ≡ false → IsWord (f b c))
    → Keeps (alu_error ra f b c err_bool)
unfolding alu_error
alu_error-Keeps ra f b c err_bool h = Runs-bind (write_reg_key-Runs ra) λ dest d.
    Runs-bind (reg-Runs Reg.flag) λ flag _.
      Runs-bind (raise_if-Runs (err_bool && not (is_unsafe_math flag)) PanicReason.arithmetic_error)
        λ _ _.
          finish-Keeps 0 (bool_word err_bool) dest (if err_bool then 0 else f b c) (omega arith)
            (bool_word-IsWord err_bool) d (ground arith)

pub alu_set-Keeps : (ra b : ℕ) → IsWord b → Keeps (alu_set ra b)
unfolding alu_set
alu_set-Keeps ra b h =
    Runs-bind (write_reg_key-Runs ra)
      λ dest d. finish-Keeps 0 0 dest b (omega arith) (omega arith) d h

pub alu_clear-Keeps : Keeps alu_clear
unfolding alu_clear
alu_clear-Keeps =
    Runs-then (set_reg-Keeps Reg.of 0 (omega arith) (omega arith))
      (Runs-then (set_reg-Keeps Reg.err 0 (omega arith) (omega arith)) inc_pc-Keeps)

word_product : (a b : ℕ) → IsWord a → IsWord b → a * b < 2 ^ 128
word_product a b h k = grind arith

pub div_le : (n m : ℕ) → n / m ≤ n
div_le n m = div-le_self n m

muldiv-IsWord :
    (lhs rhs divider : ℕ)
    → IsWord lhs
    → IsWord rhs
    → IsWord (muldiv lhs rhs divider).0 × IsWord (muldiv lhs rhs divider).1
unfolding muldiv
muldiv-IsWord lhs rhs divider h k =
    ground (arith, word_product lhs rhs h k, div_le (lhs * rhs) divider)

pub alu_muldiv-Keeps :
    (ra lhs rhs divider : ℕ) → IsWord lhs → IsWord rhs → Keeps (alu_muldiv ra lhs rhs divider)
unfolding alu_muldiv
alu_muldiv-Keeps ra lhs rhs divider h k =
    let (result, overflow) = muldiv-IsWord lhs rhs divider h k in
    Runs-bind (write_reg_key-Runs ra) λ dest d. Runs-bind (reg-Runs Reg.flag) λ flag _.
      Runs-bind
        (raise_if-Runs (not ((muldiv lhs rhs divider).1 == 0) && not (is_wrapping flag))
          PanicReason.arithmetic_overflow)
        λ _ _.
          finish-Keeps (muldiv lhs rhs divider).1 0 dest (muldiv lhs rhs divider).0 overflow
            (omega arith) d result

take_jump-Keeps : (args : JumpArgs) → Keeps (take_jump args)
unfolding take_jump
take_jump-Keeps args = Runs-bind (reg-Runs Reg.is) λ is _. Runs-bind (reg-Runs Reg.pc) λ pc _.
    Runs-bind
      (from_option-Runs (target_addr args.mode args.dynamic args.fixed is pc)
        PanicReason.memory_overflow)
      λ target _.
        Runs-bind (raise_if-Runs (leb vm_max_ram target) PanicReason.memory_overflow)
          λ _ below. set_reg-Keeps Reg.pc target (omega arith) (omega tests)

pub jump-Keeps : (args : JumpArgs) → Keeps (jump args)
unfolding jump
jump-Keeps args = if-Runs args.condition (take_jump-Keeps args) inc_pc-Keeps

-- Gas: all of it is spent, or the charge is subtracted from both counters.
gas_charge-memory : (gas : ℕ) (vm : Vm) → (gas_charge gas vm).1.memory ≡ vm.memory
unfolding gas_charge
gas_charge-memory gas vm = ground arith

pub gas_charge-Keeps : (gas : ℕ) → Keeps (gas_charge gas)
unfolding gas_charge
gas_charge-Keeps gas = record {
  keeps = λ vm v. record {
    words = λ r. ground (arith, v.words r, v.words Reg.ggas, v.words Reg.cgas);
    zero_reg = ground arith;
    one_reg = ground arith;
    memory = ground arith;
    octets = λ j b e. v.octets j b (ap (λ m. byte m j) (sym (gas_charge-memory gas vm)) ∙ e);
    heap_pointer = ground arith;
    stack_grown = ground arith;
    stack_order = ground arith;
    gas_order = ground arith;
  };
  post = λ vm v. ground arith;
}

-- A cost per unit is never a division by zero: `units_per_gas` must be nonzero.
abbrev pub IsCost : DependentCost → Type 0
IsCost (light_operation base units_per_gas) = 0 < units_per_gas
IsCost (heavy_operation base gas_per_unit) = Unit

from_result-Runs : {A : Type 0} (r : Result A) (a : A) → r ≡ ok a → Runs (λ _. Unit) (from_result r)
from_result-Runs r a e = subst (λ r. Runs (λ _. Unit) (from_result r)) (sym e) (pure-Runs tt)

resolved : (cost : DependentCost) (arg : ℕ) → IsCost cost → (g : ℕ) × (resolve cost arg ≡ ok g)
unfolding resolve resolve_without_base
resolved (light_operation base units_per_gas) arg h =
    (saturating_add base (arg / units_per_gas), ground (arith, h))
resolved (heavy_operation base gas_per_unit) arg h =
    (saturating_add base (saturating_mul arg gas_per_unit), refl)

pub dependent_gas_charge-Keeps :
    (cost : DependentCost) (arg : ℕ) → IsCost cost → Keeps (dependent_gas_charge cost arg)
unfolding dependent_gas_charge
dependent_gas_charge-Keeps cost arg h =
    let (g, e) = resolved cost arg h in
    Runs-bind (from_result-Runs (resolve cost arg) g e) (λ gas _. gas_charge-Keeps gas)
