-- ===== src/Vm/Alu.antt =====
-- The arithmetic handlers: fuel-vm/src/interpreter/alu.rs and alu/muldiv.rs. A handler's operation
-- is passed as a function, as in the source; the destination is a register's number.
pub mod Correct
pub mod Root
use Prim.Native.Nat.{bit_and, bit_or, bit_xor}
use fuel_vm.Reg
use fuel_vm.Prelude.{
  ℕ, zero, suc, ◌+◌, ◌-◌, ◌*◌, ◌/◌, ◌%◌, ◌^◌, Bool, true, false, ◌&&◌, not, ltb, leb, ◌==◌,
  if◌then◌else◌, word_max,
}
use fuel_vm.Outcome.{panic, PanicReason}
use fuel_vm.Vm.{
  Action, ◌>>=◌, ◌>>◌, reg, set_reg, raise_if, write_reg_key, inc_pc, is_unsafe_math, is_wrapping,
}

-- `u128::overflowing_add`, `overflowing_sub` and `overflowing_mul`
abbrev pub overflowing_add_u128 : ℕ → ℕ → ℕ × Bool
overflowing_add_u128 b c = ((b + c) % 2 ^ 128, leb (2 ^ 128) (b + c))

abbrev pub overflowing_sub_u128 : ℕ → ℕ → ℕ × Bool
overflowing_sub_u128 b c = ((b + 2 ^ 128 - c) % 2 ^ 128, ltb b c)

abbrev pub overflowing_mul_u128 : ℕ → ℕ → ℕ × Bool
overflowing_mul_u128 b c = ((b * c) % 2 ^ 128, leb (2 ^ 128) (b * c))

-- `u64::overflowing_pow`
abbrev pub overflowing_pow : ℕ → ℕ → ℕ × Bool
overflowing_pow b e = ((b ^ e) % 2 ^ 64, ltb word_max (b ^ e))

abbrev pub bool_word : Bool → ℕ
bool_word true = 1
bool_word false = 0

unfoldable pub exp : ℕ → ℕ → ℕ × Bool
exp b c =
    if leb c (2 ^ 32 - 1) then overflowing_pow b c else if ltb b 2 then (b, false) else (0, true)

-- `alu_capture_overflow` on a writable register
unfoldable pub capture_overflow : ℕ → (ℕ → ℕ → ℕ × Bool) → ℕ → ℕ → Action (Unit {0})
unfolding inc_pc
capture_overflow dest f b c = do
  flag ← reg Reg.flag
  let (result, overflow) = f b c
  raise_if (ltb word_max result && not (is_wrapping flag)) (panic PanicReason.arithmetic_overflow)
  set_reg Reg.of (result / 2 ^ 64)
  set_reg Reg.err 0
  set_reg dest (result % 2 ^ 64)
  inc_pc

-- `Interpreter::alu_capture_overflow`
unfoldable pub alu_capture_overflow : ℕ → (ℕ → ℕ → ℕ × Bool) → ℕ → ℕ → Action (Unit {0})
unfolding write_reg_key capture_overflow
alu_capture_overflow ra f b c = do dest ← write_reg_key ra; capture_overflow dest f b c

unfoldable pub boolean_overflow : ℕ → (ℕ → ℕ → ℕ × Bool) → ℕ → ℕ → Action (Unit {0})
unfolding inc_pc
boolean_overflow dest f b c = do
  flag ← reg Reg.flag
  let (result, overflow) = f b c
  raise_if (overflow && not (is_wrapping flag)) (panic PanicReason.arithmetic_overflow)
  set_reg Reg.of (bool_word overflow)
  set_reg Reg.err 0
  set_reg dest (if overflow then 0 else result)
  inc_pc

unfoldable pub alu_boolean_overflow : ℕ → (ℕ → ℕ → ℕ × Bool) → ℕ → ℕ → Action (Unit {0})
unfolding write_reg_key boolean_overflow
alu_boolean_overflow ra f b c = do dest ← write_reg_key ra; boolean_overflow dest f b c

unfoldable pub error_result : ℕ → (ℕ → ℕ → ℕ) → ℕ → ℕ → Bool → Action (Unit {0})
unfolding inc_pc
error_result dest f b c err_bool = do
  flag ← reg Reg.flag
  raise_if (err_bool && not (is_unsafe_math flag)) (panic PanicReason.arithmetic_error)
  set_reg Reg.of 0
  set_reg Reg.err (bool_word err_bool)
  let result = f b c
  set_reg dest (if err_bool then 0 else result)
  inc_pc

unfoldable pub alu_error : ℕ → (ℕ → ℕ → ℕ) → ℕ → ℕ → Bool → Action (Unit {0})
unfolding write_reg_key error_result
alu_error ra f b c err_bool = do dest ← write_reg_key ra; error_result dest f b c err_bool

unfoldable pub set_result : ℕ → ℕ → Action (Unit {0})
unfolding inc_pc
set_result dest b = do set_reg Reg.of 0; set_reg Reg.err 0; set_reg dest b; inc_pc

unfoldable pub alu_set : ℕ → ℕ → Action (Unit {0})
unfolding write_reg_key set_result
alu_set ra b = do dest ← write_reg_key ra; set_result dest b

unfoldable pub alu_clear : Action (Unit {0})
unfolding inc_pc
alu_clear = do set_reg Reg.of 0; set_reg Reg.err 0; inc_pc

-- A divider of zero is read as 2^64. The second part is the overflow.
unfoldable pub muldiv : ℕ → ℕ → ℕ → ℕ × ℕ
muldiv lhs rhs divider =
    let intermediate = lhs * rhs in
    if divider == 0
    then (intermediate / 2 ^ 64, 0)
    else (intermediate / divider % 2 ^ 64, intermediate / divider / 2 ^ 64)

unfoldable pub alu_muldiv : ℕ → ℕ → ℕ → ℕ → Action (Unit {0})
unfolding write_reg_key inc_pc
alu_muldiv ra lhs rhs divider = do
  dest ← write_reg_key ra
  flag ← reg Reg.flag
  let (result, overflow) = muldiv lhs rhs divider
  raise_if (not (overflow == 0) && not (is_wrapping flag)) (panic PanicReason.arithmetic_overflow)
  set_reg Reg.of overflow
  set_reg Reg.err 0
  set_reg dest result
  inc_pc
