-- ===== src/Vm/WideInt.antt =====
-- Arithmetic on integers of 128 and 256 bits: fuel-vm/src/interpreter/alu/wideint.rs. `wideint_ops!`
-- writes the code out for both widths; here the width in bytes is an argument. What the types
-- compute (`u128`, and the types of ethnum and primitive_types) is an interface.
pub mod Args
pub mod RoundTrip
pub mod Laws
pub mod Valid
pub mod Execute
pub mod Run
pub mod Stored
pub mod Correct
mod Tests
use fuel_vm.Reg
use fuel_vm.Prelude.{
  ℕ, ◌+◌, ◌-◌, ◌*◌, ◌/◌, ◌%◌, ◌^◌, Bool, true, false, ◌&&◌, not, Option, none, some, ltb, leb, ◌==◌,
  if◌then◌else◌, to_be_bytes, from_be_bytes,
}
use fuel_vm.Outcome.{panic, crash, PanicReason}
use fuel_vm.Memory.{OwnershipRegisters, read, write_bytes}
use fuel_vm.Vm.{
  Action, ◌>>=◌, ◌>>◌, pure, gets, reg, set_reg, raise_if, from_option, on_memory, write_reg_key,
  inc_pc, is_unsafe_math, is_wrapping, ownership_registers,
}
use fuel_vm.Vm.Alu.{bool_word}
use fuel_vm.Vm.WideInt.Args.{CompareMode, MathOp, CompareArgs, MathArgs, MulArgs, DivArgs}

-- The types' operations for one width, those of the type of twice the width with `wider`
pub record WideOps : Type 0 where
  pub size : ℕ
  pub overflowing_add : ℕ → ℕ → ℕ × Bool
  pub overflowing_sub : ℕ → ℕ → ℕ × Bool
  pub overflowing_mul : ℕ → ℕ → ℕ × Bool
  pub bitor : ℕ → ℕ → ℕ
  pub bitxor : ℕ → ℕ → ℕ
  pub bitand : ℕ → ℕ → ℕ
  pub complement : ℕ → ℕ
  pub checked_shl : ℕ → ℕ → Option ℕ
  pub checked_shr : ℕ → ℕ → Option ℕ
  pub leading_zeros : ℕ → ℕ
  pub checked_div : ℕ → ℕ → Option ℕ
  pub full_mul : ℕ → ℕ → ℕ
  pub wider_checked_add : ℕ → ℕ → Option ℕ
  pub wider_checked_div : ℕ → ℕ → Option ℕ
  pub wider_checked_rem : ℕ → ℕ → Option ℕ
  pub wider_shr : ℕ → ℕ → ℕ

-- `read_bytes` and `from_be_bytes`
unfoldable pub load_wide : WideOps → ℕ → Action ℕ
load_wide ops addr = do bytes ← λ vm. (read vm.memory addr ops.size, vm); pure (from_be_bytes bytes)

-- An operand, whose register holds it or its address
unfoldable pub operand : WideOps → Bool → ℕ → Action ℕ
unfolding load_wide
operand ops true addr = load_wide ops addr
operand ops false value = pure value

unfoldable pub store_wide : WideOps → OwnershipRegisters → ℕ → ℕ → Action (Unit {0})
unfolding inc_pc
store_wide ops owner dest_addr value = do
  on_memory (λ m. write_bytes m owner dest_addr (to_be_bytes ops.size value))
  inc_pc

unfoldable pub cmp : WideOps → ℕ → ℕ → CompareMode → ℕ
cmp ops lhs rhs CompareMode.eq = bool_word (lhs == rhs)
cmp ops lhs rhs CompareMode.ne = bool_word (not (lhs == rhs))
cmp ops lhs rhs CompareMode.gt = bool_word (ltb rhs lhs)
cmp ops lhs rhs CompareMode.lt = bool_word (ltb lhs rhs)
cmp ops lhs rhs CompareMode.gte = bool_word (leb rhs lhs)
cmp ops lhs rhs CompareMode.lte = bool_word (leb lhs rhs)
cmp ops lhs rhs CompareMode.lzc = ops.leading_zeros lhs

abbrev or_zero : Option ℕ → ℕ
or_zero none = 0
or_zero (some n) = n

-- A shift by a number that `u32` holds
abbrev shifted_or_zero : (ℕ → ℕ → Option ℕ) → ℕ → ℕ → ℕ
shifted_or_zero shift lhs rhs = if leb rhs (2 ^ 32 - 1) then or_zero (shift lhs rhs) else 0

unfoldable pub op_overflowing : WideOps → ℕ → ℕ → MathOp → ℕ × Bool
op_overflowing ops lhs rhs MathOp.add = ops.overflowing_add lhs rhs
op_overflowing ops lhs rhs MathOp.sub = ops.overflowing_sub lhs rhs
op_overflowing ops lhs rhs MathOp.or = (ops.bitor lhs rhs, false)
op_overflowing ops lhs rhs MathOp.xor = (ops.bitxor lhs rhs, false)
op_overflowing ops lhs rhs MathOp.and = (ops.bitand lhs rhs, false)
op_overflowing ops lhs rhs MathOp.not = (ops.complement lhs, false)
op_overflowing ops lhs rhs MathOp.shl = (shifted_or_zero ops.checked_shl lhs rhs, false)
op_overflowing ops lhs rhs MathOp.shr = (shifted_or_zero ops.checked_shr lhs rhs, false)

unfoldable pub alu_wideint_cmp : WideOps → ℕ → ℕ → ℕ → CompareArgs → Action (Unit {0})
unfolding write_reg_key load_wide operand cmp inc_pc
alu_wideint_cmp ops ra b c args = do
  dest ← write_reg_key ra
  lhs ← load_wide ops b
  rhs ← operand ops args.indirect_rhs c
  set_reg dest (cmp ops lhs rhs args.mode)
  set_reg Reg.of 0
  set_reg Reg.err 0
  inc_pc

-- The end of an operation with a result and an overflow
unfoldable pub store_overflowing : WideOps → OwnershipRegisters → ℕ → ℕ → Bool → Action (Unit {0})
unfolding store_wide
store_overflowing ops owner dest_addr wrapped overflow = do
  flag ← reg Reg.flag
  raise_if (overflow && not (is_wrapping flag)) (panic PanicReason.arithmetic_overflow)
  set_reg Reg.of (bool_word overflow)
  set_reg Reg.err 0
  store_wide ops owner dest_addr wrapped

unfoldable pub alu_wideint_op : WideOps → ℕ → ℕ → ℕ → MathArgs → Action (Unit {0})
unfolding ownership_registers load_wide operand op_overflowing store_overflowing
alu_wideint_op ops dest_addr b c args = do
  owner ← gets ownership_registers
  lhs ← load_wide ops b
  rhs ← operand ops args.indirect_rhs c
  let (wrapped, overflow) = op_overflowing ops lhs rhs args.op
  store_overflowing ops owner dest_addr wrapped overflow

unfoldable pub alu_wideint_mul : WideOps → ℕ → ℕ → ℕ → MulArgs → Action (Unit {0})
unfolding ownership_registers operand store_overflowing
alu_wideint_mul ops dest_addr b c args = do
  owner ← gets ownership_registers
  lhs ← operand ops args.indirect_lhs b
  rhs ← operand ops args.indirect_rhs c
  let (wrapped, overflow) = ops.overflowing_mul lhs rhs
  store_overflowing ops owner dest_addr wrapped overflow

-- The result of a division, or zero and the error register where the divisor is zero
unfoldable pub result_or_error : Option ℕ → Action ℕ
result_or_error (some result) = do set_reg Reg.err 0; pure result
result_or_error none = do
  flag ← reg Reg.flag
  raise_if (not (is_unsafe_math flag)) (panic PanicReason.arithmetic_error)
  set_reg Reg.err 1
  pure 0

unfoldable pub store_quotient : WideOps → OwnershipRegisters → ℕ → Option ℕ → Action (Unit {0})
unfolding result_or_error store_wide
store_quotient ops owner dest_addr quotient = do
  result ← result_or_error quotient
  set_reg Reg.of 0
  store_wide ops owner dest_addr result

unfoldable pub alu_wideint_div : WideOps → ℕ → ℕ → ℕ → DivArgs → Action (Unit {0})
unfolding ownership_registers load_wide operand store_quotient
alu_wideint_div ops dest_addr b c args = do
  owner ← gets ownership_registers
  lhs ← load_wide ops b
  rhs ← operand ops args.indirect_rhs c
  store_quotient ops owner dest_addr (ops.checked_div lhs rhs)

-- `truncate_from_prim`, of a remainder
abbrev truncate_from_prim : WideOps → Option ℕ → Option ℕ
truncate_from_prim ops none = none
truncate_from_prim ops (some n) = some (n % 256 ^ ops.size)

unfoldable pub alu_wideint_addmod : WideOps → ℕ → ℕ → ℕ → ℕ → Action (Unit {0})
unfolding ownership_registers load_wide store_quotient
alu_wideint_addmod ops dest_addr b c d = do
  owner ← gets ownership_registers
  lhs ← load_wide ops b
  rhs ← load_wide ops c
  modulus ← load_wide ops d
  pre_mod ← from_option (ops.wider_checked_add lhs rhs) crash
  store_quotient ops owner dest_addr
      (truncate_from_prim ops (ops.wider_checked_rem pre_mod modulus))

unfoldable pub alu_wideint_mulmod : WideOps → ℕ → ℕ → ℕ → ℕ → Action (Unit {0})
unfolding ownership_registers load_wide store_quotient
alu_wideint_mulmod ops dest_addr b c d = do
  owner ← gets ownership_registers
  lhs ← load_wide ops b
  rhs ← load_wide ops c
  modulus ← load_wide ops d
  store_quotient ops owner dest_addr
      (truncate_from_prim ops (ops.wider_checked_rem (ops.full_mul lhs rhs) modulus))

abbrev unwrap_or : Option ℕ → ℕ → ℕ
unwrap_or none default = default
unwrap_or (some n) default = n

-- The quotient of `alu_wideint_muldiv`, of both halves
unfoldable pub wide_muldiv : WideOps → ℕ → ℕ → ℕ → ℕ
wide_muldiv ops lhs rhs divider =
    let product = ops.full_mul lhs rhs in
    unwrap_or (ops.wider_checked_div product divider) (ops.wider_shr product (ops.size * 8))

unfoldable pub alu_wideint_muldiv : WideOps → ℕ → ℕ → ℕ → ℕ → Action (Unit {0})
unfolding ownership_registers load_wide wide_muldiv store_overflowing
alu_wideint_muldiv ops dest_addr b c d = do
  owner ← gets ownership_registers
  lhs ← load_wide ops b
  rhs ← load_wide ops c
  divider ← load_wide ops d
  let result = wide_muldiv ops lhs rhs divider
  store_overflowing ops owner dest_addr (result % 256 ^ ops.size)
      (not (result / 256 ^ ops.size == 0))
