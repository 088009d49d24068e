-- ===== src/Vm/WideInt/Args.antt =====
-- The immediate of an instruction on wide integers: fuel-asm/src/args/wideint.rs.
use Prim.Native.Nat.{bit_or}
use fuel_vm.Prelude.{
  ℕ, ◌*◌, ◌/◌, ◌%◌, ◌^◌, Bool, Option, none, some, [], ◌∷◌, get_elem?, if◌then◌else◌, ◌==◌,
}
use fuel_vm.Vm.Alu.{bool_word}

pub data CompareMode : Type 0 where
  eq ne lt gt lte gte lzc : CompareMode

pub data MathOp : Type 0 where
  add sub not or xor and shl shr : MathOp

pub record CompareArgs : Type 0 where
  pub mode : CompareMode
  pub indirect_rhs : Bool

pub record MathArgs : Type 0 where
  pub op : MathOp
  pub indirect_rhs : Bool

pub record MulArgs : Type 0 where
  pub indirect_lhs : Bool
  pub indirect_rhs : Bool

pub record DivArgs : Type 0 where
  pub indirect_rhs : Bool

-- `mode as u8` and `op as u8`
abbrev mode_bits : CompareMode → ℕ
mode_bits CompareMode.eq = 0
mode_bits CompareMode.ne = 1
mode_bits CompareMode.lt = 2
mode_bits CompareMode.gt = 3
mode_bits CompareMode.lte = 4
mode_bits CompareMode.gte = 5
mode_bits CompareMode.lzc = 6

abbrev op_bits : MathOp → ℕ
op_bits MathOp.add = 0
op_bits MathOp.sub = 1
op_bits MathOp.not = 2
op_bits MathOp.or = 3
op_bits MathOp.xor = 4
op_bits MathOp.and = 5
op_bits MathOp.shl = 6
op_bits MathOp.shr = 7

-- `CompareMode::from_repr` and `MathOp::from_repr`
abbrev compare_mode_from_repr : ℕ → Option CompareMode
compare_mode_from_repr bits =
    get_elem?
      (CompareMode.eq ∷ CompareMode.ne ∷ CompareMode.lt ∷ CompareMode.gt ∷ CompareMode.lte
        ∷ CompareMode.gte ∷ CompareMode.lzc ∷ [])
      bits

abbrev math_op_from_repr : ℕ → Option MathOp
math_op_from_repr bits =
    get_elem?
      (MathOp.add ∷ MathOp.sub ∷ MathOp.not ∷ MathOp.or ∷ MathOp.xor ∷ MathOp.and ∷ MathOp.shl
        ∷ MathOp.shr ∷ [])
      bits

unfoldable pub compare_args_to_imm : CompareArgs → ℕ
compare_args_to_imm args = bit_or (mode_bits args.mode) (bool_word args.indirect_rhs * 2 ^ 5)

abbrev compare_args_with : Bool → Option CompareMode → Option CompareArgs
compare_args_with indirect_rhs none = none
compare_args_with indirect_rhs (some mode) =
    some (record { mode = mode; indirect_rhs = indirect_rhs })

unfoldable pub compare_args_from_imm : ℕ → Option CompareArgs
compare_args_from_imm bits =
    if bits / 2 ^ 3 % 2 ^ 2 == 0
    then compare_args_with (bits / 2 ^ 5 % 2 == 1) (compare_mode_from_repr (bits % 2 ^ 3))
    else none

unfoldable pub math_args_to_imm : MathArgs → ℕ
math_args_to_imm args = bit_or (op_bits args.op) (bool_word args.indirect_rhs * 2 ^ 5)

abbrev math_args_with : Bool → Option MathOp → Option MathArgs
math_args_with indirect_rhs none = none
math_args_with indirect_rhs (some op) = some (record { op = op; indirect_rhs = indirect_rhs })

unfoldable pub math_args_from_imm : ℕ → Option MathArgs
math_args_from_imm bits = math_args_with (bits / 2 ^ 5 % 2 == 1) (math_op_from_repr (bits % 2 ^ 5))

unfoldable pub mul_args_to_imm : MulArgs → ℕ
mul_args_to_imm args =
    bit_or (bool_word args.indirect_lhs * 2 ^ 4) (bool_word args.indirect_rhs * 2 ^ 5)

unfoldable pub mul_args_from_imm : ℕ → Option MulArgs
mul_args_from_imm bits =
    if bits % 2 ^ 4 == 0
    then some
        (record { indirect_lhs = bits / 2 ^ 4 % 2 == 1; indirect_rhs = bits / 2 ^ 5 % 2 == 1 })
    else none

unfoldable pub div_args_to_imm : DivArgs → ℕ
div_args_to_imm args = bool_word args.indirect_rhs * 2 ^ 5

unfoldable pub div_args_from_imm : ℕ → Option DivArgs
div_args_from_imm bits =
    if bits % 2 ^ 5 == 0 then some (record { indirect_rhs = bits / 2 ^ 5 % 2 == 1 }) else none
