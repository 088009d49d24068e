-- ===== src/Vm/WideInt/RoundTrip.antt =====
-- The immediates of instructions on wide integers (fuel-asm/src/args/wideint.rs) are read back.
use fuel_vm.Prelude.{◌≡◌, refl, Bool, true, false, some}
use fuel_vm.Vm.WideInt.Args.{
  CompareMode, MathOp, CompareArgs, MathArgs, MulArgs, DivArgs, compare_args_to_imm,
  compare_args_from_imm, math_args_to_imm, math_args_from_imm, mul_args_to_imm, mul_args_from_imm,
  div_args_to_imm, div_args_from_imm,
}

compare_args :
    (mode : CompareMode) (b : Bool)
    → compare_args_from_imm (compare_args_to_imm (record { mode = mode; indirect_rhs = b }))
      ≡ some (record { mode = mode; indirect_rhs = b })
unfolding compare_args_from_imm compare_args_to_imm
compare_args CompareMode.eq true = refl
compare_args CompareMode.eq false = refl
compare_args CompareMode.ne true = refl
compare_args CompareMode.ne false = refl
compare_args CompareMode.lt true = refl
compare_args CompareMode.lt false = refl
compare_args CompareMode.gt true = refl
compare_args CompareMode.gt false = refl
compare_args CompareMode.lte true = refl
compare_args CompareMode.lte false = refl
compare_args CompareMode.gte true = refl
compare_args CompareMode.gte false = refl
compare_args CompareMode.lzc true = refl
compare_args CompareMode.lzc false = refl

math_args :
    (op : MathOp) (b : Bool)
    → math_args_from_imm (math_args_to_imm (record { op = op; indirect_rhs = b }))
      ≡ some (record { op = op; indirect_rhs = b })
unfolding math_args_from_imm math_args_to_imm
math_args MathOp.add true = refl
math_args MathOp.add false = refl
math_args MathOp.sub true = refl
math_args MathOp.sub false = refl
math_args MathOp.not true = refl
math_args MathOp.not false = refl
math_args MathOp.or true = refl
math_args MathOp.or false = refl
math_args MathOp.xor true = refl
math_args MathOp.xor false = refl
math_args MathOp.and true = refl
math_args MathOp.and false = refl
math_args MathOp.shl true = refl
math_args MathOp.shl false = refl
math_args MathOp.shr true = refl
math_args MathOp.shr false = refl

mul_args :
    (a b : Bool)
    → mul_args_from_imm (mul_args_to_imm (record { indirect_lhs = a; indirect_rhs = b }))
      ≡ some (record { indirect_lhs = a; indirect_rhs = b })
unfolding mul_args_from_imm mul_args_to_imm
mul_args true true = refl
mul_args true false = refl
mul_args false true = refl
mul_args false false = refl

div_args :
    (b : Bool)
    → div_args_from_imm (div_args_to_imm (record { indirect_rhs = b }))
      ≡ some (record { indirect_rhs = b })
unfolding div_args_from_imm div_args_to_imm
div_args true = refl
div_args false = refl

-- The immediates of comparisons, of binary operations, of products and of divisions are read back
-- as the arguments that were written.
pub from_imm-to_imm :
    ((args : CompareArgs) → compare_args_from_imm (compare_args_to_imm args) ≡ some args)
    × ((args : MathArgs) → math_args_from_imm (math_args_to_imm args) ≡ some args)
    × ((args : MulArgs) → mul_args_from_imm (mul_args_to_imm args) ≡ some args)
    × ((args : DivArgs) → div_args_from_imm (div_args_to_imm args) ≡ some args)
from_imm-to_imm = (
  λ args. compare_args args.mode args.indirect_rhs,
  λ args. math_args args.op args.indirect_rhs,
  λ args. mul_args args.indirect_lhs args.indirect_rhs,
  λ args. div_args args.indirect_rhs,
)
