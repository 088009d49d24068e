-- ===== src/Vm/WideInt/Valid.antt =====
-- The handlers of fuel-vm/src/interpreter/alu/wideint.rs keep the invariant of the state.
use native.Mathlib.Nat.{pow-le-pow_right}
use fuel_vm.Reg
use fuel_vm.Prelude.{
  ℕ, ◌/◌, ◌%◌, ◌^◌, ◌<◌, subst, Bool, true, false, ◌&&◌, not, Option, none, some, ltb, leb, ◌==◌,
  arith, from_be_bytes, from_be_bytes-lt, AllOctets-to_be_bytes, to_be_bytes,
}
use fuel_vm.Outcome.{crash, PanicReason}
use fuel_vm.Memory.{OwnershipRegisters, write_bytes}
use fuel_vm.Vm.{from_option, is_wrapping, is_unsafe_math}
use fuel_vm.Vm.Alu.{bool_word}
use fuel_vm.Vm.WideInt.{
  WideOps, load_wide, operand, store_wide, cmp, store_overflowing, store_quotient, result_or_error,
  alu_wideint_cmp, alu_wideint_op, alu_wideint_mul, alu_wideint_div, alu_wideint_addmod,
  alu_wideint_mulmod, alu_wideint_muldiv, op_overflowing, wide_muldiv, truncate_from_prim,
}
use fuel_vm.Vm.WideInt.Args.{CompareMode, CompareArgs, MathArgs, MulArgs, DivArgs}
use fuel_vm.Vm.WideInt.Laws.{IsWide}
use fuel_vm.Vm.Valid.{
  Runs, Keeps, Runs-bind, Runs-then, IsWord, reg-Runs, pure-Runs, raise_if-Runs, set_reg-Keeps,
}
use fuel_vm.Vm.Valid.Handlers.{write_reg_key-Runs, writable-Free, inc_pc-Keeps, bool_word-IsWord}
use fuel_vm.Vm.Valid.Stack.{on_memory-Keeps}
use fuel_vm.Vm.Valid.Access.{read-Runs, owner-Runs, write_bytes-MemoryPost}

module _ (ops : WideOps) (laws : IsWide ops) where
  -- A number of the width
  abbrev IsNumber : ℕ → Type 0
  IsNumber n = n < 256 ^ ops.size

  load_wide-Runs : (addr : ℕ) → Runs IsNumber (load_wide ops addr)
  unfolding load_wide
  load_wide-Runs addr = Runs-bind (read-Runs addr ops.size) λ bytes h.
      pure-Runs (subst (λ l. from_be_bytes bytes < 256 ^ l) h.0 (from_be_bytes-lt bytes h.1))

  word-IsNumber : (w : ℕ) → IsWord w → IsNumber w
  word-IsNumber w h =
      omega (arith, pow-le-pow_right {n = 256} (omega arith) {i = 8} {j = ops.size} laws.holds_word)

  operand-Runs : (indirect : Bool) (w : ℕ) → IsWord w → Runs IsNumber (operand ops indirect w)
  unfolding operand
  operand-Runs true w h = load_wide-Runs w
  operand-Runs false w h = pure-Runs (word-IsNumber w h)

  store_wide-Keeps :
      (owner : OwnershipRegisters) (dest_addr value : ℕ)
      → Keeps (store_wide ops owner dest_addr value)
  unfolding store_wide
  store_wide-Keeps owner dest_addr value =
      Runs-then
        (on_memory-Keeps (λ m. write_bytes m owner dest_addr (to_be_bytes ops.size value))
          (λ m.
            write_bytes-MemoryPost owner dest_addr (to_be_bytes ops.size value) m
              (AllOctets-to_be_bytes ops.size value)))
        inc_pc-Keeps

  cmp-IsWord : (lhs rhs : ℕ) (mode : CompareMode) → IsWord (cmp ops lhs rhs mode)
  unfolding cmp
  cmp-IsWord lhs rhs CompareMode.eq = bool_word-IsWord (lhs == rhs)
  cmp-IsWord lhs rhs CompareMode.ne = bool_word-IsWord (not (lhs == rhs))
  cmp-IsWord lhs rhs CompareMode.gt = bool_word-IsWord (ltb rhs lhs)
  cmp-IsWord lhs rhs CompareMode.lt = bool_word-IsWord (ltb lhs rhs)
  cmp-IsWord lhs rhs CompareMode.gte = bool_word-IsWord (leb rhs lhs)
  cmp-IsWord lhs rhs CompareMode.lte = bool_word-IsWord (leb lhs rhs)
  cmp-IsWord lhs rhs CompareMode.lzc = omega (arith, laws.leading_zeros_u32 lhs)

  pub alu_wideint_cmp-Keeps :
      (ra b c : ℕ) (args : CompareArgs) → IsWord c → Keeps (alu_wideint_cmp ops ra b c args)
  unfolding alu_wideint_cmp
  alu_wideint_cmp-Keeps ra b c args h = Runs-bind (write_reg_key-Runs ra) λ dest d.
      Runs-bind (load_wide-Runs b) λ lhs _. Runs-bind (operand-Runs args.indirect_rhs c h) λ rhs _.
        Runs-then
          (set_reg-Keeps dest (cmp ops lhs rhs args.mode) (writable-Free d)
            (cmp-IsWord lhs rhs args.mode))
          (Runs-then (set_reg-Keeps Reg.of 0 (omega arith) (omega arith))
            (Runs-then (set_reg-Keeps Reg.err 0 (omega arith) (omega arith)) inc_pc-Keeps))

  store_overflowing-Keeps :
      (owner : OwnershipRegisters) (dest_addr wrapped : ℕ) (overflow : Bool)
      → Keeps (store_overflowing ops owner dest_addr wrapped overflow)
  unfolding store_overflowing
  store_overflowing-Keeps owner dest_addr wrapped overflow = Runs-bind (reg-Runs Reg.flag) λ flag _.
      Runs-bind (raise_if-Runs (overflow && not (is_wrapping flag)) PanicReason.arithmetic_overflow)
        λ _ _.
          Runs-then
            (set_reg-Keeps Reg.of (bool_word overflow) (omega arith) (bool_word-IsWord overflow))
            (Runs-then (set_reg-Keeps Reg.err 0 (omega arith) (omega arith))
              (store_wide-Keeps owner dest_addr wrapped))

  pub alu_wideint_op-Keeps :
      (dest_addr b c : ℕ) (args : MathArgs)
      → IsWord c
      → Keeps (alu_wideint_op ops dest_addr b c args)
  unfolding alu_wideint_op
  alu_wideint_op-Keeps dest_addr b c args h = Runs-bind owner-Runs λ owner _.
      Runs-bind (load_wide-Runs b) λ lhs _. Runs-bind (operand-Runs args.indirect_rhs c h) λ rhs _.
        store_overflowing-Keeps owner dest_addr (op_overflowing ops lhs rhs args.op).0
          (op_overflowing ops lhs rhs args.op).1

  pub alu_wideint_mul-Keeps :
      (dest_addr b c : ℕ) (args : MulArgs)
      → IsWord b
      → IsWord c
      → Keeps (alu_wideint_mul ops dest_addr b c args)
  unfolding alu_wideint_mul
  alu_wideint_mul-Keeps dest_addr b c args h k = Runs-bind owner-Runs λ owner _.
      Runs-bind (operand-Runs args.indirect_lhs b h) λ lhs _.
        Runs-bind (operand-Runs args.indirect_rhs c k) λ rhs _.
          store_overflowing-Keeps owner dest_addr (ops.overflowing_mul lhs rhs).0
            (ops.overflowing_mul lhs rhs).1

  result_or_error-Runs : (quotient : Option ℕ) → Runs (λ _. Unit {0}) (result_or_error quotient)
  unfolding result_or_error
  result_or_error-Runs (some result) =
      Runs-then (set_reg-Keeps Reg.err 0 (omega arith) (omega arith)) (pure-Runs {a = result} tt)
  result_or_error-Runs none = Runs-bind (reg-Runs Reg.flag) λ flag _.
      Runs-bind (raise_if-Runs (not (is_unsafe_math flag)) PanicReason.arithmetic_error) λ _ _.
        Runs-then (set_reg-Keeps Reg.err 1 (omega arith) (omega arith)) (pure-Runs {a = 0} tt)

  store_quotient-Keeps :
      (owner : OwnershipRegisters) (dest_addr : ℕ) (quotient : Option ℕ)
      → Keeps (store_quotient ops owner dest_addr quotient)
  unfolding store_quotient
  store_quotient-Keeps owner dest_addr quotient =
      Runs-bind (result_or_error-Runs quotient) λ result _.
        Runs-then (set_reg-Keeps Reg.of 0 (omega arith) (omega arith))
          (store_wide-Keeps owner dest_addr result)

  pub alu_wideint_div-Keeps :
      (dest_addr b c : ℕ) (args : DivArgs)
      → IsWord c
      → Keeps (alu_wideint_div ops dest_addr b c args)
  unfolding alu_wideint_div
  alu_wideint_div-Keeps dest_addr b c args h = Runs-bind owner-Runs λ owner _.
      Runs-bind (load_wide-Runs b) λ lhs _.
        Runs-bind (operand-Runs args.indirect_rhs c h)
          λ rhs _. store_quotient-Keeps owner dest_addr (ops.checked_div lhs rhs)

  -- A sum of two numbers of the width does not overflow the wider type.
  pre_mod-Runs :
      (lhs rhs : ℕ)
      → IsNumber lhs
      → IsNumber rhs
      → Runs (λ _. Unit {0}) (from_option (ops.wider_checked_add lhs rhs) crash)
  pre_mod-Runs lhs rhs h k = rw (laws.wider_add lhs rhs h k) (pure-Runs tt)

  pub alu_wideint_addmod-Keeps :
      (dest_addr b c d : ℕ) → Keeps (alu_wideint_addmod ops dest_addr b c d)
  unfolding alu_wideint_addmod
  alu_wideint_addmod-Keeps dest_addr b c d = Runs-bind owner-Runs λ owner _.
      Runs-bind (load_wide-Runs b) λ lhs h. Runs-bind (load_wide-Runs c) λ rhs k.
        Runs-bind (load_wide-Runs d) λ modulus _. Runs-bind (pre_mod-Runs lhs rhs h k) λ pre_mod _.
          store_quotient-Keeps owner dest_addr
            (truncate_from_prim ops (ops.wider_checked_rem pre_mod modulus))

  pub alu_wideint_mulmod-Keeps :
      (dest_addr b c d : ℕ) → Keeps (alu_wideint_mulmod ops dest_addr b c d)
  unfolding alu_wideint_mulmod
  alu_wideint_mulmod-Keeps dest_addr b c d = Runs-bind owner-Runs λ owner _.
      Runs-bind (load_wide-Runs b) λ lhs _. Runs-bind (load_wide-Runs c) λ rhs _.
        Runs-bind (load_wide-Runs d) λ modulus _.
          store_quotient-Keeps owner dest_addr
            (truncate_from_prim ops (ops.wider_checked_rem (ops.full_mul lhs rhs) modulus))

  pub alu_wideint_muldiv-Keeps :
      (dest_addr b c d : ℕ) → Keeps (alu_wideint_muldiv ops dest_addr b c d)
  unfolding alu_wideint_muldiv
  alu_wideint_muldiv-Keeps dest_addr b c d = Runs-bind owner-Runs λ owner _.
      Runs-bind (load_wide-Runs b) λ lhs _. Runs-bind (load_wide-Runs c) λ rhs _.
        Runs-bind (load_wide-Runs d) λ divider _.
          store_overflowing-Keeps owner dest_addr (wide_muldiv ops lhs rhs divider % 256 ^ ops.size)
            (not (wide_muldiv ops lhs rhs divider / 256 ^ ops.size == 0))
