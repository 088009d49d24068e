-- ===== src/Vm/WideInt/Run.antt =====
-- The instructions on wide integers (fuel-vm/src/interpreter/executors/opcodes_impl.rs) keep the
-- invariant of the state.
use fuel_vm.Prelude.{ℕ}
use fuel_vm.Outcome.{PanicReason}
use fuel_vm.Vm.{Vm, Action, ◌>>=◌, reg}
use fuel_vm.Vm.WideInt
use fuel_vm.Vm.WideInt.{WideOps}
use fuel_vm.Vm.WideInt.Args.{
  compare_args_from_imm, math_args_from_imm, mul_args_from_imm, div_args_from_imm,
}
use fuel_vm.Vm.WideInt.Laws.{IsWide}
use fuel_vm.Vm.WideInt.Execute.{
  WideCosts, WideInstruction, execute_wide, execute_wdcm, execute_wqcm, execute_wdop, execute_wqop,
  execute_wdml, execute_wqml, execute_wddv, execute_wqdv, execute_wdmd, execute_wqmd, execute_wdam,
  execute_wqam, execute_wdmm, execute_wqmm,
}
use fuel_vm.Vm.WideInt.Valid.{
  alu_wideint_cmp-Keeps, alu_wideint_op-Keeps, alu_wideint_mul-Keeps, alu_wideint_div-Keeps,
  alu_wideint_addmod-Keeps, alu_wideint_mulmod-Keeps, alu_wideint_muldiv-Keeps,
}
use fuel_vm.Vm.Valid.{IsValid, Post, Keeps, Runs-bind, IsWord, reg-Runs, from_option-Runs}
use fuel_vm.Vm.Valid.Charged.{charged}

-- Three registers, whatever they hold
three_registers :
    (a b c : ℕ) (f : ℕ → ℕ → ℕ → Action (Unit {0}))
    → ((x y z : ℕ) → IsWord y → IsWord z → Keeps (f x y z))
    → Keeps (do x ← reg a; y ← reg b; z ← reg c; f x y z)
three_registers a b c f h =
    Runs-bind (reg-Runs a)
      λ x _. Runs-bind (reg-Runs b) λ y p. Runs-bind (reg-Runs c) (λ z q. h x y z p q)

execute_wdcm-Keeps :
    (costs : WideCosts) (ops : WideOps) (a b c imm : ℕ)
    → IsWide ops
    → Keeps (execute_wdcm costs ops a b c imm)
unfolding execute_wdcm
execute_wdcm-Keeps costs ops a b c imm laws = charged costs.wdcm (
    Runs-bind (from_option-Runs (compare_args_from_imm imm) PanicReason.invalid_immediate_value)
      λ args _.
        Runs-bind (reg-Runs b)
          λ x _. Runs-bind (reg-Runs c) λ y h. alu_wideint_cmp-Keeps ops laws a x y args h)

execute_wqcm-Keeps :
    (costs : WideCosts) (ops : WideOps) (a b c imm : ℕ)
    → IsWide ops
    → Keeps (execute_wqcm costs ops a b c imm)
unfolding execute_wqcm
execute_wqcm-Keeps costs ops a b c imm laws = charged costs.wqcm (
    Runs-bind (from_option-Runs (compare_args_from_imm imm) PanicReason.invalid_immediate_value)
      λ args _.
        Runs-bind (reg-Runs b)
          λ x _. Runs-bind (reg-Runs c) λ y h. alu_wideint_cmp-Keeps ops laws a x y args h)

execute_wdop-Keeps :
    (costs : WideCosts) (ops : WideOps) (a b c imm : ℕ)
    → IsWide ops
    → Keeps (execute_wdop costs ops a b c imm)
unfolding execute_wdop
execute_wdop-Keeps costs ops a b c imm laws = charged costs.wdop (
    Runs-bind (from_option-Runs (math_args_from_imm imm) PanicReason.invalid_immediate_value)
      λ args _.
        three_registers a b c (λ x y z. WideInt.alu_wideint_op ops x y z args)
          (λ x y z h k. alu_wideint_op-Keeps ops laws x y z args k))

execute_wqop-Keeps :
    (costs : WideCosts) (ops : WideOps) (a b c imm : ℕ)
    → IsWide ops
    → Keeps (execute_wqop costs ops a b c imm)
unfolding execute_wqop
execute_wqop-Keeps costs ops a b c imm laws = charged costs.wqop (
    Runs-bind (from_option-Runs (math_args_from_imm imm) PanicReason.invalid_immediate_value)
      λ args _.
        three_registers a b c (λ x y z. WideInt.alu_wideint_op ops x y z args)
          (λ x y z h k. alu_wideint_op-Keeps ops laws x y z args k))

execute_wdml-Keeps :
    (costs : WideCosts) (ops : WideOps) (a b c imm : ℕ)
    → IsWide ops
    → Keeps (execute_wdml costs ops a b c imm)
unfolding execute_wdml
execute_wdml-Keeps costs ops a b c imm laws = charged costs.wdml (
    Runs-bind (from_option-Runs (mul_args_from_imm imm) PanicReason.invalid_immediate_value)
      λ args _.
        three_registers a b c (λ x y z. WideInt.alu_wideint_mul ops x y z args)
          (λ x y z h k. alu_wideint_mul-Keeps ops laws x y z args h k))

execute_wqml-Keeps :
    (costs : WideCosts) (ops : WideOps) (a b c imm : ℕ)
    → IsWide ops
    → Keeps (execute_wqml costs ops a b c imm)
unfolding execute_wqml
execute_wqml-Keeps costs ops a b c imm laws = charged costs.wqml (
    Runs-bind (from_option-Runs (mul_args_from_imm imm) PanicReason.invalid_immediate_value)
      λ args _.
        three_registers a b c (λ x y z. WideInt.alu_wideint_mul ops x y z args)
          (λ x y z h k. alu_wideint_mul-Keeps ops laws x y z args h k))

execute_wddv-Keeps :
    (costs : WideCosts) (ops : WideOps) (a b c imm : ℕ)
    → IsWide ops
    → Keeps (execute_wddv costs ops a b c imm)
unfolding execute_wddv
execute_wddv-Keeps costs ops a b c imm laws = charged costs.wddv (
    Runs-bind (from_option-Runs (div_args_from_imm imm) PanicReason.invalid_immediate_value)
      λ args _.
        three_registers a b c (λ x y z. WideInt.alu_wideint_div ops x y z args)
          (λ x y z h k. alu_wideint_div-Keeps ops laws x y z args k))

execute_wqdv-Keeps :
    (costs : WideCosts) (ops : WideOps) (a b c imm : ℕ)
    → IsWide ops
    → Keeps (execute_wqdv costs ops a b c imm)
unfolding execute_wqdv
execute_wqdv-Keeps costs ops a b c imm laws = charged costs.wqdv (
    Runs-bind (from_option-Runs (div_args_from_imm imm) PanicReason.invalid_immediate_value)
      λ args _.
        three_registers a b c (λ x y z. WideInt.alu_wideint_div ops x y z args)
          (λ x y z h k. alu_wideint_div-Keeps ops laws x y z args k))

execute_wdmd-Keeps :
    (costs : WideCosts) (ops : WideOps) (a b c d : ℕ)
    → IsWide ops
    → Keeps (execute_wdmd costs ops a b c d)
unfolding execute_wdmd
execute_wdmd-Keeps costs ops a b c d laws = charged costs.wdmd (
    three_registers a b c (λ x y z. reg d >>= λ w. WideInt.alu_wideint_muldiv ops x y z w)
      (λ x y z _ _. Runs-bind (reg-Runs d) (λ w _. alu_wideint_muldiv-Keeps ops laws x y z w)))

execute_wqmd-Keeps :
    (costs : WideCosts) (ops : WideOps) (a b c d : ℕ)
    → IsWide ops
    → Keeps (execute_wqmd costs ops a b c d)
unfolding execute_wqmd
execute_wqmd-Keeps costs ops a b c d laws = charged costs.wqmd (
    three_registers a b c (λ x y z. reg d >>= λ w. WideInt.alu_wideint_muldiv ops x y z w)
      (λ x y z _ _. Runs-bind (reg-Runs d) (λ w _. alu_wideint_muldiv-Keeps ops laws x y z w)))

execute_wdam-Keeps :
    (costs : WideCosts) (ops : WideOps) (a b c d : ℕ)
    → IsWide ops
    → Keeps (execute_wdam costs ops a b c d)
unfolding execute_wdam
execute_wdam-Keeps costs ops a b c d laws = charged costs.wdam (
    three_registers a b c (λ x y z. reg d >>= λ w. WideInt.alu_wideint_addmod ops x y z w)
      (λ x y z _ _. Runs-bind (reg-Runs d) (λ w _. alu_wideint_addmod-Keeps ops laws x y z w)))

execute_wqam-Keeps :
    (costs : WideCosts) (ops : WideOps) (a b c d : ℕ)
    → IsWide ops
    → Keeps (execute_wqam costs ops a b c d)
unfolding execute_wqam
execute_wqam-Keeps costs ops a b c d laws = charged costs.wqam (
    three_registers a b c (λ x y z. reg d >>= λ w. WideInt.alu_wideint_addmod ops x y z w)
      (λ x y z _ _. Runs-bind (reg-Runs d) (λ w _. alu_wideint_addmod-Keeps ops laws x y z w)))

execute_wdmm-Keeps :
    (costs : WideCosts) (ops : WideOps) (a b c d : ℕ)
    → IsWide ops
    → Keeps (execute_wdmm costs ops a b c d)
unfolding execute_wdmm
execute_wdmm-Keeps costs ops a b c d laws = charged costs.wdmm (
    three_registers a b c (λ x y z. reg d >>= λ w. WideInt.alu_wideint_mulmod ops x y z w)
      (λ x y z _ _. Runs-bind (reg-Runs d) (λ w _. alu_wideint_mulmod-Keeps ops laws x y z w)))

execute_wqmm-Keeps :
    (costs : WideCosts) (ops : WideOps) (a b c d : ℕ)
    → IsWide ops
    → Keeps (execute_wqmm costs ops a b c d)
unfolding execute_wqmm
execute_wqmm-Keeps costs ops a b c d laws = charged costs.wqmm (
    three_registers a b c (λ x y z. reg d >>= λ w. WideInt.alu_wideint_mulmod ops x y z w)
      (λ x y z _ _. Runs-bind (reg-Runs d) (λ w _. alu_wideint_mulmod-Keeps ops laws x y z w)))

pub execute_wide-Keeps :
    (costs : WideCosts) (u128 u256 : WideOps) (instruction : WideInstruction)
    → IsWide u128
    → IsWide u256
    → Keeps (execute_wide costs u128 u256 instruction)
unfolding execute_wide
execute_wide-Keeps costs u128 u256 (WideInstruction.wdcm a b c imm) h k =
    execute_wdcm-Keeps costs u128 a b c imm h
execute_wide-Keeps costs u128 u256 (WideInstruction.wqcm a b c imm) h k =
    execute_wqcm-Keeps costs u256 a b c imm k
execute_wide-Keeps costs u128 u256 (WideInstruction.wdop a b c imm) h k =
    execute_wdop-Keeps costs u128 a b c imm h
execute_wide-Keeps costs u128 u256 (WideInstruction.wqop a b c imm) h k =
    execute_wqop-Keeps costs u256 a b c imm k
execute_wide-Keeps costs u128 u256 (WideInstruction.wdml a b c imm) h k =
    execute_wdml-Keeps costs u128 a b c imm h
execute_wide-Keeps costs u128 u256 (WideInstruction.wqml a b c imm) h k =
    execute_wqml-Keeps costs u256 a b c imm k
execute_wide-Keeps costs u128 u256 (WideInstruction.wddv a b c imm) h k =
    execute_wddv-Keeps costs u128 a b c imm h
execute_wide-Keeps costs u128 u256 (WideInstruction.wqdv a b c imm) h k =
    execute_wqdv-Keeps costs u256 a b c imm k
execute_wide-Keeps costs u128 u256 (WideInstruction.wdmd a b c d) h k =
    execute_wdmd-Keeps costs u128 a b c d h
execute_wide-Keeps costs u128 u256 (WideInstruction.wqmd a b c d) h k =
    execute_wqmd-Keeps costs u256 a b c d k
execute_wide-Keeps costs u128 u256 (WideInstruction.wdam a b c d) h k =
    execute_wdam-Keeps costs u128 a b c d h
execute_wide-Keeps costs u128 u256 (WideInstruction.wqam a b c d) h k =
    execute_wqam-Keeps costs u256 a b c d k
execute_wide-Keeps costs u128 u256 (WideInstruction.wdmm a b c d) h k =
    execute_wdmm-Keeps costs u128 a b c d h
execute_wide-Keeps costs u128 u256 (WideInstruction.wqmm a b c d) h k =
    execute_wqmm-Keeps costs u256 a b c d k

-- In a valid state an instruction on wide integers leaves a valid state, whether it succeeds or
-- panics, and it neither reports a bug of the interpreter nor stops the host, where the types of the
-- two widths compute as documented.
pub execute_wide-IsValid :
    (costs : WideCosts) (u128 u256 : WideOps) (instruction : WideInstruction) (vm : Vm)
    → IsWide u128
    → IsWide u256
    → IsValid vm
    → IsValid (execute_wide costs u128 u256 instruction vm).1
      × Post (λ _. Unit {0}) (execute_wide costs u128 u256 instruction vm).0
execute_wide-IsValid costs u128 u256 instruction vm h k v =
    let keeps = execute_wide-Keeps costs u128 u256 instruction h k in
    (keeps.keeps vm v, keeps.post vm v)
