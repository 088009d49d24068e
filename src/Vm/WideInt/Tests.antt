-- ===== src/Vm/WideInt/Tests.antt =====
-- The theorems on wide integers, at a small concrete state.
use fuel_vm.Reg
use fuel_vm.Prelude.{
  ℕ, ◌+◌, ◌*◌, ◌/◌, ◌%◌, ◌^◌, ◌<◌, ◌≡◌, refl, List, [], ◌∷◌, some, not, ◌==◌, if◌then◌else◌, arith,
  from_be_bytes,
}
use fuel_vm.Prelude.Words.{from_be_bytes_onto}
use fuel_vm.Prelude.Lists.{slice, take, drop}
use fuel_vm.Memory.{mem_size, read}
use fuel_vm.Memory.Valid.{byte}
use fuel_vm.Vm.{Vm, Registers}
use fuel_vm.Vm.Valid.{IsValid, Post}
use fuel_vm.Vm.WideInt.{alu_wideint_addmod, alu_wideint_mulmod, alu_wideint_muldiv}
use fuel_vm.Vm.WideInt.Laws.{IsWide, exact, exact-IsWide}
use fuel_vm.Vm.WideInt.Stored.{Divides, Overflowing}
use fuel_vm.Vm.WideInt.Correct.{
  IsAt, residue, quotient, alu_wideint_modular_lem, alu_wideint_muldiv_lem,
}
use fuel_vm.Vm.WideInt.Execute.{WideCosts, WideInstruction, execute_wide}
use fuel_vm.Vm.WideInt.Run.{execute_wide-IsValid}

-- The number seven in sixteen bytes of the stack
abbrev seven_registers : Registers
seven_registers r =
    if r == Reg.one
    then 1
    else if r == Reg.sp
    then 16
    else if r == Reg.hp
    then mem_size
    else if r == Reg.ggas
    then 1000
    else if r == Reg.cgas
    then 900
    else 0

abbrev seven_bytes : List ℕ
seven_bytes = 0 ∷ 0 ∷ 0 ∷ 0 ∷ 0 ∷ 0 ∷ 0 ∷ 0 ∷ 0 ∷ 0 ∷ 0 ∷ 0 ∷ 0 ∷ 0 ∷ 0 ∷ 7 ∷ []

abbrev seven : Vm
seven = record {
  registers = seven_registers;
  memory = record { stack = seven_bytes; heap = []; hp = mem_size };
  frames = [];
}

octet_at : (j b : ℕ) → byte seven.memory j ≡ some b → b < 256
unfolding byte
octet_at j b e = ground arith

seven-IsValid : IsValid seven
seven-IsValid = record {
  words = λ r. ground arith;
  zero_reg = refl;
  one_reg = refl;
  memory = record {
    hp_bound = omega arith;
    stack_below = omega arith;
    heap_fits = omega arith;
    heap_covers = omega arith;
  };
  octets = octet_at;
  heap_pointer = refl;
  stack_grown = omega arith;
  stack_order = omega arith;
  gas_order = omega arith;
}

exact_u128-IsWide : IsWide (exact 16)
exact_u128-IsWide = exact-IsWide 16 (omega arith) (omega arith) refl

exact_u256-IsWide : IsWide (exact 32)
exact_u256-IsWide = exact-IsWide 32 (omega arith) (omega arith) refl

seven-IsAt : IsAt (exact 16) exact_u128-IsWide seven 0 7
unfolding exact read fuel_vm.Memory.verify slice take drop from_be_bytes from_be_bytes_onto
seven-IsAt = (seven_bytes, refl, refl)

abbrev unit_wide_costs : WideCosts
unit_wide_costs = record {
  wdcm = 1;
  wqcm = 1;
  wdop = 1;
  wqop = 1;
  wdml = 1;
  wqml = 1;
  wddv = 1;
  wqdv = 1;
  wdmd = 1;
  wqmd = 1;
  wdam = 1;
  wqam = 1;
  wdmm = 1;
  wqmm = 1;
}

execute_wide-IsValid_example :
    IsValid
      (execute_wide unit_wide_costs (exact 16) (exact 32) (WideInstruction.wdmm 0 0 0 0) seven).1
    × Post
        (λ _. Unit {0})
        (execute_wide unit_wide_costs (exact 16) (exact 32) (WideInstruction.wdmm 0 0 0 0) seven).0
execute_wide-IsValid_example =
    execute_wide-IsValid unit_wide_costs (exact 16) (exact 32) (WideInstruction.wdmm 0 0 0 0) seven
      exact_u128-IsWide exact_u256-IsWide seven-IsValid

alu_wideint_modular_lem_example :
    Divides (exact 16) 0 (residue (7 + 7) 7) seven (alu_wideint_addmod (exact 16) 0 0 0 0 seven)
    × Divides (exact 16) 0 (residue (7 * 7) 7) seven (alu_wideint_mulmod (exact 16) 0 0 0 0 seven)
alu_wideint_modular_lem_example =
    alu_wideint_modular_lem (exact 16) exact_u128-IsWide seven 0 0 0 0 7 7 7 seven-IsValid
      (omega arith) seven-IsAt seven-IsAt seven-IsAt

alu_wideint_muldiv_lem_example :
    Overflowing
      (exact 16)
      0
      (quotient (exact 16).size (7 * 7) 7 % 256 ^ (exact 16).size)
      (not (quotient (exact 16).size (7 * 7) 7 / 256 ^ (exact 16).size == 0))
      seven
      (alu_wideint_muldiv (exact 16) 0 0 0 0 seven)
alu_wideint_muldiv_lem_example =
    alu_wideint_muldiv_lem (exact 16) exact_u128-IsWide seven 0 0 0 0 7 7 7 seven-IsValid
      (omega arith) seven-IsAt seven-IsAt seven-IsAt
