-- ===== src/Vm/Step/Tests.antt =====
-- The theorems on rounds of the interpreter, at a memory that starts with a NOOP.
use fuel_vm.Reg
use fuel_vm.Prelude.{ℕ, ◌<◌, ◌≡◌, refl, ◌⊎◌, [], ◌∷◌, some, true, if◌then◌else◌, ◌==◌, arith}
use fuel_vm.Outcome.{err, panic, PanicReason}
use fuel_vm.Memory.{mem_size}
use fuel_vm.Memory.Valid.{byte}
use fuel_vm.Vm.{Vm, Registers}
use fuel_vm.Vm.Gas.Costs.{unit_costs}
use fuel_vm.Vm.Valid.{IsValid, Post}
use fuel_vm.Vm.WideInt.Laws.{exact, exact-IsWide}
use fuel_vm.Vm.Step.{Environment, step, rounds}
use fuel_vm.Vm.Step.Valid.{IsEnvironment, rounds-IsValid}
use fuel_vm.Vm.Step.Safe.{IsExecuted, step_lem}

abbrev noop_registers : Registers
noop_registers r =
    if r == Reg.one
    then 1
    else if r == Reg.ssp
    then 4
    else if r == Reg.sp
    then 4
    else if r == Reg.hp
    then mem_size
    else if r == Reg.ggas
    then 1000
    else if r == Reg.cgas
    then 900
    else 0

abbrev noop_vm : Vm
noop_vm = record {
  registers = noop_registers;
  memory = record { stack = 0x47 ∷ 0 ∷ 0 ∷ 0 ∷ []; heap = []; hp = mem_size };
  frames = [];
}

octet_at : (j b : ℕ) → byte noop_vm.memory j ≡ some b → b < 256
unfolding byte
octet_at j b e = ground arith

noop_vm-IsValid : IsValid noop_vm
noop_vm-IsValid = record {
  words = λ r. ground arith;
  zero_reg = refl;
  one_reg = refl;
  memory = record {
    hp_bound = omega arith;
    stack_below = omega arith;
    heap_fits = omega arith;
    heap_covers = omega arith;
  };
  octets = octet_at;
  heap_pointer = refl;
  stack_grown = omega arith;
  stack_order = omega arith;
  gas_order = omega arith;
}

abbrev environment : Environment
environment = record {
  costs = unit_costs;
  wide_costs = record {
    wdcm = 1;
    wqcm = 1;
    wdop = 1;
    wqop = 1;
    wdml = 1;
    wqml = 1;
    wddv = 1;
    wqdv = 1;
    wdmd = 1;
    wqmd = 1;
    wdam = 1;
    wqam = 1;
    wdmm = 1;
    wqmm = 1;
  };
  u128 = exact 16;
  u256 = exact 32;
}

environment-IsEnvironment : IsEnvironment environment
environment-IsEnvironment = record {
  chargeable = record {
    aloc = tt;
    cfe = tt;
    cfei = tt;
    mcl = tt;
    mcli = tt;
    mcp = tt;
    mcpi = tt;
    meq = tt;
  };
  u128 = exact-IsWide 16 (omega arith) (omega arith) refl;
  u256 = exact-IsWide 32 (omega arith) (omega arith) refl;
}

rounds-IsValid_example :
    IsValid (rounds 3 environment noop_vm).1 × Post (λ _. Unit {0}) (rounds 3 environment noop_vm).0
rounds-IsValid_example =
    rounds-IsValid environment environment-IsEnvironment 3 noop_vm noop_vm-IsValid

step_lem_example :
    ((reason : PanicReason) × (step environment true noop_vm ≡ (err (panic reason), noop_vm)))
    ⊎ IsExecuted environment true noop_vm
step_lem_example = step_lem environment true noop_vm noop_vm-IsValid
