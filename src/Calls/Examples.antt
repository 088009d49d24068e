-- ===== src/Calls/Examples.antt =====
-- States of small programs (fuel-vm/src/interpreter.rs).
use fuel_vm.Reg
use fuel_vm.Prelude.{ℕ, none, some, List, [], ◌∷◌, replicate, if◌then◌else◌, ◌==◌, if◌then◌else◌}
use fuel_vm.Memory.{mem_size}
use fuel_vm.Vm.Gas.{DependentCost}
use fuel_vm.Calls.{Interpreter, Parameters, zeroed}
use fuel_vm.Calls.Receipts.{Receipt, empty_receipts}
use fuel_vm.Calls.Frame.{Context}

abbrev pub empty_hash : List ℕ → List ℕ
empty_hash bytes = []

abbrev pub empty_bytes : Receipt → List ℕ
empty_bytes receipt = []

abbrev pub parameters : Parameters
parameters = record {
  sha256 = empty_hash;
  to_bytes = empty_bytes;
  call = DependentCost.light_operation 10 2;
  ret = 1;
  retd = DependentCost.light_operation 1 2;
  rvrt = 1;
  bal = 1;
  tr = 1;
  mint = 1;
  burn = 1;
  log = 1;
  logd = DependentCost.light_operation 1 2;
  new_storage_per_byte = 1;
}

-- `$sp` and `$ssp` are 200, `$hp` is the end, and there is gas.
abbrev pub caller_registers : ℕ → ℕ
caller_registers r =
    if r == Reg.sp
    then 200
    else if r == Reg.ssp
    then 200
    else if r == Reg.hp
    then mem_size
    else if r == Reg.cgas
    then 5000
    else if r == Reg.ggas
    then 6000
    else 0

-- A script that has 7 coins of an asset, and a contract of 4 bytes among the inputs
abbrev pub caller : Interpreter
caller = record {
  vm = record {
    registers = caller_registers;
    memory = record { stack = replicate 200 0; heap = []; hp = mem_size };
    frames = [];
  };
  context = Context.script 1;
  receipts = empty_receipts;
  balances = (zeroed, record { value = 7; offset = 64 }) ∷ [];
  storage = record { assets = λ c a. none; code = λ c. some (1 ∷ 2 ∷ 3 ∷ 4 ∷ []) };
  input_contracts = zeroed ∷ [];
  panic_context = none;
}
