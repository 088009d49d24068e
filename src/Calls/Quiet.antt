-- ===== src/Calls/Quiet.antt =====
-- The parts of a call (fuel-vm/src/interpreter/flow.rs) that change no register but the gas.
use fuel_vm.Reg
use fuel_vm.Prelude.{
  ℕ, ◌+◌, ◌≤◌, ◌≡◌, ◌≢◌, refl, ◌∙◌, ap, Bool, true, false, Option, none, some, arith,
  saturating_mul,
}
use fuel_vm.Outcome.{Error, Result, ok, err}
use fuel_vm.Vm
use fuel_vm.Vm.{Vm}
use fuel_vm.Vm.Gas.{
  gas_charge, dependent_gas_charge_without_base, DependentCost, resolve_without_base,
}
use fuel_vm.Calls.Receipts.{Bytes32, Receipt}
use fuel_vm.Memory.{MemoryInstance}
use fuel_vm.Calls.{
  Interpreter, Handler, Parameters, ◌>>=◌, pure, on_vm, from_option, from_result, gets,
  check_contract_in_inputs, external_asset_id_balance_sub, push_receipt,
}
use fuel_vm.Calls.Binds.{then_run, Ended, Ends}
use fuel_vm.Calls.Contract.{
  balance_increase, balance_decrease, debit, charge_new_entry, forward_coins,
}

-- The machine's registers but for the gas are as before, as are its frames, and no gas is gained.
pub record QuietVm (vm vm' : Vm) : Type 0 where
  pub others : (r : ℕ) → r ≢ Reg.cgas → r ≢ Reg.ggas → vm'.registers r ≡ vm.registers r
  pub less_gas : vm'.registers Reg.cgas ≤ vm.registers Reg.cgas
  pub frames : vm'.frames ≡ vm.frames

-- Both counters fall by the same amount.
abbrev pub Spent : Vm → Vm → Type 0
Spent vm vm' =
    vm'.registers Reg.cgas + vm.registers Reg.ggas ≡ vm.registers Reg.cgas + vm'.registers Reg.ggas

pub QuietVm-trans : {s t u : Vm} → QuietVm s t → QuietVm t u → QuietVm s u
QuietVm-trans q k = record {
  others = λ r h l. k.others r h l ∙ q.others r h l;
  less_gas = omega (arith, q.less_gas, k.less_gas);
  frames = k.frames ∙ q.frames;
}

pub record Quiet (s t : Interpreter) : Type 0 where
  pub machine : QuietVm s.vm t.vm
  pub spent : Spent s.vm t.vm
  pub context : t.context ≡ s.context

pub Quiet-refl : (s : Interpreter) → Quiet s s
Quiet-refl s = record {
  machine = record { others = λ r h k. refl; less_gas = omega arith; frames = refl };
  spent = refl;
  context = refl;
}

pub Quiet-trans : {s t u : Interpreter} → Quiet s t → Quiet t u → Quiet s u
Quiet-trans q k = record {
  machine = QuietVm-trans q.machine k.machine;
  spent = omega (arith, q.spent, k.spent);
  context = k.context ∙ q.context;
}

pub record Quietly {A : Type 0} (m : Handler A) : Type 0 where
  pub quiet : (s : Interpreter) → Quiet s (m s).1

module _ {A B : Type 0} where
  after :
      (f : A → Handler B) (s : Interpreter) (q : Result A × Interpreter)
      → ((a : A) → Quietly (f a))
      → Quiet s q.1
      → Quiet s (then_run f q).1
  unfolding then_run
  after f s (ok a, t) k q = Quiet-trans q ((k a).quiet t)
  after f s (err e, t) k q = q

  pub Quietly-bind :
      {m : Handler A} {f : A → Handler B}
      → Quietly m
      → ((a : A) → Quietly (f a))
      → Quietly (m >>= f)
  unfolding then_run
  Quietly-bind {m} {f} q k = record { quiet = λ s. after f s (m s) k (q.quiet s) }

gas_charge-QuietVm : (gas : ℕ) (vm : Vm) → QuietVm vm (gas_charge gas vm).1
unfolding gas_charge
gas_charge-QuietVm gas vm = record {
  others = λ r h k. ground arith;
  less_gas = ground arith;
  frames = ground arith;
}

gas_charge-Spent : (gas : ℕ) (vm : Vm) → Spent vm (gas_charge gas vm).1
unfolding gas_charge
gas_charge-Spent gas vm = ground arith

result_charge-Spent :
    (r : Result ℕ) (vm : Vm) → Spent vm ((Vm.◌>>=◌ (Vm.from_result r) gas_charge) vm).1
result_charge-Spent (ok gas) vm = gas_charge-Spent gas vm
result_charge-Spent (err e) vm = refl

result_charge-QuietVm :
    (r : Result ℕ) (vm : Vm) → QuietVm vm ((Vm.◌>>=◌ (Vm.from_result r) gas_charge) vm).1
result_charge-QuietVm (ok gas) vm = gas_charge-QuietVm gas vm
result_charge-QuietVm (err e) vm = record {
  others = λ r h k. refl;
  less_gas = omega arith;
  frames = refl;
}

Quiet-same :
    (s t : Interpreter)
    → t.vm.registers ≡ s.vm.registers
    → t.vm.frames ≡ s.vm.frames
    → t.context ≡ s.context
    → Quiet s t
Quiet-same s t r f c = record {
  machine = record {
    others = λ i h k. ap (λ (regs : ℕ → ℕ). regs i) r;
    less_gas = omega (arith, ap (λ (regs : ℕ → ℕ). regs Reg.cgas) r);
    frames = f;
  };
  spent =
      omega (arith, ap (λ (regs : ℕ → ℕ). regs Reg.cgas) r, ap (λ (regs : ℕ → ℕ). regs Reg.ggas) r);
  context = c;
}

pub gas_charge-Quietly : (gas : ℕ) → Quietly (on_vm (gas_charge gas))
gas_charge-Quietly gas = record {
  quiet = λ s. record {
    machine = gas_charge-QuietVm gas s.vm;
    spent = gas_charge-Spent gas s.vm;
    context = refl;
  };
}

pub dependent_gas_charge_without_base-Quietly :
    (cost : DependentCost) (n : ℕ) → Quietly (on_vm (dependent_gas_charge_without_base cost n))
unfolding dependent_gas_charge_without_base
dependent_gas_charge_without_base-Quietly cost n = record {
  quiet = λ s. record {
    machine = result_charge-QuietVm (resolve_without_base cost n) s.vm;
    spent = result_charge-Spent (resolve_without_base cost n) s.vm;
    context = refl;
  };
}

pub charge_new_entry-Quietly : (p : Parameters) (new : Bool) → Quietly (charge_new_entry p new)
unfolding charge_new_entry
charge_new_entry-Quietly p false = record { quiet = λ s. Quiet-refl s }
charge_new_entry-Quietly p true = record {
  quiet = λ s. (gas_charge-Quietly (saturating_mul 40 p.new_storage_per_byte)).quiet s;
}

pub check_contract_in_inputs-Quietly : (id : Bytes32) → Quietly (check_contract_in_inputs id)
unfolding check_contract_in_inputs
check_contract_in_inputs-Quietly id = record {
  quiet = λ s.
      Quiet-same s (check_contract_in_inputs id s).1 (ground arith) (ground arith) (ground arith);
}

pub balance_increase-Quietly :
    (contract asset_id : Bytes32) (amount : ℕ) → Quietly (balance_increase contract asset_id amount)
unfolding balance_increase
balance_increase-Quietly contract asset_id amount = record {
  quiet = λ s.
      Quiet-same s (balance_increase contract asset_id amount s).1 (ground arith) (ground arith)
        (ground arith);
}

pub debit-Quietly :
    (source : Option Bytes32) (asset_id : Bytes32) (amount : ℕ)
    → Quietly (debit source asset_id amount)
unfolding debit balance_decrease external_asset_id_balance_sub
debit-Quietly none asset_id amount = record {
  quiet = λ s.
      Quiet-same s (external_asset_id_balance_sub asset_id amount s).1 (ground arith) (ground arith)
        (ground arith);
}
debit-Quietly (some id) asset_id amount = record {
  quiet = λ s.
      Quiet-same s (balance_decrease id asset_id amount s).1 (ground arith) (ground arith)
        (ground arith);
}

pub forward_coins-Quietly :
    (p : Parameters) (source : Option Bytes32) (to asset_id : Bytes32) (amount : ℕ)
    → Quietly (forward_coins p source to asset_id amount)
unfolding forward_coins
forward_coins-Quietly p source to asset_id amount =
    Quietly-bind (debit-Quietly source asset_id amount) λ _.
      Quietly-bind (check_contract_in_inputs-Quietly to)
        λ _. Quietly-bind (balance_increase-Quietly to asset_id amount) (charge_new_entry-Quietly p)

-- What a quiet step leaves, if it succeeds
quiet_result :
    {A : Type 0} (s : Interpreter) (r : Result A × Interpreter)
    → Quiet s r.1
    → Ended (λ _ t. Quiet s t) r
quiet_result s (ok a, t) h = h
quiet_result s (err e, t) h = tt

pub quiet-Ends :
    {A : Type 0} {m : Handler A} → Quietly m → (s : Interpreter) → Ends (λ _ t. Quiet s t) m s
quiet-Ends {m = m} q s = record { ends = quiet_result s (m s) (q.quiet s) }

pub gets-Quietly : {A : Type 0} (f : Interpreter → A) → Quietly (gets f)
gets-Quietly f = record { quiet = Quiet-refl }

pub from_result-Quietly : {A : Type 0} (r : Result A) → Quietly (from_result r)
from_result-Quietly r = record { quiet = Quiet-refl }

pub from_option-Quietly : {A : Type 0} (o : Option A) (e : Error) → Quietly (from_option o e)
from_option-Quietly none e = record { quiet = Quiet-refl }
from_option-Quietly (some a) e = record { quiet = Quiet-refl }

pub pure-Quietly : {A : Type 0} (a : A) → Quietly (pure a)
pure-Quietly a = record { quiet = Quiet-refl }

pub on_memory-Quietly :
    (f : MemoryInstance → Result MemoryInstance) → Quietly (on_vm (Vm.on_memory f))
on_memory-Quietly f = record {
  quiet = λ s. Quiet-same s (on_vm (Vm.on_memory f) s).1 (ground arith) (ground arith) refl;
}

pub push_receipt-Quietly : (p : Parameters) (receipt : Receipt) → Quietly (push_receipt p receipt)
unfolding push_receipt
push_receipt-Quietly p receipt = record {
  quiet =
      λ s. Quiet-same s (push_receipt p receipt s).1 (ground arith) (ground arith) (ground arith);
}
