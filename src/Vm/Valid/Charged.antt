-- ===== src/Vm/Valid/Charged.antt =====
-- A charge of gas, then the operands from their registers, then the work.
use fuel_vm.Prelude.{ℕ}
use fuel_vm.Vm.{Action, ◌>>=◌, ◌>>◌, reg}
use fuel_vm.Vm.Gas.{gas_charge}
use fuel_vm.Vm.Gas.Costs.{GasCosts}
use fuel_vm.Vm.Instruction.{ne_registers, nonzero_register}
use fuel_vm.Vm.Valid.{Runs, Keeps, Runs-bind, Runs-then, IsWord, reg-Runs}
use fuel_vm.Vm.Valid.Handlers.{gas_charge-Keeps, IsCost}

-- No cost per unit divides by zero.
pub record IsChargeable (costs : GasCosts) : Type 0 where
  pub aloc : IsCost costs.aloc
  pub cfe : IsCost costs.cfe
  pub cfei : IsCost costs.cfei
  pub mcl : IsCost costs.mcl
  pub mcli : IsCost costs.mcli
  pub mcp : IsCost costs.mcp
  pub mcpi : IsCost costs.mcpi
  pub meq : IsCost costs.meq

pub charged : (gas : ℕ) {m : Action (Unit {0})} → Keeps m → Keeps (gas_charge gas >> m)
charged gas h = Runs-then (gas_charge-Keeps gas) h

pub charged_one :
    (gas b : ℕ) (f : ℕ → Action (Unit {0}))
    → ((x : ℕ) → IsWord x → Keeps (f x))
    → Keeps (do gas_charge gas; x ← reg b; f x)
charged_one gas b f h = charged gas (Runs-bind (reg-Runs b) h)

pub charged_two :
    (gas b c : ℕ) (f : ℕ → ℕ → Action (Unit {0}))
    → ((x y : ℕ) → IsWord x → IsWord y → Keeps (f x y))
    → Keeps (do gas_charge gas; x ← reg b; y ← reg c; f x y)
charged_two gas b c f h =
    charged_one gas b (λ x. reg c >>= λ y. f x y) λ x p. Runs-bind (reg-Runs c) (λ y q. h x y p q)

pub charged_three :
    (gas b c d : ℕ) (f : ℕ → ℕ → ℕ → Action (Unit {0}))
    → ((x y z : ℕ) → IsWord x → IsWord y → IsWord z → Keeps (f x y z))
    → Keeps (do gas_charge gas; x ← reg b; y ← reg c; z ← reg d; f x y z)
charged_three gas b c d f h =
    charged_two gas b c (λ x y. reg d >>= λ z. f x y z)
      λ x y p q. Runs-bind (reg-Runs d) (λ z r. h x y z p q r)

pub ne_registers-Runs : (a b : ℕ) → Runs (λ _. Unit {0}) (ne_registers a b)
ne_registers-Runs a b = record { keeps = λ vm v. v; post = λ vm v. tt }

pub nonzero_register-Runs : (a : ℕ) → Runs (λ _. Unit {0}) (nonzero_register a)
nonzero_register-Runs a = record { keeps = λ vm v. v; post = λ vm v. tt }
