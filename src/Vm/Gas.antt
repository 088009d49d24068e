-- ===== src/Vm/Gas.antt =====
-- Gas: fuel-vm/src/interpreter/gas.rs, and `DependentCost` of
-- fuel-tx/src/transaction/consensus_parameters/gas.rs.
pub mod Charge
pub mod Costs
use fuel_vm.Reg
use fuel_vm.Prelude.{
  ℕ, ◌+◌, ◌-◌, ◌/◌, ltb, leb, ◌==◌, if◌then◌else◌, saturating_add, saturating_mul, checked_sub,
}
use fuel_vm.Outcome.{Result, ok, err, panic, bug, crash, PanicReason, BugVariant}
use fuel_vm.Vm.{Action, ◌>>=◌, ◌>>◌, reg, set_reg, raise, raise_if, from_option, from_result}

pub data DependentCost : Type 0 where
  light_operation heavy_operation : ℕ → ℕ → DependentCost

abbrev pub base_cost : DependentCost → ℕ
base_cost (light_operation base units_per_gas) = base
base_cost (heavy_operation base gas_per_unit) = base

-- A cost of zero units per gas stops the host.
unfoldable pub resolve_without_base : DependentCost → ℕ → Result ℕ
resolve_without_base (light_operation base units_per_gas) units =
    if units_per_gas == 0 then err crash else ok (units / units_per_gas)
resolve_without_base (heavy_operation base gas_per_unit) units =
    ok (saturating_mul units gas_per_unit)

unfoldable pub resolve : DependentCost → ℕ → Result ℕ
resolve cost units = elim (resolve_without_base cost units) [
  | ok dependent ↦ ok (saturating_add (base_cost cost) dependent)
  | err e ↦ err e
]

-- Out of gas, the context's whole gas is spent.
out_of_gas : ℕ → ℕ → Action (Unit {0})
out_of_gas cgas ggas = do
  rest ← from_option (checked_sub ggas cgas) (bug BugVariant.global_gas_underflow)
  set_reg Reg.ggas rest
  set_reg Reg.cgas 0
  raise (panic PanicReason.out_of_gas)

spend : ℕ → ℕ → ℕ → Action (Unit {0})
spend cgas ggas gas = do
  rest ← from_option (checked_sub cgas gas) (bug BugVariant.context_gas_underflow)
  set_reg Reg.cgas rest
  global ← from_option (checked_sub ggas gas) (bug BugVariant.global_gas_underflow)
  set_reg Reg.ggas global

unfoldable pub gas_charge : ℕ → Action (Unit {0})
unfolding out_of_gas spend
gas_charge gas = do
  cgas ← reg Reg.cgas
  ggas ← reg Reg.ggas
  raise_if (ltb ggas cgas) (bug BugVariant.global_gas_less_than_context)
  if ltb cgas gas then out_of_gas cgas ggas else spend cgas ggas gas

unfoldable pub dependent_gas_charge : DependentCost → ℕ → Action (Unit {0})
dependent_gas_charge cost arg = do gas ← from_result (resolve cost arg); gas_charge gas

unfoldable pub dependent_gas_charge_without_base : DependentCost → ℕ → Action (Unit {0})
dependent_gas_charge_without_base cost arg = do
  gas ← from_result (resolve_without_base cost arg)
  gas_charge gas
