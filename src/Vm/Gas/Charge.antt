-- ===== src/Vm/Gas/Charge.antt =====
-- What a charge of gas does: fuel-vm/src/interpreter/gas.rs.
use fuel_vm.Reg
use fuel_vm.Prelude.{ℕ, ◌+◌, ◌≤◌, ◌<◌, ◌≡◌, ◌≢◌, ◌⊎◌, inl, inr, ltb, arith, tests, Bool-cases}
use fuel_vm.Outcome.{ok, err, panic, PanicReason}
use fuel_vm.Vm.{Vm}
use fuel_vm.Vm.Gas.{gas_charge}

-- Both counters have fallen by `gas`, and nothing else has changed.
pub record Spent (gas : ℕ) (vm vm' : Vm) : Type 0 where
  pub context : vm'.registers Reg.cgas + gas ≡ vm.registers Reg.cgas
  pub global : vm'.registers Reg.ggas + gas ≡ vm.registers Reg.ggas
  pub others : (r : ℕ) → r ≢ Reg.cgas → r ≢ Reg.ggas → vm'.registers r ≡ vm.registers r
  pub same_memory : vm'.memory ≡ vm.memory
  pub same_frames : vm'.frames ≡ vm.frames

-- If `$cgas` is at most `$ggas`, a charge that the context can pay takes exactly the gas from both
-- counters, and any other charge fails with `OutOfGas` and takes all of the context's gas from
-- both; neither touches anything else.
pub gas_charge_lem :
    (gas : ℕ) (vm : Vm)
    → vm.registers Reg.cgas ≤ vm.registers Reg.ggas
    → ((gas ≤ vm.registers Reg.cgas)
        × ((gas_charge gas vm).0 ≡ ok tt)
        × Spent gas vm (gas_charge gas vm).1)
      ⊎ ((vm.registers Reg.cgas < gas)
          × ((gas_charge gas vm).0 ≡ err (panic PanicReason.out_of_gas))
          × Spent (vm.registers Reg.cgas) vm (gas_charge gas vm).1)
unfolding gas_charge
gas_charge_lem gas vm h = elim (Bool-cases (ltb (vm.registers Reg.cgas) gas)) [
  | inr p ↦
      let k : gas ≤ vm.registers Reg.cgas = omega tests in
      inl (
        k,
        ground arith,
        record {
          context = ground arith;
          global = ground arith;
          others = λ r c g. ground arith;
          same_memory = ground arith;
          same_frames = ground arith;
        },
      )
  | inl p ↦
      let k : vm.registers Reg.cgas < gas = omega tests in
      inr (
        k,
        ground arith,
        record {
          context = ground arith;
          global = ground arith;
          others = λ r c g. ground arith;
          same_memory = ground arith;
          same_frames = ground arith;
        },
      )
]
