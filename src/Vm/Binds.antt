-- ===== src/Vm/Binds.antt =====
-- Chains of the interpreter's methods (fuel-vm/src/interpreter) whose first step is known.
use fuel_vm.Prelude.{◌≡◌, ap, ◌∙◌}
use fuel_vm.Outcome.{Error, Result, ok, err}
use fuel_vm.Vm.{Vm, Action, ◌>>=◌}

module _ {A B : Type 0} where
  bind_result : (A → Action B) → Result A × Vm → Result B × Vm
  bind_result f p = ((λ _. p) >>= f) p.1

  -- A step that succeeds, and the rest from its result
  pub bind_ok :
      (m : Action A) (f : A → Action B) (vm : Vm) {a : A} {vm' : Vm} {r : Result B × Vm}
      → m vm ≡ (ok a, vm')
      → f a vm' ≡ r
      → (m >>= f) vm ≡ r
  unfolding bind_result
  bind_ok m f vm e g = ap (bind_result f) e ∙ g

  -- A step that fails ends the chain.
  pub bind_err :
      (m : Action A) (f : A → Action B) (vm : Vm) {e : Error} {vm' : Vm}
      → m vm ≡ (err e, vm')
      → (m >>= f) vm ≡ (err e, vm')
  unfolding bind_result
  bind_err m f vm g = ap (bind_result f) g
