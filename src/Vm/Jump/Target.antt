-- ===== src/Vm/Jump/Target.antt =====
-- Where a jump goes: fuel-vm/src/interpreter/flow.rs.
use fuel_vm.Reg
use fuel_vm.Prelude.{
  ℕ, ◌+◌, ◌*◌, ◌<◌, ◌≡◌, ◌⊎◌, inl, inr, true, Option, some, leb, arith, tests, Bool-cases,
  Option-cases, word_max, saturating_add, saturating_mul,
}
use fuel_vm.Outcome.{ok, err, panic, PanicReason}
use fuel_vm.Memory.{vm_max_ram}
use fuel_vm.Vm.{Vm, update, instruction_size}
use fuel_vm.Vm.Jump.{JumpMode, JumpArgs, target_addr, take_jump, jump}

-- The address that a mode means, with no bound on the numbers.
abbrev pub Reaches : JumpMode → ℕ → ℕ → ℕ → ℕ → ℕ → Type 0
Reaches JumpMode.assign dynamic fixed is pc t = t ≡ dynamic + fixed * instruction_size
Reaches JumpMode.relative_is dynamic fixed is pc t = t ≡ is + (dynamic + fixed) * instruction_size
Reaches JumpMode.relative_forwards dynamic fixed is pc t =
    t ≡ pc + (dynamic + fixed + 1) * instruction_size
Reaches JumpMode.relative_backwards dynamic fixed is pc t =
    t + (dynamic + fixed + 1) * instruction_size ≡ pc

outside :
    {o : Option ℕ} {t t' : ℕ}
    → o ≡ some t
    → o ≡ some t'
    → leb vm_max_ram t ≡ true
    → ¬ (t' < vm_max_ram)
outside e f p k = grind (arith, tests)

target_addr-Reaches :
    (mode : JumpMode) (dynamic fixed is pc t : ℕ)
    → pc < word_max
    → t < vm_max_ram
    → target_addr mode dynamic fixed is pc ≡ some t
    → Reaches mode dynamic fixed is pc t
unfolding target_addr saturating_add saturating_mul
target_addr-Reaches JumpMode.assign dynamic fixed is pc t h k e = ground arith
target_addr-Reaches JumpMode.relative_is dynamic fixed is pc t h k e = ground arith
target_addr-Reaches JumpMode.relative_forwards dynamic fixed is pc t h k e = ground arith
target_addr-Reaches JumpMode.relative_backwards dynamic fixed is pc t h k e = ground arith

Reaches-target_addr :
    (mode : JumpMode) (dynamic fixed is pc t : ℕ)
    → pc < word_max
    → t < vm_max_ram
    → Reaches mode dynamic fixed is pc t
    → target_addr mode dynamic fixed is pc ≡ some t
unfolding target_addr saturating_add saturating_mul
Reaches-target_addr JumpMode.assign dynamic fixed is pc t h k e = ground arith
Reaches-target_addr JumpMode.relative_is dynamic fixed is pc t h k e = ground arith
Reaches-target_addr JumpMode.relative_forwards dynamic fixed is pc t h k e = ground arith
Reaches-target_addr JumpMode.relative_backwards dynamic fixed is pc t h k e = ground arith

-- A jump whose condition holds goes to the address that its mode means, computed without a bound,
-- if that address lies in the memory; if no address in the memory is the one, it fails with
-- `MemoryOverflow` and changes nothing. The program counter is below the largest word.
pub jump_lem :
    (args : JumpArgs) (vm : Vm)
    → args.condition ≡ true
    → vm.registers Reg.pc < word_max
    → ((t : ℕ) × (t < vm_max_ram)
        × Reaches args.mode args.dynamic args.fixed (vm.registers Reg.is) (vm.registers Reg.pc) t
        × (jump args vm ≡ (ok tt, record vm { registers = update vm.registers Reg.pc t })))
      ⊎ (((t : ℕ)
            → t < vm_max_ram
            → ¬ Reaches args.mode args.dynamic args.fixed
                (vm.registers Reg.is)
                (vm.registers Reg.pc)
                t)
          × (jump args vm ≡ (err (panic PanicReason.memory_overflow), vm)))
unfolding jump take_jump
jump_lem args vm c h =
    let is : ℕ = vm.registers Reg.is in
    let pc : ℕ = vm.registers Reg.pc in
    let back = Reaches-target_addr args.mode args.dynamic args.fixed is pc in
    elim (Option-cases (target_addr args.mode args.dynamic args.fixed is pc)) [
      | inl e ↦ inr (λ t k r. cc (e, back t h k r), rw (c, e))
      | inr (t, e) ↦ elim (Bool-cases (leb vm_max_ram t)) [
        | inl p ↦ inr (λ t' k r. outside e (back t' h k r) p k, rw (c, e, p))
        | inr p ↦ inl (
          t,
          omega tests,
          target_addr-Reaches args.mode args.dynamic args.fixed is pc t h (omega tests) e,
          rw (c, e, p),
        )
      ]
    ]
