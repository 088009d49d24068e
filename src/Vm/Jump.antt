-- ===== src/Vm/Jump.antt =====
-- Jumps: `JumpMode` and `JumpArgs` of fuel-vm/src/interpreter/flow.rs.
pub mod Target
use fuel_vm.Reg
use fuel_vm.Prelude.{
  ℕ, Bool, true, Option, some, leb, if◌then◌else◌, saturating_add, saturating_mul, checked_sub,
}
use fuel_vm.Outcome.{panic, PanicReason}
use fuel_vm.Memory.{vm_max_ram}
use fuel_vm.Vm.{Action, ◌>>=◌, ◌>>◌, reg, set_reg, raise_if, from_option, inc_pc, instruction_size}

pub data JumpMode : Type 0 where
  assign relative_is relative_forwards relative_backwards : JumpMode

pub record JumpArgs : Type 0 where
  pub condition : Bool
  pub mode : JumpMode
  pub dynamic : ℕ
  pub fixed : ℕ

abbrev pub jump_args : JumpMode → JumpArgs
jump_args mode = record { condition = true; mode = mode; dynamic = 0; fixed = 0 }

abbrev pub with_condition : JumpArgs → Bool → JumpArgs
with_condition args condition = record args { condition = condition }

abbrev pub to_address : JumpArgs → ℕ → JumpArgs
to_address args addr = record args { dynamic = addr }

abbrev pub plus_fixed : JumpArgs → ℕ → JumpArgs
plus_fixed args addr = record args { fixed = addr }

-- The address that a mode computes from `$is` and `$pc`; `none` where the backward jump would pass
-- the address zero.
unfoldable pub target_addr : JumpMode → ℕ → ℕ → ℕ → ℕ → Option ℕ
target_addr JumpMode.assign dynamic fixed is pc =
    some (saturating_add dynamic (saturating_mul fixed instruction_size))
target_addr JumpMode.relative_is dynamic fixed is pc =
    let offset_instructions = saturating_add dynamic fixed in
    let offset_bytes = saturating_mul offset_instructions instruction_size in
    some (saturating_add is offset_bytes)
target_addr JumpMode.relative_forwards dynamic fixed is pc =
    let offset_instructions = saturating_add (saturating_add dynamic fixed) 1 in
    let offset_bytes = saturating_mul offset_instructions instruction_size in
    some (saturating_add pc offset_bytes)
target_addr JumpMode.relative_backwards dynamic fixed is pc =
    let offset_instructions = saturating_add (saturating_add dynamic fixed) 1 in
    let offset_bytes = saturating_mul offset_instructions instruction_size in
    checked_sub pc offset_bytes

unfoldable pub take_jump : JumpArgs → Action (Unit {0})
take_jump args = do
  is ← reg Reg.is
  pc ← reg Reg.pc
  target ←
      from_option (target_addr args.mode args.dynamic args.fixed is pc)
        (panic PanicReason.memory_overflow)
  raise_if (leb vm_max_ram target) (panic PanicReason.memory_overflow)
  set_reg Reg.pc target

unfoldable pub jump : JumpArgs → Action (Unit {0})
unfolding inc_pc take_jump
jump args = if args.condition then take_jump args else inc_pc
