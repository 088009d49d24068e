-- ===== src/Vm.antt =====
-- The state of `Interpreter` (fuel-vm/src/interpreter.rs) that the modelled instructions touch, the
-- monad of its methods, and the helpers of fuel-vm/src/interpreter/internal.rs and
-- fuel-vm/src/constraints/reg_key.rs. The registers are a function of the register's number.
-- What a method wrote before it failed stays written, so the state comes back with an error too.
pub mod Binds
pub mod Gas
pub mod Alu
pub mod Jump
pub mod MemoryOps
pub mod WideInt
pub mod Instruction
pub mod Valid
pub mod Step
mod Tests
use fuel_vm.Reg
use fuel_vm.Prelude.{
  ℕ, ◌/◌, ◌%◌, Bool, Option, none, some, List, [], ◌∷◌, ltb, leb, ◌==◌, if◌then◌else◌, checked_add,
}
use fuel_vm.Outcome.{Error, Result, ok, err, panic, PanicReason}
use fuel_vm.Memory.{MemoryInstance, OwnershipRegisters, vm_max_ram}

abbrev pub Registers : Type 0
Registers = ℕ → ℕ

-- `registers[r] = v`
abbrev pub update : Registers → ℕ → ℕ → Registers
update regs r v i = if i == r then v else regs i

-- `CallFrame` of fuel-vm/src/call.rs; an identifier is its bytes. `registers` are the caller's.
pub record CallFrame : Type 0 where
  pub to : List ℕ
  pub asset_id : List ℕ
  pub registers : Registers
  pub code_size_padded : ℕ
  pub a : ℕ
  pub b : ℕ

-- The frames stand with the last one first.
pub record Vm : Type 0 where
  pub registers : Registers
  pub memory : MemoryInstance
  pub frames : List CallFrame

abbrev pub Action {ℓ} : Type ℓ → Type ℓ
Action A = Vm → Result A × Vm

module _ {ℓ} {A : Type ℓ} where
  abbrev pub pure : A → Action A
  pure a vm = (ok a, vm)

  abbrev pub raise : Error → Action A
  raise e vm = (err e, vm)

  abbrev pub from_result : Result A → Action A
  from_result r vm = (r, vm)

  abbrev pub from_option : Option A → Error → Action A
  from_option none e = raise e
  from_option (some a) e = pure a

  abbrev pub gets : (Vm → A) → Action A
  gets f vm = (ok (f vm), vm)

infixl 5 ◌>>=◌ ◌>>◌
abbrev pub ◌>>=◌ {ℓ κ} : {A : Type ℓ} {B : Type κ} → Action A → (A → Action B) → Action B
◌>>=◌ m f vm = let (r, vm') = m vm in elim r [ ok a ↦ f a vm' | err e ↦ raise e vm' ]

abbrev pub ◌>>◌ {ℓ} : {B : Type ℓ} → Action (Unit {0}) → Action B → Action B
m >> k = m >>= λ _. k

abbrev pub raise_if : Bool → Error → Action (Unit {0})
raise_if c e vm = (if c then err e else ok tt, vm)

abbrev pub reg : ℕ → Action ℕ
reg r vm = (ok (vm.registers r), vm)

abbrev pub set_reg : ℕ → ℕ → Action (Unit {0})
set_reg r v vm = (ok tt, record vm { registers = update vm.registers r v })

-- An operation on the memory alone: on an error it has changed nothing.
abbrev pub on_memory : (MemoryInstance → Result MemoryInstance) → Action (Unit {0})
on_memory f vm = elim (f vm.memory) [
  | ok m ↦ (ok tt, record vm { memory = m })
  | err e ↦ (err e, vm)
]

-- `WriteRegKey::new`
unfoldable pub write_reg_key : ℕ → Action ℕ
write_reg_key k =
    if leb Reg.writable k then pure k else raise (panic PanicReason.reserved_register_not_writable)

-- `Instruction::SIZE`
abbrev pub instruction_size : ℕ
instruction_size = 4

unfoldable pub inc_pc : Action (Unit {0})
inc_pc = do
  pc ← reg Reg.pc
  next ← from_option (checked_add pc instruction_size) (panic PanicReason.memory_overflow)
  set_reg Reg.pc next

unfoldable pub set_user_reg_or_discard : ℕ → ℕ → Action (Unit {0})
set_user_reg_or_discard r v =
    if r == Reg.zero
    then pure tt
    else if ltb r Reg.writable
    then raise (panic PanicReason.reserved_register_not_writable)
    else set_reg r v

-- `is_unsafe_math` and `is_wrapping`: the lowest two bits of `$flag`
abbrev pub is_unsafe_math : ℕ → Bool
is_unsafe_math flag = flag % 2 == 1

abbrev pub is_wrapping : ℕ → Bool
is_wrapping flag = flag / 2 % 2 == 1

-- `Flags::from_bits` knows only those two bits.
unfoldable pub set_flag : ℕ → Action (Unit {0})
unfolding inc_pc
set_flag a = do raise_if (ltb 3 a) (panic PanicReason.invalid_flags); set_reg Reg.flag a; inc_pc

abbrev prev_hp : List CallFrame → ℕ
prev_hp [] = vm_max_ram
prev_hp (frame ∷ frames) = frame.registers Reg.hp

-- `OwnershipRegisters::new`
unfoldable pub ownership_registers : Vm → OwnershipRegisters
ownership_registers vm = record {
  sp = vm.registers Reg.sp;
  ssp = vm.registers Reg.ssp;
  hp = vm.registers Reg.hp;
  prev_hp = prev_hp vm.frames;
}
