-- ===== src/Calls.antt =====
-- Calls between contracts. Here: the whole state of `Interpreter` (fuel-vm/src/interpreter.rs) that
-- they touch, the monad of its methods, the helpers of fuel-vm/src/interpreter/internal.rs, and
-- fuel-vm/src/verification.rs. The storage is the one in memory (fuel-vm/src/storage/memory.rs),
-- which does not fail; its maps are functions.
pub mod Receipts
pub mod Balances
pub mod Frame
pub mod Binds
pub mod Contract
pub mod Quiet
pub mod Coins
pub mod Debits
pub mod Transfer
pub mod Mint
pub mod Examples
mod Tests
pub mod Flow
pub mod Log
use fuel_vm.Reg
use fuel_vm.Prelude.{
  ℕ, Bool, true, false, Option, none, some, List, [], ◌∷◌, ◌&&◌, ◌==◌, if◌then◌else◌, replicate,
}
use fuel_vm.Outcome.{Error, Result, ok, err, panic, PanicReason}
use fuel_vm.Memory.{read}
use fuel_vm.Memory.Rollback.{bytes_eq}
use fuel_vm.Merkle.{Digest}
use fuel_vm.Vm.{Vm, Action, set_reg}
use fuel_vm.Vm.Gas.{DependentCost}
use fuel_vm.Calls.Receipts
use fuel_vm.Calls.Receipts.{Bytes32, Receipt, ReceiptsCtx}
use fuel_vm.Calls.Balances.{RuntimeBalances, checked_balance_sub}
use fuel_vm.Calls.Frame.{Context, is_internal, update_from_frame_pointer}

pub record Storage : Type 0 where
  pub assets : Bytes32 → Bytes32 → Option ℕ
  pub code : Bytes32 → Option (List ℕ)

pub record Interpreter : Type 0 where
  pub vm : Vm
  pub context : Context
  pub receipts : ReceiptsCtx
  pub balances : RuntimeBalances
  pub storage : Storage
  pub input_contracts : List Bytes32
  pub panic_context : Option Bytes32

-- What the interpreter does not compute itself, and the costs
pub record Parameters : Type 0 where
  pub sha256 : List ℕ → Digest
  pub to_bytes : Receipt → List ℕ
  pub call : DependentCost
  pub ret : ℕ
  pub retd : DependentCost
  pub rvrt : ℕ
  pub bal : ℕ
  pub tr : ℕ
  pub mint : ℕ
  pub burn : ℕ
  pub log : ℕ
  pub logd : DependentCost
  pub new_storage_per_byte : ℕ

abbrev pub Handler {ℓ} : Type ℓ → Type ℓ
Handler A = Interpreter → Result A × Interpreter

module _ {ℓ} {A : Type ℓ} where
  abbrev pub pure : A → Handler A
  pure a s = (ok a, s)

  abbrev pub raise : Error → Handler A
  raise e s = (err e, s)

  abbrev pub from_result : Result A → Handler A
  from_result r s = (r, s)

  abbrev pub from_option : Option A → Error → Handler A
  from_option none e = raise e
  from_option (some a) e = pure a

  abbrev pub gets : (Interpreter → A) → Handler A
  gets f s = (ok (f s), s)

  -- A method of the machine below
  abbrev pub on_vm : Action A → Handler A
  on_vm m s = let (r, vm) = m s.vm in (r, record s { vm = vm })

infixl 5 ◌>>=◌ ◌>>◌
abbrev pub ◌>>=◌ {ℓ κ} : {A : Type ℓ} {B : Type κ} → Handler A → (A → Handler B) → Handler B
◌>>=◌ m f s = let (r, s') = m s in elim r [ ok a ↦ f a s' | err e ↦ raise e s' ]

abbrev pub ◌>>◌ {ℓ} : {B : Type ℓ} → Handler (Unit {0}) → Handler B → Handler B
m >> k = m >>= λ _. k

abbrev pub reg : ℕ → Handler ℕ
reg r s = (ok (s.vm.registers r), s)

abbrev pub set : ℕ → ℕ → Handler (Unit {0})
set r v = on_vm (set_reg r v)

abbrev pub raise_if : Bool → Error → Handler (Unit {0})
raise_if c e s = (if c then err e else ok tt, s)

-- `read_bytes` of an identifier
abbrev pub read_id : ℕ → Handler Bytes32
read_id addr s = (read s.vm.memory addr 32, s)

-- `ContractId::zeroed`
abbrev pub zeroed : Bytes32
zeroed = replicate 32 0

abbrev pub or_zeroed : Option Bytes32 → Bytes32
or_zeroed none = zeroed
or_zeroed (some id) = id

unfoldable pub current_contract : Interpreter → Result (Option Bytes32)
current_contract s =
    if is_internal s.context
    then elim (read s.vm.memory (s.vm.registers Reg.fp) 32) [ ok id ↦ ok (some id) | err e ↦ err e ]
    else ok none

unfoldable pub internal_contract : Interpreter → Result Bytes32
unfolding current_contract
internal_contract s = elim (current_contract s) [
  | err e ↦ err e
  | ok none ↦ err (panic PanicReason.expected_internal_context)
  | ok (some id) ↦ ok id
]

-- `internal_contract(…).unwrap_or_default()`
unfoldable pub internal_contract_or_zeroed : Interpreter → Bytes32
unfolding internal_contract
internal_contract_or_zeroed s = elim (internal_contract s) [ ok id ↦ id | err e ↦ zeroed ]

unfoldable pub set_frame_pointer : ℕ → Handler (Unit {0})
set_frame_pointer fp s =
    set Reg.fp fp (record s { context = update_from_frame_pointer fp s.context })

unfoldable pub push_receipt : Parameters → Receipt → Handler (Unit {0})
push_receipt p receipt s = elim (Receipts.push p.sha256 p.to_bytes receipt s.receipts) [
  | ok ctx ↦ (ok tt, record s { receipts = ctx })
  | err e ↦ (err e, s)
]

unfoldable pub contains : List Bytes32 → Bytes32 → Bool
contains [] id = false
contains (x ∷ xs) id = if bytes_eq x id then true else contains xs id

-- `check_contract_in_inputs` of the verifier `Normal`
unfoldable pub check_contract_in_inputs : Bytes32 → Handler (Unit {0})
check_contract_in_inputs id s =
    if contains s.input_contracts id
    then (ok tt, s)
    else (err (panic PanicReason.contract_not_in_inputs), record s { panic_context = some id })

unfoldable pub external_asset_id_balance_sub : Bytes32 → ℕ → Handler (Unit {0})
external_asset_id_balance_sub asset_id value s =
    let (r, balances, memory) = checked_balance_sub asset_id value s.balances s.vm.memory in
    let s' = record s { balances = balances; vm = record s.vm { memory = memory } } in
    elim r [ some v ↦ (ok tt, s') | none ↦ (err (panic PanicReason.not_enough_balance), s') ]
