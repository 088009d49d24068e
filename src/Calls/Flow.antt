-- ===== src/Calls/Flow.antt =====
-- Calls, returns and reverts: fuel-vm/src/interpreter/flow.rs and their executors. `prepare_call` is
-- composed of the parts of its body. Frames stand with the last one first.
pub mod Return
pub mod Steps
pub mod Enter
pub mod Panics
mod Tests
use fuel_vm.Reg
use fuel_vm.Prelude.{
  ℕ, ◌+◌, ◌-◌, Bool, Option, none, some, List, [], ◌∷◌, ◌==◌, ◌||◌, if◌then◌else◌, min, length,
  replicate, checked_add, checked_sub, saturating_add,
}
use fuel_vm.Outcome.{Error, Result, ok, err, panic, bug, crash, PanicReason, BugVariant}
use fuel_vm.Merkle.{Digest}
use fuel_vm.Memory.{
  Slot, in_stack, in_heap, read, grow_stack, write_noownerchecks, copy_from_slice, MemoryInstance,
}
use fuel_vm.Vm
use fuel_vm.Vm.{CallFrame, Registers, on_memory}
use fuel_vm.Vm.Gas
use fuel_vm.Vm.Gas.{base_cost}
use fuel_vm.Calls.Receipts
use fuel_vm.Calls.Receipts.{Bytes32, PanicInstruction, Receipt}
use fuel_vm.Calls.Frame.{
  CallParams, call_len, call_try_from, padded_len, new_frame, serialized_size, frame_to_bytes,
  update_from_frame_pointer,
}
use fuel_vm.Calls.{
  Storage, Interpreter, Parameters, Handler, pure, raise, from_result, from_option, gets, on_vm,
  ◌>>=◌, ◌>>◌, reg, set, read_id, zeroed, or_zeroed, current_contract, internal_contract_or_zeroed,
  set_frame_pointer, push_receipt, check_contract_in_inputs,
}
use fuel_vm.Calls.Contract.{contract_size, forward_coins}

-- The registers of the frame, but for the gas, the result and the heap pointer
unfoldable pub restore : Registers → Registers → Registers
restore frame now r =
    if r == Reg.cgas || (r == Reg.ggas || (r == Reg.ret || (r == Reg.retl || r == Reg.hp)))
    then now r
    else frame r

unfoldable pub set_registers : Registers → Handler (Unit {0})
set_registers registers s = (ok tt, record s { vm = record s.vm { registers = registers } })

unfoldable pub set_frames : List CallFrame → Handler (Unit {0})
set_frames frames s = (ok tt, record s { vm = record s.vm { frames = frames } })

-- The first part of `return_from_context`
unfoldable pub leave_frame : List CallFrame → Handler (Unit {0})
unfolding set_registers set_frames
leave_frame [] = pure tt
leave_frame (frame ∷ rest) = do
  set_frames rest
  cgas ← reg Reg.cgas
  sum ←
      from_option (checked_add cgas (frame.registers Reg.cgas))
        (bug BugVariant.context_gas_overflow)
  set Reg.cgas sum
  now ← gets (λ s. s.vm.registers)
  set_registers (restore frame.registers now)
  fp ← reg Reg.fp
  set_frame_pointer fp

unfoldable pub return_from_context : Parameters → Receipt → Handler (Unit {0})
return_from_context p receipt = do
  frames ← gets (λ s. s.vm.frames)
  leave_frame frames
  push_receipt p receipt
  on_vm Vm.inc_pc

unfoldable pub ret : Parameters → ℕ → Handler (Unit {0})
ret p a = do
  r ← gets current_contract
  contract ← from_result r
  pc ← reg Reg.pc
  is ← reg Reg.is
  set Reg.ret a
  set Reg.retl 0
  return_from_context p (Receipt.return (or_zeroed contract) a pc is)

unfoldable pub ret_data : Parameters → ℕ → ℕ → Handler Digest
ret_data p a b = do
  r ← gets current_contract
  contract ← from_result r
  read_bytes ← gets (λ s. read s.vm.memory a b)
  bytes ← from_result read_bytes
  pc ← reg Reg.pc
  is ← reg Reg.is
  set Reg.ret a
  set Reg.retl b
  return_from_context p (
      Receipt.return_data (or_zeroed contract) a (length bytes) (p.sha256 bytes) pc is (some bytes))
  pure (p.sha256 bytes)

-- Outside a contract, and where its identifier cannot be read, the receipt has the zeroed one.
unfoldable pub revert : Parameters → ℕ → Handler (Unit {0})
revert p a = do
  contract ← gets (λ s. elim (current_contract s) [ ok id ↦ or_zeroed id | err e ↦ zeroed ])
  pc ← reg Reg.pc
  is ← reg Reg.is
  push_receipt p (Receipt.revert contract a pc is)

-- The receipt of a panic, with the contract that the context of the panic names. A receipt that is
-- refused stops the host.
unfoldable pub append_panic_receipt : Parameters → PanicInstruction → Handler (Unit {0})
append_panic_receipt p result s =
    let receipt =
      Receipt.panic (internal_contract_or_zeroed s) result (s.vm.registers Reg.pc)
        (s.vm.registers Reg.is) s.panic_context in
    elim (Receipts.push p.sha256 p.to_bytes receipt s.receipts) [
      | ok ctx ↦ (ok tt, record s { panic_context = none; receipts = ctx })
      | err e ↦ (err crash, record s { panic_context = none })
    ]

-- What `prepare_call` works on after it has read its operands
pub record Callee : Type 0 where
  pub call : CallParams
  pub asset_id : Bytes32
  pub code_size : ℕ
  pub code_size_padded : ℕ
  pub total_size : ℕ

unfoldable pub read_callee : ℕ → ℕ → Handler Callee
read_callee call_params_pointer asset_id_pointer = do
  read_bytes ← gets (λ s. read s.vm.memory call_params_pointer call_len)
  call_bytes ← from_result read_bytes
  call ← from_result (call_try_from call_bytes)
  asset_id ← read_id asset_id_pointer
  size ← gets (λ s. contract_size s.storage call.to)
  code_size ← from_result size
  padded ← from_option (padded_len code_size) (panic PanicReason.memory_overflow)
  total_size ← from_option (checked_add serialized_size padded) (bug BugVariant.code_size_overflow)
  pure (record {
    call = call;
    asset_id = asset_id;
    code_size = code_size;
    code_size_padded = padded;
    total_size = total_size;
  })

-- The gas that the callee gets is taken from the caller's.
unfoldable pub forward_gas : ℕ → Handler ℕ
forward_gas amount = do
  cgas ← reg Reg.cgas
  rest ← from_option (checked_sub cgas (min cgas amount)) (bug BugVariant.context_gas_underflow)
  set Reg.cgas rest
  pure (min cgas amount)

unfoldable pub split_at : ℕ → Slot → Slot × Slot
split_at n (in_stack a b) = (in_stack a (a + n), in_stack (a + n) b)
split_at n (in_heap a b) = (in_heap a (a + n), in_heap (a + n) b)

unfoldable pub read_contract : Storage → Bytes32 → Result (List ℕ)
read_contract storage contract = elim (storage.code contract) [
  | none ↦ err (panic PanicReason.contract_not_found)
  | some code ↦ ok code
]

unfoldable pub fill : Slot → List ℕ → Handler (Unit {0})
fill slot bytes = on_vm (on_memory (λ memory. copy_from_slice memory slot bytes))

-- The frame, the code and the padding behind the old stack
unfoldable pub write_frame : CallFrame → Callee → Handler (Unit {0})
unfolding split_at
write_frame frame callee = do
  fp ← reg Reg.fp
  r ← gets (λ s. write_noownerchecks s.vm.memory fp callee.total_size)
  dst ← from_result r
  let (mem_frame, rest) = split_at serialized_size dst
  fill mem_frame (frame_to_bytes frame)
  let (mem_code, mem_code_padding) = split_at callee.code_size rest
  c ← gets (λ s. read_contract s.storage callee.call.to)
  code ← from_result c
  fill mem_code code
  fill mem_code_padding (replicate (callee.code_size_padded - callee.code_size) 0)

-- The new frame on the stack
unfoldable pub set_stack : ℕ → Handler (Unit {0})
set_stack new_sp = do set Reg.sp new_sp; set Reg.ssp new_sp

unfoldable pub enter_frame : CallFrame → Callee → Handler Bytes32
unfolding set_stack
enter_frame frame callee = do
  old_sp ← reg Reg.sp
  let new_sp = saturating_add old_sp callee.total_size
  on_vm (on_memory (λ memory. grow_stack memory new_sp))
  set_stack new_sp
  id ← gets internal_contract_or_zeroed
  set_frame_pointer old_sp
  write_frame frame callee
  pure id

unfoldable pub set_start : ℕ → ℕ → Handler ℕ
set_start amount gas = do
  fp ← reg Reg.fp
  let code_start = fp + serialized_size
  set Reg.pc code_start
  set Reg.bal amount
  set Reg.is code_start
  set Reg.cgas gas
  set Reg.flag 0
  pure code_start

unfoldable pub start_code : Parameters → CallFrame → Callee → Bytes32 → ℕ → ℕ → Handler (Unit {0})
unfolding set_start set_frames
start_code p frame callee id amount gas = do
  code_start ← set_start amount gas
  push_receipt p (
      Receipt.call id callee.call.to amount callee.asset_id gas callee.call.a callee.call.b
        code_start code_start)
  frames ← gets (λ s. s.vm.frames)
  set_frames (frame ∷ frames)

unfoldable pub new_call_frame : Callee → Handler CallFrame
new_call_frame callee = do
  registers ← gets (λ s. s.vm.registers)
  from_option
      (new_frame callee.call.to callee.asset_id registers callee.code_size_padded callee.call.a
        callee.call.b)
      (panic PanicReason.memory_overflow)

unfoldable pub prepare_call : Parameters → ℕ → ℕ → ℕ → ℕ → Handler (Unit {0})
prepare_call p call_params_pointer amount asset_id_pointer gas_limit = do
  on_vm (Gas.gas_charge (base_cost p.call))
  r ← gets current_contract
  source ← from_result r
  callee ← read_callee call_params_pointer asset_id_pointer
  on_vm (Gas.dependent_gas_charge_without_base p.call callee.code_size_padded)
  forward_coins p source callee.call.to callee.asset_id amount
  gas ← forward_gas gas_limit
  frame ← new_call_frame callee
  id ← enter_frame frame callee
  start_code p frame callee id amount gas

-- The executors of CALL, RET, RETD and RVRT
unfoldable pub execute_call : Parameters → ℕ → ℕ → ℕ → ℕ → Handler (Unit {0})
execute_call p a b c d = do
  ra ← reg a
  rb ← reg b
  rc ← reg c
  rd ← reg d
  prepare_call p ra rb rc rd

unfoldable pub execute_ret : Parameters → ℕ → Handler ℕ
execute_ret p a = do on_vm (Gas.gas_charge p.ret); ra ← reg a; ret p ra; pure ra

unfoldable pub execute_retd : Parameters → ℕ → ℕ → Handler Digest
execute_retd p a b = do
  len ← reg b
  on_vm (Gas.dependent_gas_charge p.retd len)
  ra ← reg a
  ret_data p ra len

unfoldable pub execute_rvrt : Parameters → ℕ → Handler ℕ
execute_rvrt p a = do on_vm (Gas.gas_charge p.rvrt); ra ← reg a; revert p ra; pure ra
