-- ===== src/Calls/Flow/Tests.antt =====
-- The theorems on calls, transfers and mints, at small concrete states.
use fuel_vm.Reg
use fuel_vm.Prelude.{
  ◌∷◌, ℕ, ◌+◌, ◌≤◌, ◌≡◌, ◌≢◌, refl, [], arith, replicate, to_be_bytes, word_max, saturating_add,
  saturating_mul, take, drop, from_be_bytes, from_be_bytes_onto, resize, slice, overwrite,
}
use fuel_vm.Outcome.{ok}
use fuel_vm.Memory.{
  to_addr, read, verify, heap_offset, grow_stack, write_noownerchecks, copy_from_slice,
  write_bytes_noownerchecks,
}
use fuel_vm.Memory.Rollback.{bytes_eq}
use fuel_vm.Merkle
use fuel_vm.Merkle.Position
use fuel_vm.Vm.{Vm, CallFrame, instruction_size}
use fuel_vm.Vm
use fuel_vm.Vm.Gas
use fuel_vm.Vm.Gas.{DependentCost}
use fuel_vm.Calls
use fuel_vm.Calls.{Interpreter, Parameters, Storage, zeroed}
use fuel_vm.Calls.Receipts.{Receipt, ReceiptsCtx, empty_receipts, slot_reserved, push}
use fuel_vm.Calls.Balances.{
  Balance, RuntimeBalances, Changed, get, set_value, checked_balance_sub, try_from_iter, to_vm,
}
use fuel_vm.Calls.Balances
use fuel_vm.Calls.Frame.{Context}
use fuel_vm.Calls.Frame
use fuel_vm.Calls.Contract
use fuel_vm.Calls.Contract.{transfer}
use fuel_vm.Calls.Mint
use fuel_vm.Calls.Mint.{mint, burn, asset_id}
use fuel_vm.Calls.Mint.Supply.{Named, Added, burn-mint}
use fuel_vm.Calls.Contract.{balance}
use fuel_vm.Calls.Flow.{append_panic_receipt}
use fuel_vm.Calls.Receipts.{Bytes32}
use fuel_vm.Calls.Transfer.{Transferred, transfer_lem}
use fuel_vm.Calls.Flow
use fuel_vm.Calls.Flow.{prepare_call, return_from_context}
use fuel_vm.Calls.Flow.Enter.{Entered, prepare_call_lem, prepare_call-return_from_context}
use fuel_vm.Calls.Examples.{empty_hash, empty_bytes, parameters, caller_registers, caller}

caller_calls : (prepare_call parameters 0 5 100 1000 caller).0 ≡ ok tt
unfolding prepare_call Gas.gas_charge Calls.current_contract Frame.is_internal Flow.read_callee read
    verify replicate Frame.call_try_from slice take drop Contract.contract_size Frame.padded_len
    Gas.dependent_gas_charge_without_base Gas.resolve_without_base Contract.forward_coins
    Contract.debit checked_balance_sub get Balances.set_memory_balance_inner set_value
    Balances.store_balance Contract.balance Contract.balance_decrease Contract.balance_increase
    Contract.balance_insert Contract.charge_new_entry Flow.enter_frame Flow.fill Flow.forward_gas
    Flow.new_call_frame Flow.read_contract Flow.set_frames Flow.set_stack Flow.set_start
    Flow.split_at Flow.start_code Flow.write_frame Frame.frame_to_bytes Frame.is_external
    Frame.new_frame Frame.registers_to_bytes Frame.update_from_frame_pointer push slot_reserved
    Calls.check_contract_in_inputs Calls.contains Calls.external_asset_id_balance_sub
    Calls.internal_contract Calls.internal_contract_or_zeroed Calls.push_receipt
    Calls.set_frame_pointer bytes_eq copy_from_slice grow_stack heap_offset to_addr
    write_bytes_noownerchecks write_noownerchecks Position.from_leaf_index Position.height
    Position.parent Position.trailing_ones Merkle.create_leaf Merkle.create_leaf_with_hash
    Merkle.create_node Merkle.leaf_sum Merkle.node_sum Merkle.propagate Merkle.push Merkle.push_node
    Merkle.push_with_callback overwrite resize from_be_bytes from_be_bytes_onto saturating_add
    saturating_mul to_be_bytes
caller_calls = refl

caller_transfers : (transfer parameters 0 5 100 caller).0 ≡ ok tt
unfolding transfer read verify replicate Calls.check_contract_in_inputs Calls.contains bytes_eq
    slice take drop Contract.source_contract Calls.internal_contract Frame.is_internal
    Contract.debit Calls.external_asset_id_balance_sub checked_balance_sub get
    Balances.store_balance Balances.set_memory_balance_inner set_value Contract.balance
    Contract.balance_decrease Contract.balance_increase Contract.balance_insert
    Contract.charge_new_entry Frame.is_external push slot_reserved Calls.current_contract
    Calls.push_receipt copy_from_slice heap_offset to_addr write_bytes_noownerchecks
    write_noownerchecks Position.from_leaf_index Position.height Position.parent
    Position.trailing_ones Merkle.create_leaf Merkle.create_leaf_with_hash Merkle.create_node
    Merkle.leaf_sum Merkle.node_sum Merkle.propagate Merkle.push Merkle.push_node
    Merkle.push_with_callback overwrite saturating_add saturating_mul to_be_bytes Gas.gas_charge
    Vm.inc_pc
caller_transfers = refl

abbrev called : Interpreter
called = (prepare_call parameters 0 5 100 1000 caller).1

prepare_call_lem_example : (frame : CallFrame) × Entered 5 caller called frame
prepare_call_lem_example = prepare_call_lem parameters 0 5 100 1000 caller caller_calls

transfer_lem_example : Transferred 0 5 100 caller (transfer parameters 0 5 100 caller).1
transfer_lem_example = transfer_lem parameters 0 5 100 caller caller_transfers

abbrev returned_zero : Receipt
returned_zero = Receipt.return zeroed 0 0 0

callee_gas : called.vm.registers Reg.cgas + caller.vm.registers Reg.cgas ≤ word_max
unfolding prepare_call Gas.gas_charge Calls.current_contract Frame.is_internal Flow.read_callee read
    verify replicate Frame.call_try_from slice take drop Contract.contract_size Frame.padded_len
    Gas.dependent_gas_charge_without_base Gas.resolve_without_base Contract.forward_coins
    Contract.debit checked_balance_sub get Balances.set_memory_balance_inner set_value
    Balances.store_balance Contract.balance Contract.balance_decrease Contract.balance_increase
    Contract.balance_insert Contract.charge_new_entry Flow.enter_frame Flow.fill Flow.forward_gas
    Flow.new_call_frame Flow.read_contract Flow.set_frames Flow.set_stack Flow.set_start
    Flow.split_at Flow.start_code Flow.write_frame Frame.frame_to_bytes Frame.is_external
    Frame.new_frame Frame.registers_to_bytes Frame.update_from_frame_pointer push slot_reserved
    Calls.check_contract_in_inputs Calls.contains Calls.external_asset_id_balance_sub
    Calls.internal_contract Calls.internal_contract_or_zeroed Calls.push_receipt
    Calls.set_frame_pointer bytes_eq copy_from_slice grow_stack heap_offset to_addr
    write_bytes_noownerchecks write_noownerchecks Position.from_leaf_index Position.height
    Position.parent Position.trailing_ones Merkle.create_leaf Merkle.create_leaf_with_hash
    Merkle.create_node Merkle.leaf_sum Merkle.node_sum Merkle.propagate Merkle.push Merkle.push_node
    Merkle.push_with_callback overwrite resize from_be_bytes from_be_bytes_onto saturating_add
    saturating_mul to_be_bytes
callee_gas = omega arith

returns_fit :
    (ctx : ReceiptsCtx) × (push empty_hash empty_bytes returned_zero called.receipts ≡ ok ctx)
unfolding prepare_call Gas.gas_charge Calls.current_contract Frame.is_internal Flow.read_callee read
    verify replicate Frame.call_try_from slice take drop Contract.contract_size Frame.padded_len
    Gas.dependent_gas_charge_without_base Gas.resolve_without_base Contract.forward_coins
    Contract.debit checked_balance_sub get Balances.set_memory_balance_inner set_value
    Balances.store_balance Contract.balance Contract.balance_decrease Contract.balance_increase
    Contract.balance_insert Contract.charge_new_entry Flow.enter_frame Flow.fill Flow.forward_gas
    Flow.new_call_frame Flow.read_contract Flow.set_frames Flow.set_stack Flow.set_start
    Flow.split_at Flow.start_code Flow.write_frame Frame.frame_to_bytes Frame.is_external
    Frame.new_frame Frame.registers_to_bytes Frame.update_from_frame_pointer push slot_reserved
    Calls.check_contract_in_inputs Calls.contains Calls.external_asset_id_balance_sub
    Calls.internal_contract Calls.internal_contract_or_zeroed Calls.push_receipt
    Calls.set_frame_pointer bytes_eq copy_from_slice grow_stack heap_offset to_addr
    write_bytes_noownerchecks write_noownerchecks Position.from_leaf_index Position.height
    Position.parent Position.trailing_ones Merkle.create_leaf Merkle.create_leaf_with_hash
    Merkle.create_node Merkle.leaf_sum Merkle.node_sum Merkle.propagate Merkle.push Merkle.push_node
    Merkle.push_with_callback overwrite resize from_be_bytes from_be_bytes_onto saturating_add
    saturating_mul to_be_bytes
returns_fit = (_, refl)

prepare_call-return_from_context_example :
    (u : Interpreter) × (return_from_context parameters returned_zero called ≡ (ok tt, u))
    × (u.vm.frames ≡ [])
    × (u.vm.registers Reg.pc ≡ 0 + instruction_size)
    × ((r : ℕ)
        → r ≢ Reg.pc
        → r ≢ Reg.cgas
        → r ≢ Reg.ggas
        → r ≢ Reg.ret
        → r ≢ Reg.retl
        → r ≢ Reg.hp
        → u.vm.registers r ≡ caller_registers r)
    × (u.vm.registers Reg.cgas + called.vm.registers Reg.cgas ≤ 5000 + called.vm.registers Reg.cgas)
    × (u.vm.registers Reg.ggas ≡ called.vm.registers Reg.ggas)
    × ((frame : CallFrame) × (called.vm.frames ≡ frame ∷ [])
        × (u.vm.registers Reg.cgas ≡ called.vm.registers Reg.cgas + frame.registers Reg.cgas)
        × (called.vm.registers Reg.cgas + frame.registers Reg.cgas + 6000
            ≡ 5000 + frame.registers Reg.ggas))
prepare_call-return_from_context_example =
    prepare_call-return_from_context parameters 0 5 100 1000 caller called returned_zero
      caller_calls refl callee_gas (omega arith) returns_fit.1

-- The zeroed contract runs, with its frame at address 0.
abbrev minter : Interpreter
minter = record caller { context = Context.call 1 }

minter-Named : Named 100 minter zeroed zeroed
unfolding Calls.internal_contract Calls.current_contract Frame.is_internal Frame.is_external read
    verify replicate slice take drop
minter-Named = record { running = refl; sub_read = refl }

mints : (mint parameters 5 100 minter).0 ≡ ok tt
unfolding mint Mint.add_coins asset_id read verify replicate Calls.check_contract_in_inputs
    Calls.contains bytes_eq slice take drop Contract.source_contract Calls.internal_contract
    Frame.is_internal Contract.debit Calls.external_asset_id_balance_sub checked_balance_sub get
    Balances.store_balance Balances.set_memory_balance_inner set_value Contract.balance
    Contract.balance_decrease Contract.balance_increase Contract.balance_insert
    Contract.charge_new_entry Frame.is_external push slot_reserved Calls.current_contract
    Calls.push_receipt copy_from_slice heap_offset to_addr write_bytes_noownerchecks
    write_noownerchecks Position.from_leaf_index Position.height Position.parent
    Position.trailing_ones Merkle.create_leaf Merkle.create_leaf_with_hash Merkle.create_node
    Merkle.leaf_sum Merkle.node_sum Merkle.propagate Merkle.push Merkle.push_node
    Merkle.push_with_callback overwrite saturating_add saturating_mul to_be_bytes Gas.gas_charge
    Vm.inc_pc
mints = refl

abbrev minted_state : Interpreter
minted_state = record minter { storage = (mint parameters 5 100 minter).1.storage }

minted_state-Named : Named 100 minted_state zeroed zeroed
unfolding Calls.internal_contract Calls.current_contract Frame.is_internal Frame.is_external read
    verify replicate slice take drop
minted_state-Named = record { running = refl; sub_read = refl }

burns_fit :
    (ctx : ReceiptsCtx) × (push empty_hash empty_bytes
        (Receipt.burn zeroed zeroed 5 0 0)
        empty_receipts
      ≡ ok ctx)
unfolding push slot_reserved Merkle.push Merkle.create_leaf_with_hash Merkle.leaf_sum
    Merkle.push_node Merkle.push_with_callback Merkle.propagate Merkle.create_leaf
    Position.from_leaf_index
burns_fit = (_, refl)

burn-mint_example :
    Added zeroed (asset_id parameters zeroed zeroed) 5 minter minted_state
    × ((u : Interpreter) × (burn parameters 5 100 minted_state ≡ (ok tt, u))
        × ((c a : Bytes32) → balance u.storage c a ≡ balance minter.storage c a))
burn-mint_example =
    burn-mint parameters 5 100 minter minted_state minter-Named mints minted_state-Named refl
      (omega arith) burns_fit.1
