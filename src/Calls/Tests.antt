-- ===== src/Calls/Tests.antt =====
-- The theorems on receipts and balances, at small concrete states.
use fuel_vm.Reg
use fuel_vm.Prelude.{
  ◌-◌, ◌≤◌, ◌<◌, ◌≡◌, refl, true, false, none, some, [], ◌∷◌, ◌++◌, ◌⊎◌, inl, arith, length,
  replicate, to_be_bytes, if◌then◌else◌, ◌==◌, if◌then◌else◌, saturating_add, saturating_mul, take,
  drop, slice, map,
}
use fuel_vm.Outcome.{Error, ok, err, PanicReason, BugVariant}
use fuel_vm.Memory.{MemoryInstance, mem_size, read}
use fuel_vm.Memory.Valid.{IsValid}
use fuel_vm.Memory.Access.{BytesAt, read-ok}
use fuel_vm.Merkle
use fuel_vm.Merkle.Reference.{IsRoot}
use fuel_vm.Merkle.Position
use fuel_vm.Vm.{Vm}
use fuel_vm.Calls.{Interpreter, zeroed}
use fuel_vm.Calls.Receipts.{
  Receipt, ReceiptsCtx, empty_receipts, max_receipts, PanicInstruction, ScriptExecutionResult,
  slot_reserved, push, push_each, ctx_root,
}
use fuel_vm.Calls.Receipts.InSync.{InSync, empty-InSync, leaf_hash, push_lem}
use fuel_vm.Calls.Receipts.Ending.{end_of_script_lem}
use fuel_vm.Calls.Balances.{
  Balance, RuntimeBalances, Changed, get, set_value, checked_balance_sub, try_from_iter, to_vm,
}
use fuel_vm.Calls.Balances
use fuel_vm.Calls.Balances.Synced.{IsMirrored, Unavailable, Subtracted, checked_balance_sub_lem}
use fuel_vm.Calls.Receipts.{Bytes32}
use fuel_vm.Calls.Coins.{free}
use fuel_vm.Calls.Balances.Totals.{total}
use fuel_vm.Calls.Balances.Written.{places, to_vm-IsMirrored, AllIds}
use fuel_vm.Calls.Flow.{append_panic_receipt}
use fuel_vm.Calls.Flow.Panics.{panic_receipt, append_panic_receipt_lem}
use fuel_vm.Calls.Examples.{empty_hash, empty_bytes, parameters, caller}

abbrev log_receipt : Receipt
log_receipt = Receipt.log zeroed 1 2 3 4 0 0

abbrev out_of_gas : PanicInstruction
out_of_gas = record { reason = PanicReason.out_of_gas; instruction = 0 }

abbrev logged : ReceiptsCtx
logged = record {
  receipts = log_receipt ∷ [];
  receipts_tree = record { position = 0; hash = [] } ∷ [];
}

logs : push_each empty_hash empty_bytes (log_receipt ∷ []) empty_receipts ≡ ok logged
unfolding push_each push slot_reserved Merkle.push Merkle.create_leaf_with_hash Merkle.leaf_sum
    Merkle.push_node Merkle.push_with_callback Merkle.propagate Merkle.create_leaf
    Position.from_leaf_index
logs = refl

push_lem_example :
    ((0 ≡ max_receipts)
      × (push empty_hash empty_bytes log_receipt empty_receipts
          ≡ err (Error.bug BugVariant.receipts_ctx_full)))
    ⊎ ((0 < max_receipts)
        × (slot_reserved 0 log_receipt ≡ true)
        × (push empty_hash empty_bytes log_receipt empty_receipts
            ≡ err (Error.panic PanicReason.too_many_receipts)))
    ⊎ ((slot_reserved 0 log_receipt ≡ false)
        × ((next : ReceiptsCtx) × (push empty_hash empty_bytes log_receipt empty_receipts ≡ ok next)
            × InSync empty_hash empty_bytes next
            × ((hash : Merkle.Digest) × (ctx_root empty_hash empty_bytes next ≡ ok hash)
                × IsRoot empty_hash
                    (map (leaf_hash empty_hash empty_bytes) (log_receipt ∷ []))
                    hash)))
push_lem_example =
    push_lem empty_hash empty_bytes log_receipt empty_receipts (empty-InSync empty_hash empty_bytes)

end_of_script_lem_example :
    (last : ReceiptsCtx) × (push_each empty_hash empty_bytes
        (Receipt.panic zeroed out_of_gas 0 0 none
          ∷ Receipt.script_result ScriptExecutionResult.panic 9
          ∷ [])
        logged
      ≡ ok last)
    × InSync empty_hash empty_bytes last
end_of_script_lem_example =
    end_of_script_lem empty_hash empty_bytes (log_receipt ∷ []) zeroed out_of_gas 0 0 none
      ScriptExecutionResult.panic 9 ((refl, refl), tt) logs

-- Seven coins of an asset, and their copy behind the first 64 bytes
abbrev seven : RuntimeBalances
seven = (zeroed, record { value = 7; offset = 64 }) ∷ []

abbrev mirror : MemoryInstance
mirror = record { stack = replicate 96 0 ++ to_be_bytes 8 7; heap = []; hp = mem_size }

length-mirror : length mirror.stack ≡ 104
unfolding replicate to_be_bytes
length-mirror = refl

mirror-IsValid : IsValid mirror
mirror-IsValid = omega (arith, length-mirror)

mirror_bytes : BytesAt mirror 96 8 (to_be_bytes 8 7)
unfolding replicate to_be_bytes slice take drop read
mirror_bytes = (read-ok mirror 96 8 mirror-IsValid (omega arith, inl (omega arith))).1

mirror_id : BytesAt mirror 64 32 zeroed
unfolding replicate slice take drop read to_be_bytes
mirror_id = (read-ok mirror 64 32 mirror-IsValid (omega arith, inl (omega arith))).1

mirror-IsMirrored : IsMirrored 64 seven mirror
unfolding replicate
mirror-IsMirrored = record {
  valid = mirror-IsValid;
  layout = (refl, omega arith, omega (arith, length-mirror), tt);
  synced = (mirror_id, mirror_bytes, tt);
}

checked_balance_sub_lem_example :
    ((b : Balance) × (get zeroed seven ≡ some b)
      × (5 ≤ b.value)
      × Subtracted 64 zeroed (b.value - 5) seven mirror (checked_balance_sub zeroed 5 seven mirror))
    ⊎ (Unavailable zeroed 5 seven
        × (checked_balance_sub zeroed 5 seven mirror ≡ (none, seven, mirror)))
checked_balance_sub_lem_example = checked_balance_sub_lem 64 zeroed 5 seven mirror mirror-IsMirrored

abbrev fresh : Vm
fresh = record {
  registers = λ r. if r == Reg.ssp then 64 else 0;
  memory = record { stack = replicate 64 0; heap = []; hp = mem_size };
  frames = [];
}

seven_made : try_from_iter ((zeroed, 7) ∷ []) ≡ some seven
unfolding try_from_iter Balances.fold_entries Balances.add_to_entry get Balances.insert_new
    Balances.entry_offset saturating_add saturating_mul Balances.sorted_by_key
    Balances.insert_sorted
seven_made = refl

fresh-IsValid : IsValid fresh.memory
unfolding replicate
fresh-IsValid = omega arith

ids : AllIds ((zeroed, 7) ∷ [])
unfolding replicate
ids = (refl, tt)

to_vm-IsMirrored_example :
    (vm : Vm) × (to_vm 8 seven fresh ≡ ok vm)
    × (vm.registers Reg.ssp ≡ places 8)
    × IsMirrored 64 seven vm.memory
    × ((asset : Bytes32) → free seven asset ≡ total asset ((zeroed, 7) ∷ []))
to_vm-IsMirrored_example =
    to_vm-IsMirrored ((zeroed, 7) ∷ []) 8 fresh ids (omega arith) seven_made fresh-IsValid refl
      (omega arith)

abbrev logged_state : Interpreter
logged_state = record caller { receipts = logged; panic_context = some zeroed }

append_panic_receipt_lem_example :
    (t : Interpreter) × (append_panic_receipt parameters out_of_gas logged_state ≡ (ok tt, t))
    × (t.receipts.receipts ≡ logged.receipts ++ (panic_receipt out_of_gas logged_state ∷ []))
    × InSync empty_hash empty_bytes t.receipts
    × (t.panic_context ≡ none)
    × (t.vm ≡ logged_state.vm)
append_panic_receipt_lem_example =
    append_panic_receipt_lem parameters out_of_gas logged_state (log_receipt ∷ [])
      ((refl, refl), tt) logs
