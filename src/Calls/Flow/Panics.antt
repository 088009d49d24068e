-- ===== src/Calls/Flow/Panics.antt =====
-- That the receipt of a panic can be appended: `append_panic_receipt` of
-- fuel-vm/src/interpreter/flow.rs.
use fuel_vm.Reg
use fuel_vm.Prelude.{◌≡◌, refl, List, [], ◌∷◌, ◌++◌, none, arith, length}
use fuel_vm.Outcome.{ok}
use fuel_vm.Calls.Receipts.{Receipt, PanicInstruction, empty_receipts, push_each}
use fuel_vm.Calls.Receipts.Ending.{AllOrdinary, push_each-room, panic_slot}
use fuel_vm.Calls.Receipts.InSync.{InSync, empty-InSync, push-InSync}
use fuel_vm.Calls.{Interpreter, Parameters, internal_contract_or_zeroed}
use fuel_vm.Calls.Flow.{append_panic_receipt}

abbrev pub panic_receipt : PanicInstruction → Interpreter → Receipt
panic_receipt result s =
    Receipt.panic (internal_contract_or_zeroed s) result (s.vm.registers Reg.pc)
      (s.vm.registers Reg.is) s.panic_context

-- Whatever receipts a program has pushed, none of them a panic or a result of the script, the receipt
-- of its panic can be appended, with the contract and the registers of the panic and the contract
-- that its context names, so the host does not stop. The context of the panic is cleared, the
-- machine stays, and the tree stays in step with the receipts.
pub append_panic_receipt_lem :
    (p : Parameters) (result : PanicInstruction) (s : Interpreter) (receipts : List Receipt)
    → AllOrdinary receipts
    → push_each p.sha256 p.to_bytes receipts empty_receipts ≡ ok s.receipts
    → (t : Interpreter) × (append_panic_receipt p result s ≡ (ok tt, t))
      × (t.receipts.receipts ≡ s.receipts.receipts ++ (panic_receipt result s ∷ []))
      × InSync p.sha256 p.to_bytes t.receipts
      × (t.panic_context ≡ none)
      × (t.vm ≡ s.vm)
unfolding append_panic_receipt
append_panic_receipt_lem p result s receipts o e =
    let (sync, room) =
      push_each-room p.sha256 p.to_bytes receipts empty_receipts (empty-InSync p.sha256 p.to_bytes)
        o (omega arith) e in
    let (ctx, f, next, r) =
      push-InSync p.sha256 p.to_bytes (panic_receipt result s) s.receipts sync (
        omega arith,
        panic_slot (length s.receipts.receipts) (internal_contract_or_zeroed s) result
            (s.vm.registers Reg.pc) (s.vm.registers Reg.is) s.panic_context room,
      ) in
    (
      record s { panic_context = none; receipts = ctx },
      rw (f, append_panic_receipt) refl,
      r,
      next,
      refl,
      refl,
    )
