-- ===== src/Calls/Receipts/Ending.antt =====
-- The slots that `ReceiptsCtx` (fuel-vm/src/interpreter/receipts.rs) keeps for the end of a script.
use fuel_vm.Prelude.{
  ℕ, ◌+◌, ◌-◌, ◌≤◌, ◌<◌, ◌≡◌, refl, ap, subst, true, false, Option, List, [], ◌∷◌, length,
  length-append, arith, inl, inr,
}
use fuel_vm.Outcome.{Error, ok, err, PanicReason, >>=-ok}
use fuel_vm.Merkle.{Digest}
use fuel_vm.Calls.Receipts.{
  Bytes32, PanicInstruction, ScriptExecutionResult, Receipt, ReceiptsCtx, empty_receipts,
  max_receipts, is_script_result, is_panic, slot_reserved, push, push_each,
}
use fuel_vm.Calls.Receipts.InSync.{InSync, empty-InSync, below_test, slot_cases, push-InSync}

-- Neither a panic nor the result of the script
abbrev pub IsOrdinary : Receipt → Type 0
IsOrdinary receipt = (is_panic receipt ≡ false) × (is_script_result receipt ≡ false)

abbrev pub AllOrdinary : List Receipt → Type 0
AllOrdinary [] = Unit
AllOrdinary (receipt ∷ receipts) = IsOrdinary receipt × AllOrdinary receipts

ordinary_room :
    (n : ℕ) (receipt : Receipt)
    → IsOrdinary receipt
    → slot_reserved n receipt ≡ false
    → n ≤ max_receipts - 2
    → n < max_receipts - 2
unfolding slot_reserved
ordinary_room n receipt o p h = ground arith

pub panic_slot :
    (n : ℕ) (id : Bytes32) (reason : PanicInstruction) (pc is : ℕ) (contract_id : Option Bytes32)
    → n ≤ max_receipts - 2
    → slot_reserved n (Receipt.panic id reason pc is contract_id) ≡ false
unfolding slot_reserved
panic_slot n id reason pc is contract_id h = ground arith

result_slot :
    (n : ℕ) (result : ScriptExecutionResult) (gas_used : ℕ)
    → slot_reserved n (Receipt.script_result result gas_used) ≡ false
unfolding slot_reserved
result_slot n result gas_used = ground arith

module _ (sha256 : List ℕ → Digest) (to_bytes : Receipt → List ℕ) where
  refused :
      (receipt : Receipt) (ctx : ReceiptsCtx) {next : ReceiptsCtx}
      → length ctx.receipts < max_receipts
      → slot_reserved (length ctx.receipts) receipt ≡ true
      → push sha256 to_bytes receipt ctx ≡ ok next
      → ⊥
  unfolding push
  refused receipt ctx {next} l p e =
      let r : push sha256 to_bytes receipt ctx ≡ err (Error.panic PanicReason.too_many_receipts) =
        rw (below_test sha256 to_bytes (length ctx.receipts) l, p) refl in
      cc (e, r)

  -- An ordinary receipt leaves the last two slots free.
  push-room :
      (receipt : Receipt) (ctx : ReceiptsCtx) {next : ReceiptsCtx}
      → InSync sha256 to_bytes ctx
      → IsOrdinary receipt
      → length ctx.receipts ≤ max_receipts - 2
      → push sha256 to_bytes receipt ctx ≡ ok next
      → InSync sha256 to_bytes next × (length next.receipts ≤ max_receipts - 2)
  push-room receipt ctx {next} s o h e = elim (slot_cases sha256 to_bytes ctx receipt s) [
    | inl full ↦ absurd (omega arith)
    | inr (inl (l, p)) ↦ absurd (refused receipt ctx l p e)
    | inr (inr f) ↦
        let (next', e', t, r) = push-InSync sha256 to_bytes receipt ctx s f in
        let same : next' ≡ next = cc in
        let room = ordinary_room (length ctx.receipts) receipt o f.1 h in
        (
          subst (λ c. InSync sha256 to_bytes c) same t,
          subst (λ c. length c.receipts ≤ max_receipts - 2) same
              (omega (arith, ap length r, length-append ctx.receipts (receipt ∷ []))),
        )
  ]

  pub push_each-room :
      (receipts : List Receipt) (ctx : ReceiptsCtx) {next : ReceiptsCtx}
      → InSync sha256 to_bytes ctx
      → AllOrdinary receipts
      → length ctx.receipts ≤ max_receipts - 2
      → push_each sha256 to_bytes receipts ctx ≡ ok next
      → InSync sha256 to_bytes next × (length next.receipts ≤ max_receipts - 2)
  unfolding push_each
  push_each-room [] ctx {next} s o h e =
      let same : ctx ≡ next = cc in
      subst (λ c. InSync sha256 to_bytes c × (length c.receipts ≤ max_receipts - 2)) same (s, h)
  push_each-room (receipt ∷ receipts) ctx s o h e =
      let (c, f, g) = >>=-ok _ (push sha256 to_bytes receipt ctx) e in
      let (t, room) = push-room receipt ctx s o.0 h g in push_each-room receipts c t o.1 room f

  -- However many receipts a program has pushed before, none of them a panic or a result of the
  -- script, a panic and the result of the script can be pushed after them.
  pub end_of_script_lem :
      (receipts : List Receipt) {ctx : ReceiptsCtx} (id : Bytes32) (reason : PanicInstruction)
      (pc is : ℕ) (contract_id : Option Bytes32) (result : ScriptExecutionResult) (gas_used : ℕ)
      → AllOrdinary receipts
      → push_each sha256 to_bytes receipts empty_receipts ≡ ok ctx
      → (last : ReceiptsCtx) × (push_each sha256 to_bytes
            (Receipt.panic id reason pc is contract_id ∷ Receipt.script_result result gas_used ∷ [])
            ctx
          ≡ ok last)
        × InSync sha256 to_bytes last
  unfolding push_each
  end_of_script_lem receipts {ctx} id reason pc is contract_id result gas_used o e =
      let (s, room) =
        push_each-room receipts empty_receipts (empty-InSync sha256 to_bytes) o (omega arith) e in
      let (c, f, t, r) =
        push-InSync sha256 to_bytes (Receipt.panic id reason pc is contract_id) ctx s
          (omega arith, panic_slot (length ctx.receipts) id reason pc is contract_id room) in
      let n : length c.receipts ≡ length ctx.receipts + 1 = omega (
        arith,
        ap length r,
        length-append ctx.receipts (Receipt.panic id reason pc is contract_id ∷ []),
      ) in
      let (last, g, u, q) =
        push-InSync sha256 to_bytes (Receipt.script_result result gas_used) c t
          (omega arith, result_slot (length c.receipts) result gas_used) in
      (last, rw (f) (rw (g) refl), u)
