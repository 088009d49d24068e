-- ===== src/Calls/Receipts.antt =====
-- `ReceiptsCtx` (fuel-vm/src/interpreter/receipts.rs) and `Receipt` (fuel-tx/src/receipt.rs). The
-- bytes of a receipt, which a derive macro writes, are a parameter, as SHA-256 is.
pub mod InSync
pub mod Ending
use fuel_vm.Prelude.{
  ℕ, ◌-◌, Bool, true, false, Option, List, [], ◌∷◌, ◌++◌, ◌==◌, ◌&&◌, ◌||◌, not, if◌then◌else◌,
  length,
}
use fuel_vm.Outcome.{Error, Result, ok, err, PanicReason, BugVariant, ◌>>=◌}
use fuel_vm.Merkle
use fuel_vm.Merkle.{Digest, Node}

-- A contract, an asset, an address: its bytes
abbrev pub Bytes32 : Type 0
Bytes32 = List ℕ

pub data ScriptExecutionResult : Type 0 where
  success revert panic : ScriptExecutionResult
  generic_failure : ℕ → ScriptExecutionResult

pub record PanicInstruction : Type 0 where
  pub reason : PanicReason
  pub instruction : ℕ

pub data Receipt : Type 0 where
  call : (id to : Bytes32) (amount : ℕ) (asset_id : Bytes32) (gas param1 param2 pc is : ℕ) → Receipt
  return : (id : Bytes32) (val pc is : ℕ) → Receipt
  return_data :
      (id : Bytes32) (ptr len : ℕ) (digest : Digest) (pc is : ℕ) (bytes : Option (List ℕ)) → Receipt
  panic :
      (id : Bytes32) (reason : PanicInstruction) (pc is : ℕ) (contract_id : Option Bytes32)
      → Receipt
  revert : (id : Bytes32) (ra pc is : ℕ) → Receipt
  log : (id : Bytes32) (ra rb rc rd pc is : ℕ) → Receipt
  log_data :
      (id : Bytes32) (ra rb ptr len : ℕ) (digest : Digest) (pc is : ℕ) (bytes : Option (List ℕ))
      → Receipt
  transfer : (id to : Bytes32) (amount : ℕ) (asset_id : Bytes32) (pc is : ℕ) → Receipt
  transfer_out : (id to : Bytes32) (amount : ℕ) (asset_id : Bytes32) (pc is : ℕ) → Receipt
  script_result : (result : ScriptExecutionResult) (gas_used : ℕ) → Receipt
  message_out :
      (sender recipient : Bytes32) (amount : ℕ) (nonce : Bytes32) (len : ℕ) (digest : Digest)
      (bytes : Option (List ℕ))
      → Receipt
  mint : (sub_id contract_id : Bytes32) (val pc is : ℕ) → Receipt
  burn : (sub_id contract_id : Bytes32) (val pc is : ℕ) → Receipt

pub record ReceiptsCtx : Type 0 where
  pub receipts : List Receipt
  pub receipts_tree : List Node

abbrev pub empty_receipts : ReceiptsCtx
empty_receipts = record { receipts = []; receipts_tree = [] }

abbrev pub max_receipts : ℕ
max_receipts = 65535

abbrev pub is_script_result : Receipt → Bool
is_script_result (Receipt.script_result result gas_used) = true
is_script_result _ = false

abbrev pub is_panic : Receipt → Bool
is_panic (Receipt.panic id reason pc is contract_id) = true
is_panic _ = false

-- The last two slots are for the end of the script.
unfoldable pub slot_reserved : ℕ → Receipt → Bool
slot_reserved n receipt =
    (n == max_receipts - 1 && not (is_script_result receipt))
    || (n == max_receipts - 2 && not (is_script_result receipt || is_panic receipt))

module _ (sha256 : List ℕ → Digest) (to_bytes : Receipt → List ℕ) where
  unfoldable pub push : Receipt → ReceiptsCtx → Result ReceiptsCtx
  push receipt ctx =
      if length ctx.receipts == max_receipts
      then err (Error.bug BugVariant.receipts_ctx_full)
      else if slot_reserved (length ctx.receipts) receipt
      then err (Error.panic PanicReason.too_many_receipts)
      else (do
        tree ← Merkle.push sha256 (to_bytes receipt) ctx.receipts_tree
        ok (record { receipts = ctx.receipts ++ (receipt ∷ []); receipts_tree = tree }))

  unfoldable pub push_each : List Receipt → ReceiptsCtx → Result ReceiptsCtx
  push_each [] ctx = ok ctx
  push_each (receipt ∷ receipts) ctx = do ctx ← push receipt ctx; push_each receipts ctx

  unfoldable pub ctx_root : ReceiptsCtx → Result Digest
  ctx_root ctx = Merkle.root sha256 ctx.receipts_tree

  unfoldable pub push_trees : List Receipt → List Node → Result (List Node)
  push_trees [] tree = ok tree
  push_trees (receipt ∷ receipts) tree = do
    tree ← Merkle.push sha256 (to_bytes receipt) tree
    push_trees receipts tree

  unfoldable pub recalculate_root : ReceiptsCtx → Result ReceiptsCtx
  recalculate_root ctx = do
    tree ← push_trees ctx.receipts []
    ok (record ctx { receipts_tree = tree })

  -- `lock`, a change of the list, and the drop of the lock
  unfoldable pub with_lock : (List Receipt → List Receipt) → ReceiptsCtx → Result ReceiptsCtx
  with_lock change ctx = recalculate_root (record ctx { receipts = change ctx.receipts })

unfoldable pub clear : ReceiptsCtx → ReceiptsCtx
clear ctx = empty_receipts
