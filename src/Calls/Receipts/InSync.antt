-- ===== src/Calls/Receipts/InSync.antt =====
-- The Merkle tree of `ReceiptsCtx` (fuel-vm/src/interpreter/receipts.rs) against its receipts.
use mathlib.Core.List.{map-append, append-nil, append_assoc}
use fuel_vm.Prelude.{
  ℕ, ◌+◌, ◌≤◌, ◌<◌, ◌≡◌, refl, sym, ap, subst, true, false, List, [], ◌∷◌, ◌++◌, map, length,
  length-append, length-map, arith, Bool-cases, inl, inr, ◌⊎◌, ◌==◌,
}
use fuel_vm.Outcome.{Error, ok, err, PanicReason, BugVariant}
use fuel_vm.Merkle
use fuel_vm.Merkle.{Digest, Node, leaf_sum}
use fuel_vm.Merkle.Reference.{IsRoot}
use fuel_vm.Merkle.Peaks.{Peaks, bottom, max_leaves}
use fuel_vm.Merkle.Calculator.{push_hash-Peaks, root-IsRoot}
use fuel_vm.Calls.Receipts.{
  Receipt, ReceiptsCtx, empty_receipts, max_receipts, slot_reserved, push, ctx_root, push_trees,
  recalculate_root, with_lock,
}

full : (n : ℕ) → (n == max_receipts) ≡ true → n ≡ max_receipts
full n h = ground arith

full_test : (n : ℕ) → n ≡ max_receipts → (n == max_receipts) ≡ true
full_test n h = ground arith

below : (n : ℕ) → n ≤ max_receipts → (n == max_receipts) ≡ false → n < max_receipts
below n h e = ground arith

module _ (sha256 : List ℕ → Digest) (to_bytes : Receipt → List ℕ) where
  abbrev pub leaf_hash : Receipt → Digest
  leaf_hash receipt = leaf_sum sha256 (to_bytes receipt)

  pub record InSync (ctx : ReceiptsCtx) : Type 0 where
    pub in_step : Peaks sha256 0 ctx.receipts_tree (map leaf_hash ctx.receipts)
    pub within : length ctx.receipts ≤ max_receipts

  pub empty-InSync : InSync empty_receipts
  empty-InSync = record { in_step = bottom 0; within = omega arith }

  appended : ReceiptsCtx → Receipt → List Node → ReceiptsCtx
  appended ctx receipt tree = record {
    receipts = ctx.receipts ++ (receipt ∷ []);
    receipts_tree = tree;
  }

  pub below_test : (n : ℕ) → n < max_receipts → (n == max_receipts) ≡ false
  below_test n h = ground arith

  tree_push-Peaks :
      (receipt : Receipt) (receipts : List Receipt) (tree : List Node)
      → Peaks sha256 0 tree (map leaf_hash receipts)
      → length receipts + 1 ≤ max_leaves
      → (next : List Node) × (Merkle.push sha256 (to_bytes receipt) tree ≡ ok next)
        × Peaks sha256 0 next (map leaf_hash (receipts ++ (receipt ∷ [])))
  unfolding Merkle.push Merkle.create_leaf_with_hash Merkle.Position.from_leaf_index
  tree_push-Peaks receipt receipts tree p h =
      let (next, e, q) =
        push_hash-Peaks sha256 tree (map leaf_hash receipts) (leaf_hash receipt) p
          (omega (arith, length-map leaf_hash receipts)) in
      (
        next,
        e,
        subst (λ t. Peaks sha256 0 next t) (sym (map-append leaf_hash receipts (receipt ∷ []))) q,
      )

  -- The slot is free for the receipt.
  abbrev pub Free : ReceiptsCtx → Receipt → Type 0
  Free ctx receipt =
      (length ctx.receipts < max_receipts) × (slot_reserved (length ctx.receipts) receipt ≡ false)

  pub push-InSync :
      (receipt : Receipt) (ctx : ReceiptsCtx)
      → InSync ctx
      → Free ctx receipt
      → (next : ReceiptsCtx) × (push sha256 to_bytes receipt ctx ≡ ok next)
        × InSync next
        × (next.receipts ≡ ctx.receipts ++ (receipt ∷ []))
  unfolding push appended
  push-InSync receipt ctx s f =
      let (tree, e, p) =
        tree_push-Peaks receipt ctx.receipts ctx.receipts_tree s.in_step (omega arith) in
      (
        appended ctx receipt tree,
        rw (below_test (length ctx.receipts) f.0, f.1, e) refl,
        record { in_step = p; within = omega (arith, length-append ctx.receipts (receipt ∷ [])) },
        refl,
      )

  pub ctx_root-IsRoot :
      (ctx : ReceiptsCtx)
      → InSync ctx
      → (hash : Digest) × (ctx_root sha256 to_bytes ctx ≡ ok hash)
        × IsRoot sha256 (map leaf_hash ctx.receipts) hash
  unfolding ctx_root
  ctx_root-IsRoot ctx s =
      root-IsRoot sha256 s.in_step (omega (arith, s.within, length-map leaf_hash ctx.receipts))

  pub slot_cases :
      (ctx : ReceiptsCtx) (receipt : Receipt)
      → InSync ctx
      → (length ctx.receipts ≡ max_receipts)
        ⊎ ((length ctx.receipts < max_receipts)
            × (slot_reserved (length ctx.receipts) receipt ≡ true))
        ⊎ Free ctx receipt
  slot_cases ctx receipt s = elim (Bool-cases (slot_reserved (length ctx.receipts) receipt)) [
    | inl p ↦ elim (Bool-cases (length ctx.receipts == max_receipts)) [
      | inl q ↦ inl (full (length ctx.receipts) q)
      | inr q ↦ inr (inl (below (length ctx.receipts) s.within q, p))
    ]
    | inr p ↦ elim (Bool-cases (length ctx.receipts == max_receipts)) [
      | inl q ↦ inl (full (length ctx.receipts) q)
      | inr q ↦ inr (inr (below (length ctx.receipts) s.within q, p))
    ]
  ]

  -- In a context whose tree is in step with its receipts, a receipt is refused with a bug report if
  -- the context is full, and with `TooManyReceipts` if the slot is kept for the end of the script.
  -- Otherwise it is appended, the tree stays in step, and the root is the Merkle tree hash of the
  -- receipts with the new one.
  pub push_lem :
      (receipt : Receipt) (ctx : ReceiptsCtx)
      → InSync ctx
      → ((length ctx.receipts ≡ max_receipts)
          × (push sha256 to_bytes receipt ctx ≡ err (Error.bug BugVariant.receipts_ctx_full)))
        ⊎ ((length ctx.receipts < max_receipts)
            × (slot_reserved (length ctx.receipts) receipt ≡ true)
            × (push sha256 to_bytes receipt ctx ≡ err (Error.panic PanicReason.too_many_receipts)))
        ⊎ ((slot_reserved (length ctx.receipts) receipt ≡ false)
            × ((next : ReceiptsCtx) × (push sha256 to_bytes receipt ctx ≡ ok next)
                × InSync next
                × ((hash : Digest) × (ctx_root sha256 to_bytes next ≡ ok hash)
                    × IsRoot sha256 (map leaf_hash (ctx.receipts ++ (receipt ∷ []))) hash)))
  unfolding push
  push_lem receipt ctx s = elim (slot_cases ctx receipt s) [
    | inl e ↦ inl (e, rw (full_test (length ctx.receipts) e) refl)
    | inr (inl (l, p)) ↦ inr (inl (l, p, rw (below_test (length ctx.receipts) l, p) refl))
    | inr (inr f) ↦
        let (next, e, t, r) = push-InSync receipt ctx s f in
        let (hash, g, h) = ctx_root-IsRoot next t in
        inr (
          inr
            (f.1, (next, e, t, (hash, g, subst (λ rs. IsRoot sha256 (map leaf_hash rs) hash) r h))))
  ]

  push_trees-Peaks :
      (receipts front : List Receipt) (tree : List Node)
      → Peaks sha256 0 tree (map leaf_hash front)
      → length (front ++ receipts) ≤ max_leaves
      → (next : List Node) × (push_trees sha256 to_bytes receipts tree ≡ ok next)
        × Peaks sha256 0 next (map leaf_hash (front ++ receipts))
  unfolding push_trees
  push_trees-Peaks [] front tree p h =
      (tree, refl, subst (λ rs. Peaks sha256 0 tree (map leaf_hash rs)) (sym (append-nil front)) p)
  push_trees-Peaks (receipt ∷ receipts) front tree p h =
      let (next, e, q) =
        tree_push-Peaks receipt front tree p
          (omega (arith, length-append front (receipt ∷ receipts))) in
      let regroup = append_assoc front (receipt ∷ []) receipts in
      let (last, f, r) =
        push_trees-Peaks receipts (front ++ (receipt ∷ [])) next q
          (omega (arith, ap length regroup)) in
      (last, rw (e) f, subst (λ rs. Peaks sha256 0 last (map leaf_hash rs)) regroup r)

  -- After any change of the list under the lock to one that is not too long, the tree is in step.
  pub with_lock-InSync :
      (change : List Receipt → List Receipt) (ctx : ReceiptsCtx)
      → length (change ctx.receipts) ≤ max_receipts
      → (next : ReceiptsCtx) × (with_lock sha256 to_bytes change ctx ≡ ok next)
        × InSync next
        × (next.receipts ≡ change ctx.receipts)
  unfolding with_lock recalculate_root
  with_lock-InSync change ctx h =
      let (tree, e, p) = push_trees-Peaks (change ctx.receipts) [] [] (bottom 0) (omega arith) in
      (
        record { receipts = change ctx.receipts; receipts_tree = tree },
        rw (e) refl,
        record { in_step = p; within = h },
        refl,
      )
