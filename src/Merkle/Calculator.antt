-- ===== src/Merkle/Calculator.antt =====
-- `MerkleRootCalculator` (fuel-merkle/src/binary/root_calculator.rs) against the Merkle tree hash.
use native.Mathlib.Nat.{pow-suc}
use mathlib.Core.List.{append_assoc, append-nil}
use fuel_vm.Prelude.{
  ℕ, ◌+◌, ◌*◌, ◌≤◌, some, ◌≡◌, refl, sym, ap, ◌∙◌, List, [], ◌∷◌, ◌++◌, map, fun_ext, length,
  length-map, length-append, arith, subst,
}
use fuel_vm.Outcome.{ok, ◌>>=◌}
use fuel_vm.Merkle
use fuel_vm.Merkle.{
  Digest, Node, PushResult, propagate, join, leaf_sum, push_node, push, empty_sum, push_all,
  new_from_existing_leaves, root, root_from_iterator, stack_or_crash,
}
use fuel_vm.Merkle.Position.{node_at}
use fuel_vm.Merkle.Reference.{Mth, IsRoot, leaf, node}
use fuel_vm.Merkle.Peaks.{
  Peaks, bottom, peak, max_leaves, power_pos, IsPushed, propagate-IsPushed, join-Mth,
}

module _ (sha256 : List ℕ → Digest) where
  -- A new leaf after the leaves of the stack
  pub leaf-IsPushed {ℓ} :
      {S : Type ℓ} {stack : List Node} {front : List Digest} (node_created : Node → S → S)
      (store : S) (q : ℕ) (hash : Digest)
      → Peaks sha256 0 stack front
      → q ≤ length front
      → length front + 1 ≤ max_leaves
      → IsPushed sha256
          (propagate sha256 node_created store (record { position = q * 2; hash = hash }) stack)
          (front ++ (hash ∷ []))
  unfolding node_at
  leaf-IsPushed {front = front} node_created store q hash p l b =
      propagate-IsPushed sha256 node_created store 0 q (record { position = q * 2; hash = hash }) p
        refl (omega arith) refl refl (omega (arith, length-append front (hash ∷ []))) (leaf hash)

  pub push_hash-Peaks :
      (stack : List Node) (front : List Digest) (hash : Digest)
      → Peaks sha256 0 stack front
      → length front + 1 ≤ max_leaves
      → (next : List Node) × (push_node sha256 (some (record { position = 0; hash = hash })) stack
          ≡ ok next)
        × Peaks sha256 0 next (front ++ (hash ∷ []))
  unfolding push_node Merkle.push_with_callback
  push_hash-Peaks stack front hash p b =
      let pushed = leaf-IsPushed (λ node (store : Unit {0}). store) tt 0 hash p (omega arith) b in
      (
        (propagate sha256 (λ node (store : Unit {0}). store) tt
            (record { position = 0; hash = hash }) stack).stack,
        rw (pushed.complete) refl,
        pushed.peaks,
      )

  new_from_existing_leaves-Peaks :
      (hashes front : List Digest) {all : List Digest} (stack : List Node)
      → Peaks sha256 0 stack front
      → all ≡ front ++ hashes
      → length all ≤ max_leaves
      → (next : List Node) × (new_from_existing_leaves sha256 hashes stack ≡ ok next)
        × Peaks sha256 0 next all
  unfolding new_from_existing_leaves Merkle.create_leaf_with_hash Merkle.Position.from_leaf_index
  new_from_existing_leaves-Peaks [] front stack p e b =
      (stack, refl, subst (λ t. Peaks sha256 0 stack t) (sym (append-nil front) ∙ sym e) p)
  new_from_existing_leaves-Peaks (hash ∷ hashes) front stack p e b =
      let (next, pushed, q) =
        push_hash-Peaks stack front hash p
          (omega (arith, ap length e, length-append front (hash ∷ hashes))) in
      rw (pushed) (
        new_from_existing_leaves-Peaks hashes (front ++ (hash ∷ [])) next q
          (e ∙ sym (append_assoc front (hash ∷ []) hashes)) b)

  -- Pushing data and pushing the hashes of its leaves leave the same stack.
  push_all-new_from_existing_leaves :
      (inputs : List (List ℕ)) (stack : List Node)
      → push_all sha256 inputs stack
        ≡ new_from_existing_leaves sha256 (map (leaf_sum sha256) inputs) stack
  unfolding push_all push Merkle.create_leaf Merkle.create_leaf_with_hash
      Merkle.Position.from_leaf_index new_from_existing_leaves
  push_all-new_from_existing_leaves [] stack = refl
  push_all-new_from_existing_leaves (input ∷ inputs) stack =
      ap
        (λ next.
          push_node sha256 (some (record { position = 0; hash = leaf_sum sha256 input })) stack
          >>= next)
        (fun_ext (push_all-new_from_existing_leaves inputs))

  Mth-IsRoot : (all : List Digest) {hash : Digest} → Mth sha256 all hash → IsRoot sha256 all hash
  Mth-IsRoot [] (node k {first = first} {rest = rest} e n z l a b) =
      absurd (omega (arith, ap length e, length-append first rest))
  Mth-IsRoot (x ∷ xs) m = m

  pub root-IsRoot :
      {stack : List Node} {all : List Digest}
      → Peaks sha256 0 stack all
      → length all ≤ max_leaves
      → (hash : Digest) × (root sha256 stack ≡ ok hash) × IsRoot sha256 all hash
  unfolding root
  root-IsRoot (bottom h) b = (empty_sum sha256, refl, refl)
  root-IsRoot {all = all} (peak k q {x = x} {segment = segment} l p s e n m rest) b =
      let (hash, joined, r) =
        join-Mth sha256 x rest e (omega (arith, power_pos k)) (omega (arith, pow-suc 2 k)) b m in
      (hash, joined, Mth-IsRoot all r)

  pub new_from_existing_leaves-IsRoot :
      (hashes : List Digest)
      → length hashes ≤ max_leaves
      → (hash : Digest) × ((new_from_existing_leaves sha256 hashes [] >>= root sha256) ≡ ok hash)
        × IsRoot sha256 hashes hash
  new_from_existing_leaves-IsRoot hashes b =
      let (stack, pushed, p) = new_from_existing_leaves-Peaks hashes [] [] (bottom 0) refl b in
      rw (pushed) (root-IsRoot p b)

  -- For up to 2 ^ 62 inputs the calculator gives a root, without a panic, and it is the Merkle tree
  -- hash of RFC 6962 over the hashes of the inputs' leaves.
  pub root_from_iterator-IsRoot :
      (inputs : List (List ℕ))
      → length inputs ≤ max_leaves
      → (hash : Digest) × (root_from_iterator sha256 inputs ≡ ok hash)
        × IsRoot sha256 (map (leaf_sum sha256) inputs) hash
  unfolding root_from_iterator
  root_from_iterator-IsRoot inputs b = rw (push_all-new_from_existing_leaves inputs []) (
      new_from_existing_leaves-IsRoot (map (leaf_sum sha256) inputs)
        (omega (arith, length-map (leaf_sum sha256) inputs)))
