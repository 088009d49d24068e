-- ===== src/Merkle/Tree.antt =====
-- `MerkleTree` (fuel-merkle/src/binary/merkle_tree.rs) against the root calculator.
use fuel_vm.Prelude.{
  ℕ, ◌+◌, ◌*◌, ◌≤◌, ◌≡◌, refl, sym, ap, ◌∙◌, subst, true, false, Bool, some, List, [], ◌∷◌, ◌++◌,
  map, length, length-map, length-append, arith, le→leb, word_max,
}
use mathlib.Core.List.{append_assoc, append-nil}
use fuel_vm.Outcome.{ok}
use fuel_vm.Merkle
use fuel_vm.Merkle.{
  Digest, Node, PushResult, MerkleTree, insert, propagate, leaf_sum, create_leaf,
  root_from_iterator, tree_push, tree_root, new_tree,
}
use fuel_vm.Merkle.Position.{from_leaf_index}
use fuel_vm.Merkle.Reference.{IsRoot-unique}
use fuel_vm.Merkle.Peaks.{Peaks, bottom, max_leaves}
use fuel_vm.Merkle.Calculator.{leaf-IsPushed, root-IsRoot, root_from_iterator-IsRoot}

module _ (sha256 : List ℕ → Digest) where
  -- A tree over the leaves that were pushed into it
  pub record IsOver (tree : MerkleTree) (leaves : List Digest) : Type 0 where
    pub peaks : Peaks sha256 0 tree.nodes leaves
    pub count : tree.leaves_count ≡ length leaves

  -- A push into a tree that has room
  pub record IsStored (result : Bool × MerkleTree) (leaves : List Digest) : Type 0 where
    pub success : result.0 ≡ true
    pub over : IsOver result.1 leaves

  from_leaf_index-some : (index : ℕ) → index ≤ max_leaves → from_leaf_index index ≡ some (index * 2)
  unfolding from_leaf_index
  from_leaf_index-some index l = rw (le→leb (index * 2) word_max (omega arith)) refl

  create_leaf-some :
      (index : ℕ) (leaf : List ℕ)
      → index ≤ max_leaves
      → create_leaf sha256 index leaf
        ≡ some (record { position = index * 2; hash = leaf_sum sha256 leaf })
  unfolding create_leaf Merkle.create_leaf_with_hash
  create_leaf-some index leaf l =
      rw (Merkle.create_leaf_with_hash, from_leaf_index-some index l) refl

  -- A push into a tree over fewer than 2 ^ 62 leaves succeeds, and gives a tree over those leaves
  -- with the new leaf's hash as the last: the stack holds the roots of perfect trees, from the
  -- highest to the lowest, and the count is the number of leaves.
  pub tree_push-IsStored :
      (leaf : List ℕ) (tree : MerkleTree) (leaves : List Digest)
      → IsOver tree leaves
      → length leaves + 1 ≤ max_leaves
      → IsStored (tree_push sha256 leaf tree) (leaves ++ (leaf_sum sha256 leaf ∷ []))
  unfolding tree_push Merkle.push_with_callback
  tree_push-IsStored leaf tree leaves over b =
      let pushed =
        leaf-IsPushed sha256 insert
          (insert (record { position = tree.leaves_count * 2; hash = leaf_sum sha256 leaf })
            tree.storage)
          tree.leaves_count (leaf_sum sha256 leaf) over.peaks (omega (arith, over.count)) b in
      rw (tree_push, create_leaf-some tree.leaves_count leaf (omega (arith, over.count)))
        (record {
          success = pushed.complete;
          over = record {
            peaks = pushed.peaks;
            count = omega (arith, over.count, length-append leaves (leaf_sum sha256 leaf ∷ []));
          };
        })

  -- Pushes until the first error
  unfoldable pub tree_push_all : List (List ℕ) → MerkleTree → Bool × MerkleTree
  tree_push_all [] tree = (true, tree)
  tree_push_all (leaf ∷ leaves) tree = elim ((tree_push sha256 leaf tree).0) [
    | true ↦ tree_push_all leaves (tree_push sha256 leaf tree).1
    | false ↦ tree_push sha256 leaf tree
  ]

  tree_push_all-IsStored :
      (inputs : List (List ℕ)) (tree : MerkleTree) (front : List Digest) {all : List Digest}
      → IsOver tree front
      → all ≡ front ++ map (leaf_sum sha256) inputs
      → length all ≤ max_leaves
      → IsStored (tree_push_all inputs tree) all
  unfolding tree_push_all
  tree_push_all-IsStored [] tree front over e b = record {
    success = refl;
    over = subst (λ t. IsOver tree t) (sym (append-nil front) ∙ sym e) over;
  }
  tree_push_all-IsStored (input ∷ inputs) tree front over e b =
      let stored = tree_push-IsStored input tree front over (
        omega (arith, ap length e, length-append front (map (leaf_sum sha256) (input ∷ inputs)))) in
      rw (tree_push_all, stored.success)
        (tree_push_all-IsStored inputs (tree_push sha256 input tree).1
          (front ++ (leaf_sum sha256 input ∷ [])) stored.over
          (e ∙ sym (append_assoc front (leaf_sum sha256 input ∷ []) (map (leaf_sum sha256) inputs)))
          b)

  pub new_tree-IsOver : IsOver new_tree []
  new_tree-IsOver = record { peaks = bottom 0; count = refl }

  -- For up to 2 ^ 62 inputs, pushed one by one into a new tree, the tree's root is the one that the
  -- root calculator computes from them.
  pub tree_root-root_from_iterator :
      (inputs : List (List ℕ))
      → length inputs ≤ max_leaves
      → tree_root sha256 (tree_push_all inputs new_tree).1 ≡ root_from_iterator sha256 inputs
  unfolding tree_root
  tree_root-root_from_iterator inputs b =
      let l : length (map (leaf_sum sha256) inputs) ≤ max_leaves =
        omega (arith, length-map (leaf_sum sha256) inputs) in
      let stored = tree_push_all-IsStored inputs new_tree [] new_tree-IsOver refl l in
      let (hash, e, r) = root-IsRoot sha256 stored.over.peaks l in
      let (hash', e', r') = root_from_iterator-IsRoot sha256 inputs b in
      e ∙ ap ok (IsRoot-unique sha256 (map (leaf_sum sha256) inputs) r r') ∙ sym e'
