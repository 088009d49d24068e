-- ===== src/Merkle/Tests.antt =====
-- Runs of the Merkle trees, with the identity for SHA-256.
use fuel_vm.Prelude.{ℕ, ◌≡◌, refl, List, [], ◌∷◌, map, arith}
use fuel_vm.Outcome.{ok}
use fuel_vm.Merkle
use fuel_vm.Merkle.{
  Digest, leaf_sum, new_from_existing_leaves, root, root_from_iterator, tree_push, tree_root,
  new_tree,
}
use fuel_vm.Merkle.Reference.{IsRoot}
use fuel_vm.Merkle.Calculator.{root_from_iterator-IsRoot}
use fuel_vm.Merkle.Tree.{
  IsStored, tree_push-IsStored, tree_push_all, tree_root-root_from_iterator, new_tree-IsOver,
}

abbrev identity : List ℕ → Digest
identity bytes = bytes

abbrev three_inputs : List (List ℕ)
three_inputs = (7 ∷ []) ∷ (8 ∷ []) ∷ (9 ∷ []) ∷ []

root_of_three : root_from_iterator identity three_inputs ≡ ok (1 ∷ 1 ∷ 0 ∷ 7 ∷ 0 ∷ 8 ∷ 0 ∷ 9 ∷ [])
unfolding root_from_iterator Merkle.push_all Merkle.push Merkle.push_node Merkle.create_leaf
    Merkle.create_leaf_with_hash Merkle.push_with_callback Merkle.propagate Merkle.create_node
    Merkle.node_sum leaf_sum root Merkle.join Merkle.Position.from_leaf_index Merkle.Position.height
    Merkle.Position.trailing_ones Merkle.Position.parent
root_of_three = refl

root_from_iterator-IsRoot_example :
    (hash : Digest) × (root_from_iterator identity three_inputs ≡ ok hash)
    × IsRoot identity (map (leaf_sum identity) three_inputs) hash
root_from_iterator-IsRoot_example = root_from_iterator-IsRoot identity three_inputs (omega arith)

tree_root-root_from_iterator_example :
    tree_root identity (tree_push_all identity three_inputs new_tree).1
    ≡ root_from_iterator identity three_inputs
tree_root-root_from_iterator_example =
    tree_root-root_from_iterator identity three_inputs (omega arith)

tree_push-IsStored_example :
    IsStored identity (tree_push identity (7 ∷ []) new_tree) (leaf_sum identity (7 ∷ []) ∷ [])
tree_push-IsStored_example =
    tree_push-IsStored identity (7 ∷ []) new_tree [] (new_tree-IsOver identity) (omega arith)
