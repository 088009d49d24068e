-- ===== src/Merkle.antt =====
-- Binary Merkle trees: fuel-merkle/src/binary. SHA-256 is a parameter. A digest is its bytes. The
-- stack of a calculator stands with its last node first, and a tree's storage is the in-memory map.
pub mod Position
pub mod Reference
pub mod Peaks
pub mod Calculator
pub mod Tree
mod Tests
use fuel_vm.Prelude.{
  ℕ, ◌+◌, Bool, true, false, Option, none, some, List, [], ◌∷◌, ◌++◌, ◌==◌, if◌then◌else◌,
}
use fuel_vm.Outcome.{Result, ok, err, crash, ◌>>=◌}
use fuel_vm.Merkle.Position.{Found, found, missing, from_leaf_index, height, parent}

abbrev pub Digest : Type 0
Digest = List ℕ

pub record Node : Type 0 where
  pub position : ℕ
  pub hash : Digest

-- What a push leaves: whether it came to its end, the stack, and what the callback has stored.
pub record PushResult {ℓ} (S : Type ℓ) : Type ℓ where
  pub complete : Bool
  pub stack : List Node
  pub store : S

-- `MerkleTree`, over a storage that maps keys to nodes
pub record MerkleTree : Type 0 where
  pub storage : ℕ → Option Node
  pub nodes : List Node
  pub leaves_count : ℕ

-- `StorageMap`'s insert
unfoldable pub insert : Node → (ℕ → Option Node) → ℕ → Option Node
insert node storage key = if key == node.position then some node else storage key

abbrev pub new_tree : MerkleTree
new_tree = record { storage = λ key. none; nodes = []; leaves_count = 0 }

unfoldable pub reset : MerkleTree → MerkleTree
reset tree = record tree { nodes = [] }

module _ (sha256 : List ℕ → Digest) where
  unfoldable pub empty_sum : Digest
  empty_sum = sha256 []

  unfoldable pub node_sum : Digest → Digest → Digest
  node_sum lhs rhs = sha256 (0x01 ∷ (lhs ++ rhs))

  unfoldable pub leaf_sum : List ℕ → Digest
  leaf_sum leaf = sha256 (0x00 ∷ leaf)

  unfoldable pub create_leaf_with_hash : ℕ → Digest → Option Node
  create_leaf_with_hash index hash = elim (from_leaf_index index) [
    | none ↦ none
    | some position ↦ some (record { position = position; hash = hash })
  ]

  unfoldable pub create_leaf : ℕ → List ℕ → Option Node
  unfolding create_leaf_with_hash leaf_sum
  create_leaf index leaf = create_leaf_with_hash index (leaf_sum leaf)

  unfoldable pub create_node : ℕ → Node → Node → Node
  create_node position left_child right_child = record {
    position = position;
    hash = node_sum left_child.hash right_child.hash;
  }

  -- The loop of `push_with_callback`: the last node joins the one before it while they are as high.
  unfoldable pub propagate {ℓ} : {S : Type ℓ} → (Node → S → S) → S → Node → List Node → PushResult S
  propagate node_created store rhs [] = record { complete = true; stack = rhs ∷ []; store = store }
  propagate node_created store rhs (lhs ∷ rest) =
      elim (height rhs.position == height lhs.position) [
        | false ↦ record { complete = true; stack = rhs ∷ lhs ∷ rest; store = store }
        | true ↦ elim (parent lhs.position) [
          | missing e ↦ record { complete = false; stack = rhs ∷ lhs ∷ rest; store = store }
          | found position ↦
              propagate node_created (node_created (create_node position lhs rhs) store)
                (create_node position lhs rhs) rest
        ]
      ]

  unfoldable pub push_with_callback {ℓ} :
      {S : Type ℓ} → (Node → S → S) → S → Node → List Node → PushResult S
  push_with_callback node_created store node stack =
      propagate node_created (node_created node store) node stack

  -- A tree that is too large stops the host.
  abbrev stack_or_crash {ℓ} : {S : Type ℓ} → PushResult S → Result (List Node)
  stack_or_crash pushed = if pushed.complete then ok pushed.stack else err crash

  unfoldable pub push_node : Option Node → List Node → Result (List Node)
  push_node none stack = err crash
  push_node (some node) stack =
      stack_or_crash (push_with_callback (λ node (store : Unit {0}). store) tt node stack)

  -- `MerkleRootCalculator::push`
  unfoldable pub push : List ℕ → List Node → Result (List Node)
  unfolding push_node create_leaf
  push leaf stack = push_node (create_leaf 0 leaf) stack

  unfoldable pub push_all : List (List ℕ) → List Node → Result (List Node)
  push_all [] stack = ok stack
  push_all (leaf ∷ leaves) stack = do stack ← push leaf stack; push_all leaves stack

  unfoldable pub new_from_existing_leaves : List Digest → List Node → Result (List Node)
  unfolding push_node create_leaf_with_hash
  new_from_existing_leaves [] stack = ok stack
  new_from_existing_leaves (hash ∷ hashes) stack = do
    stack ← push_node (create_leaf_with_hash 0 hash) stack
    new_from_existing_leaves hashes stack

  -- The loop of `root`: the last two nodes join until one is left.
  unfoldable pub join : Node → List Node → Result Digest
  join right_child [] = ok right_child.hash
  join right_child (left_child ∷ rest) = elim (parent left_child.position) [
    | missing e ↦ err crash
    | found position ↦ join (create_node position left_child right_child) rest
  ]

  unfoldable pub root : List Node → Result Digest
  root [] = ok empty_sum
  root (node ∷ stack) = join node stack

  unfoldable pub root_from_iterator : List (List ℕ) → Result Digest
  root_from_iterator leaves = do stack ← push_all leaves []; root stack

  -- `MerkleTree::push`; `false` is the error `TooLarge`, after which the storage may have changed.
  unfoldable pub tree_push : List ℕ → MerkleTree → Bool × MerkleTree
  tree_push leaf tree = elim (create_leaf tree.leaves_count leaf) [
    | none ↦ (false, tree)
    | some node ↦
        let pushed = push_with_callback insert tree.storage node tree.nodes in
        (
          pushed.complete,
          record {
            storage = pushed.store;
            nodes = pushed.stack;
            leaves_count = tree.leaves_count + 1;
          },
        )
  ]

  -- `MerkleTree::root`
  unfoldable pub tree_root : MerkleTree → Result Digest
  tree_root tree = root tree.nodes
