-- ===== src/Merkle/Peaks.antt =====
-- The stack of `MerkleRootCalculator` and of `MerkleTree` (fuel-merkle/src/binary): its nodes are
-- the roots of perfect trees over the leaves, higher ones first.
use native.Mathlib.Nat.{mul-le-mul_right, pow-suc, pow-le-pow_right}
use mathlib.Core.List.{append_assoc}
use fuel_vm.Prelude.{
  ℕ, suc, ◌+◌, ◌*◌, ◌/◌, ◌^◌, ◌≤◌, ◌<◌, ◌≡◌, refl, sym, ap, ◌∙◌, subst, true, false, List, [], ◌∷◌,
  ◌++◌, length, length-append, arith, tests, ◌==◌, ==_iff, ltb, word_max, Bool-cases, inl, inr,
}
use fuel_vm.Outcome.{ok}
use fuel_vm.Merkle.{Digest, Node, PushResult, create_node, propagate, join}
use fuel_vm.Merkle.Position.{
  node_at, height, parent, found, height-node_at, parent-node_at, node_at-eq,
}
use fuel_vm.Merkle.Reference.{Mth, node}

-- More leaves than any memory holds
abbrev pub max_leaves : ℕ
max_leaves = 2 ^ 62

-- A power within the limit has an exponent within it.
exponent-bound : (k : ℕ) → 2 ^ k ≤ max_leaves → k ≤ 62
exponent-bound k h = elim (Bool-cases (ltb 62 k)) [
  | inl p ↦
      absurd (omega (arith, pow-le-pow_right {n = 2} (omega arith) {i = 63} {j = k} (omega tests)))
  | inr p ↦ omega tests
]

-- The place of a node that starts at a leaf within the limit fits a word.
node_at-bound :
    (k q n : ℕ) → q * 2 ^ k ≤ n → n + 2 ^ k ≤ max_leaves → node_at (suc k) (q / 2) ≤ word_max
node_at-bound k q n l b = omega (
  arith,
  node_at-eq (suc k) (q / 2),
  pow-suc 2 k,
  ap (λ (t : ℕ). q / 2 * t) (pow-suc 2 (suc k)),
  ap (λ (t : ℕ). q / 2 * t) (pow-suc 2 k),
  mul-le-mul_right {m = q / 2 * 2} {n = q} (2 ^ k) (omega arith),
)

same_power : (k k' : ℕ) → (k == k') ≡ true → 2 ^ k ≡ 2 ^ k'
same_power k k' t = ap (λ (n : ℕ). 2 ^ n) ((==_iff k k').0 t)

higher : (k k' : ℕ) → k ≤ k' → (k == k') ≡ false → suc k ≤ k'
higher k k' = ground arith

half_bound : (k q n : ℕ) → q * 2 ^ k ≤ n → q / 2 * 2 ^ suc k ≤ n
half_bound k q n l = omega (
  arith,
  ap (λ (t : ℕ). q / 2 * t) (pow-suc 2 k),
  mul-le-mul_right {m = q / 2 * 2} {n = q} (2 ^ k) (omega arith),
)

pub power_pos : (k : ℕ) → 0 < 2 ^ k
power_pos k = pow-le-pow_right {n = 2} (omega arith) {i = 0} {j = k} (omega arith)

module _ (sha256 : List ℕ → Digest) where
  -- A stack with its last node first, all of at least height `h`, over a list of leaf hashes
  pub data Peaks : ℕ → List Node → List Digest → Type 0 where
    bottom : (h : ℕ) → Peaks h [] []
    peak :
        (k q : ℕ) {h : ℕ} {x : Node} {stack : List Node} {front segment all : List Digest}
        → h ≤ k
        → x.position ≡ node_at k q
        → q * 2 ^ k ≤ length front
        → all ≡ front ++ segment
        → length segment ≡ 2 ^ k
        → Mth sha256 segment x.hash
        → Peaks (suc k) stack front
        → Peaks h (x ∷ stack) all

  Peaks-weaken :
      {h k : ℕ} {stack : List Node} {all : List Digest}
      → h ≤ k
      → Peaks k stack all
      → Peaks h stack all
  Peaks-weaken l (bottom k) = bottom _
  Peaks-weaken l (peak k q b p s e n m rest) = peak k q (omega arith) p s e n m rest

  -- A push that came to its end, over the given leaves
  pub record IsPushed {ℓ} {S : Type ℓ} (pushed : PushResult S) (all : List Digest) : Type 0 where
    pub complete : pushed.complete ≡ true
    pub peaks : Peaks 0 pushed.stack all

  -- What the numbers of a node's tree say about its parent
  parent-peak :
      (k q n m : ℕ) {position : ℕ}
      → position ≡ node_at k q
      → q * 2 ^ k ≤ n
      → n + 2 ^ k ≤ m
      → m ≤ max_leaves
      → parent position ≡ found (node_at (suc k) (q / 2))
  parent-peak k q n m p l s b =
      ap parent p
      ∙ parent-node_at k q (omega (arith, exponent-bound k (omega arith)))
          (node_at-bound k q n l (omega arith))

  length-append₂ :
      {all both : List Digest} (front lhs rhs : List Digest)
      → all ≡ both ++ rhs
      → both ≡ front ++ lhs
      → length all ≡ length front + length lhs + length rhs
  length-append₂ {both = both} front lhs rhs e f =
      ap length e
      ∙ length-append both rhs
      ∙ ap (λ (t : List Digest). length t + length rhs) f
      ∙ ap (λ (t : ℕ). t + length rhs) (length-append front lhs)

  append-merged :
      {all both : List Digest} (front lhs rhs : List Digest)
      → all ≡ both ++ rhs
      → both ≡ front ++ lhs
      → all ≡ front ++ (lhs ++ rhs)
  append-merged front lhs rhs e f =
      e ∙ ap (λ (t : List Digest). t ++ rhs) f ∙ append_assoc front lhs rhs

  join-step :
      (right_child left_child : Node) (stack : List Node) (position : ℕ)
      → parent left_child.position ≡ found position
      → join sha256 right_child (left_child ∷ stack)
        ≡ join sha256 (create_node sha256 position left_child right_child) stack
  unfolding join
  join-step right_child left_child stack position e = rw (join, e) refl

  propagate-join {ℓ} :
      {S : Type ℓ} (node_created : Node → S → S) (store : S) (rhs lhs : Node) (rest : List Node)
      (position : ℕ)
      → (height rhs.position == height lhs.position) ≡ true
      → parent lhs.position ≡ found position
      → propagate sha256 node_created store rhs (lhs ∷ rest)
        ≡ propagate sha256 node_created
            (node_created (create_node sha256 position lhs rhs) store)
            (create_node sha256 position lhs rhs)
            rest
  unfolding propagate
  propagate-join node_created store rhs lhs rest position t e = rw (propagate, t, e) refl

  propagate-stop {ℓ} :
      {S : Type ℓ} (node_created : Node → S → S) (store : S) (rhs lhs : Node) (rest : List Node)
      → (height rhs.position == height lhs.position) ≡ false
      → propagate sha256 node_created store rhs (lhs ∷ rest)
        ≡ record { complete = true; stack = rhs ∷ lhs ∷ rest; store = store }
  unfolding propagate
  propagate-stop node_created store rhs lhs rest f = rw (propagate, f) refl

  -- Joining goes up the stack, with the tree of all leaves after the rest of the stack.
  pub join-Mth :
      {h : ℕ} {stack : List Node} {front segment all : List Digest} (right_child : Node)
      → Peaks h stack front
      → all ≡ front ++ segment
      → 0 < length segment
      → length segment ≤ 2 ^ h
      → length all ≤ max_leaves
      → Mth sha256 segment right_child.hash
      → (hash : Digest) × (join sha256 right_child stack ≡ ok hash) × Mth sha256 all hash
  unfolding join create_node
  join-Mth right_child (bottom h) e z l b m =
      (right_child.hash, refl, subst (λ t. Mth sha256 t right_child.hash) (sym e) m)
  join-Mth {h} {segment = last} {all} right_child
        (peak k q {x = x} {front = front} {segment = segment} a p s e' n m' rest) e z l b m =
      rw
        (join-step right_child x _ (node_at (suc k) (q / 2)) (
          parent-peak k q (length front) (length all) p s
            (omega (arith, length-append₂ front segment last e e')) b))
        (join-Mth (create_node sha256 (node_at (suc k) (q / 2)) x right_child) rest
          (append-merged front segment last e e') (omega (arith, length-append segment last))
          (omega (
            arith,
            length-append segment last,
            pow-suc 2 k,
            pow-le-pow_right {n = 2} (omega arith) {i = h} {j = k} a,
          ))
          b
          (node k refl n z (omega (arith, pow-le-pow_right {n = 2} (omega arith) {i = h} {j = k} a))
            m' m))

  same_height :
      (k k' q q' : ℕ) {left_position right_position : ℕ}
      → right_position ≡ node_at k q
      → left_position ≡ node_at k' q'
      → 2 ^ k ≤ max_leaves
      → 2 ^ k' ≤ max_leaves
      → (height right_position == height left_position) ≡ (k == k')
  same_height k k' q q' p p' b b' =
      rw
        (
          p,
          p',
          height-node_at k q (omega (arith, exponent-bound k b)),
          height-node_at k' q' (omega (arith, exponent-bound k' b')),
        )
        refl

  -- A push whose new node is a perfect tree after the leaves of the stack
  pub propagate-IsPushed {ℓ} :
      {S : Type ℓ} {stack : List Node} {front segment all : List Digest}
      (node_created : Node → S → S) (store : S) (k q : ℕ) (rhs : Node)
      → Peaks k stack front
      → rhs.position ≡ node_at k q
      → q * 2 ^ k ≤ length front
      → all ≡ front ++ segment
      → length segment ≡ 2 ^ k
      → length all ≤ max_leaves
      → Mth sha256 segment rhs.hash
      → IsPushed (propagate sha256 node_created store rhs stack) all
  unfolding propagate create_node
  propagate-IsPushed node_created store k q rhs (bottom h) p s e n b m = record {
    complete = refl;
    peaks = peak k q (omega arith) p s e n m (bottom (suc k));
  }
  propagate-IsPushed {segment = last} {all} node_created store k q rhs
        (peak k' q' {x = x} {stack = rest} {front = front} {segment = segment} a p' s' e' n' m'
          peaks)
        p s e n b m =
      elim (Bool-cases (k == k')) [
        | inl t ↦
            rw
              (propagate-join node_created store rhs x rest (node_at (suc k') (q' / 2))
                (same_height k k' q q' p p' (omega (arith, length-append₂ front segment last e e'))
                    (omega (arith, length-append₂ front segment last e e'))
                  ∙ t)
                (parent-peak k' q' (length front) (length all) p' s'
                  (omega (arith, length-append₂ front segment last e e')) b))
              (propagate-IsPushed node_created
                (node_created (create_node sha256 (node_at (suc k') (q' / 2)) x rhs) store) (suc k')
                (q' / 2) (create_node sha256 (node_at (suc k') (q' / 2)) x rhs) peaks refl
                (half_bound k' q' (length front) s') (append-merged front segment last e e')
                (omega (arith, length-append segment last, pow-suc 2 k', same_power k k' t)) b
                (node k' refl n' (omega (arith, power_pos k)) (omega (arith, same_power k k' t)) m'
                  m))
        | inr f ↦
            rw
              (propagate-stop node_created store rhs x rest (
                same_height k k' q q' p p' (omega (arith, length-append₂ front segment last e e'))
                  (omega (arith, length-append₂ front segment last e e'))
                ∙ f))
              (record {
                complete = refl;
                peaks =
                    peak k q (omega arith) p s e n m
                      (peak k' q' (higher k k' a f) p' s' e' n' m' peaks);
              })
      ]
