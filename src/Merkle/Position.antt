-- ===== src/Merkle/Position.antt =====
-- Positions in a binary tree by in-order index: fuel-merkle/src/common/position.rs.
use native.Mathlib.Nat.{pow-suc, pow-succ', div-div-eq-div-mul}
use fuel_vm.Prelude.{
  ℕ, zero, suc, ◌+◌, ◌-◌, ◌*◌, ◌/◌, ◌%◌, ◌^◌, ◌≤◌, ◌<◌, ◌≡◌, sym, ap, ◌∙◌, Bool, true, false,
  Option, none, some, not, ltb, leb, ◌==◌, if◌then◌else◌, arith, inl, inr, ◌⊎◌, checked_add,
  checked_sub, word_max,
}

pub data Side : Type 0 where
  left right : Side

pub data GetNodeError : Type 0 where
  is_leaf cannot_exist : GetNodeError

pub data Found : Type 0 where
  found : ℕ → Found
  missing : GetNodeError → Found

-- `from_leaf_index`
unfoldable pub from_leaf_index : ℕ → Option ℕ
from_leaf_index index = if leb (index * 2) word_max then some (index * 2) else none

-- `(!index).trailing_zeros()`, of at most `n` digits
unfoldable pub trailing_ones : ℕ → ℕ → ℕ
trailing_ones zero index = 0
trailing_ones (suc n) index = elim (index % 2 == 1) [
  | true ↦ suc (trailing_ones n (index / 2))
  | false ↦ 0
]

unfoldable pub height : ℕ → ℕ
height index = trailing_ones 64 index

unfoldable pub is_node : ℕ → Bool
is_node index = not (index % 2 == 0)

abbrev found_or_missing : Option ℕ → Found
found_or_missing none = missing cannot_exist
found_or_missing (some index) = found index

-- `orientation`, of a position whose height is known
abbrev orientation : ℕ → ℕ → Option Side
orientation index h =
    if ltb (h + 1) 64 then some (if index / 2 ^ (h + 1) % 2 == 0 then right else left) else none

-- The step from a position of a height on a side; a left step goes down in the order.
abbrev step_from : ℕ → ℕ → Side → Found
step_from index shift left = found_or_missing (checked_sub index shift)
step_from index shift right = found_or_missing (checked_add index shift)

abbrev parent_at : ℕ → ℕ → Found
parent_at index h =
    if ltb h 64
    then elim (orientation index h) [
      | none ↦ missing cannot_exist
      | some side ↦ step_from index (2 ^ h) side
    ]
    else missing cannot_exist

unfoldable pub parent : ℕ → Found
unfolding height
parent index = parent_at index (height index)

unfoldable pub child : ℕ → Side → Found
unfolding height is_node
child index side =
    if is_node index then step_from index (2 ^ (height index - 1)) side else missing is_leaf

-- The `q`-th position from the left of those with height `h`
unfoldable pub node_at : ℕ → ℕ → ℕ
node_at zero q = q * 2
node_at (suc h) q = node_at h q * 2 + 1

half_odd : (p : ℕ) → (p * 2 + 1) / 2 ≡ p
half_odd p = omega arith

trailing_ones-node_at : (n h q : ℕ) → h < n → trailing_ones n (node_at h q) ≡ h
unfolding trailing_ones node_at
trailing_ones-node_at zero h q l = absurd (omega arith)
trailing_ones-node_at (suc n) zero q l = ground arith
trailing_ones-node_at (suc n) (suc h) q l =
    ground (arith, half_odd (node_at h q), trailing_ones-node_at n h q (omega arith))

pub height-node_at : (h q : ℕ) → h < 64 → height (node_at h q) ≡ h
unfolding height
height-node_at h q l = trailing_ones-node_at 64 h q l

-- The position in numbers
pub node_at-eq : (h q : ℕ) → node_at h q + 1 ≡ q * 2 ^ suc h + 2 ^ h
unfolding node_at
node_at-eq zero q = omega arith
node_at-eq (suc h) q =
    simp (pow-suc) (omega (arith, node_at-eq h q, pow-suc 2 h, ap (λ (t : ℕ). q * t) (pow-suc 2 h)))

digit-node_at : (h q : ℕ) → node_at h q / 2 ^ suc h ≡ q
unfolding node_at
digit-node_at zero q = omega arith
digit-node_at (suc h) q =
    ap (λ (d : ℕ). (node_at h q * 2 + 1) / d) (pow-succ' 2 (suc h))
    ∙ sym (div-div-eq-div-mul (node_at h q * 2 + 1) 2 (2 ^ suc h))
    ∙ ap (λ (t : ℕ). t / 2 ^ suc h) (half_odd (node_at h q))
    ∙ digit-node_at h q

-- Up and to the right from an even position, down and to the left from an odd one
even_parent : (h r : ℕ) → node_at h (r * 2) + 2 ^ h ≡ node_at (suc h) r
even_parent h r = omega (
  arith,
  node_at-eq h (r * 2),
  node_at-eq (suc h) r,
  pow-suc 2 h,
  ap (λ (t : ℕ). r * t) (pow-suc 2 (suc h)),
)

odd_parent : (h r : ℕ) → node_at h (r * 2 + 1) ≡ node_at (suc h) r + 2 ^ h
odd_parent h r = omega (
  arith,
  node_at-eq h (r * 2 + 1),
  node_at-eq (suc h) r,
  pow-suc 2 h,
  ap (λ (t : ℕ). r * t) (pow-suc 2 (suc h)),
)

parent_at-even :
    (h r : ℕ)
    → suc h < 64
    → node_at (suc h) r ≤ word_max
    → parent_at (node_at h (r * 2)) h ≡ found (node_at (suc h) r)
parent_at-even h r l b = ground (arith, even_parent h r, digit-node_at h (r * 2))

parent_at-odd :
    (h r : ℕ) → suc h < 64 → parent_at (node_at h (r * 2 + 1)) h ≡ found (node_at (suc h) r)
parent_at-odd h r l = ground (arith, odd_parent h r, digit-node_at h (r * 2 + 1))

halves : (q : ℕ) → (q ≡ q / 2 * 2) ⊎ (q ≡ q / 2 * 2 + 1)
halves q = ground arith

-- The parent of the `q`-th position of a height is the half of `q` one higher, where the tree fits
-- the numbers.
pub parent-node_at :
    (h q : ℕ)
    → suc h < 64
    → node_at (suc h) (q / 2) ≤ word_max
    → parent (node_at h q) ≡ found (node_at (suc h) (q / 2))
unfolding parent
parent-node_at h q l b =
    ap (parent_at (node_at h q)) (height-node_at h q (omega arith)) ∙ elim (halves q) [
      | inl e ↦ ap (λ (t : ℕ). parent_at (node_at h t) h) e ∙ parent_at-even h (q / 2) l b
      | inr e ↦ ap (λ (t : ℕ). parent_at (node_at h t) h) e ∙ parent_at-odd h (q / 2) l
    ]
