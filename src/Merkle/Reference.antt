-- ===== src/Merkle/Reference.antt =====
-- The Merkle tree hash of RFC 6962, against which the calculators are proved: the root of a list
-- with more than one leaf joins the roots of its two parts, the first of which is as long as the
-- largest power of two below the list's length.
use native.Mathlib.Nat.{pow-suc, pow-le-pow_right}
use mathlib.Core.List.{head-eq_of_cons-eq, tail-eq_of_cons-eq}
use fuel_vm.Prelude.{
  ℕ, suc, ◌+◌, ◌^◌, ap, ap₂, sym, ◌∙◌, refl, arith, length-append, tests, Bool-cases, ltb, inl, inr,
  ◌≤◌, ◌<◌, ◌≡◌, List, [], ◌∷◌, ◌++◌, length,
}
use fuel_vm.Merkle.{Digest, empty_sum, node_sum}

append-injective {ℓ} :
    {A : Type ℓ} (xs xs' : List A) {ys ys' : List A}
    → length xs ≡ length xs'
    → xs ++ ys ≡ xs' ++ ys'
    → (xs ≡ xs') × (ys ≡ ys')
append-injective [] [] l e = (refl, e)
append-injective [] (x' ∷ xs') l e = absurd (omega arith)
append-injective (x ∷ xs) [] l e = absurd (omega arith)
append-injective (x ∷ xs) (x' ∷ xs') l e =
    let (f, g) = append-injective xs xs' (omega arith) (tail-eq_of_cons-eq e) in
    (ap₂ (λ y ys. y ∷ ys) (head-eq_of_cons-eq e) f, g)

-- Two splits of a length at a power of two, with the rest within that power
same_split :
    (k k' m m' : ℕ)
    → 2 ^ k + m ≡ 2 ^ k' + m'
    → 0 < m
    → 0 < m'
    → m ≤ 2 ^ k
    → m' ≤ 2 ^ k'
    → 2 ^ k ≡ 2 ^ k'
same_split k k' m m' e z z' l l' = elim (Bool-cases (ltb k k')) [
  | inl p ↦ absurd (
      omega (
        arith,
        pow-suc 2 k,
        pow-le-pow_right {n = 2} (omega arith) {i = suc k} {j = k'} (omega tests),
      ))
  | inr p ↦ elim (Bool-cases (ltb k' k)) [
    | inl q ↦ absurd (
        omega (
          arith,
          pow-suc 2 k',
          pow-le-pow_right {n = 2} (omega arith) {i = suc k'} {j = k} (omega tests),
        ))
    | inr q ↦ ap (λ (t : ℕ). 2 ^ t) {x = k} {y = k'} (omega tests)
  ]
]

power_pos : (k : ℕ) → 0 < 2 ^ k
power_pos k = pow-le-pow_right {n = 2} (omega arith) {i = 0} {j = k} (omega arith)

module _ (sha256 : List ℕ → Digest) where
  pub data Mth : List Digest → Digest → Type 0 where
    leaf : (hash : Digest) → Mth (hash ∷ []) hash
    node :
        (k : ℕ) {all first rest : List Digest} {a b : Digest}
        → all ≡ first ++ rest
        → length first ≡ 2 ^ k
        → 0 < length rest
        → length rest ≤ 2 ^ k
        → Mth first a
        → Mth rest b
        → Mth all (node_sum sha256 a b)

  abbrev pub IsRoot : List Digest → Digest → Type 0
  IsRoot [] hash = hash ≡ empty_sum sha256
  IsRoot (x ∷ xs) hash = Mth (x ∷ xs) hash

  -- A list has one Merkle tree hash.
  pub Mth-unique :
      {all all' : List Digest} {hash hash' : Digest}
      → all ≡ all'
      → Mth all hash
      → Mth all' hash'
      → hash ≡ hash'
  Mth-unique e (leaf hash) (leaf hash') = head-eq_of_cons-eq e
  Mth-unique e (leaf hash) (node k {first = first} {rest = rest} s n z l a b) =
      absurd (omega (arith, ap length (e ∙ s), length-append first rest, power_pos k))
  Mth-unique e (node k {first = first} {rest = rest} s n z l a b) (leaf hash) =
      absurd (omega (arith, ap length (sym s ∙ e), length-append first rest, power_pos k))
  Mth-unique e (node k {first = first} {rest = rest} s n z l a b)
        (node k' {first = first'} {rest = rest'} s' n' z' l' a' b') =
      let split : 2 ^ k ≡ 2 ^ k' =
        same_split k k' (length rest) (length rest')
          (omega (
            arith,
            ap length (sym s ∙ e ∙ s'),
            length-append first rest,
            length-append first' rest',
          ))
          z z' l l' in
      let (f, g) = append-injective first first' (n ∙ split ∙ sym n') (sym s ∙ e ∙ s') in
      ap₂ (node_sum sha256) (Mth-unique f a a') (Mth-unique g b b')

  pub IsRoot-unique :
      (all : List Digest) {hash hash' : Digest} → IsRoot all hash → IsRoot all hash' → hash ≡ hash'
  IsRoot-unique [] r r' = r ∙ sym r'
  IsRoot-unique (x ∷ xs) r r' = Mth-unique refl r r'
