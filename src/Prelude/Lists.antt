-- ===== src/Prelude/Lists.antt =====
-- Lists measured and indexed by native numbers, under the library's names, and the slices of a
-- Rust `Vec`: what stands at an index after each.
use Prim.Native.Nat.{ℕ, zero, suc, ◌+◌, ◌-◌, ◌≤◌, ◌<◌, min}
use mathlib.Core.Path.{◌≡◌, refl, ap, ◌∙◌}
use mathlib.Core.Bool.{◌&&◌}
use mathlib.Core.List.{List, [], ◌∷◌, ◌++◌, map}
use mathlib.Core.Option.{Option, none, some}
use native.Mathlib.Omega.{arith}
use mathlib.Core.Logic.{inl, inr}
use fuel_vm.Prelude.Tests.{
  ltb, leb, if◌then◌else◌, Bool-cases, tests, lt→ltb, le→ltb, le→leb, lt→leb,
}

module _ {ℓ} {A : Type ℓ} where
  abbrev pub length : List A → ℕ
  length [] = 0
  length (x ∷ xs) = suc (length xs)

  abbrev pub get_elem? : List A → ℕ → Option A
  get_elem? [] i = none
  get_elem? (x ∷ xs) zero = some x
  get_elem? (x ∷ xs) (suc i) = get_elem? xs i

  unfoldable pub take : ℕ → List A → List A
  take zero xs = []
  take (suc n) [] = []
  take (suc n) (x ∷ xs) = x ∷ take n xs

  unfoldable pub drop : ℕ → List A → List A
  drop zero xs = xs
  drop (suc n) [] = []
  drop (suc n) (x ∷ xs) = drop n xs

  unfoldable pub replicate : ℕ → A → List A
  replicate zero a = []
  replicate (suc n) a = a ∷ replicate n a

  pub length-append : (xs ys : List A) → length (xs ++ ys) ≡ length xs + length ys
  length-append [] ys = omega arith
  length-append (x ∷ xs) ys = omega (arith, length-append xs ys)

  pub length-take : (n : ℕ) (xs : List A) → length (take n xs) ≡ min n (length xs)
  unfolding take
  length-take zero xs = omega arith
  length-take (suc n) [] = omega arith
  length-take (suc n) (x ∷ xs) = omega (arith, length-take n xs)

  pub length-drop : (n : ℕ) (xs : List A) → length (drop n xs) ≡ length xs - n
  unfolding drop
  length-drop zero xs = omega arith
  length-drop (suc n) [] = omega arith
  length-drop (suc n) (x ∷ xs) = omega (arith, length-drop n xs)

  pub length-replicate : (n : ℕ) (a : A) → length (replicate n a) ≡ n
  unfolding replicate
  length-replicate zero a = refl
  length-replicate (suc n) a = ap suc (length-replicate n a)

  pub get_elem?-none : (xs : List A) (i : ℕ) → length xs ≤ i → get_elem? xs i ≡ none
  get_elem?-none [] i h = refl
  get_elem?-none (x ∷ xs) zero h = absurd (omega arith)
  get_elem?-none (x ∷ xs) (suc i) h = get_elem?-none xs i (omega arith)

  pub get_elem?-some : (xs : List A) (i : ℕ) → i < length xs → (a : A) × (get_elem? xs i ≡ some a)
  get_elem?-some [] i h = absurd (omega arith)
  get_elem?-some (x ∷ xs) zero h = (x, refl)
  get_elem?-some (x ∷ xs) (suc i) h = get_elem?-some xs i (omega arith)

  pub get_elem?-take :
      (n i : ℕ) (xs : List A) → get_elem? (take n xs) i ≡ (if ltb i n then get_elem? xs i else none)
  unfolding take
  get_elem?-take zero i xs = ground arith
  get_elem?-take (suc n) i [] = ground arith
  get_elem?-take (suc n) zero (x ∷ xs) = ground arith
  get_elem?-take (suc n) (suc i) (x ∷ xs) = ground (arith, get_elem?-take n i xs)

  pub get_elem?-drop : (n i : ℕ) (xs : List A) → get_elem? (drop n xs) i ≡ get_elem? xs (n + i)
  unfolding drop
  get_elem?-drop zero i xs = ap (get_elem? xs) (omega arith)
  get_elem?-drop (suc n) i [] = refl
  get_elem?-drop (suc n) i (x ∷ xs) =
      get_elem?-drop n i xs ∙ ap (get_elem? (x ∷ xs)) {x = suc (n + i)} (omega arith)

  pub get_elem?-append :
      (xs ys : List A) (i : ℕ)
      → get_elem? (xs ++ ys) i
        ≡ (if ltb i (length xs) then get_elem? xs i else get_elem? ys (i - length xs))
  get_elem?-append [] ys i = ground arith
  get_elem?-append (x ∷ xs) ys zero = ground arith
  get_elem?-append (x ∷ xs) ys (suc i) = ground (arith, get_elem?-append xs ys i)

  pub get_elem?-replicate :
      (n i : ℕ) (a : A) → get_elem? (replicate n a) i ≡ (if ltb i n then some a else none)
  unfolding replicate
  get_elem?-replicate zero i a = ground arith
  get_elem?-replicate (suc n) zero a = ground arith
  get_elem?-replicate (suc n) (suc i) a = ground (arith, get_elem?-replicate n i a)

  -- Two lists with the same element at every index are equal.
  pub get_elem?-ext : (xs ys : List A) → ((i : ℕ) → get_elem? xs i ≡ get_elem? ys i) → xs ≡ ys
  get_elem?-ext [] [] h = refl
  get_elem?-ext [] (y ∷ ys) h = cc (h 0)
  get_elem?-ext (x ∷ xs) [] h = cc (h 0)
  get_elem?-ext (x ∷ xs) (y ∷ ys) h = cc (h 0, get_elem?-ext xs ys (λ i. h (suc i)))

  -- `&xs[a..b]`, for a range inside the list
  unfoldable pub slice : List A → ℕ → ℕ → List A
  slice xs a b = take (b - a) (drop a xs)

  -- `xs[at..at + data.len()].copy_from_slice(&data)`
  unfoldable pub overwrite : List A → ℕ → List A → List A
  overwrite xs at new = take at xs ++ (new ++ drop (at + length new) xs)

  -- `xs.resize(n, a)` and `xs.truncate(n)`
  unfoldable pub resize : List A → ℕ → A → List A
  resize xs n a = take n xs ++ replicate (n - length xs) a

  unfoldable pub truncate : List A → ℕ → List A
  truncate xs n = take n xs

  pub length-slice : (xs : List A) (a b : ℕ) → b ≤ length xs → length (slice xs a b) ≡ b - a
  unfolding slice
  length-slice xs a b h = rw (length-take, length-drop) (omega arith)

  pub length-overwrite :
      (xs : List A) (at : ℕ) (new : List A)
      → at + length new ≤ length xs
      → length (overwrite xs at new) ≡ length xs
  unfolding overwrite
  length-overwrite xs at new h = simp (length-append, length-take, length-drop) (omega arith)

  pub length-resize : (xs : List A) (n : ℕ) (a : A) → length (resize xs n a) ≡ n
  unfolding resize
  length-resize xs n a = simp (length-append, length-take, length-replicate) (omega arith)

  pub length-truncate : (xs : List A) (n : ℕ) → length (truncate xs n) ≡ min n (length xs)
  unfolding truncate
  length-truncate xs n = length-take n xs

  pub get_elem?-slice :
      (xs : List A) (a b i : ℕ)
      → get_elem? (slice xs a b) i ≡ (if ltb i (b - a) then get_elem? xs (a + i) else none)
  unfolding slice
  get_elem?-slice xs a b i = rw (get_elem?-take, get_elem?-drop)

  pub get_elem?-overwrite :
      (xs : List A) (at : ℕ) (new : List A) (i : ℕ)
      → at + length new ≤ length xs
      → get_elem? (overwrite xs at new) i
        ≡ (if leb at i && ltb i (at + length new) then get_elem? new (i - at) else get_elem? xs i)
  unfolding overwrite
  get_elem?-overwrite xs at new i h =
      simp (get_elem?-append, get_elem?-take, get_elem?-drop, length-take)
        (elim (Bool-cases (ltb i at)) [
          | inl p ↦
              rw (p, lt→ltb i (min at (length xs)) (omega tests), lt→leb at i (omega tests)) refl
          | inr p ↦ elim (Bool-cases (ltb i (at + length new))) [
            | inl q ↦
                rw
                  (
                    q,
                    le→ltb i (min at (length xs)) (omega tests),
                    le→leb at i (omega tests),
                    lt→ltb (i - min at (length xs)) (length new) (omega tests),
                  )
                  (ap (get_elem? new) (omega tests))
            | inr q ↦
                rw
                  (
                    q,
                    le→ltb i (min at (length xs)) (omega tests),
                    le→leb at i (omega tests),
                    le→ltb (i - min at (length xs)) (length new) (omega tests),
                  )
                  (ap (get_elem? xs) (omega tests))
          ]
        ])

  pub get_elem?-resize :
      (xs : List A) (n : ℕ) (a : A) (i : ℕ)
      → get_elem? (resize xs n a) i
        ≡ (if ltb i n then (if ltb i (length xs) then get_elem? xs i else some a) else none)
  unfolding resize
  get_elem?-resize xs n a i =
      simp (get_elem?-append, get_elem?-take, get_elem?-replicate, length-take)
        (elim (Bool-cases (ltb i n)) [
          | inl p ↦ elim (Bool-cases (ltb i (length xs))) [
            | inl q ↦ rw (p, q, lt→ltb i (min n (length xs)) (omega tests)) refl
            | inr q ↦
                rw
                  (
                    p,
                    q,
                    le→ltb i (min n (length xs)) (omega tests),
                    lt→ltb (i - min n (length xs)) (n - length xs) (omega tests),
                  )
                  refl
          ]
          | inr p ↦
              rw
                (
                  p,
                  le→ltb i (min n (length xs)) (omega tests),
                  le→ltb (i - min n (length xs)) (n - length xs) (omega tests),
                )
                refl
        ])

  pub get_elem?-truncate :
      (xs : List A) (n i : ℕ)
      → get_elem? (truncate xs n) i ≡ (if ltb i n then get_elem? xs i else none)
  unfolding truncate
  get_elem?-truncate xs n i = get_elem?-take n i xs

pub length-map {ℓ κ} :
    {A : Type ℓ} {B : Type κ} (f : A → B) (xs : List A) → length (map f xs) ≡ length xs
length-map f [] = refl
length-map f (x ∷ xs) = ap suc (length-map f xs)

-- A predicate on every element
abbrev pub All {ℓ κ} : {A : Type ℓ} → (A → Type κ) → List A → Type κ
All P [] = Unit
All P (x ∷ xs) = P x × All P xs
