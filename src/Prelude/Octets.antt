-- ===== src/Prelude/Octets.antt =====
-- Lists of octets: what bounds the word that they spell.
use Prim.Native.Nat.{ℕ, zero, suc, ◌+◌, ◌*◌, ◌^◌, ◌≤◌, ◌<◌}
use mathlib.Core.Path.{◌≡◌, refl}
use mathlib.Core.List.{List, [], ◌∷◌, ◌++◌}
use mathlib.Core.Option.{some}
use native.Mathlib.Omega.{arith}
use native.Mathlib.Nat.{pow-succ', le_trans, mul-le-mul_right}
use fuel_vm.Prelude.Lists.{length, get_elem?, take, drop, replicate}
use fuel_vm.Prelude.Words.{to_be_bytes, from_be_bytes, from_be_bytes_onto}

abbrev pub AllOctets : List ℕ → Type 0
AllOctets [] = Unit
AllOctets (b ∷ bs) = (b < 256) × AllOctets bs

pub AllOctets-get_elem? :
    (bs : List ℕ) (i : ℕ) {b : ℕ} → AllOctets bs → get_elem? bs i ≡ some b → b < 256
AllOctets-get_elem? [] i h e = cc
AllOctets-get_elem? (x ∷ bs) zero h e = ground arith
AllOctets-get_elem? (x ∷ bs) (suc i) h e = AllOctets-get_elem? bs i h.1 e

pub AllOctets-elements :
    (bs : List ℕ) → ((i b : ℕ) → get_elem? bs i ≡ some b → b < 256) → AllOctets bs
AllOctets-elements [] h = tt
AllOctets-elements (x ∷ bs) h = (h 0 x refl, AllOctets-elements bs (λ i b e. h (suc i) b e))

pub AllOctets-append : (xs ys : List ℕ) → AllOctets xs → AllOctets ys → AllOctets (xs ++ ys)
AllOctets-append [] ys h k = k
AllOctets-append (x ∷ xs) ys h k = (h.0, AllOctets-append xs ys h.1 k)

pub AllOctets-take : (n : ℕ) (xs : List ℕ) → AllOctets xs → AllOctets (take n xs)
unfolding take
AllOctets-take zero xs h = tt
AllOctets-take (suc n) [] h = tt
AllOctets-take (suc n) (x ∷ xs) h = (h.0, AllOctets-take n xs h.1)

pub AllOctets-drop : (n : ℕ) (xs : List ℕ) → AllOctets xs → AllOctets (drop n xs)
unfolding drop
AllOctets-drop zero xs h = h
AllOctets-drop (suc n) [] h = tt
AllOctets-drop (suc n) (x ∷ xs) h = AllOctets-drop n xs h.1

pub AllOctets-to_be_bytes : (n w : ℕ) → AllOctets (to_be_bytes n w)
unfolding to_be_bytes
AllOctets-to_be_bytes zero w = tt
AllOctets-to_be_bytes (suc n) w = (omega arith, AllOctets-to_be_bytes n w)

pub AllOctets-zeros : (n : ℕ) → AllOctets (replicate n 0)
unfolding replicate
AllOctets-zeros zero = tt
AllOctets-zeros (suc n) = (omega arith, AllOctets-zeros n)

onto_step : (p acc b : ℕ) → b < 256 → (acc * 256 + b + 1) * p ≤ (acc + 1) * (256 * p)
onto_step p acc b h =
    let small : acc * 256 + b + 1 ≤ (acc + 1) * 256 = omega arith in
    omega (arith, mul-le-mul_right p small)

onto_bound :
    (acc : ℕ) (bs : List ℕ)
    → AllOctets bs
    → from_be_bytes_onto acc bs + 1 ≤ (acc + 1) * 256 ^ length bs
unfolding from_be_bytes_onto
onto_bound acc [] h = omega arith
onto_bound acc (b ∷ bs) h =
    let rest = onto_bound (acc * 256 + b) bs h.1 in
    rw (pow-succ' 256 (length bs)) (le_trans rest (onto_step (256 ^ length bs) acc b h.0))

-- The word that octets spell has as many bytes.
pub from_be_bytes-lt : (bs : List ℕ) → AllOctets bs → from_be_bytes bs < 256 ^ length bs
unfolding from_be_bytes
from_be_bytes-lt bs h = omega (arith, onto_bound 0 bs h)
