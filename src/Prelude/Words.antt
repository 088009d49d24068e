-- ===== src/Prelude/Words.antt =====
-- The arithmetic of `u64` (and `usize`, on a 64-bit target) as the standard library has it:
-- saturating and checked operations, powers of two, and big-endian bytes.
use Prim.Native.Nat.{ℕ, zero, suc, ◌+◌, ◌-◌, ◌*◌, ◌/◌, ◌%◌, ◌^◌, ◌≤◌, ◌<◌, min}
use mathlib.Core.Path.{◌≡◌, refl, sym, ap, ◌∙◌}
use mathlib.Core.Option.{Option, none, some}
use native.Mathlib.Omega.{arith}
use mathlib.Core.List.{List, [], ◌∷◌}
use native.Mathlib.Nat.{pow-suc, mod-lt, mod-eq_of_lt, div-add-mod', mul-add-mod_self_right}
use fuel_vm.Prelude.Lists.{length}
use fuel_vm.Prelude.Tests.{ltb, leb, if◌then◌else◌}

abbrev pub word_max : ℕ
word_max = 2 ^ 64 - 1

unfoldable pub saturating_add : ℕ → ℕ → ℕ
saturating_add a b = min (a + b) word_max

unfoldable pub saturating_mul : ℕ → ℕ → ℕ
saturating_mul a b = min (a * b) word_max

abbrev pub checked_add : ℕ → ℕ → Option ℕ
checked_add a b = if leb (a + b) word_max then some (a + b) else none

abbrev pub checked_sub : ℕ → ℕ → Option ℕ
checked_sub a b = if leb b a then some (a - b) else none

-- The first of `p`, `2 p`, `4 p`, … that is at least `n`, within `k` doublings.
unfoldable pub doubling : ℕ → ℕ → ℕ → ℕ
doubling zero p n = p
doubling (suc k) p n = let rest = doubling k (2 * p) n in if leb n p then p else rest

-- `n.next_power_of_two()`
unfoldable pub next_power_of_two : ℕ → ℕ
unfolding doubling
next_power_of_two n = doubling 63 1 n

-- `n.clamp(lo, hi)`
abbrev pub clamp : ℕ → ℕ → ℕ → ℕ
clamp n lo hi = if ltb n lo then lo else if ltb hi n then hi else n

doubling-le : (k p n : ℕ) → n ≤ p * 2 ^ k → n ≤ doubling k p n
unfolding doubling
doubling-le zero p n h = omega arith
doubling-le (suc k) p n h =
    ground (arith, doubling-le k (2 * p) n (omega (arith, ap (λ (t : ℕ). p * t) (pow-suc 2 k))))

pub next_power_of_two-le : (n : ℕ) → n ≤ 2 ^ 63 → n ≤ next_power_of_two n
unfolding next_power_of_two
next_power_of_two-le n h = doubling-le 63 1 n (omega arith)

-- `w.to_be_bytes()` in `n` bytes, of a word that is truncated to them, and its inverse
unfoldable pub to_be_bytes : ℕ → ℕ → List ℕ
to_be_bytes zero w = []
to_be_bytes (suc n) w = (w / 256 ^ n % 256) ∷ to_be_bytes n w

unfoldable pub from_be_bytes_onto : ℕ → List ℕ → ℕ
from_be_bytes_onto acc [] = acc
from_be_bytes_onto acc (b ∷ bs) = from_be_bytes_onto (acc * 256 + b) bs

unfoldable pub from_be_bytes : List ℕ → ℕ
unfolding from_be_bytes_onto
from_be_bytes bs = from_be_bytes_onto 0 bs

pub length-to_be_bytes : (n w : ℕ) → length (to_be_bytes n w) ≡ n
unfolding to_be_bytes
length-to_be_bytes zero w = refl
length-to_be_bytes (suc n) w = ap suc (length-to_be_bytes n w)

pow_pos : (n : ℕ) → 0 < 256 ^ n
pow_pos zero = omega arith
pow_pos (suc n) = rw (pow-suc 256 n) (omega (arith, pow_pos n))

digit_bound : (p q r : ℕ) → q < 256 → r < p → q * p + r < p * 256
digit_bound p q r h k = grind arith

-- The remainder by `p * 256` is the digit above `p` and the remainder by `p`.
mod_split : (p w : ℕ) → 0 < p → w % (p * 256) ≡ (w / p % 256) * p + w % p
mod_split p w h =
    let q : ℕ = w / p / 256 in
    let x : ℕ = (w / p % 256) * p + w % p in
    let small : x < p * 256 = digit_bound p (w / p % 256) (w % p) (omega arith) (mod-lt w h) in
    let high : w / p ≡ q * 256 + w / p % 256 = omega arith in
    let parts : w ≡ q * (p * 256) + x =
      sym (div-add-mod' w p) ∙ omega (arith, ap (λ (t : ℕ). t * p) high) in
    ap (λ t. t % (p * 256)) parts ∙ mul-add-mod_self_right q (p * 256) x ∙ mod-eq_of_lt small

onto_to_be_bytes :
    (n acc w : ℕ) → from_be_bytes_onto acc (to_be_bytes n w) ≡ acc * 256 ^ n + w % 256 ^ n
unfolding from_be_bytes_onto to_be_bytes
onto_to_be_bytes zero acc w = omega arith
onto_to_be_bytes (suc n) acc w =
    rw (onto_to_be_bytes n, pow-suc 256 n, mod_split (256 ^ n) w (pow_pos n)) (omega arith)

-- Writing a word to bytes and reading it back keeps its lowest bytes.
pub from_be_bytes-to_be_bytes : (n w : ℕ) → from_be_bytes (to_be_bytes n w) ≡ w % 256 ^ n
unfolding from_be_bytes
from_be_bytes-to_be_bytes n w = onto_to_be_bytes n 0 w ∙ omega arith
