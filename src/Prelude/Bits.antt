-- ===== src/Prelude/Bits.antt =====
-- The bitwise operations of two words give a word.
use Prim.Native.Nat.{
  ℕ, zero, suc, ◌+◌, ◌*◌, ◌/◌, ◌%◌, ◌^◌, ◌≤◌, ◌<◌, min, max, bit_and, bit_or, bit_xor, digits,
  differ, bit_and-bitwise, bit_or-bitwise, bit_xor-bitwise,
}
use mathlib.Core.Path.{◌≡◌, ◌∙◌, refl, ap}
use native.Mathlib.Omega.{arith}
use native.Mathlib.Nat.{pow-suc}

module _ (z : ℕ → ℕ) (f : ℕ → ℕ → ℕ) (hz : (b : ℕ) → z b ≤ b)
    (hf : (x y : ℕ) → x < 2 → y < 2 → f x y < 2) where
  digits-lt : (n k a b : ℕ) → a < 2 ^ k → b < 2 ^ k → digits z f n a b < 2 ^ k
  digits-lt zero k a b p q = omega (arith, hz b)
  digits-lt (suc n) k zero b p q = omega (arith, hz b)
  digits-lt (suc n) zero (suc a) b p q = absurd (omega arith)
  digits-lt (suc n) (suc k) (suc a) b p q = omega (
    arith,
    pow-suc 2 k,
    digits-lt n k (suc a / 2) (b / 2) (omega (arith, pow-suc 2 k)) (omega (arith, pow-suc 2 k)),
    hf (suc a % 2) (b % 2) (omega arith) (omega arith),
  )

differ-lt : (x y : ℕ) → x < 2 → y < 2 → differ x y < 2
differ-lt zero y p q = q
differ-lt (suc x) zero p q = p
differ-lt (suc x) (suc y) p q = differ-lt x y (omega arith) (omega arith)

pub bit_and-lt : (k a b : ℕ) → a < 2 ^ k → b < 2 ^ k → bit_and a b < 2 ^ k
bit_and-lt k a b p q = omega (
  arith,
  bit_and-bitwise a b,
  digits-lt (λ b. 0) min (λ b. omega arith) (λ x y h l. omega arith) a k a b p q,
)

pub bit_or-lt : (k a b : ℕ) → a < 2 ^ k → b < 2 ^ k → bit_or a b < 2 ^ k
bit_or-lt k a b p q = omega (
  arith,
  bit_or-bitwise a b,
  digits-lt (λ b. b) max (λ b. omega arith) (λ x y h l. omega arith) a k a b p q,
)

pub bit_xor-lt : (k a b : ℕ) → a < 2 ^ k → b < 2 ^ k → bit_xor a b < 2 ^ k
bit_xor-lt k a b p q =
    omega (
      arith,
      bit_xor-bitwise a b,
      digits-lt (λ b. b) differ (λ b. omega arith) differ-lt a k a b p q,
    )

digits-disjoint :
    (n k q a b : ℕ) → a ≡ q * 2 ^ k → a ≤ n → b < 2 ^ k → digits (λ b. b) max n a b ≡ a + b
digits-disjoint zero k q a b e l h = omega arith
digits-disjoint (suc n) k q zero b e l h = omega arith
digits-disjoint (suc n) zero q (suc a) b e l h = omega (
  arith,
  digits-disjoint n zero (suc a / 2) (suc a / 2) (b / 2) (omega arith) (omega arith) (omega arith),
)
digits-disjoint (suc n) (suc k) q (suc a) b e l h =
    let double : suc a ≡ q * 2 ^ k * 2 = omega (arith, e, ap (λ (t : ℕ). q * t) (pow-suc 2 k)) in
    omega (
      arith,
      digits-disjoint n k q (suc a / 2) (b / 2) (omega (arith, double)) (omega arith)
          (omega (arith, pow-suc 2 k)),
      double,
    )

-- The digits of a multiple of a power of two and of a number below the power do not meet.
pub bit_or-disjoint : (k q b : ℕ) → b < 2 ^ k → bit_or (q * 2 ^ k) b ≡ q * 2 ^ k + b
bit_or-disjoint k q b h =
    bit_or-bitwise (q * 2 ^ k) b
    ∙ digits-disjoint (q * 2 ^ k) k q (q * 2 ^ k) b refl (omega arith) h
