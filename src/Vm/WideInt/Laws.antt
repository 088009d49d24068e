-- ===== src/Vm/WideInt/Laws.antt =====
-- What the handlers of fuel-vm/src/interpreter/alu/wideint.rs rely on: the documented behaviour of
-- `u128` and of the types of ethnum and primitive_types, on numbers of the width. `exact` computes
-- so.
use Prim.Native.Nat.{bit_and, bit_or, bit_xor}
use fuel_vm.Prelude.{
  ℕ, zero, suc, ◌+◌, ◌-◌, ◌*◌, ◌/◌, ◌%◌, ◌^◌, ◌≤◌, ◌<◌, ◌≡◌, refl, ap, Option, none, some, ltb, leb,
  ◌==◌, if◌then◌else◌, arith,
}
use fuel_vm.Vm.WideInt.{WideOps}

pub record IsWide (ops : WideOps) : Type 0 where
  pub holds_word : 8 ≤ ops.size
  pub add :
      (l r : ℕ)
      → l < 256 ^ ops.size
      → r < 256 ^ ops.size
      → ops.overflowing_add l r ≡ ((l + r) % 256 ^ ops.size, leb (256 ^ ops.size) (l + r))
  pub sub :
      (l r : ℕ)
      → l < 256 ^ ops.size
      → r < 256 ^ ops.size
      → ops.overflowing_sub l r ≡ ((l + 256 ^ ops.size - r) % 256 ^ ops.size, ltb l r)
  pub mul :
      (l r : ℕ)
      → l < 256 ^ ops.size
      → r < 256 ^ ops.size
      → ops.overflowing_mul l r ≡ ((l * r) % 256 ^ ops.size, leb (256 ^ ops.size) (l * r))
  pub leading_zeros_u32 : (l : ℕ) → ops.leading_zeros l < 2 ^ 32
  pub div :
      (l r : ℕ)
      → l < 256 ^ ops.size
      → r < 256 ^ ops.size
      → ops.checked_div l r ≡ (if r == 0 then none else some (l / r))
  pub full_mul : (l r : ℕ) → l < 256 ^ ops.size → r < 256 ^ ops.size → ops.full_mul l r ≡ l * r
  pub wider_add :
      (l r : ℕ) → l < 256 ^ ops.size → r < 256 ^ ops.size → ops.wider_checked_add l r ≡ some (l + r)
  pub wider_div :
      (n r : ℕ)
      → n < 256 ^ ops.size * 256 ^ ops.size
      → r < 256 ^ ops.size
      → ops.wider_checked_div n r ≡ (if r == 0 then none else some (n / r))
  pub wider_rem :
      (n r : ℕ)
      → n < 256 ^ ops.size * 256 ^ ops.size
      → r < 256 ^ ops.size
      → ops.wider_checked_rem n r ≡ (if r == 0 then none else some (n % r))
  pub wider_shr :
      (n : ℕ)
      → n < 256 ^ ops.size * 256 ^ ops.size
      → ops.wider_shr n (ops.size * 8) ≡ n / 256 ^ ops.size

-- The zeros above a number of at most `n` digits
unfoldable leading : ℕ → ℕ → ℕ
leading zero l = 0
leading (suc n) l = let rest = leading n l in if ltb l (2 ^ n) then suc rest else 0

abbrev divided : ℕ → ℕ → Option ℕ
divided l r = if r == 0 then none else some (l / r)

-- Operations on numbers
unfoldable pub exact : ℕ → WideOps
unfolding leading
exact size = record {
  size = size;
  overflowing_add = λ l r. ((l + r) % 256 ^ size, leb (256 ^ size) (l + r));
  overflowing_sub = λ l r. ((l + 256 ^ size - r) % 256 ^ size, ltb l r);
  overflowing_mul = λ l r. ((l * r) % 256 ^ size, leb (256 ^ size) (l * r));
  bitor = bit_or;
  bitxor = bit_xor;
  bitand = bit_and;
  complement = λ l. 256 ^ size - 1 - l;
  checked_shl = λ l r. if ltb r (size * 8) then some (l * 2 ^ r % 256 ^ size) else none;
  checked_shr = λ l r. if ltb r (size * 8) then some (l / 2 ^ r) else none;
  leading_zeros = λ l. leading (size * 8) l;
  checked_div = divided;
  full_mul = λ l r. l * r;
  wider_checked_add = λ l r. some (l + r);
  wider_checked_div = divided;
  wider_checked_rem = λ n r. if r == 0 then none else some (n % r);
  wider_shr = λ n k. n / 2 ^ k;
}

leading-le : (n l : ℕ) → leading n l ≤ n
unfolding leading
leading-le zero l = omega arith
leading-le (suc n) l = ground (arith, leading-le n l)

pub exact-IsWide :
    (size : ℕ) → 8 ≤ size → size ≤ 32 → 2 ^ (size * 8) ≡ 256 ^ size → IsWide (exact size)
unfolding exact
exact-IsWide size h k e = record {
  holds_word = h;
  add = λ l r _ _. refl;
  sub = λ l r _ _. refl;
  mul = λ l r _ _. refl;
  leading_zeros_u32 = λ l. omega (arith, leading-le (size * 8) l);
  div = λ l r _ _. refl;
  full_mul = λ l r _ _. refl;
  wider_add = λ l r _ _. refl;
  wider_div = λ n r _ _. refl;
  wider_rem = λ n r _ _. refl;
  wider_shr = λ n _. ap (λ (d : ℕ). n / d) e;
}
