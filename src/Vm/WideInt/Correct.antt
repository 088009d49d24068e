-- ===== src/Vm/WideInt/Correct.antt =====
-- What the handlers of fuel-vm/src/interpreter/alu/wideint.rs compute from numbers in the memory.
use native.Mathlib.Nat.{
  pow-le-pow_right, mod-lt, mod-eq_of_lt, mul-le-mul_left, mul-lt-mul_of_pos_right,
}
use fuel_vm.Prelude.{
  ℕ, ◌+◌, ◌*◌, ◌/◌, ◌%◌, ◌^◌, ◌<◌, ◌≡◌, refl, sym, ap, subst, ◌∙◌, false, not, Option, none, some,
  List, ◌==◌, if◌then◌else◌, arith, Bool-cases, inl, inr, from_be_bytes, from_be_bytes-lt,
}
use fuel_vm.Outcome.{ok, crash}
use fuel_vm.Memory.{read}
use fuel_vm.Vm.{Vm, Action, ◌>>=◌, pure, ownership_registers, from_option}
use fuel_vm.Vm.WideInt.{
  WideOps, load_wide, store_overflowing, store_quotient, alu_wideint_addmod, alu_wideint_mulmod,
  alu_wideint_muldiv, wide_muldiv, truncate_from_prim,
}
use fuel_vm.Reg
use fuel_vm.Vm.{instruction_size}
use fuel_vm.Prelude.{◌≤◌, word_max}
use fuel_vm.Vm.WideInt.Stored.{
  Divides, store_quotient-Divides, Overflowing, store_overflowing-Overflowing,
}
use fuel_vm.Vm.Binds.{bind_ok}
use fuel_vm.Vm.WideInt.Laws.{IsWide}
use fuel_vm.Vm.Valid.{IsValid, Post}
use fuel_vm.Vm.Valid.Access.{IsRead, read-Runs}

-- The remainder by a number, if that is not zero
abbrev pub residue : ℕ → ℕ → Option ℕ
residue n m = if m == 0 then none else some (n % m)

-- The quotient by a divider, where zero stands for the first number past the width
abbrev pub quotient : ℕ → ℕ → ℕ → ℕ
quotient size n divider = if divider == 0 then n / 256 ^ size else n / divider

nonzero : (m : ℕ) → (m == 0) ≡ false → 0 < m
nonzero m = ground arith

module _ (ops : WideOps) (laws : IsWide ops) where
  abbrev IsNumber : ℕ → Type 0
  IsNumber n = n < 256 ^ ops.size

  -- A number of the width at an address
  abbrev pub IsAt : Vm → ℕ → ℕ → Type 0
  IsAt vm addr n =
      (bytes : List ℕ) × (read vm.memory addr ops.size ≡ ok bytes) × (n ≡ from_be_bytes bytes)

  IsAt-IsNumber : {vm : Vm} (addr : ℕ) {n : ℕ} → IsValid vm → IsAt vm addr n → IsNumber n
  IsAt-IsNumber {vm} addr v (bytes, e, f) =
      let r : IsRead ops.size bytes =
        subst (Post (IsRead ops.size)) e ((read-Runs addr ops.size).post vm v) in
      subst IsNumber (sym f)
        (subst (λ l. from_be_bytes bytes < 256 ^ l) r.0 (from_be_bytes-lt bytes r.1))

  load_wide-IsAt :
      {vm : Vm} (addr : ℕ) {n : ℕ} → IsAt vm addr n → load_wide ops addr vm ≡ (ok n, vm)
  unfolding load_wide
  load_wide-IsAt {vm} addr (bytes, e, f) =
      bind_ok (λ vm. (read vm.memory addr ops.size, vm)) (λ bytes. pure (from_be_bytes bytes)) vm
        (ap (λ r. (r, vm)) e) (ap (λ n. (ok n, vm)) (sym f))

  -- Two numbers are read, then a third.
  load_three :
      (b c d : ℕ) {l r m : ℕ} (vm : Vm) (k : ℕ → ℕ → ℕ → Action (Unit {0}))
      → IsAt vm b l
      → IsAt vm c r
      → IsAt vm d m
      → (load_wide ops b >>= λ x. load_wide ops c >>= λ y. load_wide ops d >>= λ z. k x y z) vm
        ≡ k l r m vm
  load_three b c d {l} {r} {m} vm k hb hc hd =
      bind_ok (load_wide ops b) (λ x. load_wide ops c >>= λ y. load_wide ops d >>= λ z. k x y z) vm
        (load_wide-IsAt b hb)
        (bind_ok (load_wide ops c) (λ y. load_wide ops d >>= λ z. k l y z) vm (load_wide-IsAt c hc)
          (bind_ok (load_wide ops d) (λ z. k l r z) vm (load_wide-IsAt d hd) refl))

  truncate-residue : (n m : ℕ) → IsNumber m → truncate_from_prim ops (residue n m) ≡ residue n m
  truncate-residue n m h = elim (Bool-cases (m == 0)) [
    | inl p ↦ rw (p) refl
    | inr p ↦ rw (p) (ap some (mod-eq_of_lt (omega (arith, mod-lt n {m = m} (nonzero m p)))))
  ]

  product-bound : (l r : ℕ) → IsNumber l → IsNumber r → l * r < 256 ^ ops.size * 256 ^ ops.size
  product-bound l r h k = omega (
    arith,
    mul-le-mul_left {m = r} {n = 256 ^ ops.size} l (omega arith),
    mul-lt-mul_of_pos_right {k = 256 ^ ops.size} h (omega arith),
  )

  sum-bound : (l r : ℕ) → IsNumber l → IsNumber r → l + r < 256 ^ ops.size * 256 ^ ops.size
  sum-bound l r h k = omega (
    arith,
    mul-le-mul_left {m = 2} {n = 256 ^ ops.size} (256 ^ ops.size) (
        omega (
          arith,
          pow-le-pow_right {n = 256} (omega arith) {i = 1} {j = ops.size}
              (omega (arith, laws.holds_word)),
        )),
  )

  modular-eq :
      (vm : Vm) (dest_addr b c d l r m : ℕ)
      → IsValid vm
      → IsAt vm b l
      → IsAt vm c r
      → IsAt vm d m
      → (alu_wideint_addmod ops dest_addr b c d vm
          ≡ store_quotient ops (ownership_registers vm) dest_addr (residue (l + r) m) vm)
        × (alu_wideint_mulmod ops dest_addr b c d vm
            ≡ store_quotient ops (ownership_registers vm) dest_addr (residue (l * r) m) vm)
  unfolding alu_wideint_addmod alu_wideint_mulmod
  modular-eq vm dest_addr b c d l r m v hb hc hd =
      let h = IsAt-IsNumber b v hb in
      let k = IsAt-IsNumber c v hc in
      let n = IsAt-IsNumber d v hd in
      (
        load_three b c d vm
              (λ x y z. from_option (ops.wider_checked_add x y) crash >>= λ pre_mod.
                store_quotient ops (ownership_registers vm) dest_addr
                  (truncate_from_prim ops (ops.wider_checked_rem pre_mod z)))
              hb hc hd
            ∙ rw
                (
                  laws.wider_add l r h k,
                  laws.wider_rem (l + r) m (sum-bound l r h k) n,
                  truncate-residue (l + r) m n,
                )
                refl,
        load_three b c d vm
              (λ x y z.
                store_quotient ops (ownership_registers vm) dest_addr
                  (truncate_from_prim ops (ops.wider_checked_rem (ops.full_mul x y) z)))
              hb hc hd
            ∙ rw
                (
                  laws.full_mul l r h k,
                  laws.wider_rem (l * r) m (product-bound l r h k) n,
                  truncate-residue (l * r) m n,
                )
                refl,
      )

  -- With numbers of the width at the three addresses, `addmod` stores the remainder of the sum and
  -- `mulmod` that of the product, of no width, as bytes at the destination, clears `$of` and `$err`
  -- and moves on; for a modulus of zero both fail with `ArithmeticError` and change nothing, or store
  -- zero and set `$err`, as the flag says. Where the destination cannot be accessed or is not owned
  -- they fail with its error, and the memory stays. The next program counter is a word.
  pub alu_wideint_modular_lem :
      (vm : Vm) (dest_addr b c d l r m : ℕ)
      → IsValid vm
      → vm.registers Reg.pc + instruction_size ≤ word_max
      → IsAt vm b l
      → IsAt vm c r
      → IsAt vm d m
      → Divides ops dest_addr (residue (l + r) m) vm (alu_wideint_addmod ops dest_addr b c d vm)
        × Divides ops dest_addr (residue (l * r) m) vm (alu_wideint_mulmod ops dest_addr b c d vm)
  alu_wideint_modular_lem vm dest_addr b c d l r m v k hb hc hd =
      let (add, mul) = modular-eq vm dest_addr b c d l r m v hb hc hd in
      (
        subst (λ q. Divides ops dest_addr (residue (l + r) m) vm q) (sym add)
            (store_quotient-Divides ops dest_addr (residue (l + r) m) vm v k),
        subst (λ q. Divides ops dest_addr (residue (l * r) m) vm q) (sym mul)
            (store_quotient-Divides ops dest_addr (residue (l * r) m) vm v k),
      )

  wide_muldiv-eq :
      (l r divider : ℕ)
      → IsNumber l
      → IsNumber r
      → IsNumber divider
      → wide_muldiv ops l r divider ≡ quotient ops.size (l * r) divider
  unfolding wide_muldiv
  wide_muldiv-eq l r divider h k n =
      rw
        (
          laws.full_mul l r h k,
          laws.wider_div (l * r) divider (product-bound l r h k) n,
          laws.wider_shr (l * r) (product-bound l r h k),
        )
        (elim (Bool-cases (divider == 0)) [ inl p ↦ rw (p) refl | inr p ↦ rw (p) refl ])

  muldiv-eq :
      (vm : Vm) (dest_addr b c d l r divider : ℕ)
      → IsValid vm
      → IsAt vm b l
      → IsAt vm c r
      → IsAt vm d divider
      → alu_wideint_muldiv ops dest_addr b c d vm
        ≡ store_overflowing ops
            (ownership_registers vm)
            dest_addr
            (quotient ops.size (l * r) divider % 256 ^ ops.size)
            (not (quotient ops.size (l * r) divider / 256 ^ ops.size == 0))
            vm
  unfolding alu_wideint_muldiv
  muldiv-eq vm dest_addr b c d l r divider v hb hc hd =
      load_three b c d vm
        (λ x y z.
          store_overflowing ops (ownership_registers vm) dest_addr
            (wide_muldiv ops x y z % 256 ^ ops.size)
            (not (wide_muldiv ops x y z / 256 ^ ops.size == 0)))
        hb hc hd
      ∙ rw
          (wide_muldiv-eq l r divider (IsAt-IsNumber b v hb) (IsAt-IsNumber c v hc)
            (IsAt-IsNumber d v hd))
          refl

  -- With numbers of the width at the three addresses, `muldiv` stores the quotient of the product, of
  -- no width, cut to the width, as bytes at the destination, with `$of` one exactly if the quotient
  -- does not fit and `$err` zero, and moves on; where it does not fit and may not wrap it fails with
  -- `ArithmeticOverflow` and changes nothing. A divider of zero stands for the first number that the
  -- width does not hold. Where the destination cannot be accessed or is not owned it fails with its
  -- error, and the memory stays. The next program counter is a word.
  pub alu_wideint_muldiv_lem :
      (vm : Vm) (dest_addr b c d l r divider : ℕ)
      → IsValid vm
      → vm.registers Reg.pc + instruction_size ≤ word_max
      → IsAt vm b l
      → IsAt vm c r
      → IsAt vm d divider
      → Overflowing ops dest_addr
          (quotient ops.size (l * r) divider % 256 ^ ops.size)
          (not (quotient ops.size (l * r) divider / 256 ^ ops.size == 0))
          vm
          (alu_wideint_muldiv ops dest_addr b c d vm)
  alu_wideint_muldiv_lem vm dest_addr b c d l r divider v k hb hc hd =
      let wrapped = quotient ops.size (l * r) divider % 256 ^ ops.size in
      let overflow = not (quotient ops.size (l * r) divider / 256 ^ ops.size == 0) in
      subst (λ q. Overflowing ops dest_addr wrapped overflow vm q)
        (sym (muldiv-eq vm dest_addr b c d l r divider v hb hc hd))
        (store_overflowing-Overflowing ops dest_addr wrapped overflow vm v k)
