-- ===== src/Vm/Alu/Root.antt =====
-- The integer root of MROO: `checked_nth_root` of fuel-vm/src/interpreter/executors/instruction.rs.
-- `powf` stands for the approximation by floating-point numbers, cut to an integer. The assertion
-- that a debug build makes on the guess is left out.
use native.Mathlib.Nat.{pow-suc, pow-zero, pow-le-pow_left, pow-le-pow_right}
use fuel_vm.Prelude.{
  ℕ, zero, suc, ◌+◌, ◌-◌, ◌^◌, ◌≤◌, ◌<◌, ◌≡◌, refl, sym, subst, Bool, true, false, ◌||◌, Option,
  none, some, ltb, leb, lt→ltb, ltb→lt, ltb→le, le→leb, ◌==◌, if◌then◌else◌, arith, tests,
  Bool-cases, inl, inr, ◌⊎◌, word_max, checked_add,
}
use fuel_vm.Outcome.{Result, ok, err, crash}

-- `u64::checked_pow`
abbrev pub checked_pow : ℕ → ℕ → Option ℕ
checked_pow v n = if leb (v ^ n) word_max then some (v ^ n) else none

abbrev pow_above : ℕ → Option ℕ → Bool
pow_above target none = true
pow_above target (some pow) = ltb target pow

unfoldable pub is_nth_power_below_target : ℕ → ℕ → ℕ → Bool
is_nth_power_below_target target nth_root v = pow_above target (checked_pow v nth_root)

-- The root from the guess and the guess plus one
unfoldable pub corrected_above : ℕ → ℕ → ℕ → Option ℕ → Result (Option ℕ)
unfolding is_nth_power_below_target
corrected_above target nth_root guess none = err crash
corrected_above target nth_root guess (some guess_plus_one) =
    if is_nth_power_below_target target nth_root guess_plus_one
    then ok (some guess)
    else ok (some guess_plus_one)

unfoldable pub corrected : ℕ → ℕ → ℕ → Result (Option ℕ)
unfolding is_nth_power_below_target corrected_above
corrected target nth_root guess =
    if is_nth_power_below_target target nth_root guess
    then ok (some (guess - 1))
    else corrected_above target nth_root guess (checked_add guess 1)

unfoldable pub checked_nth_root : (ℕ → ℕ → ℕ) → ℕ → ℕ → Result (Option ℕ)
unfolding corrected
checked_nth_root powf target nth_root =
    if nth_root == 0
    then ok none
    else if nth_root == 1 || leb target 1
    then ok (some target)
    else if leb target nth_root || ltb 64 nth_root
    then ok (some 1)
    else corrected target nth_root (powf target nth_root)

-- The root, rounded down
pub record IsNthRoot (target nth_root root : ℕ) : Type 0 where
  pub not_above : root ^ nth_root ≤ target
  pub next_above : target < (root + 1) ^ nth_root

-- A guess that is off by one at most
pub record IsGuess (target nth_root guess : ℕ) : Type 0 where
  pub not_high : (guess - 1) ^ nth_root ≤ target
  pub not_low : target < (guess + 2) ^ nth_root

power_below :
    (target nth_root v : ℕ)
    → target ≤ word_max
    → is_nth_power_below_target target nth_root v ≡ ltb target (v ^ nth_root)
unfolding is_nth_power_below_target
power_below target nth_root v h = elim (Bool-cases (leb (v ^ nth_root) word_max)) [
  | inl p ↦ rw (p) refl
  | inr p ↦ rw (p, lt→ltb target (v ^ nth_root) (omega tests)) refl
]

lt_two_pow : (t : ℕ) → t < 2 ^ t
lt_two_pow zero = omega arith
lt_two_pow (suc t) = omega (arith, lt_two_pow t, pow-suc 2 t)

one_pow : (n : ℕ) → 1 ^ n ≡ 1
one_pow zero = refl
one_pow (suc n) = omega (arith, one_pow n, pow-suc 1 n)

-- A root of at least two is small.
guess_bound :
    (guess target nth_root : ℕ)
    → 2 ≤ nth_root
    → target ≤ word_max
    → (guess - 1) ^ nth_root ≤ target
    → guess + 1 ≤ word_max
guess_bound guess target nth_root h k l = elim (Bool-cases (leb (guess + 1) word_max)) [
  | inl p ↦ omega tests
  | inr p ↦ absurd (
      omega (
        tests,
        pow-le-pow_left {n = 2 ^ 32} {m = guess - 1} (omega tests) 2,
        pow-le-pow_right {n = guess - 1} (omega tests) {i = 2} {j = nth_root} h,
      ))
]

corrected-IsNthRoot :
    (target nth_root guess : ℕ)
    → target ≤ word_max
    → 2 ≤ nth_root
    → IsGuess target nth_root guess
    → (root : ℕ) × (corrected target nth_root guess ≡ ok (some root))
      × IsNthRoot target nth_root root
unfolding corrected corrected_above
corrected-IsNthRoot target nth_root guess b h g =
    elim (Bool-cases (ltb target (guess ^ nth_root))) [
      | inl p ↦ (
        guess - 1,
        rw (power_below target nth_root guess b, p) refl,
        record {
          not_above = g.not_high;
          next_above =
              omega (tests, pow-le-pow_left {n = guess} {m = guess - 1 + 1} (omega arith) nth_root);
        },
      )
      | inr p ↦ elim (Bool-cases (ltb target ((guess + 1) ^ nth_root))) [
        | inl q ↦ (
          guess,
          rw
              (
                power_below target nth_root guess b,
                p,
                le→leb (guess + 1) word_max (guess_bound guess target nth_root h b g.not_high),
                power_below target nth_root (guess + 1) b,
                q,
              )
              refl,
          record {
            not_above = ltb→le target (guess ^ nth_root) p;
            next_above = ltb→lt target ((guess + 1) ^ nth_root) q;
          },
        )
        | inr q ↦ (
          guess + 1,
          rw
              (
                power_below target nth_root guess b,
                p,
                le→leb (guess + 1) word_max (guess_bound guess target nth_root h b g.not_high),
                power_below target nth_root (guess + 1) b,
                q,
              )
              refl,
          record {
            not_above = ltb→le target ((guess + 1) ^ nth_root) q;
            next_above = omega (
              arith,
              g.not_low,
              pow-le-pow_left {n = guess + 2} {m = guess + 1 + 1} (omega arith) nth_root,
            );
          },
        )
      ]
    ]

pow_one : (v : ℕ) → v ^ 1 ≡ v
pow_one v = rw (pow-suc v 0, pow-zero v) (omega arith)

zero_pow : (n : ℕ) → 1 ≤ n → 0 ^ n ≤ 0
zero_pow zero h = absurd (omega arith)
zero_pow (suc n) h = omega (arith, pow-suc 0 n)

self_root : (target : ℕ) (n : ℕ) → 1 ≤ n → (n ≡ 1) ⊎ (target ≤ 1) → IsNthRoot target n target
self_root target n h (inl k) =
    subst (λ (m : ℕ). IsNthRoot target m target) (sym k)
      (record {
        not_above = omega (arith, pow_one target);
        next_above = omega (arith, pow_one (target + 1));
      })
self_root zero n h (inr k) = record {
  not_above = zero_pow n h;
  next_above = omega (arith, one_pow n);
}
self_root (suc zero) n h (inr k) = record {
  not_above = omega (arith, one_pow n);
  next_above = omega (arith, pow-le-pow_right {n = 2} (omega arith) {i = 1} {j = n} h);
}
self_root (suc (suc t)) n h (inr k) = absurd (omega arith)

one_root :
    (target n : ℕ) → target ≤ word_max → 2 ≤ target → (target ≤ n) ⊎ (64 < n) → IsNthRoot target n 1
one_root target n b h (inl k) = record {
  not_above = omega (arith, one_pow n);
  next_above =
      omega
        (arith, lt_two_pow target, pow-le-pow_right {n = 2} (omega arith) {i = target} {j = n} k);
}
one_root target n b h (inr k) = record {
  not_above = omega (arith, one_pow n);
  next_above = omega (arith, pow-le-pow_right {n = 2} (omega arith) {i = 64} {j = n} (omega arith));
}

nonzero_test : (n : ℕ) → 1 ≤ n → (n == 0) ≡ false
nonzero_test n h = ground arith

or_true : (n target : ℕ) → (n == 1 || leb target 1) ≡ true → (n ≡ 1) ⊎ (target ≤ 1)
or_true n target e = ground arith

large : (target n : ℕ) → 1 ≤ n → (n == 1 || leb target 1) ≡ false → (2 ≤ n) × (2 ≤ target)
large target n h e = ground arith

beyond : (target n : ℕ) → (leb target n || ltb 64 n) ≡ true → (target ≤ n) ⊎ (64 < n)
beyond target n e = ground arith

small : (target n : ℕ) → (leb target n || ltb 64 n) ≡ false → (n ≤ 64) × (n < target)
small target n e = ground arith

-- For a word and a root that is not the zeroth, where the floating-point approximation the code asks
-- for is off by one at most, the result is the root rounded down, and the addition of one to the
-- guess does not overflow, so that the host does not stop.
pub checked_nth_root_lem :
    (powf : ℕ → ℕ → ℕ) (target nth_root : ℕ)
    → (2 ≤ nth_root
        → nth_root ≤ 64
        → nth_root < target
        → IsGuess target nth_root (powf target nth_root))
    → target ≤ word_max
    → 1 ≤ nth_root
    → (root : ℕ) × (checked_nth_root powf target nth_root ≡ ok (some root))
      × IsNthRoot target nth_root root
unfolding checked_nth_root
checked_nth_root_lem powf target nth_root h b k =
    elim (Bool-cases (nth_root == 1 || leb target 1)) [
      | inl p ↦ (
        target,
        rw (nonzero_test nth_root k, p) refl,
        self_root target nth_root k (or_true nth_root target p),
      )
      | inr p ↦ elim (Bool-cases (leb target nth_root || ltb 64 nth_root)) [
        | inl q ↦ (
          1,
          rw (nonzero_test nth_root k, p, q) refl,
          one_root target nth_root b (omega (arith, (large target nth_root k p).1))
              (beyond target nth_root q),
        )
        | inr q ↦
            let (root, e, r) =
              corrected-IsNthRoot target nth_root (powf target nth_root) b
                (large target nth_root k p).0
                (h (large target nth_root k p).0 (small target nth_root q).0
                  (small target nth_root q).1) in
            (root, rw (nonzero_test nth_root k, p, q) e, r)
      ]
    ]
