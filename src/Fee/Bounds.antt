-- ===== src/Fee/Bounds.antt =====
-- What the fees of fuel-tx/src/transaction/fee.rs are to the gas that they pay for.
use native.Mathlib.Nat.{mul-le-mul_left, mul-le-mul_right, div-add-mod', mod-lt}
use fuel_vm.Prelude.{
  ℕ, zero, suc, ◌+◌, ◌-◌, ◌*◌, ◌/◌, ◌%◌, ◌≤◌, ◌<◌, ◌≡◌, refl, ap, true, false, Option, none, some,
  ltb, leb, ◌==◌, if◌then◌else◌, arith, tests, Bool-cases, inl, inr, word_max, saturating_add,
  saturating_mul, checked_sub, le→leb, lt→leb, le→ltb,
}
use fuel_vm.Outcome.{ok, >>=-ok}
use fuel_vm.Fee.{
  Chargeable, FeeCosts, FeeParameters, TransactionFee, double_max, div_ceil, expect_mul, gas_to_fee,
  min_gas, tx_min_gas, script_gas_limit, max_gas, fee_with_tip, min_fee, max_fee, checked_fee,
  checked_most, checked_from_tx, refund, refund_fee, tip, witness_limit, max_fee_limit,
}

-- The least amount that pays for the gas
pub record Pays (gas gas_price factor amount : ℕ) : Type 0 where
  pub enough : gas * gas_price ≤ amount * factor
  pub least : amount * factor < gas * gas_price + factor

not_zero : (n : ℕ) → 1 ≤ n → (n == 0) ≡ false
not_zero n h = ground arith

zero_test : (n : ℕ) → (n == 0) ≡ true → n ≡ 0
zero_test n e = ground arith

nonzero_test : (n : ℕ) → (n == 0) ≡ false → 1 ≤ n
nonzero_test n e = ground arith

div_ceil_lem : (a b : ℕ) → 1 ≤ b → (q : ℕ) × (div_ceil a b ≡ ok q) × (a ≤ q * b) × (q * b < a + b)
unfolding div_ceil
div_ceil_lem a b h = elim (Bool-cases (a % b == 0)) [
  | inl p ↦ (
    a / b,
    rw (not_zero b h, p) refl,
    omega (arith, div-add-mod' a b, zero_test (a % b) p),
    omega (arith, div-add-mod' a b, zero_test (a % b) p),
  )
  | inr p ↦ (
    a / b + 1,
    rw (not_zero b h, p) refl,
    omega (arith, div-add-mod' a b, mod-lt a h),
    omega (arith, div-add-mod' a b, mod-lt a h, nonzero_test (a % b) p),
  )
]

product_bound : (a b : ℕ) → a ≤ word_max → b ≤ word_max → a * b ≤ double_max
product_bound a b h k = omega (arith, mul-le-mul_right b h, mul-le-mul_right word_max k)

gas_to_fee_lem :
    (gas gas_price factor : ℕ)
    → gas ≤ word_max
    → gas_price ≤ word_max
    → 1 ≤ factor
    → (amount : ℕ) × (gas_to_fee gas gas_price factor ≡ ok amount)
      × Pays gas gas_price factor amount
unfolding gas_to_fee expect_mul
gas_to_fee_lem gas gas_price factor h k l =
    let (q, e, f, g) = div_ceil_lem (gas * gas_price) factor l in
    (
      q,
      rw (le→leb (gas * gas_price) double_max (product_bound gas gas_price h k)) e,
      record { enough = f; least = g },
    )

-- More gas costs no less.
Pays-mono :
    {gas gas' gas_price factor amount amount' : ℕ}
    → gas ≤ gas'
    → Pays gas gas_price factor amount
    → Pays gas' gas_price factor amount'
    → amount ≤ amount'
Pays-mono {gas} {gas'} {gas_price} {factor} {amount} {amount'} h p q =
    elim (Bool-cases (leb amount amount')) [
      | inl l ↦ omega tests
      | inr l ↦ absurd (
          omega (
            tests,
            p.least,
            q.enough,
            mul-le-mul_right gas_price h,
            mul-le-mul_right {m = amount' + 1} {n = amount} factor (omega tests),
          ))
    ]

covered : (amount a factor : ℕ) → 1 ≤ factor → amount * factor < a + factor → amount ≤ a
covered zero a factor h l = omega arith
covered (suc n) a (suc f) h l = omega (arith, mul-le-mul_left {m = 1} {n = suc f} n (omega arith))
covered (suc n) a zero h l = absurd (omega arith)

fits :
    (gas gas_price factor amount extra : ℕ)
    → gas ≤ word_max
    → gas_price ≤ word_max
    → 1 ≤ factor
    → extra ≤ word_max
    → Pays gas gas_price factor amount
    → amount + extra ≤ double_max
fits gas gas_price factor amount extra h k l t p = omega (
  arith,
  product_bound gas gas_price h k,
  mul-le-mul_right {m = gas} {n = word_max} gas_price h,
  p.least,
  covered amount (gas * gas_price) factor l p.least,
)

refund-checked_sub :
    (limit used : ℕ) → limit ≤ word_max → refund limit used ≡ checked_sub limit used
unfolding refund
refund-checked_sub limit used h = elim (Bool-cases (ltb word_max used)) [
  | inl p ↦ rw (p, lt→leb used limit (omega tests)) refl
  | inr p ↦ rw (p) refl
]

-- A fee in gas is no more than the price, so that the tip never saturates.
fee_with_tip_lem :
    (tx : Chargeable) (fee : FeeParameters) (gas gas_price : ℕ)
    → gas ≤ word_max
    → gas_price ≤ word_max
    → tip tx ≤ word_max
    → 1 ≤ fee.gas_price_factor
    → (amount : ℕ) × (fee_with_tip tx fee gas gas_price ≡ ok (amount + tip tx))
      × Pays gas gas_price fee.gas_price_factor amount
unfolding fee_with_tip
fee_with_tip_lem tx fee gas gas_price h k t l =
    let (amount, e, p) = gas_to_fee_lem gas gas_price fee.gas_price_factor h k l in
    (
      amount,
      rw (e) (
          ap ok (omega (arith, fits gas gas_price fee.gas_price_factor amount (tip tx) h k l t p))),
      p,
    )

ok_saturated : (a b : ℕ) {gas : ℕ} → ok (saturating_add a b) ≡ ok gas → gas ≤ word_max
unfolding saturating_add
ok_saturated a b {gas} e = let same : saturating_add a b ≡ gas = cc in omega (arith, same)

tx_min_gas-word :
    (tx : Chargeable) (gas_costs : FeeCosts) (fee : FeeParameters) (gas : ℕ)
    → tx_min_gas tx gas_costs fee ≡ ok gas
    → gas ≤ word_max
unfolding tx_min_gas
tx_min_gas-word tx gas_costs fee gas e =
    let (x, f, q) = >>=-ok _ (min_gas tx gas_costs fee) e in ok_saturated _ _ f

-- The gas with what the witnesses may still take, and the gas limit of a script
abbrev pub gas_limit : Chargeable → FeeParameters → ℕ → ℕ
gas_limit tx fee gas =
    saturating_add
      (saturating_add gas (saturating_mul (witness_limit tx - tx.witnesses_size) fee.gas_per_byte))
      (script_gas_limit tx.kind)

limit_word : (tx : Chargeable) (fee : FeeParameters) (gas : ℕ) → gas_limit tx fee gas ≤ word_max
unfolding saturating_add
limit_word tx fee gas = omega arith

within_limit :
    (tx : Chargeable) (fee : FeeParameters) (gas : ℕ) → gas ≤ word_max → gas ≤ gas_limit tx fee gas
unfolding saturating_add
within_limit tx fee gas h = omega arith

abbrev pub within_word : Chargeable → ℕ → ℕ → ℕ → ℕ → Option TransactionFee
within_word tx least most gas limit =
    if ltb word_max (most + tip tx)
    then none
    else some (record {
      min_fee = least + tip tx;
      max_fee = most + tip tx;
      min_gas = gas;
      max_gas = limit;
    })

max_gas-ok :
    (gas_costs : FeeCosts) (fee : FeeParameters) (tx : Chargeable) (gas : ℕ)
    → tx_min_gas tx gas_costs fee ≡ ok gas
    → max_gas tx gas_costs fee ≡ ok (gas_limit tx fee gas)
unfolding max_gas
max_gas-ok gas_costs fee tx gas e = rw (e) refl

checked_most-ok :
    (tx : Chargeable) (least most gas limit : ℕ)
    → least ≤ most
    → checked_most (least + tip tx) gas limit (ok (most + tip tx))
      ≡ ok (within_word tx least most gas limit)
unfolding checked_most checked_fee
checked_most-ok tx least most gas limit h = elim (Bool-cases (ltb word_max (most + tip tx))) [
  | inl p ↦ elim (Bool-cases (ltb word_max (least + tip tx))) [
    | inl q ↦ rw (p, q) refl
    | inr q ↦ rw (p, q) refl
  ]
  | inr p ↦
      rw
        (
          p,
          le→ltb word_max (least + tip tx) (omega tests),
          le→ltb (most + tip tx) (least + tip tx) (omega arith),
        )
        refl
]

-- For every type of transaction: once its least gas is known, which for an upload includes the
-- storage of its bytecode, the fees are the least amounts that pay for the least and the greatest
-- gas, a script's gas limit included, with the tip, and in order. They are refused only if the greatest one is no word.
pub checked_from_tx_lem :
    (gas_costs : FeeCosts) (fee : FeeParameters) (tx : Chargeable) (gas_price gas : ℕ)
    → tx_min_gas tx gas_costs fee ≡ ok gas
    → gas_price ≤ word_max
    → tip tx ≤ word_max
    → 1 ≤ fee.gas_price_factor
    → (least : ℕ) × (most : ℕ) × (checked_from_tx gas_costs fee tx gas_price
        ≡ ok (within_word tx least most gas (gas_limit tx fee gas)))
      × Pays gas gas_price fee.gas_price_factor least
      × Pays (gas_limit tx fee gas) gas_price fee.gas_price_factor most
      × (gas ≤ gas_limit tx fee gas)
      × (least ≤ most)
unfolding checked_from_tx min_fee max_fee
checked_from_tx_lem gas_costs fee tx gas_price gas e h t l =
    let limit = gas_limit tx fee gas in
    let bound = tx_min_gas-word tx gas_costs fee gas e in
    let (least, f, p) = fee_with_tip_lem tx fee gas gas_price bound h t l in
    let (most, g, q) = fee_with_tip_lem tx fee limit gas_price (limit_word tx fee gas) h t l in
    let ordered = Pays-mono (within_limit tx fee gas bound) p q in
    (
      least,
      most,
      rw (e, max_gas-ok gas_costs fee tx gas e, f, g)
          (checked_most-ok tx least most gas limit ordered),
      p,
      q,
      within_limit tx fee gas bound,
      ordered,
    )

-- For every type of transaction, once its least gas is known, the refund is what the limit leaves after the least amount that pays
-- for the gas used and the tip, and there is none if that is above the limit.
pub refund_fee_lem :
    (gas_costs : FeeCosts) (fee : FeeParameters) (tx : Chargeable) (used_gas gas_price gas : ℕ)
    → tx_min_gas tx gas_costs fee ≡ ok gas
    → gas_price ≤ word_max
    → tip tx ≤ word_max
    → max_fee_limit tx ≤ word_max
    → 1 ≤ fee.gas_price_factor
    → (used : ℕ) × (refund_fee tx gas_costs fee used_gas gas_price
        ≡ ok (checked_sub (max_fee_limit tx) (used + tip tx)))
      × Pays (saturating_add gas used_gas) gas_price fee.gas_price_factor used
unfolding refund_fee refund saturating_add
refund_fee_lem gas_costs fee tx used_gas gas_price gas e h t k l =
    let (used, f, p) =
      fee_with_tip_lem tx fee (saturating_add gas used_gas) gas_price (omega arith) h t l in
    (used, rw (e, f) (ap ok (refund-checked_sub (max_fee_limit tx) (used + tip tx) k)), p)
