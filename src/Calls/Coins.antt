-- ===== src/Calls/Coins.antt =====
-- Where coins go: the balances of fuel-vm/src/interpreter/contract.rs and balances.rs under a
-- transfer.
use fuel_vm.Prelude.{
  ℕ, ◌+◌, ◌-◌, ◌≤◌, ◌≡◌, refl, sym, ap, ◌∙◌, subst, Bool, true, false, Option, none, some, List, [],
  ◌∷◌, ◌&&◌, arith, ◌==◌, if◌then◌else◌, Bool-cases, inl, inr, le→leb,
}
use fuel_vm.Memory.{MemoryInstance}
use fuel_vm.Memory.Rollback.{bytes_eq}
use fuel_vm.Memory.Rollback.Restore.{bytes_eq→eq}
use fuel_vm.Calls.Receipts.{Bytes32}
use fuel_vm.Calls.Balances.{
  Balance, RuntimeBalances, Changed, get, set_value, checked_balance_sub, store_balance,
}
use fuel_vm.Calls.Balances.Layout.{get-set_value, get-set_value_other}
use fuel_vm.Calls.Balances.Synced.{get_cases, sub-Unavailable}
use fuel_vm.Calls.{Storage, Interpreter}
use fuel_vm.Calls.Contract.{or_zero, balance, balance_insert}

-- The free balance of an asset
abbrev pub value_or_zero : Option Balance → ℕ
value_or_zero none = 0
value_or_zero (some b) = b.value

abbrev pub free : RuntimeBalances → Bytes32 → ℕ
free balances asset_id = value_or_zero (get asset_id balances)

abbrev pub at_key : Bytes32 → Bytes32 → Bytes32 → Bytes32 → ℕ → ℕ
at_key contract asset_id c a amount =
    if bytes_eq contract c && bytes_eq asset_id a then amount else 0

abbrev pub taken : Option Bytes32 → Bytes32 → ℕ → Bytes32 → Bytes32 → ℕ
taken none asset_id amount c a = 0
taken (some contract) asset_id amount c a = at_key contract asset_id c a amount

abbrev pub taken_free : Option Bytes32 → Bytes32 → ℕ → Bytes32 → ℕ
taken_free none asset_id amount a = if bytes_eq asset_id a then amount else 0
taken_free (some contract) asset_id amount a = 0

-- The amount has left its source.
pub record Debited (source : Option Bytes32) (asset_id : Bytes32) (amount : ℕ) (s t : Interpreter)
    : Type 0 where
  pub contracts :
      (c a : Bytes32)
      → balance t.storage c a + taken source asset_id amount c a ≡ balance s.storage c a
  pub outside :
      (a : Bytes32) → free t.balances a + taken_free source asset_id amount a ≡ free s.balances a

-- It has come to the contract `to`, where that may be its source. No other balance has changed.
pub record Moved (source : Option Bytes32) (to asset_id : Bytes32) (amount : ℕ) (s t : Interpreter)
    : Type 0 where
  pub contracts :
      (c a : Bytes32)
      → balance t.storage c a + taken source asset_id amount c a
        ≡ balance s.storage c a + at_key to asset_id c a amount
  pub outside :
      (a : Bytes32) → free t.balances a + taken_free source asset_id amount a ≡ free s.balances a

pub bytes_eq_self : (xs : List ℕ) → bytes_eq xs xs ≡ true
unfolding bytes_eq
bytes_eq_self [] = refl
bytes_eq_self (x ∷ xs) = ground (arith, bytes_eq_self xs)

if-or_zero :
    (b : Bool) (value : ℕ) (o : Option ℕ)
    → or_zero (if b then some value else o) ≡ (if b then value else or_zero o)
if-or_zero true value o = refl
if-or_zero false value o = refl

balance-balance_insert :
    (storage : Storage) (contract asset_id c a : Bytes32) (value : ℕ)
    → balance (balance_insert storage contract asset_id value) c a
      ≡ (if bytes_eq contract c && bytes_eq asset_id a then value else balance storage c a)
unfolding balance balance_insert
balance-balance_insert storage contract asset_id c a value =
    if-or_zero (bytes_eq contract c && bytes_eq asset_id a) value (storage.assets c a)

same_key :
    (storage : Storage) (contract asset_id c a : Bytes32)
    → (bytes_eq contract c && bytes_eq asset_id a) ≡ true
    → balance storage c a ≡ balance storage contract asset_id
same_key storage contract asset_id c a e =
    ground (arith, bytes_eq→eq contract c, bytes_eq→eq asset_id a)

pub zero_test : (n : ℕ) → (n == 0) ≡ true → n ≡ 0
zero_test n e = ground arith

pub decreased :
    (storage : Storage) (contract asset_id c a : Bytes32) (amount : ℕ)
    → amount ≤ balance storage contract asset_id
    → balance
          (balance_insert storage contract asset_id (balance storage contract asset_id - amount))
          c
          a
        + at_key contract asset_id c a amount
      ≡ balance storage c a
decreased storage contract asset_id c a amount h =
    elim (Bool-cases (bytes_eq contract c && bytes_eq asset_id a)) [
      | inl p ↦
          rw
            (
              balance-balance_insert storage contract asset_id c a
                  (balance storage contract asset_id - amount),
              p,
            )
            (omega (arith, same_key storage contract asset_id c a p))
      | inr p ↦
          rw
            (
              balance-balance_insert storage contract asset_id c a
                  (balance storage contract asset_id - amount),
              p,
            )
            (omega arith)
    ]

pub increased :
    (storage : Storage) (contract asset_id c a : Bytes32) (amount : ℕ)
    → balance
        (balance_insert storage contract asset_id (balance storage contract asset_id + amount))
        c
        a
      ≡ balance storage c a + at_key contract asset_id c a amount
increased storage contract asset_id c a amount =
    elim (Bool-cases (bytes_eq contract c && bytes_eq asset_id a)) [
      | inl p ↦
          rw
            (
              balance-balance_insert storage contract asset_id c a
                  (balance storage contract asset_id + amount),
              p,
            )
            (omega (arith, same_key storage contract asset_id c a p))
      | inr p ↦
          rw
            (
              balance-balance_insert storage contract asset_id c a
                  (balance storage contract asset_id + amount),
              p,
            )
            (omega arith)
    ]

pub nothing : (b : Bool) (n amount : ℕ) → amount ≡ 0 → n + (if b then amount else 0) ≡ n
nothing b n amount e = ground arith

store_balance-state :
    (asset_id : Bytes32) (b : Balance) (state : RuntimeBalances) (m : MemoryInstance)
    → (store_balance asset_id b state m).1 ≡ set_value asset_id b.value state
unfolding store_balance
store_balance-state asset_id b state m = ground arith

pub differ : (x y : List ℕ) → x ≡ y → bytes_eq x y ≡ false → ⊥
differ x y same p = let t = subst (λ c. bytes_eq x c ≡ true) same (bytes_eq_self x) in cc

pub set_value-free :
    (asset_id a : Bytes32) (value : ℕ) (state : RuntimeBalances) (b : Balance)
    → get asset_id state ≡ some b
    → value ≤ b.value
    → free (set_value asset_id (b.value - value) state) a
        + (if bytes_eq asset_id a then value else 0)
      ≡ free state a
set_value-free asset_id a value state b e h = elim (Bool-cases (bytes_eq asset_id a)) [
  | inl p ↦
      subst
        (λ c.
          free (set_value asset_id (b.value - value) state) c
            + (if bytes_eq asset_id c then value else 0)
          ≡ free state c)
        (bytes_eq→eq asset_id a p)
        (rw (get-set_value asset_id (b.value - value) state e, e, bytes_eq_self asset_id)
          (omega arith))
  | inr p ↦
      rw
        (
          get-set_value_other asset_id a (b.value - value) state (λ same. differ asset_id a same p),
          p,
        )
        (omega arith)
]

pub sub_run :
    (asset_id : Bytes32) (value : ℕ) (state : RuntimeBalances) (m : MemoryInstance) (b : Balance)
    → get asset_id state ≡ some b
    → value ≤ b.value
    → checked_balance_sub asset_id value state m
      ≡ store_balance asset_id (record b { value = b.value - value }) state m
unfolding checked_balance_sub
sub_run asset_id value state m b g l =
    rw (g, checked_balance_sub) (rw (le→leb value b.value l) refl)

zero_given : (value : ℕ) {v : ℕ} → (if value == 0 then some 0 else none) ≡ some v → value ≡ 0
zero_given value e = ground arith

-- A subtraction from the free balances that has given a value
pub sub-free :
    (asset_id a : Bytes32) (value : ℕ) (state : RuntimeBalances) (m : MemoryInstance) {v : ℕ}
    → (checked_balance_sub asset_id value state m).0 ≡ some v
    → free (checked_balance_sub asset_id value state m).1 a
        + (if bytes_eq asset_id a then value else 0)
      ≡ free state a
sub-free asset_id a value state m e = elim (get_cases asset_id value state) [
  | inl (b, g, l) ↦
      let run = sub_run asset_id value state m b g l in
      let state' =
        ap (λ (r : Changed). r.1) run
        ∙ store_balance-state asset_id (record b { value = b.value - value }) state m in
      subst
        (λ (st : RuntimeBalances).
          free st a + (if bytes_eq asset_id a then value else 0) ≡ free state a)
        (sym state') (set_value-free asset_id a value state b g l)
  | inr u ↦
      let run = sub-Unavailable asset_id value state m u in
      let zero = zero_given value (sym (ap (λ (r : Changed). r.0) run) ∙ e) in
      subst
        (λ (st : RuntimeBalances).
          free st a + (if bytes_eq asset_id a then value else 0) ≡ free state a)
        (sym (ap (λ (r : Changed). r.1) run))
        (nothing (bytes_eq asset_id a) (free state a) value zero)
]
