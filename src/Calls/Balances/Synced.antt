-- ===== src/Calls/Balances/Synced.antt =====
-- The free balances of fuel-vm/src/interpreter/balances.rs and their copy in the memory.
use fuel_vm.Prelude.{
  ℕ, ◌+◌, ◌-◌, ◌≤◌, ◌<◌, ◌≡◌, ◌≢◌, sym, subst, refl, Option, none, some, ◌⊎◌, inl, inr, arith,
  tests, length, to_be_bytes, length-to_be_bytes, Bool-cases, leb, ◌==◌, if◌then◌else◌,
  saturating_add, le→leb, lt→leb,
}
use fuel_vm.Outcome.{ok}
use fuel_vm.Memory.{MemoryInstance, mem_size}
use fuel_vm.Memory.Valid.{IsValid}
use fuel_vm.Memory.Access.{Accessible}
use fuel_vm.Memory.Write.{Stores, stored, stored-Stores, write_bytes_noownerchecks-ok}
use fuel_vm.Calls.Receipts.{Bytes32}
use fuel_vm.Calls.Balances.{
  Balance, RuntimeBalances, Changed, get, set_value, asset_id_len, set_memory_balance_inner,
  store_balance, checked_balance_sub,
}
use fuel_vm.Calls.Balances.Layout.{
  Layout, Synced, get-Layout, set_value-Layout, Synced-set_value, get-set_value,
  get-set_value_other,
}

-- The entries lie on the stack from `start` on, and the memory has their assets and values.
pub record IsMirrored (start : ℕ) (state : RuntimeBalances) (m : MemoryInstance) : Type 0 where
  pub valid : IsValid m
  pub layout : Layout start (length m.stack) state
  pub synced : Synced m state

-- Nothing has been subtracted: there is no such asset, or too little of it.
abbrev pub Unavailable : Bytes32 → ℕ → RuntimeBalances → Type 0
Unavailable asset value state =
    (get asset state ≡ none) ⊎ ((b : Balance) × (get asset state ≡ some b) × (b.value < value))

-- The result of a subtraction that succeeds
pub record Subtracted (start : ℕ) (asset : Bytes32) (v : ℕ) (state : RuntimeBalances)
    (m : MemoryInstance) (r : Changed) : Type 0 where
  pub result : r.0 ≡ some v
  pub value_set : (b : Balance) × (get asset r.1 ≡ some b) × (b.value ≡ v)
  pub others : (other : Bytes32) → asset ≢ other → get other r.1 ≡ get other state
  pub mirrored : IsMirrored start r.1 r.2
  pub same_stack : length r.2.stack ≡ length m.stack
  pub same_hp : r.2.hp ≡ m.hp

pub no_wrap : (n : ℕ) → n ≤ mem_size → saturating_add n asset_id_len ≡ n + asset_id_len
unfolding saturating_add
no_wrap n h = omega arith

pub set_memory_balance_inner-ok :
    (b : Balance) (m : MemoryInstance)
    → IsValid m
    → b.offset ≤ mem_size
    → Accessible m (b.offset + asset_id_len) (length (to_be_bytes 8 b.value))
    → set_memory_balance_inner b m ≡ ok (stored m (b.offset + asset_id_len) (to_be_bytes 8 b.value))
unfolding set_memory_balance_inner
set_memory_balance_inner-ok b m h l access =
    rw (no_wrap b.offset l)
      (write_bytes_noownerchecks-ok m (b.offset + asset_id_len) (to_be_bytes 8 b.value) h access)

write_ok :
    (start limit : ℕ) (asset : Bytes32) (state : RuntimeBalances) (m : MemoryInstance) (b : Balance)
    (v : ℕ)
    → IsValid m
    → limit ≡ length m.stack
    → Layout start limit state
    → get asset state ≡ some b
    → (m' : MemoryInstance) × (set_memory_balance_inner (record b { value = v }) m ≡ ok m')
      × Stores m (b.offset + asset_id_len) (to_be_bytes 8 v) m'
write_ok start limit asset state m b v h e l g =
    let (low, high) = get-Layout asset start limit state l g in
    let n = length-to_be_bytes 8 v in
    let access : Accessible m (b.offset + asset_id_len) (length (to_be_bytes 8 v)) =
      (omega arith, inl (omega arith)) in
    (
      stored m (b.offset + asset_id_len) (to_be_bytes 8 v),
      set_memory_balance_inner-ok (record b { value = v }) m h (omega arith) access,
      stored-Stores m (b.offset + asset_id_len) (to_be_bytes 8 v) h access,
    )

pub get_cases :
    (asset : Bytes32) (value : ℕ) (state : RuntimeBalances)
    → ((b : Balance) × (get asset state ≡ some b) × (value ≤ b.value))
      ⊎ Unavailable asset value state
get_cases asset value state = by_entry value (get asset state) refl
  where
    by_entry :
        (value : ℕ) (entry : Option Balance)
        → get asset state ≡ entry
        → ((b : Balance) × (get asset state ≡ some b) × (value ≤ b.value))
          ⊎ Unavailable asset value state
    by_entry value none e = inr (inl e)
    by_entry value (some b) e = elim (Bool-cases (leb value b.value)) [
      | inl p ↦ inl (b, e, omega tests)
      | inr p ↦ inr (inr (b, e, omega tests))
    ]

pub sub-Unavailable :
    (asset : Bytes32) (value : ℕ) (state : RuntimeBalances) (m : MemoryInstance)
    → Unavailable asset value state
    → checked_balance_sub asset value state m ≡ (if value == 0 then some 0 else none, state, m)
unfolding checked_balance_sub
sub-Unavailable asset value state m (inl e) = rw (e, checked_balance_sub) refl
sub-Unavailable asset value state m (inr (b, e, l)) =
    rw (e, checked_balance_sub) (rw (lt→leb value b.value l) refl)

sub_ok :
    (start : ℕ) (asset : Bytes32) (value : ℕ) (state : RuntimeBalances) (m : MemoryInstance)
    (b : Balance)
    → IsMirrored start state m
    → get asset state ≡ some b
    → value ≤ b.value
    → Subtracted start asset (b.value - value) state m (checked_balance_sub asset value state m)
unfolding checked_balance_sub store_balance
sub_ok start asset value state m b h g l =
    let v = b.value - value in
    let (m', e, s) = write_ok start (length m.stack) asset state m b v h.valid refl h.layout g in
    let run : checked_balance_sub asset value state m ≡ (some v, set_value asset v state, m') =
      rw (g, checked_balance_sub) (rw (le→leb value b.value l) (rw (e, store_balance) refl)) in
    subst (λ (r : Changed). Subtracted start asset v state m r) (sym run)
      (record {
        result = refl;
        value_set = (record b { value = v }, get-set_value asset v state g, refl);
        others = λ other d. get-set_value_other asset other v state d;
        mirrored = record {
          valid = s.valid;
          layout =
              subst (λ n. Layout start n (set_value asset v state)) (sym s.same_stack)
                (set_value-Layout asset v start (length m.stack) state h.layout);
          synced = Synced-set_value asset v start (length m.stack) m m' state h.layout g s h.synced;
        };
        same_stack = s.same_stack;
        same_hp = s.same_hp;
      })

-- Where the memory mirrors the balances, a subtraction of no more than the balance gives the rest,
-- sets it, and keeps the mirror; any other changes nothing, and fails unless it is of zero.
pub checked_balance_sub_lem :
    (start : ℕ) (asset : Bytes32) (value : ℕ) (state : RuntimeBalances) (m : MemoryInstance)
    → IsMirrored start state m
    → ((b : Balance) × (get asset state ≡ some b)
        × (value ≤ b.value)
        × Subtracted start asset
            (b.value - value)
            state
            m
            (checked_balance_sub asset value state m))
      ⊎ (Unavailable asset value state
          × (checked_balance_sub asset value state m
              ≡ (if value == 0 then some 0 else none, state, m)))
checked_balance_sub_lem start asset value state m h = elim (get_cases asset value state) [
  | inl (b, g, l) ↦ inl (b, g, l, sub_ok start asset value state m b h g l)
  | inr u ↦ inr (u, sub-Unavailable asset value state m u)
]
