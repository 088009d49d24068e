-- ===== src/Calls/Balances/Layout.antt =====
-- Where the entries of `RuntimeBalances` (fuel-vm/src/interpreter/balances.rs) stand in the memory.
use fuel_vm.Prelude.{
  ℕ, ◌+◌, ◌≤◌, ◌≡◌, ◌≢◌, refl, sym, subst, length-to_be_bytes, some, List, [], ◌∷◌, ◌⊎◌, inl, inr,
  arith, length, to_be_bytes, Bool-cases,
}
use fuel_vm.Memory.{MemoryInstance}
use fuel_vm.Memory.Access.{BytesAt}
use fuel_vm.Memory.Write.{Stores, add-sub_left}
use fuel_vm.Memory.Rollback.{bytes_eq}
use fuel_vm.Memory.Rollback.Restore.{bytes_eq→eq}
use fuel_vm.Calls.Receipts.{Bytes32}
use fuel_vm.Calls.Balances.{
  Balance, RuntimeBalances, get, set_value, asset_id_len, balance_entry_size,
}

-- The entries stand one after the other from `start` on, and end by `limit`.
abbrev pub Layout : ℕ → ℕ → RuntimeBalances → Type 0
Layout start limit [] = Unit
Layout start limit ((k, b) ∷ rest) =
    (length k ≡ asset_id_len)
    × (start ≤ b.offset)
    × (b.offset + balance_entry_size ≤ limit)
    × Layout (b.offset + balance_entry_size) limit rest

-- The memory has every asset's identifier, and behind it the value as big-endian bytes.
abbrev pub Synced : MemoryInstance → RuntimeBalances → Type 0
Synced m [] = Unit
Synced m ((k, b) ∷ rest) =
    BytesAt m b.offset asset_id_len k
    × BytesAt m (b.offset + asset_id_len) 8 (to_be_bytes 8 b.value)
    × Synced m rest

pub get-Layout :
    (asset : Bytes32) (start limit : ℕ) (state : RuntimeBalances) {b : Balance}
    → Layout start limit state
    → get asset state ≡ some b
    → (start ≤ b.offset) × (b.offset + balance_entry_size ≤ limit)
unfolding get
get-Layout asset start limit [] l e = cc
get-Layout asset start limit ((k, c) ∷ rest) {b} l e = elim (Bool-cases (bytes_eq k asset)) [
  | inl p ↦ let same : c ≡ b = ground arith in rw (← same) (l.1, l.2)
  | inr p ↦
      let e' : get asset rest ≡ some b = ground arith in
      let (h, k) = get-Layout asset (c.offset + balance_entry_size) limit rest l.3 e' in
      (omega arith, k)
]

pub set_value-Layout :
    (asset : Bytes32) (v start limit : ℕ) (state : RuntimeBalances)
    → Layout start limit state
    → Layout start limit (set_value asset v state)
unfolding set_value
set_value-Layout asset v start limit [] l = l
set_value-Layout asset v start limit ((k, b) ∷ rest) l = elim (Bool-cases (bytes_eq k asset)) [
  | inl p ↦ rw (p) l
  | inr p ↦
      rw (p)
        (l.0, l.1, l.2, set_value-Layout asset v (b.offset + balance_entry_size) limit rest l.3)
]

-- Bytes outside a write stay.
pub kept :
    (m m' : MemoryInstance) (a n c : ℕ) (new bs : List ℕ)
    → Stores m a new m'
    → (a + length new ≤ c) ⊎ (c + n ≤ a)
    → BytesAt m c n bs
    → BytesAt m' c n bs
kept m m' a n c new bs s d (len, at) = (len, λ i h. ground (arith, at i h, s.bytes (c + i)))

pub Synced-kept :
    (m m' : MemoryInstance) (a start limit : ℕ) (new : List ℕ) (state : RuntimeBalances)
    → Stores m a new m'
    → a + length new ≤ start
    → Layout start limit state
    → Synced m state
    → Synced m' state
Synced-kept m m' a start limit new [] s h l y = tt
Synced-kept m m' a start limit new ((k, b) ∷ rest) s h l y = (
  kept m m' a asset_id_len b.offset new k s (inl (omega arith)) y.0,
  kept m m' a 8 (b.offset + asset_id_len) new (to_be_bytes 8 b.value) s (inl (omega arith)) y.1,
  Synced-kept m m' a (b.offset + balance_entry_size) limit new rest s (omega arith) l.3 y.2,
)

pub written :
    (m m' : MemoryInstance) (a : ℕ) (new : List ℕ)
    → Stores m a new m'
    → BytesAt m' a (length new) new
written m m' a new s = (refl, λ i h. ground (arith, s.bytes (a + i), add-sub_left a i))

pub Synced-set_value :
    (asset : Bytes32) (v start limit : ℕ) (m m' : MemoryInstance) (state : RuntimeBalances)
    {b : Balance}
    → Layout start limit state
    → get asset state ≡ some b
    → Stores m (b.offset + asset_id_len) (to_be_bytes 8 v) m'
    → Synced m state
    → Synced m' (set_value asset v state)
unfolding get set_value
Synced-set_value asset v start limit m m' [] l e s y = tt
Synced-set_value asset v start limit m m' ((k, c) ∷ rest) {b} l e s y =
    elim (Bool-cases (bytes_eq k asset)) [
      | inl p ↦
          let same : c ≡ b = ground arith in
          let s' =
            subst (λ (d : Balance). Stores m (d.offset + asset_id_len) (to_be_bytes 8 v) m')
              (sym same) s in
          rw (p) (
            kept m m' (c.offset + asset_id_len) asset_id_len c.offset (to_be_bytes 8 v) k s'
                (inr (omega arith)) y.0,
            subst (λ (n : ℕ). BytesAt m' (c.offset + asset_id_len) n (to_be_bytes 8 v))
                (length-to_be_bytes 8 v)
                (written m m' (c.offset + asset_id_len) (to_be_bytes 8 v) s'),
            Synced-kept m m' (c.offset + asset_id_len) (c.offset + balance_entry_size) limit
                (to_be_bytes 8 v) rest s' (omega (arith, length-to_be_bytes 8 v)) l.3 y.2,
          )
      | inr p ↦
          let e' : get asset rest ≡ some b = ground arith in
          let after = (get-Layout asset (c.offset + balance_entry_size) limit rest l.3 e').0 in
          rw (p) (
            kept m m' (b.offset + asset_id_len) asset_id_len c.offset (to_be_bytes 8 v) k s
                (inr (omega arith)) y.0,
            kept m m' (b.offset + asset_id_len) 8 (c.offset + asset_id_len) (to_be_bytes 8 v)
                (to_be_bytes 8 c.value) s (inr (omega arith)) y.1,
            Synced-set_value asset v (c.offset + balance_entry_size) limit m m' rest l.3 e' s y.2,
          )
    ]

pub get-set_value :
    (asset : Bytes32) (v : ℕ) (state : RuntimeBalances) {b : Balance}
    → get asset state ≡ some b
    → get asset (set_value asset v state) ≡ some (record b { value = v })
unfolding get set_value
get-set_value asset v [] e = cc
get-set_value asset v ((k, c) ∷ rest) {b} e = ground (arith, get-set_value asset v rest {b = b})

-- The other assets keep their entries.
pub get-set_value_other :
    (asset other : Bytes32) (v : ℕ) (state : RuntimeBalances)
    → asset ≢ other
    → get other (set_value asset v state) ≡ get other state
unfolding get set_value
get-set_value_other asset other v [] h = refl
get-set_value_other asset other v ((k, c) ∷ rest) h =
    ground
      (arith, get-set_value_other asset other v rest h, bytes_eq→eq k asset, bytes_eq→eq k other)
