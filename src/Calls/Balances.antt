-- ===== src/Calls/Balances.antt =====
-- `RuntimeBalances` of fuel-vm/src/interpreter/balances.rs: the free balances of a transaction and
-- their copy at the start of the stack. The map is a list of entries, one for an asset.
pub mod Layout
pub mod Synced
pub mod Totals
pub mod Written
use fuel_vm.Reg
use fuel_vm.Prelude.{
  ℕ, ◌+◌, Bool, true, false, Option, none, some, List, [], ◌∷◌, ltb, ◌==◌, if◌then◌else◌,
  checked_add, checked_sub, saturating_add, saturating_mul, to_be_bytes,
}
use fuel_vm.Outcome.{Result, ok, err, crash, ◌>>=◌}
use fuel_vm.Memory.{MemoryInstance, write_bytes_noownerchecks, grow_stack}
use fuel_vm.Memory.Rollback.{bytes_eq}
use fuel_vm.Vm.{Vm, update}
use fuel_vm.Calls.Receipts.{Bytes32}

pub record Balance : Type 0 where
  pub value : ℕ
  pub offset : ℕ

abbrev pub RuntimeBalances : Type 0
RuntimeBalances = List (Bytes32 × Balance)

abbrev pub vm_memory_balances_offset : ℕ
vm_memory_balances_offset = 64

abbrev pub balance_entry_size : ℕ
balance_entry_size = 40

-- `AssetId::LEN`
abbrev pub asset_id_len : ℕ
asset_id_len = 32

unfoldable pub get : Bytes32 → RuntimeBalances → Option Balance
get asset [] = none
get asset ((k, b) ∷ rest) = if bytes_eq k asset then some b else get asset rest

-- The map with a changed value
unfoldable pub set_value : Bytes32 → ℕ → RuntimeBalances → RuntimeBalances
set_value asset v [] = []
set_value asset v ((k, b) ∷ rest) =
    if bytes_eq k asset then (k, record b { value = v }) ∷ rest else (k, b) ∷ set_value asset v rest

-- The order of identifiers of one length
unfoldable pub bytes_leb : List ℕ → List ℕ → Bool
bytes_leb [] ys = true
bytes_leb (x ∷ xs) [] = false
bytes_leb (x ∷ xs) (y ∷ ys) = if ltb x y then true else if x == y then bytes_leb xs ys else false

-- `sorted_by_key`
unfoldable pub insert_sorted : Bytes32 × ℕ → List (Bytes32 × ℕ) → List (Bytes32 × ℕ)
insert_sorted x [] = x ∷ []
insert_sorted x (y ∷ ys) = if bytes_leb x.0 y.0 then x ∷ (y ∷ ys) else y ∷ insert_sorted x ys

unfoldable pub sorted_by_key : List (Bytes32 × ℕ) → List (Bytes32 × ℕ)
sorted_by_key [] = []
sorted_by_key (x ∷ xs) = insert_sorted x (sorted_by_key xs)

unfoldable pub insert_new : Bytes32 → Balance → RuntimeBalances → RuntimeBalances
insert_new asset b [] = (asset, b) ∷ []
insert_new asset b (entry ∷ rest) = entry ∷ insert_new asset b rest

unfoldable pub entry_offset : ℕ → ℕ
entry_offset i = saturating_add vm_memory_balances_offset (saturating_mul i balance_entry_size)

-- `none` is `ValidityError::BalanceOverflow`.
unfoldable pub add_to_entry :
    ℕ → Bytes32 → ℕ → Option Balance → RuntimeBalances → Option RuntimeBalances
add_to_entry i asset amount none state = elim (checked_add 0 amount) [
  | none ↦ none
  | some v ↦ some (insert_new asset (record { value = v; offset = entry_offset i }) state)
]
add_to_entry i asset amount (some b) state = elim (checked_add b.value amount) [
  | none ↦ none
  | some v ↦ some (set_value asset v state)
]

unfoldable pub fold_entries : ℕ → List (Bytes32 × ℕ) → RuntimeBalances → Option RuntimeBalances
fold_entries i [] state = some state
fold_entries i ((asset, amount) ∷ rest) state =
    elim (add_to_entry i asset amount (get asset state) state) [
      | none ↦ none
      | some state ↦ fold_entries (i + 1) rest state
    ]

unfoldable pub try_from_iter : List (Bytes32 × ℕ) → Option RuntimeBalances
try_from_iter iter = fold_entries 0 (sorted_by_key iter) []

unfoldable pub set_memory_balance_inner : Balance → MemoryInstance → Result MemoryInstance
set_memory_balance_inner balance memory =
    write_bytes_noownerchecks memory (saturating_add balance.offset asset_id_len)
      (to_be_bytes 8 balance.value)

-- The result, the map and the memory
abbrev pub Changed : Type 0
Changed = Option ℕ × RuntimeBalances × MemoryInstance

abbrev zero_or_none : ℕ → RuntimeBalances → MemoryInstance → Changed
zero_or_none value state memory = (if value == 0 then some 0 else none, state, memory)

unfoldable pub store_balance : Bytes32 → Balance → RuntimeBalances → MemoryInstance → Changed
store_balance asset balance state memory = elim (set_memory_balance_inner balance memory) [
  | err e ↦ (none, set_value asset balance.value state, memory)
  | ok memory' ↦ (some balance.value, set_value asset balance.value state, memory')
]

-- A subtraction of zero from an asset that is not there gives zero.
unfoldable pub checked_balance_sub : Bytes32 → ℕ → RuntimeBalances → MemoryInstance → Changed
checked_balance_sub asset value state memory = elim (get asset state) [
  | none ↦ zero_or_none value state memory
  | some b ↦ elim (checked_sub b.value value) [
    | none ↦ zero_or_none value state memory
    | some v ↦ store_balance asset (record b { value = v }) state memory
  ]
]

unfoldable pub write_entries : RuntimeBalances → MemoryInstance → Result MemoryInstance
write_entries [] memory = ok memory
write_entries ((asset, b) ∷ rest) memory = do
  memory ← write_bytes_noownerchecks memory b.offset asset
  memory ← set_memory_balance_inner b memory
  write_entries rest memory

abbrev or_crash {ℓ} : {A : Type ℓ} → Result A → Result A
or_crash (ok a) = ok a
or_crash (err e) = err crash

-- Every error stops the host.
unfoldable pub to_vm_at : RuntimeBalances → Vm → Option ℕ → Result Vm
to_vm_at state vm none = err crash
to_vm_at state vm (some new_ssp) = or_crash (do
  memory ← grow_stack vm.memory new_ssp
  memory ← write_entries state memory
  ok (record vm { registers = update vm.registers Reg.ssp new_ssp; memory = memory }))

unfoldable pub to_vm : ℕ → RuntimeBalances → Vm → Result Vm
to_vm max_inputs state vm =
    to_vm_at state vm
      (checked_add (vm.registers Reg.ssp) (saturating_mul max_inputs balance_entry_size))
