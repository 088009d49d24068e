-- ===== src/Calls/Balances/Written.antt =====
-- How the free balances of fuel-vm/src/interpreter/balances.rs come to stand in the memory.
use fuel_vm.Reg
use fuel_vm.Prelude.{
  ℕ, suc, ◌+◌, ◌*◌, ◌≤◌, ◌≡◌, refl, sym, subst, ap, ◌∙◌, Option, none, some, List, [], ◌∷◌, inl,
  inr, arith, length, to_be_bytes, length-to_be_bytes, Bool-cases, leb, saturating_add,
  saturating_mul, checked_add, word_max,
}
use fuel_vm.Outcome.{ok}
use fuel_vm.Memory.{MemoryInstance, mem_size, grow_stack}
use fuel_vm.Memory.Valid.{IsValid}
use fuel_vm.Memory.Access.{Accessible, BytesAt}
use fuel_vm.Memory.Write.{stored, stored-Stores, write_bytes_noownerchecks-ok}
use fuel_vm.Memory.Grow.{StackGrown, grow_stack_lem}
use fuel_vm.Vm.{Vm, update}
use fuel_vm.Calls.Receipts.{Bytes32}
use fuel_vm.Calls.Balances.{
  Balance, RuntimeBalances, get, set_value, asset_id_len, balance_entry_size,
  vm_memory_balances_offset, entry_offset, insert_new, add_to_entry, fold_entries, sorted_by_key,
  insert_sorted, bytes_leb, try_from_iter, write_entries, to_vm, to_vm_at,
}
use fuel_vm.Calls.Balances.Totals.{total, fold_entries_inv, try_from_iter-free}
use fuel_vm.Calls.Coins.{free}
use fuel_vm.Calls.Balances.Layout.{Layout, Synced, set_value-Layout, kept, written}
use fuel_vm.Calls.Balances.Synced.{IsMirrored, set_memory_balance_inner-ok}

insert_new-Layout :
    (asset : Bytes32) (b : Balance) (start limit : ℕ) (state : RuntimeBalances)
    → length asset ≡ asset_id_len
    → Layout start limit state
    → start ≤ limit
    → limit ≤ b.offset
    → Layout start (b.offset + balance_entry_size) (insert_new asset b state)
unfolding insert_new
insert_new-Layout asset b start limit [] n l g h = (n, omega arith, omega arith, tt)
insert_new-Layout asset b start limit ((k, c) ∷ rest) n l g h = (
  l.0,
  l.1,
  omega arith,
  insert_new-Layout asset b (c.offset + balance_entry_size) limit rest n l.3 (omega arith) h,
)

widen :
    (start limit more : ℕ) (state : RuntimeBalances)
    → limit ≤ more
    → Layout start limit state
    → Layout start more state
widen start limit more [] h l = tt
widen start limit more ((k, b) ∷ rest) h l =
    (l.0, l.1, omega arith, widen (b.offset + balance_entry_size) limit more rest h l.3)

-- The first `i` places
abbrev pub places : ℕ → ℕ
places i = vm_memory_balances_offset + i * balance_entry_size

entry_offset_lem : (i : ℕ) → places i ≤ mem_size → entry_offset i ≡ places i
unfolding entry_offset saturating_add saturating_mul
entry_offset_lem i h = omega arith

add_to_entry-Layout :
    (i : ℕ) (asset : Bytes32) (amount : ℕ) (entry : Option Balance) (state : RuntimeBalances)
    {next : RuntimeBalances}
    → places i ≤ mem_size
    → length asset ≡ asset_id_len
    → Layout vm_memory_balances_offset (places i) state
    → add_to_entry i asset amount entry state ≡ some next
    → Layout vm_memory_balances_offset (places (i + 1)) next
unfolding add_to_entry
add_to_entry-Layout i asset amount none state {next} h n l e =
    elim (Bool-cases (leb (0 + amount) word_max)) [
      | inl p ↦
          let same : insert_new asset (record { value = 0 + amount; offset = entry_offset i }) state
              ≡ next =
            ground arith in
          let at = entry_offset_lem i h in
          subst (λ s. Layout vm_memory_balances_offset (places (i + 1)) s) same
            (widen vm_memory_balances_offset (entry_offset i + balance_entry_size) (places (i + 1))
              (insert_new asset (record { value = 0 + amount; offset = entry_offset i }) state)
              (omega (arith, at))
              (insert_new-Layout asset (record { value = 0 + amount; offset = entry_offset i })
                vm_memory_balances_offset (places i) state n l (omega arith) (omega (arith, at))))
      | inr p ↦ absurd (ground arith)
    ]
add_to_entry-Layout i asset amount (some b) state {next} h n l e =
    elim (Bool-cases (leb (b.value + amount) word_max)) [
      | inl p ↦
          let same : set_value asset (b.value + amount) state ≡ next = ground arith in
          subst (λ s. Layout vm_memory_balances_offset (places (i + 1)) s) same
            (widen vm_memory_balances_offset (places i) (places (i + 1))
              (set_value asset (b.value + amount) state) (omega arith)
              (set_value-Layout asset (b.value + amount) vm_memory_balances_offset (places i) state
                l))
      | inr p ↦ absurd (ground arith)
    ]

abbrev pub AllIds : List (Bytes32 × ℕ) → Type 0
AllIds [] = Unit
AllIds ((asset, amount) ∷ rest) = (length asset ≡ asset_id_len) × AllIds rest

fold_entries-Layout :
    (i : ℕ) (iter : List (Bytes32 × ℕ)) (state : RuntimeBalances) {last : RuntimeBalances}
    → places (i + length iter) ≤ mem_size
    → AllIds iter
    → Layout vm_memory_balances_offset (places i) state
    → fold_entries i iter state ≡ some last
    → Layout vm_memory_balances_offset (places (i + length iter)) last
unfolding fold_entries
fold_entries-Layout i [] state {last} h n l e =
    let same : state ≡ last = cc in
    subst (λ s. Layout vm_memory_balances_offset (places (i + 0)) s) same
      (widen vm_memory_balances_offset (places i) (places (i + 0)) state (omega arith) l)
fold_entries-Layout i ((asset, amount) ∷ rest) state {last} h n l e =
    let (next, f, g) = fold_entries_inv i asset amount rest state e in
    let l' = add_to_entry-Layout i asset amount (get asset state) state (omega arith) n.0 l f in
    subst (λ k. Layout vm_memory_balances_offset (places k) last) (omega arith)
      (fold_entries-Layout (i + 1) rest next (omega arith) n.1 l' g)

-- The entries are written, and nothing below them changes.
write_entries-Synced :
    (start limit : ℕ) (state : RuntimeBalances) (m : MemoryInstance)
    → IsValid m
    → limit ≤ length m.stack
    → Layout start limit state
    → (m' : MemoryInstance) × (write_entries state m ≡ ok m')
      × IsValid m'
      × (length m'.stack ≡ length m.stack)
      × Synced m' state
      × ((c n : ℕ) (bs : List ℕ) → c + n ≤ start → BytesAt m c n bs → BytesAt m' c n bs)
unfolding write_entries
write_entries-Synced start limit [] m v h l = (m, refl, v, refl, tt, λ c n bs k at. at)
write_entries-Synced start limit ((asset, b) ∷ rest) m v h l =
    let n = length-to_be_bytes 8 b.value in
    let m₁ = stored m b.offset asset in
    let here : Accessible m b.offset (length asset) = (omega arith, inl (omega arith)) in
    let s₁ = stored-Stores m b.offset asset v here in
    let value = to_be_bytes 8 b.value in
    let there : Accessible m₁ (b.offset + asset_id_len) (length value) =
      (omega (arith, s₁.same_stack), inl (omega (arith, s₁.same_stack))) in
    let s₂ = stored-Stores m₁ (b.offset + asset_id_len) value s₁.valid there in
    let m₂ = stored m₁ (b.offset + asset_id_len) value in
    let (m', e, v', t, y, below) =
      write_entries-Synced (b.offset + balance_entry_size) limit rest m₂ s₂.valid
        (omega (arith, s₁.same_stack, s₂.same_stack)) l.3 in
    (
      m',
      rw
          (
            write_bytes_noownerchecks-ok m b.offset asset v here,
            set_memory_balance_inner-ok b m₁ s₁.valid (omega arith) there,
            e,
          )
          refl,
      v',
      omega (arith, t, s₂.same_stack, s₁.same_stack),
      (
        below b.offset asset_id_len asset (omega arith) (
            kept m₁ m₂ (b.offset + asset_id_len) asset_id_len b.offset value asset s₂
              (inr (omega arith))
              (subst (λ k. BytesAt m₁ b.offset k asset) l.0 (written m m₁ b.offset asset s₁))),
        below (b.offset + asset_id_len) 8 value (omega arith) (
            subst (λ k. BytesAt m₂ (b.offset + asset_id_len) k value) n
              (written m₁ m₂ (b.offset + asset_id_len) value s₂)),
        y,
      ),
      λ c k bs before at. below c k bs (omega arith) (
          kept m₁ m₂ (b.offset + asset_id_len) k c value bs s₂ (inr (omega arith))
            (kept m m₁ b.offset k c asset bs s₁ (inr (omega arith)) at)),
    )

room :
    (ssp n : ℕ)
    → ssp ≡ vm_memory_balances_offset
    → places n ≤ mem_size
    → checked_add ssp (saturating_mul n balance_entry_size) ≡ some (places n)
unfolding saturating_mul
room ssp n s h = ground arith

grow_ok :
    (m : MemoryInstance) (new_sp : ℕ)
    → IsValid m
    → new_sp ≤ m.hp
    → (m' : MemoryInstance) × (grow_stack m new_sp ≡ ok m') × StackGrown m new_sp m'
grow_ok m new_sp v h = elim (grow_stack_lem m new_sp v) [
  | inl (l, r) ↦ r
  | inr (inl r) ↦ absurd (omega arith)
  | inr (inr r) ↦ absurd (omega arith)
]

insert_sorted-AllIds :
    (x : Bytes32 × ℕ) (xs : List (Bytes32 × ℕ))
    → length x.0 ≡ asset_id_len
    → AllIds xs
    → AllIds (insert_sorted x xs) × (length (insert_sorted x xs) ≡ suc (length xs))
unfolding insert_sorted
insert_sorted-AllIds x [] h a = ((h, tt), refl)
insert_sorted-AllIds x (y ∷ ys) h a = elim (Bool-cases (bytes_leb x.0 y.0)) [
  | inl p ↦ rw (p) ((h, a), refl)
  | inr p ↦ let (b, n) = insert_sorted-AllIds x ys h a.1 in rw (p) ((a.0, b), omega (arith, n))
]

sorted_by_key-AllIds :
    (xs : List (Bytes32 × ℕ))
    → AllIds xs
    → AllIds (sorted_by_key xs) × (length (sorted_by_key xs) ≡ length xs)
unfolding sorted_by_key
sorted_by_key-AllIds [] a = (tt, refl)
sorted_by_key-AllIds (x ∷ xs) a =
    let (b, n) = sorted_by_key-AllIds xs a.1 in
    let (c, k) = insert_sorted-AllIds x (sorted_by_key xs) a.0 b in (c, omega (arith, n, k))

-- Balances that were made from a list of at most as many entries as the transaction may have inputs
-- are written at the start of the stack of a machine whose `$ssp` stands there, if there is room.
-- The host does not stop, `$ssp` moves behind the entries, and the memory mirrors the balances,
-- each identifier and its value at the entry's offset. Every asset has the sum of its amounts in the
-- list.
pub to_vm-IsMirrored :
    (iter : List (Bytes32 × ℕ)) (max_inputs : ℕ) (vm : Vm) {state : RuntimeBalances}
    → AllIds iter
    → length iter ≤ max_inputs
    → try_from_iter iter ≡ some state
    → IsValid vm.memory
    → vm.registers Reg.ssp ≡ vm_memory_balances_offset
    → places max_inputs ≤ vm.memory.hp
    → (vm' : Vm) × (to_vm max_inputs state vm ≡ ok vm')
      × (vm'.registers Reg.ssp ≡ places max_inputs)
      × IsMirrored vm_memory_balances_offset state vm'.memory
      × ((asset : Bytes32) → free state asset ≡ total asset iter)
unfolding try_from_iter to_vm to_vm_at
to_vm-IsMirrored iter max_inputs vm {state} a n e v s h =
    let (b, k) = sorted_by_key-AllIds iter a in
    let l = fold_entries-Layout 0 (sorted_by_key iter) [] (omega arith) b tt e in
    let (m, f, g) = grow_ok vm.memory (places max_inputs) v h in
    let wide =
      widen vm_memory_balances_offset (places (0 + length (sorted_by_key iter))) (length m.stack)
        state (omega (arith, g.covers)) l in
    let (m', r, v', t, y, below) =
      write_entries-Synced vm_memory_balances_offset (length m.stack) state m g.valid (omega arith)
        wide in
    (
      record vm { registers = update vm.registers Reg.ssp (places max_inputs); memory = m' },
      ap (to_vm_at state vm) (room (vm.registers Reg.ssp) max_inputs s (omega arith))
          ∙ (rw (f, r) refl),
      refl,
      record {
        valid = v';
        layout = subst (λ n. Layout vm_memory_balances_offset n state) (sym t) wide;
        synced = y;
      },
      λ asset. try_from_iter-free iter asset e,
    )
