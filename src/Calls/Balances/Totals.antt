-- ===== src/Calls/Balances/Totals.antt =====
-- That `RuntimeBalances` (fuel-vm/src/interpreter/balances.rs) has what its entries add up to.
use fuel_vm.Prelude.{
  ℕ, ◌+◌, ◌≡◌, refl, sym, ap, subst, ◌∙◌, Option, none, some, List, [], ◌∷◌, if◌then◌else◌, arith,
  Bool-cases, inl, inr, leb, word_max,
}
use fuel_vm.Memory.Rollback.{bytes_eq}
use fuel_vm.Memory.Rollback.Restore.{bytes_eq→eq}
use fuel_vm.Calls.Receipts.{Bytes32}
use fuel_vm.Calls.Balances.{
  Balance, RuntimeBalances, get, set_value, insert_new, add_to_entry, fold_entries, insert_sorted,
  sorted_by_key, bytes_leb, entry_offset, try_from_iter,
}
use fuel_vm.Calls.Balances.Layout.{get-set_value, get-set_value_other}
use fuel_vm.Calls.Coins.{free, bytes_eq_self, differ}

-- The amounts of an asset in a list
abbrev pub amount_of : Bytes32 → Bytes32 → ℕ → ℕ
amount_of asset a amount = if bytes_eq asset a then amount else 0

abbrev pub total : Bytes32 → List (Bytes32 × ℕ) → ℕ
total a [] = 0
total a ((asset, amount) ∷ rest) = amount_of asset a amount + total a rest

get-insert_new :
    (asset a : Bytes32) (b : Balance) (state : RuntimeBalances)
    → get asset state ≡ none
    → free (insert_new asset b state) a ≡ free state a + amount_of asset a b.value
unfolding get insert_new
get-insert_new asset a b [] e = ground arith
get-insert_new asset a b ((k, c) ∷ rest) e = elim (Bool-cases (bytes_eq k asset)) [
  | inl p ↦ absurd (ground arith)
  | inr p ↦
      let e' : get asset rest ≡ none = ground arith in
      elim (Bool-cases (bytes_eq k a)) [
        | inr q ↦ rw (q) (get-insert_new asset a b rest e')
        | inl q ↦ elim (Bool-cases (bytes_eq asset a)) [
          | inl r ↦ absurd (differ k asset (bytes_eq→eq k a q ∙ sym (bytes_eq→eq asset a r)) p)
          | inr r ↦ rw (q, r) (omega arith)
        ]
      ]
]

set_value-more :
    (asset a : Bytes32) (amount : ℕ) (state : RuntimeBalances) (b : Balance)
    → get asset state ≡ some b
    → free (set_value asset (b.value + amount) state) a ≡ free state a + amount_of asset a amount
set_value-more asset a amount state b e = elim (Bool-cases (bytes_eq asset a)) [
  | inl p ↦
      subst
        (λ c.
          free (set_value asset (b.value + amount) state) c
          ≡ free state c + amount_of asset c amount)
        (bytes_eq→eq asset a p)
        (rw (get-set_value asset (b.value + amount) state e, e, bytes_eq_self asset) refl)
  | inr p ↦
      rw (get-set_value_other asset a (b.value + amount) state (λ same. differ asset a same p), p)
        (omega arith)
]

add_to_entry-free :
    (i : ℕ) (asset a : Bytes32) (amount : ℕ) (entry : Option Balance) (state : RuntimeBalances)
    {next : RuntimeBalances}
    → get asset state ≡ entry
    → add_to_entry i asset amount entry state ≡ some next
    → free next a ≡ free state a + amount_of asset a amount
unfolding add_to_entry
add_to_entry-free i asset a amount none state {next} g e =
    let zero_add : 0 + amount ≡ amount = omega arith in
    elim (Bool-cases (leb (0 + amount) word_max)) [
      | inl p ↦
          let same : insert_new asset (record { value = 0 + amount; offset = entry_offset i }) state
              ≡ next =
            ground arith in
          subst (λ s. free s a ≡ free state a + amount_of asset a amount) same
            (get-insert_new asset a (record { value = 0 + amount; offset = entry_offset i }) state g
              ∙ ap (λ n. free state a + amount_of asset a n) zero_add)
      | inr p ↦ absurd (ground arith)
    ]
add_to_entry-free i asset a amount (some b) state {next} g e =
    elim (Bool-cases (leb (b.value + amount) word_max)) [
      | inl p ↦
          let same : set_value asset (b.value + amount) state ≡ next = ground arith in
          subst (λ s. free s a ≡ free state a + amount_of asset a amount) same
            (set_value-more asset a amount state b g)
      | inr p ↦ absurd (ground arith)
    ]

pub fold_entries_inv :
    (i : ℕ) (asset : Bytes32) (amount : ℕ) (rest : List (Bytes32 × ℕ)) (state : RuntimeBalances)
    {last : RuntimeBalances}
    → fold_entries i ((asset, amount) ∷ rest) state ≡ some last
    → (next : RuntimeBalances) × (add_to_entry i asset amount (get asset state) state ≡ some next)
      × (fold_entries (i + 1) rest next ≡ some last)
unfolding fold_entries
fold_entries_inv i asset amount rest state {last} e =
    by_entry (add_to_entry i asset amount (get asset state) state) refl e
  where
    by_entry :
        (r : Option RuntimeBalances)
        → add_to_entry i asset amount (get asset state) state ≡ r
        → (elim r [ none ↦ none | some state ↦ fold_entries (i + 1) rest state ]) ≡ some last
        → (next : RuntimeBalances) × (add_to_entry i asset amount (get asset state) state
            ≡ some next)
          × (fold_entries (i + 1) rest next ≡ some last)
    by_entry none f g = cc
    by_entry (some next) f g = (next, f, g)

fold_entries-free :
    (i : ℕ) (a : Bytes32) (iter : List (Bytes32 × ℕ)) (state : RuntimeBalances)
    {last : RuntimeBalances}
    → fold_entries i iter state ≡ some last
    → free last a ≡ free state a + total a iter
unfolding fold_entries
fold_entries-free i a [] state {last} e =
    let same : state ≡ last = cc in subst (λ s. free s a ≡ free state a + 0) same (omega arith)
fold_entries-free i a ((asset, amount) ∷ rest) state e =
    let (next, f, g) = fold_entries_inv i asset amount rest state e in
    omega (
      arith,
      add_to_entry-free i asset a amount (get asset state) state refl f,
      fold_entries-free (i + 1) a rest next g,
    )

insert_sorted-total :
    (a : Bytes32) (x : Bytes32 × ℕ) (xs : List (Bytes32 × ℕ))
    → total a (insert_sorted x xs) ≡ amount_of x.0 a x.1 + total a xs
unfolding insert_sorted
insert_sorted-total a x [] = refl
insert_sorted-total a x (y ∷ ys) = elim (Bool-cases (bytes_leb x.0 y.0)) [
  | inl p ↦ rw (p) refl
  | inr p ↦ rw (p) (omega (arith, insert_sorted-total a x ys))
]

sorted_by_key-total :
    (a : Bytes32) (xs : List (Bytes32 × ℕ)) → total a (sorted_by_key xs) ≡ total a xs
unfolding sorted_by_key
sorted_by_key-total a [] = refl
sorted_by_key-total a (x ∷ xs) =
    omega (arith, insert_sorted-total a x (sorted_by_key xs), sorted_by_key-total a xs)

-- Every asset has the sum of its amounts.
pub try_from_iter-free :
    (iter : List (Bytes32 × ℕ)) (a : Bytes32) {state : RuntimeBalances}
    → try_from_iter iter ≡ some state
    → free state a ≡ total a iter
unfolding try_from_iter get
try_from_iter-free iter a e =
    omega (arith, fold_entries-free 0 a (sorted_by_key iter) [] e, sorted_by_key-total a iter)
