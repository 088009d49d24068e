-- ===== src/Memory/Rollback/Changes.antt =====
-- The changes that `get_changes` collects turn the latest bytes into the desired ones.
use fuel_vm.Prelude.{
  ℕ, suc, ◌+◌, ◌-◌, ◌≤◌, ◌≡◌, refl, ap, sym, subst, ◌∙◌, inl, inr, true, Option, none, some, List,
  [], ◌∷◌, ◌++◌, ltb, ◌==◌, if◌then◌else◌, length, get_elem?, slice, overwrite, saturating_add,
  arith, Bool-cases, le→leb, ==_iff, length-slice, get_elem?-slice, length-overwrite,
  get_elem?-overwrite,
}
use native.Mathlib.Nat.{add_assoc}
use fuel_vm.Memory.Write.{add-sub_left}
use fuel_vm.Outcome.{ok, >>=-ok}
use fuel_vm.Memory.{mem_size}
use fuel_vm.Memory.Rollback.{
  MemorySliceChange, flush, extend, apply_change, changes_from, get_changes, apply_changes,
}

apply_changes-append :
    (offset : ℕ) (cs ds : List MemorySliceChange) (xs : List ℕ) {ys : List ℕ}
    → apply_changes offset cs xs ≡ ok ys
    → apply_changes offset (cs ++ ds) xs ≡ apply_changes offset ds ys
unfolding apply_changes
apply_changes-append offset [] ds xs e = cc
apply_changes-append offset (c ∷ cs) ds xs e =
    let (zs, e₂, e₁) = >>=-ok (apply_changes offset cs) (apply_change offset c xs) e in
    rw e₁ (apply_changes-append offset cs ds zs e₂)

saturating_add-eq : (a b : ℕ) → a + b ≤ mem_size → saturating_add a b ≡ a + b
unfolding saturating_add
saturating_add-eq a b h = omega arith

apply_change-ok :
    (offset start : ℕ) (new xs : List ℕ)
    → start + length new ≤ length xs
    → length xs ≤ mem_size
    → apply_change offset (record { global_start = offset + start; bytes = new }) xs
      ≡ ok (overwrite xs start new)
unfolding apply_change
apply_change-ok offset start new xs h k =
    rw (add-sub_left, le→leb offset (offset + start) (omega arith))
      (rw (saturating_add-eq start (length new) (omega arith)) (ground arith))

-- `desired` and `latest` are the bytes from the address `global` on, in a vector that begins at
-- the address `offset`, so at the index `base`.
module _ (desired latest : List ℕ) (offset base : ℕ)
    (bound : offset + base + length desired ≤ mem_size) where
  -- The vector holds the desired bytes up to `k`, and the latest from there on.
  abbrev pub Mixed : ℕ → List ℕ → Type 0
  Mixed k xs =
      (length xs ≡ base + length desired)
      × ((j : ℕ)
          → get_elem? xs (base + j) ≡ (if ltb j k then get_elem? desired j else get_elem? latest j))

  -- An open range ends at `i` and waits to be written.
  abbrev Pending : Option (ℕ × ℕ) → ℕ → List ℕ → Type 0
  Pending none i xs = Mixed i xs
  Pending (some (start, count)) i xs = (start + count ≡ i) × Mixed start xs

  written : List ℕ → ℕ → ℕ → List ℕ
  written xs start i = overwrite xs (base + start) (slice desired start i)

  written-Mixed :
      (xs : List ℕ) (start i : ℕ)
      → start ≤ i
      → i ≤ length desired
      → Mixed start xs
      → Mixed i (written xs start i)
  unfolding written
  written-Mixed xs start i p q (len, el) = (
    ground (
      arith,
      length-slice desired start i q,
      length-overwrite xs (base + start) (slice desired start i),
    ),
    λ j. ground (
      arith,
      el j,
      length-slice desired start i q,
      get_elem?-overwrite xs (base + start) (slice desired start i) (base + j),
      get_elem?-slice desired start i (j - start),
    ),
  )

  flush-Mixed :
      (range : Option (ℕ × ℕ)) (i : ℕ) (xs : List ℕ)
      → i ≤ length desired
      → Pending range i xs
      → (ys : List ℕ) × (apply_changes offset (flush desired (offset + base) range) xs ≡ ok ys)
        × Mixed i ys
  unfolding apply_changes flush written
  flush-Mixed none i xs q h = (xs, refl, h)
  flush-Mixed (some (start, count)) i xs q (e, h) = (
    written xs start i,
    rw
        (
          saturating_add-eq start count (omega arith),
          saturating_add-eq (offset + base) start (omega arith),
          e,
          add_assoc offset base start,
        )
        (rw (
          apply_change-ok offset (base + start) (slice desired start i) xs
            (omega (arith, h.0, length-slice desired start i q)) (omega (arith, h.0)))),
    written-Mixed xs start i (omega arith) q h,
  )

  Mixed-suc :
      (i : ℕ) (xs : List ℕ)
      → get_elem? latest i ≡ get_elem? desired i
      → Mixed i xs
      → Mixed (suc i) xs
  Mixed-suc i xs e (len, el) = (len, λ j. ground (arith, el j))

  extend-Pending :
      (range : Option (ℕ × ℕ)) (i : ℕ) (xs : List ℕ)
      → i ≤ length desired
      → Pending range i xs
      → Pending (some (extend i range)) (suc i) xs
  unfolding extend saturating_add
  extend-Pending none i xs q h = (omega arith, h)
  extend-Pending (some (start, count)) i xs q (e, h) = (omega arith, h)

  same_elem :
      (o n : ℕ) (old new : List ℕ) (i : ℕ)
      → (o == n) ≡ true
      → ((j : ℕ) → get_elem? (o ∷ old) j ≡ get_elem? latest (i + j))
      → ((j : ℕ) → get_elem? (n ∷ new) j ≡ get_elem? desired (i + j))
      → get_elem? latest i ≡ get_elem? desired i
  same_elem o n old new i same ho hn =
      ap (get_elem? latest) {y = i + 0} (omega arith)
      ∙ sym (ho 0)
      ∙ ap some ((==_iff o n).0 same)
      ∙ hn 0
      ∙ ap (get_elem? desired) (omega arith)

  -- From index `i` on the loop's changes complete what is pending.
  changes_from-Mixed :
      (old new : List ℕ) (i : ℕ) (range : Option (ℕ × ℕ)) (xs : List ℕ)
      → length old ≡ length new
      → i + length new ≡ length desired
      → ((j : ℕ) → get_elem? old j ≡ get_elem? latest (i + j))
      → ((j : ℕ) → get_elem? new j ≡ get_elem? desired (i + j))
      → Pending range i xs
      → (ys : List ℕ) × (apply_changes offset
            (changes_from desired (offset + base) old new i range)
            xs
          ≡ ok ys)
        × Mixed (length desired) ys
  unfolding changes_from
  changes_from-Mixed [] [] i range xs el len ho hn h =
      subst
        (λ k.
          (ys : List ℕ) × (apply_changes offset (flush desired (offset + base) range) xs ≡ ok ys)
          × Mixed k ys)
        (omega arith) (flush-Mixed range i xs (omega arith) h)
  changes_from-Mixed [] (n ∷ new) i range xs el len ho hn h = absurd (omega arith)
  changes_from-Mixed (o ∷ old) [] i range xs el len ho hn h = absurd (omega arith)
  changes_from-Mixed (o ∷ old) (n ∷ new) i range xs el len ho hn h = elim (Bool-cases (o == n)) [
    | inl same ↦
        let (ys, e, m) = flush-Mixed range i xs (omega arith) h in
        let (zs, e', m') =
          changes_from-Mixed old new (suc i) none ys (omega arith) (omega arith)
            (λ j. ho (suc j) ∙ ap (get_elem? latest) (omega arith))
            (λ j. hn (suc j) ∙ ap (get_elem? desired) (omega arith))
            (Mixed-suc i ys (same_elem o n old new i same ho hn) m) in
        (
          zs,
          rw same (
              apply_changes-append offset (flush desired (offset + base) range)
                (changes_from desired (offset + base) old new (suc i) none) xs e
              ∙ e'),
          m',
        )
    | inr differs ↦
        let (zs, e', m') =
          changes_from-Mixed old new (suc i) (some (extend i range)) xs (omega arith) (omega arith)
            (λ j. ho (suc j) ∙ ap (get_elem? latest) (omega arith))
            (λ j. hn (suc j) ∙ ap (get_elem? desired) (omega arith))
            (extend-Pending range i xs (omega arith) h) in
        (zs, rw differs e', m')
  ]

  -- The loop as a whole: from the latest bytes to the desired ones.
  pub get_changes-Mixed :
      (xs : List ℕ)
      → length latest ≡ length desired
      → Mixed 0 xs
      → (ys : List ℕ) × (apply_changes offset (get_changes latest desired (offset + base)) xs
          ≡ ok ys)
        × Mixed (length desired) ys
  unfolding get_changes
  get_changes-Mixed xs el h =
      changes_from-Mixed latest desired 0 none xs el (omega arith)
        (λ j. ap (get_elem? latest) (omega arith)) (λ j. ap (get_elem? desired) (omega arith)) h
