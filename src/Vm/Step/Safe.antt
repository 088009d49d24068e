-- ===== src/Vm/Step/Safe.antt =====
-- What a round of the interpreter (fuel-vm/src/interpreter/executors/instruction.rs) executes.
use fuel_vm.Reg
use fuel_vm.Prelude.{
  ℕ, ◌≤◌, ◌<◌, ◌≡◌, refl, sym, ap, ◌∙◌, ◌⊎◌, inl, inr, Bool, true, false, ◌&&◌, ◌||◌, not, Option,
  none, some, List, [], ◌∷◌, ltb, leb, ltb→le, leb→lt, arith, Bool-cases,
}
use fuel_vm.Outcome.{Result, ok, err, panic, bug, crash, PanicReason}
use fuel_vm.Memory.{read}
use fuel_vm.Asm
use fuel_vm.Asm.{to_bytes, try_from}
use fuel_vm.Asm.Table.{is_predicate_allowed}
use fuel_vm.Asm.Codec.{to_bytes-try_from}
use fuel_vm.Vm.{Vm, Action, ◌>>=◌, ◌>>◌, reg, raise_if, pure}
use fuel_vm.Vm.Binds.{bind_ok, bind_err}
use fuel_vm.Vm.Valid.{IsValid, Post}
use fuel_vm.Vm.Valid.Access.{read-Runs, IsRead}
use fuel_vm.Vm.Step.{
  Progress, select, Environment, execute_decoded, fetch_instruction, instruction_parsed,
  instruction_inner, step,
}

-- A round that executes an instruction: its bytes stand at the program counter, between the start of
-- the code and the start of the stack, and a predicate may execute it.
pub record IsExecuted (env : Environment) (predicate : Bool) (vm : Vm) : Type 0 where
  pub instruction : Asm.Instruction
  pub at_counter : read vm.memory (vm.registers Reg.pc) 4 ≡ ok (to_bytes instruction)
  pub not_below : vm.registers Reg.is ≤ vm.registers Reg.pc
  pub not_above : vm.registers Reg.pc < vm.registers Reg.ssp
  pub allowed : predicate ≡ true → is_predicate_allowed instruction.opcode ≡ true
  pub executes :
      step env predicate vm
      ≡ execute_decoded env (select instruction.opcode instruction.data_bytes) vm

or_false : (a b : Bool) → (a || b) ≡ false → (a ≡ false) × (b ≡ false)
or_false true b e = cc
or_false false b e = (refl, e)

permitted :
    (predicate allowed : Bool)
    → (predicate && not allowed) ≡ false
    → predicate ≡ true
    → allowed ≡ true
permitted predicate true e p = refl
permitted true false e p = cc
permitted false false e p = cc

module _ (env : Environment) (predicate : Bool) (vm : Vm) where
  -- A round that fails before it executes anything
  abbrev IsRefused : Type 0
  IsRefused = (reason : PanicReason) × (step env predicate vm ≡ (err (panic reason), vm))

  abbrev outside : Bool
  outside =
      ltb (vm.registers Reg.pc) (vm.registers Reg.is)
      || leb (vm.registers Reg.ssp) (vm.registers Reg.pc)

  abbrev checked : List ℕ → Action (List ℕ)
  checked raw = do
    is ← reg Reg.is
    ssp ← reg Reg.ssp
    raise_if (ltb (vm.registers Reg.pc) is || leb ssp (vm.registers Reg.pc))
        (panic PanicReason.memory_not_executable)
    pure raw

  fetched :
      (raw : List ℕ)
      → read vm.memory (vm.registers Reg.pc) 4 ≡ ok raw
      → outside ≡ false
      → fetch_instruction vm ≡ (ok raw, vm)
  unfolding fetch_instruction
  fetched raw e o =
      bind_ok (λ vm'. (read vm'.memory (vm.registers Reg.pc) 4, vm')) checked vm
        (ap (λ r. (r, vm)) e) (rw (o) refl)

  step_fetched :
      (raw : List ℕ) {r : Result Progress × Vm}
      → read vm.memory (vm.registers Reg.pc) 4 ≡ ok raw
      → outside ≡ false
      → instruction_parsed env predicate (Asm.try_from_four raw) vm ≡ r
      → step env predicate vm ≡ r
  unfolding step instruction_inner
  step_fetched raw e o f =
      bind_ok fetch_instruction (λ raw. instruction_parsed env predicate (Asm.try_from_four raw)) vm
        (fetched raw e o) f

  unread :
      (reason : PanicReason)
      → read vm.memory (vm.registers Reg.pc) 4 ≡ err (panic reason)
      → IsRefused
  unfolding step fetch_instruction
  unread reason e = (
    reason,
    bind_err fetch_instruction (instruction_inner env predicate) vm (
        bind_err (λ vm'. (read vm'.memory (vm.registers Reg.pc) 4, vm')) checked vm
          (ap (λ r. (r, vm)) e)),
  )

  unexecutable :
      (raw : List ℕ) → read vm.memory (vm.registers Reg.pc) 4 ≡ ok raw → outside ≡ true → IsRefused
  unfolding step fetch_instruction
  unexecutable raw e o = (
    PanicReason.memory_not_executable,
    bind_err fetch_instruction (instruction_inner env predicate) vm (
        bind_ok (λ vm'. (read vm'.memory (vm.registers Reg.pc) 4, vm')) checked vm
          (ap (λ r. (r, vm)) e) (rw (o) refl)),
  )

  parsed :
      (raw : List ℕ) (o : Option Asm.Instruction)
      → read vm.memory (vm.registers Reg.pc) 4 ≡ ok raw
      → outside ≡ false
      → Asm.try_from_four raw ≡ o
      → ((i : Asm.Instruction) → o ≡ some i → to_bytes i ≡ raw)
      → IsRefused ⊎ IsExecuted env predicate vm
  unfolding instruction_parsed
  parsed raw none e o f t = inl (
    PanicReason.invalid_instruction,
    step_fetched raw e o (ap (λ p. instruction_parsed env predicate p vm) f),
  )
  parsed raw (some i) e o f t =
      elim (Bool-cases (predicate && not (is_predicate_allowed i.opcode))) [
        | inl p ↦ inl (
          PanicReason.contract_instruction_not_allowed,
          step_fetched raw e o (ap (λ p. instruction_parsed env predicate p vm) f ∙ rw (p) refl),
        )
        | inr p ↦ inr (record {
          instruction = i;
          at_counter = e ∙ ap ok (sym (t i refl));
          not_below =
              ltb→le (vm.registers Reg.pc) (vm.registers Reg.is)
                (or_false (ltb (vm.registers Reg.pc) (vm.registers Reg.is))
                  (leb (vm.registers Reg.ssp) (vm.registers Reg.pc)) o).0;
          not_above =
              leb→lt (vm.registers Reg.ssp) (vm.registers Reg.pc)
                (or_false (ltb (vm.registers Reg.pc) (vm.registers Reg.is))
                  (leb (vm.registers Reg.ssp) (vm.registers Reg.pc)) o).1;
          allowed = permitted predicate (is_predicate_allowed i.opcode) p;
          executes =
              step_fetched raw e o
                (ap (λ p. instruction_parsed env predicate p vm) f ∙ rw (p) refl);
        })
      ]

  four_bytes :
      (raw : List ℕ)
      → read vm.memory (vm.registers Reg.pc) 4 ≡ ok raw
      → outside ≡ false
      → IsRead 4 raw
      → IsRefused ⊎ IsExecuted env predicate vm
  four_bytes (a ∷ b ∷ c ∷ d ∷ []) e o h =
      parsed (a ∷ b ∷ c ∷ d ∷ []) (try_from a b c d) e o refl
        (λ i f. (to_bytes-try_from a b c d h.1.1.0 h.1.1.1.0 h.1.1.1.1.0 f).0)
  four_bytes [] e o h = absurd (omega (arith, h.0))
  four_bytes (a ∷ []) e o h = absurd (omega (arith, h.0))
  four_bytes (a ∷ b ∷ []) e o h = absurd (omega (arith, h.0))
  four_bytes (a ∷ b ∷ c ∷ []) e o h = absurd (omega (arith, h.0))
  four_bytes (a ∷ b ∷ c ∷ d ∷ x ∷ xs) e o h = absurd (omega (arith, h.0))

  after_read :
      (r : Result (List ℕ))
      → read vm.memory (vm.registers Reg.pc) 4 ≡ r
      → Post (IsRead 4) r
      → IsRefused ⊎ IsExecuted env predicate vm
  after_read (ok raw) e h = elim (Bool-cases outside) [
    | inl o ↦ inl (unexecutable raw e o)
    | inr o ↦ four_bytes raw e o h
  ]
  after_read (err (panic reason)) e h = inl (unread reason e)
  after_read (err (bug variant)) e h = absurd h
  after_read (err crash) e h = absurd h

  -- In a valid state a round either fails with a panic that leaves the state as it is, or executes
  -- the one instruction whose bytes stand at the program counter; then the counter lies between the
  -- start of the code and the start of the stack, and in a predicate the opcode is one that a
  -- predicate may use.
  pub step_lem :
      IsValid vm
      → ((reason : PanicReason) × (step env predicate vm ≡ (err (panic reason), vm)))
        ⊎ IsExecuted env predicate vm
  step_lem v =
      after_read (read vm.memory (vm.registers Reg.pc) 4) refl
        ((read-Runs (vm.registers Reg.pc) 4).post vm v)
