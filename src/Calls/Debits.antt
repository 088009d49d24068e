-- ===== src/Calls/Debits.antt =====
-- What the single steps of transfers, mints and burns (fuel-vm/src/interpreter/contract.rs and
-- blockchain.rs) do to the coins.
use fuel_vm.Prelude.{
  ℕ, ◌+◌, ◌≡◌, refl, sym, Bool, true, false, Option, none, some, ◌&&◌, arith, tests, leb, ◌==◌,
  if◌then◌else◌, Bool-cases, inl, inr, word_max, saturating_mul,
}
use fuel_vm.Outcome.{Error, Result, ok, err, panic, PanicReason}
use fuel_vm.Memory.{read}
use fuel_vm.Memory.Rollback.{bytes_eq}
use fuel_vm.Vm
use fuel_vm.Vm.{Action}
use fuel_vm.Vm.Gas
use fuel_vm.Calls.Receipts
use fuel_vm.Calls.Receipts.{Bytes32, Receipt, ReceiptsCtx}
use fuel_vm.Calls.Balances.{Changed, checked_balance_sub}
use fuel_vm.Calls.{
  Interpreter, Parameters, on_vm, from_result, gets, reg, raise_if, read_id, contains,
  check_contract_in_inputs, external_asset_id_balance_sub, push_receipt,
}
use fuel_vm.Calls.Binds.{Ended, Ends}
use fuel_vm.Calls.Contract.{balance, balance_increase, balance_decrease, debit, charge_new_entry}
use fuel_vm.Calls.Coins.{at_key, free, Debited, sub-free, nothing, zero_test, decreased, increased}

settled :
    (asset_id : Bytes32) (amount : ℕ) (s : Interpreter) (r : Changed)
    → ((v : ℕ)
        → r.0 ≡ some v
        → (a : Bytes32)
        → free r.1 a + (if bytes_eq asset_id a then amount else 0) ≡ free s.balances a)
    → Ended {A = Unit {0}}
        (λ _ t. Debited none asset_id amount s t)
        (elim r.0 [
          | some v ↦ (ok tt, record s { balances = r.1; vm = record s.vm { memory = r.2 } })
          | none ↦ (
            err (panic PanicReason.not_enough_balance),
            record s { balances = r.1; vm = record s.vm { memory = r.2 } },
          )
        ])
settled asset_id amount s (none, state, m) h = tt
settled asset_id amount s (some v, state, m) h = record {
  contracts = λ c a. omega arith;
  outside = h v refl;
}

pub debit-Ends :
    (source : Option Bytes32) (asset_id : Bytes32) (amount : ℕ) (s : Interpreter)
    → Ends (λ _ t. Debited source asset_id amount s t) (debit source asset_id amount) s
unfolding debit balance_decrease external_asset_id_balance_sub
debit-Ends none asset_id amount s = record {
  ends =
      settled asset_id amount s (checked_balance_sub asset_id amount s.balances s.vm.memory)
        (λ v e a. sub-free asset_id a amount s.balances s.vm.memory e);
}
debit-Ends (some id) asset_id amount s = elim (Bool-cases (amount == 0)) [
  | inl p ↦ record {
    ends = rw (p) (record {
      contracts = λ c a.
          nothing (bytes_eq id c && bytes_eq asset_id a) (balance s.storage c a) amount
            (zero_test amount p);
      outside = λ a. omega arith;
    });
  }
  | inr p ↦ elim (Bool-cases (leb amount (balance s.storage id asset_id))) [
    | inl q ↦ record {
      ends =
          rw (p, q)
            (record {
              contracts = λ c a. decreased s.storage id asset_id c a amount (omega tests);
              outside = λ a. omega arith;
            });
    }
    | inr q ↦ record { ends = rw (p, q) tt }
  ]
]

-- What has come to a contract
pub record Credited (to asset_id : Bytes32) (amount : ℕ) (s t : Interpreter) : Type 0 where
  pub contracts :
      (c a : Bytes32)
      → balance t.storage c a ≡ balance s.storage c a + at_key to asset_id c a amount
  pub balances : t.balances ≡ s.balances

pub balance_increase-Ends :
    (to asset_id : Bytes32) (amount : ℕ) (s : Interpreter)
    → Ends (λ _ t. Credited to asset_id amount s t) (balance_increase to asset_id amount) s
unfolding balance_increase
balance_increase-Ends to asset_id amount s = elim (Bool-cases (amount == 0)) [
  | inl p ↦ record {
    ends = rw (p) (record {
      contracts = λ c a. sym (
          nothing (bytes_eq to c && bytes_eq asset_id a) (balance s.storage c a) amount
            (zero_test amount p));
      balances = refl;
    });
  }
  | inr p ↦ elim (Bool-cases (leb (balance s.storage to asset_id + amount) word_max)) [
    | inl q ↦ record {
      ends =
          rw (p, q)
            (record {
              contracts = λ c a. increased s.storage to asset_id c a amount;
              balances = refl;
            });
    }
    | inr q ↦ record { ends = rw (p, q) tt }
  ]
]

pub record SameCoins (s t : Interpreter) : Type 0 where
  pub storage : t.storage ≡ s.storage
  pub balances : t.balances ≡ s.balances

on_vm_result :
    {A : Type 0} (s : Interpreter) (q : Result A × Vm.Vm)
    → Ended (λ _ t. SameCoins s t) (q.0, record s { vm = q.1 })
on_vm_result s (ok a, vm) = record { storage = refl; balances = refl }
on_vm_result s (err e, vm) = tt

pub on_vm-Ends :
    {A : Type 0} (m : Action A) (s : Interpreter) → Ends (λ _ t. SameCoins s t) (on_vm m) s
on_vm-Ends m s = record { ends = on_vm_result s (m s.vm) }

pub charge_new_entry-Ends :
    (p : Parameters) (new : Bool) (s : Interpreter)
    → Ends (λ _ t. SameCoins s t) (charge_new_entry p new) s
unfolding charge_new_entry
charge_new_entry-Ends p false s = record { ends = record { storage = refl; balances = refl } }
charge_new_entry-Ends p true s =
    on_vm-Ends (Gas.gas_charge (saturating_mul 40 p.new_storage_per_byte)) s

pushed :
    (s : Interpreter) (r : Result ReceiptsCtx)
    → Ended {A = Unit {0}}
        (λ _ t. SameCoins s t)
        (elim r [ ok ctx ↦ (ok tt, record s { receipts = ctx }) | err e ↦ (err e, s) ])
pushed s (ok ctx) = record { storage = refl; balances = refl }
pushed s (err e) = tt

pub push_receipt-Ends :
    (p : Parameters) (receipt : Receipt) (s : Interpreter)
    → Ends (λ _ t. SameCoins s t) (push_receipt p receipt) s
unfolding push_receipt
push_receipt-Ends p receipt s = record {
  ends = pushed s (Receipts.push p.sha256 p.to_bytes receipt s.receipts);
}

-- Steps that read, or that stop
reads : {A : Type 0} (s : Interpreter) (r : Result A) → Ended (λ a t. (r ≡ ok a) × (t ≡ s)) (r, s)
reads s (ok a) = (refl, refl)
reads s (err e) = tt

pub read_id-Ends :
    (addr : ℕ) (s : Interpreter)
    → Ends (λ id t. (read s.vm.memory addr 32 ≡ ok id) × (t ≡ s)) (read_id addr) s
read_id-Ends addr s = record { ends = reads s (read s.vm.memory addr 32) }

pub from_result-Ends :
    {A : Type 0} (r : Result A) (s : Interpreter)
    → Ends (λ a t. (r ≡ ok a) × (t ≡ s)) (from_result r) s
from_result-Ends r s = record { ends = reads s r }

pub gets-Ends :
    {A : Type 0} (f : Interpreter → A) (s : Interpreter)
    → Ends (λ a t. (a ≡ f s) × (t ≡ s)) (gets f) s
gets-Ends f s = record { ends = (refl, refl) }

pub reg-Ends : (r : ℕ) (s : Interpreter) → Ends (λ _ t. t ≡ s) (reg r) s
reg-Ends r s = record { ends = refl }

pub check_contract_in_inputs-Ends :
    (id : Bytes32) (s : Interpreter)
    → Ends (λ _ t. (contains s.input_contracts id ≡ true) × (t ≡ s)) (check_contract_in_inputs id) s
unfolding check_contract_in_inputs
check_contract_in_inputs-Ends id s = elim (Bool-cases (contains s.input_contracts id)) [
  | inl p ↦ record { ends = rw (p) (refl, refl) }
  | inr p ↦ record { ends = rw (p) tt }
]

pub raise_if-Ends :
    (c : Bool) (e : Error) (s : Interpreter) → Ends (λ _ t. (c ≡ false) × (t ≡ s)) (raise_if c e) s
raise_if-Ends true e s = record { ends = tt }
raise_if-Ends false e s = record { ends = (refl, refl) }
