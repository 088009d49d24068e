-- ===== src/Calls/Mint/Supply.antt =====
-- What `mint` and `burn` of fuel-vm/src/interpreter/blockchain.rs do to the balances of contracts.
use fuel_vm.Prelude.{
  ℕ, ◌+◌, ◌-◌, ◌≤◌, refl, le→leb, ◌≡◌, sym, ap, ◌∙◌, subst, Bool-cases, inl, inr, leb, word_max,
  arith,
}
use fuel_vm.Outcome.{Result, ok}
use fuel_vm.Memory.{read}
use fuel_vm.Vm
use fuel_vm.Calls.Receipts.{Bytes32, Receipt}
use fuel_vm.Calls.{
  Storage, Interpreter, Parameters, internal_contract, push_receipt, from_result, read_id, on_vm,
  reg, Handler, ◌>>=◌,
}
use fuel_vm.Calls.Binds.{bind_ok, Ends, Ends-bind, Ends-map, Ends-ok}
use fuel_vm.Calls.Coins.{at_key, bytes_eq_self, decreased, increased}
use fuel_vm.Calls.Contract.{balance, balance_insert}
use fuel_vm.Calls.Debits.{
  on_vm-Ends, charge_new_entry-Ends, push_receipt-Ends, read_id-Ends, from_result-Ends, gets-Ends,
  reg-Ends,
}
use fuel_vm.Calls.Receipts
use fuel_vm.Calls.Receipts.{ReceiptsCtx}
use fuel_vm.Vm.{instruction_size}
use fuel_vm.Calls.Flow.Return.{received, advanced, push_receipt-ok, inc_pc-ok}
use fuel_vm.Calls.Mint.{asset_id, add_coins, remove_coins, mint, burn}
use fuel_vm.Reg

-- The running contract, and what the operand names
pub record Named (b : ℕ) (s : Interpreter) (contract_id sub_id : Bytes32) : Type 0 where
  pub running : internal_contract s ≡ ok contract_id
  pub sub_read : read s.vm.memory b 32 ≡ ok sub_id

-- The amount has come to the contract, and no other balance has changed.
abbrev pub Added : Bytes32 → Bytes32 → ℕ → Interpreter → Interpreter → Type 0
Added contract_id asset amount s t =
    (c a : Bytes32)
    → balance t.storage c a ≡ balance s.storage c a + at_key contract_id asset c a amount

abbrev pub Removed : Bytes32 → Bytes32 → ℕ → Interpreter → Interpreter → Type 0
Removed contract_id asset amount s t = Added contract_id asset amount t s

add_coins-Ends :
    (contract_id asset : Bytes32) (amount : ℕ) (s : Interpreter)
    → Ends (λ _ t. Added contract_id asset amount s t) (add_coins contract_id asset amount) s
unfolding add_coins
add_coins-Ends contract_id asset amount s =
    elim (Bool-cases (leb (balance s.storage contract_id asset + amount) word_max)) [
      | inl q ↦ record {
        ends = rw (q, add_coins) (λ c a. increased s.storage contract_id asset c a amount);
      }
      | inr q ↦ record { ends = rw (q, add_coins) tt }
    ]

pub record Minted (p : Parameters) (amount b : ℕ) (s t : Interpreter) : Type 0 where
  pub contract_id : Bytes32
  pub sub_id : Bytes32
  pub named : Named b s contract_id sub_id
  pub added : Added contract_id (asset_id p contract_id sub_id) amount s t

mint-Ends :
    (p : Parameters) (amount b : ℕ) (s : Interpreter)
    → Ends (λ _ t. Minted p amount b s t) (mint p amount b) s
unfolding mint
mint-Ends p amount b s = Ends-bind (gets-Ends internal_contract s) λ r s₁ (known, e₁).
    Ends-bind (from_result-Ends r s₁) λ contract_id s₂ (found, e₂).
      Ends-bind (read_id-Ends b s₂) λ sub_id s₃ (sub_read, e₃).
        Ends-bind (add_coins-Ends contract_id (asset_id p contract_id sub_id) amount s₃)
          λ new s₄ given. Ends-bind (charge_new_entry-Ends p new s₄) λ _ s₅ c₁.
            Ends-bind (reg-Ends Reg.pc s₅) λ pc s₆ f₁. Ends-bind (reg-Ends Reg.is s₆) λ is s₇ f₂.
              Ends-bind (push_receipt-Ends p (Receipt.mint sub_id contract_id amount pc is) s₇)
                λ _ s₈ c₂.
                  Ends-map
                    (λ _ t c₃. record {
                      contract_id = contract_id;
                      sub_id = sub_id;
                      named = record {
                        running = sym known ∙ found;
                        sub_read =
                            subst (λ (u : Interpreter). read u.vm.memory b 32 ≡ ok sub_id) (e₂ ∙ e₁)
                              sub_read;
                      };
                      added = λ c a.
                          ap (λ (st : Storage). balance st c a)
                            (c₃.storage
                              ∙ (c₂.storage
                                  ∙ (ap (λ (u : Interpreter). u.storage) (f₂ ∙ f₁) ∙ c₁.storage)))
                          ∙ subst
                              (λ (u : Interpreter).
                                balance s₄.storage c a
                                ≡ balance u.storage c a
                                  + at_key contract_id (asset_id p contract_id sub_id) c a amount)
                              (e₃ ∙ (e₂ ∙ e₁)) (given c a);
                    })
                    (on_vm-Ends Vm.inc_pc s₈)

pub mint_lem :
    (p : Parameters) (amount b : ℕ) (s : Interpreter)
    → (mint p amount b s).0 ≡ ok tt
    → Minted p amount b s (mint p amount b s).1
mint_lem p amount b s e = Ends-ok (mint-Ends p amount b s) e

taken_out : Bytes32 → Bytes32 → ℕ → Interpreter → Interpreter
taken_out contract_id asset amount s = record s {
  storage =
      balance_insert s.storage contract_id asset (balance s.storage contract_id asset - amount);
}

burned_receipt : Bytes32 → Bytes32 → ℕ → Interpreter → Receipt
burned_receipt sub_id contract_id amount s =
    Receipt.burn sub_id contract_id amount (s.vm.registers Reg.pc) (s.vm.registers Reg.is)

remove_coins-ok :
    (contract_id asset : Bytes32) (amount : ℕ) (s : Interpreter)
    → amount ≤ balance s.storage contract_id asset
    → remove_coins contract_id asset amount s ≡ (ok tt, taken_out contract_id asset amount s)
unfolding remove_coins taken_out
remove_coins-ok contract_id asset amount s h =
    rw (le→leb amount (balance s.storage contract_id asset) h, remove_coins) refl

burn-ok :
    (p : Parameters) (amount b : ℕ) (s : Interpreter) {contract_id sub_id : Bytes32}
    {ctx : ReceiptsCtx}
    → Named b s contract_id sub_id
    → amount ≤ balance s.storage contract_id (asset_id p contract_id sub_id)
    → s.vm.registers Reg.pc + instruction_size ≤ word_max
    → Receipts.push p.sha256 p.to_bytes (burned_receipt sub_id contract_id amount s) s.receipts
      ≡ ok ctx
    → burn p amount b s ≡ (
      ok tt,
      advanced (received ctx (taken_out contract_id (asset_id p contract_id sub_id) amount s)),
    )
unfolding burn taken_out burned_receipt received
burn-ok p amount b s {contract_id} {sub_id} {ctx} n h k e =
    let asset = asset_id p contract_id sub_id in
    let t = taken_out contract_id asset amount s in
    let receipt = burned_receipt sub_id contract_id amount s in
    let last : Unit {0} → Handler (Unit {0}) = λ _. on_vm Vm.inc_pc in
    let logged : Bytes32 → Bytes32 → Unit {0} → Handler (Unit {0}) = λ contract_id sub_id _.
      reg Reg.pc >>= λ pc.
      reg Reg.is >>= λ is. push_receipt p (Receipt.burn sub_id contract_id amount pc is) >>= last in
    let removed : Bytes32 → Bytes32 → Handler (Unit {0}) = λ contract_id sub_id.
      remove_coins contract_id (asset_id p contract_id sub_id) amount
      >>= logged contract_id sub_id in
    bind_ok (from_result (internal_contract s)) (λ contract_id. read_id b >>= removed contract_id) s
      (ap (λ (r : Result Bytes32). (r, s)) n.running)
      (bind_ok (read_id b) (removed contract_id) s (ap (λ (r : Result Bytes32). (r, s)) n.sub_read)
        (bind_ok (remove_coins contract_id asset amount) (logged contract_id sub_id) s
          (remove_coins-ok contract_id asset amount s h)
          (bind_ok (push_receipt p receipt) last t (push_receipt-ok p receipt t e)
            (inc_pc-ok (received ctx t) k))))

at_own :
    (contract_id asset : Bytes32) (amount : ℕ)
    → at_key contract_id asset contract_id asset amount ≡ amount
at_own contract_id asset amount = rw (bytes_eq_self contract_id, bytes_eq_self asset) refl

taken_out-Removed :
    (contract_id asset : Bytes32) (amount : ℕ) (s : Interpreter)
    → amount ≤ balance s.storage contract_id asset
    → Removed contract_id asset amount s (taken_out contract_id asset amount s)
unfolding taken_out
taken_out-Removed contract_id asset amount s h c a =
    sym (decreased s.storage contract_id asset c a amount h)

-- A contract that has minted coins of its own, and then, by whatever path, is to burn as many in a
-- state with the same storage: the mint has raised its balance of the asset by the amount and no
-- other balance, and the burn succeeds, if there is room for its receipt and the program counter can
-- move on, and leaves every balance as it was before the mint.
pub burn-mint :
    (p : Parameters) (amount b : ℕ) (s t : Interpreter) {contract_id sub_id : Bytes32}
    {ctx : ReceiptsCtx}
    → Named b s contract_id sub_id
    → (mint p amount b s).0 ≡ ok tt
    → Named b t contract_id sub_id
    → t.storage ≡ (mint p amount b s).1.storage
    → t.vm.registers Reg.pc + instruction_size ≤ word_max
    → Receipts.push p.sha256 p.to_bytes
        (Receipt.burn sub_id contract_id amount (t.vm.registers Reg.pc) (t.vm.registers Reg.is))
        t.receipts
      ≡ ok ctx
    → Added contract_id (asset_id p contract_id sub_id) amount s (mint p amount b s).1
      × ((u : Interpreter) × (burn p amount b t ≡ (ok tt, u))
          × ((c a : Bytes32) → balance u.storage c a ≡ balance s.storage c a))
unfolding burned_receipt received advanced
burn-mint p amount b s t {contract_id} {sub_id} {ctx} n e n' f k g =
    let asset = asset_id p contract_id sub_id in
    let m = mint_lem p amount b s e in
    let same : m.contract_id ≡ contract_id = cc (m.named.running, n.running) in
    let same' : m.sub_id ≡ sub_id = cc (m.named.sub_read, n.sub_read) in
    let added : Added contract_id asset amount s (mint p amount b s).1 =
      rw (← same, ← same') m.added in
    let now = λ (c a : Bytes32). ap (λ (st : Storage). balance st c a) f in
    let enough : amount ≤ balance t.storage contract_id asset =
      omega
        (arith, at_own contract_id asset amount, now contract_id asset, added contract_id asset) in
    (
      added,
      (
        advanced (received ctx (taken_out contract_id asset amount t)),
        burn-ok p amount b t n' enough k g,
        λ c a.
            omega
              (arith, taken_out-Removed contract_id asset amount t enough c a, now c a, added c a),
      ),
    )
