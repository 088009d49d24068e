-- ===== src/Calls/Transfer.antt =====
-- What a transfer does: `transfer` of fuel-vm/src/interpreter/contract.rs.
use fuel_vm.Reg
use fuel_vm.Prelude.{ℕ, ◌≡◌, ◌≢◌, sym, ap, ◌∙◌, subst, true, false, Option, arith, ◌==◌}
use fuel_vm.Outcome.{ok, panic, PanicReason}
use fuel_vm.Memory.{read}
use fuel_vm.Vm
use fuel_vm.Vm.{Action}
use fuel_vm.Calls.Receipts.{Bytes32, Receipt}
use fuel_vm.Calls.Balances.{RuntimeBalances}
use fuel_vm.Calls.{Storage, Interpreter, Parameters, or_zeroed, contains}
use fuel_vm.Calls.Binds.{Ends, Ends-bind, Ends-map, Ends-ok}
use fuel_vm.Calls.Debits.{
  Credited, debit-Ends, balance_increase-Ends, on_vm-Ends, charge_new_entry-Ends, push_receipt-Ends,
  read_id-Ends, from_result-Ends, gets-Ends, reg-Ends, check_contract_in_inputs-Ends, raise_if-Ends,
}
use fuel_vm.Calls.Contract.{balance, source_contract, transfer}
use fuel_vm.Calls.Coins.{free, Debited, Moved}

-- What a transfer has done
pub record Transferred (a amount b : ℕ) (s t : Interpreter) : Type 0 where
  pub destination : Bytes32
  pub asset_id : Bytes32
  pub source : Option Bytes32
  pub to_read : read s.vm.memory a 32 ≡ ok destination
  pub asset_read : read s.vm.memory b 32 ≡ ok asset_id
  pub source_known : source_contract s ≡ ok source
  pub input : contains s.input_contracts destination ≡ true
  pub nonzero : amount ≢ 0
  pub moved : Moved source destination asset_id amount s t

nonzero_of : (n : ℕ) → (n == 0) ≡ false → n ≢ 0
nonzero_of n e = ground arith

together :
    {source : Option Bytes32} {to asset_id : Bytes32} {amount : ℕ} {s u v t : Interpreter}
    → Debited source asset_id amount s u
    → Credited to asset_id amount u v
    → t.storage ≡ v.storage
    → t.balances ≡ v.balances
    → Moved source to asset_id amount s t
together {source} {to} {asset_id} {amount} {s} {u} {v} {t} d g e f = record {
  contracts = λ c a.
      omega (arith, d.contracts c a, g.contracts c a, ap (λ (st : Storage). balance st c a) e);
  outside =
      λ a. omega (arith, d.outside a, ap (λ (b : RuntimeBalances). free b a) (f ∙ g.balances));
}

transfer-Ends :
    (p : Parameters) (a amount b : ℕ) (s : Interpreter)
    → Ends (λ _ t. Transferred a amount b s t) (transfer p a amount b) s
unfolding transfer
transfer-Ends p a amount b s = Ends-bind (read_id-Ends a s) λ destination s₁ (to_read, e₁).
    Ends-bind (read_id-Ends b s₁) λ asset_id s₂ (asset_read, e₂).
      Ends-bind (check_contract_in_inputs-Ends destination s₂) λ _ s₃ (input, e₃).
        Ends-bind (raise_if-Ends (amount == 0) (panic PanicReason.transfer_zero_coins) s₃)
          λ _ s₄ (nonzero, e₄). Ends-bind (gets-Ends source_contract s₄) λ r s₅ (known, e₅).
            Ends-bind (from_result-Ends r s₅) λ source s₆ (found, e₆).
              Ends-bind (debit-Ends source asset_id amount s₆) λ _ s₇ taken.
                Ends-bind (balance_increase-Ends destination asset_id amount s₇) λ new s₈ given.
                  Ends-bind (charge_new_entry-Ends p new s₈) λ _ s₉ c₁.
                    Ends-bind (reg-Ends Reg.pc s₉) λ pc s₁₀ f₁.
                      Ends-bind (reg-Ends Reg.is s₁₀) λ is s₁₁ f₂.
                        Ends-bind
                          (push_receipt-Ends p
                            (Receipt.transfer (or_zeroed source) destination amount asset_id pc is)
                            s₁₁)
                          λ _ s₁₂ c₂.
                            Ends-map
                              (λ _ t c₃.
                                let same = e₆ ∙ (e₅ ∙ (e₄ ∙ (e₃ ∙ (e₂ ∙ e₁)))) in
                                record {
                                  destination = destination;
                                  asset_id = asset_id;
                                  source = source;
                                  to_read = to_read;
                                  asset_read =
                                      subst
                                        (λ (u : Interpreter). read u.vm.memory b 32 ≡ ok asset_id)
                                        e₁ asset_read;
                                  source_known =
                                      subst (λ (u : Interpreter). source_contract u ≡ ok source)
                                        (e₄ ∙ (e₃ ∙ (e₂ ∙ e₁))) (sym known ∙ found);
                                  input =
                                      subst
                                        (λ (u : Interpreter).
                                          contains u.input_contracts destination ≡ true)
                                        (e₂ ∙ e₁) input;
                                  nonzero = nonzero_of amount nonzero;
                                  moved =
                                      together
                                        (subst
                                          (λ (u : Interpreter). Debited source asset_id amount u s₇)
                                          same taken)
                                        given
                                        (c₃.storage
                                          ∙ (c₂.storage
                                              ∙ (ap (λ (u : Interpreter). u.storage) (f₂ ∙ f₁)
                                                  ∙ c₁.storage)))
                                        (c₃.balances
                                          ∙ (c₂.balances
                                              ∙ (ap (λ (u : Interpreter). u.balances) (f₂ ∙ f₁)
                                                  ∙ c₁.balances)));
                                })
                              (on_vm-Ends Vm.inc_pc s₁₂)

-- A transfer that succeeds moves an amount that is not zero, of the asset at its third operand, to
-- the contract at its first, which is among the inputs: the balance of the running contract, or the
-- free balance outside a contract, falls by the amount, the destination's grows by it, with no
-- change in the end if they are the same, and every other balance stays.
pub transfer_lem :
    (p : Parameters) (a amount b : ℕ) (s : Interpreter)
    → (transfer p a amount b s).0 ≡ ok tt
    → Transferred a amount b s (transfer p a amount b s).1
transfer_lem p a amount b s e = Ends-ok (transfer-Ends p a amount b s) e
