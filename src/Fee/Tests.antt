-- ===== src/Fee/Tests.antt =====
-- The theorems on fees, at a transaction with two inputs that one witness signs, and a predicate.
use fuel_vm.Prelude.{
  saturating_mul, ℕ, ◌+◌, ◌≤◌, ◌≡◌, refl, some, [], ◌∷◌, arith, checked_sub, saturating_add,
}
use fuel_vm.Outcome.{ok}
use fuel_vm.Vm.Gas.{DependentCost, resolve, resolve_without_base}
use fuel_vm.Fee.{
  Input, Kind, tx_min_gas, storage_charge, FeeCosts, FeeParameters, Chargeable, min_gas,
  gas_used_by_inputs, sum_gas, input_gas, predicate_gas, charged_inputs, checked_from_tx,
  refund_fee, tip, max_fee_limit,
}
use fuel_vm.Fee.Bounds.{Pays, gas_limit, within_word, checked_from_tx_lem, refund_fee_lem}

abbrev costs : FeeCosts
costs = record {
  eck1 = 100;
  contract_root = DependentCost.heavy_operation 10 2;
  vm_initialization = DependentCost.light_operation 5 4;
  new_storage_per_byte = 2;
}

abbrev params : FeeParameters
params = record { gas_price_factor = 7; gas_per_byte = 3 }

abbrev signed_twice : Chargeable
signed_twice = record {
  kind = Kind.script 1000;
  inputs = Input.coin_signed 0 ∷ Input.message_coin_signed 0 ∷ Input.coin_predicate 8 50 ∷ [];
  tip_policy = some 9;
  witness_limit_policy = some 30;
  max_fee_policy = some 5000;
  witness_lens = 20 ∷ [];
  witnesses_size = 20;
  metered_bytes_size = 40;
  gas_used_by_metadata = λ (c : FeeCosts). 1;
}

-- 100 for the signature, 91 for the predicate, 1, 120 for the bytes, and 15
min_gas-signed_twice : tx_min_gas signed_twice costs params ≡ ok 327
unfolding tx_min_gas storage_charge min_gas gas_used_by_inputs sum_gas input_gas predicate_gas
    charged_inputs resolve resolve_without_base saturating_add saturating_mul
min_gas-signed_twice = refl

checked_from_tx_lem_example :
    (least : ℕ) × (most : ℕ) × (checked_from_tx costs params signed_twice 10
      ≡ ok (within_word signed_twice least most 327 (gas_limit signed_twice params 327)))
    × Pays 327 10 7 least
    × Pays (gas_limit signed_twice params 327) 10 7 most
    × (327 ≤ gas_limit signed_twice params 327)
    × (least ≤ most)
checked_from_tx_lem_example =
    checked_from_tx_lem costs params signed_twice 10 327 min_gas-signed_twice (omega arith)
      (omega arith) (omega arith)

-- An upload of its witness
abbrev uploads : Chargeable
uploads = record signed_twice { kind = Kind.upload 0 }

-- 40 more for the 20 bytes
min_gas-uploads : tx_min_gas uploads costs params ≡ ok 367
unfolding tx_min_gas storage_charge min_gas gas_used_by_inputs sum_gas input_gas predicate_gas
    charged_inputs resolve resolve_without_base saturating_add saturating_mul
min_gas-uploads = refl

refund_fee_lem_example :
    (used : ℕ) × (refund_fee uploads costs params 100 10
      ≡ ok (checked_sub (max_fee_limit uploads) (used + tip uploads)))
    × Pays (saturating_add 367 100) 10 7 used
refund_fee_lem_example =
    refund_fee_lem costs params uploads 100 10 367 min_gas-uploads (omega arith) (omega arith)
      (omega arith) (omega arith)
