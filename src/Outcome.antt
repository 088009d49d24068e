-- ===== src/Outcome.antt =====
-- Results and errors: fuel-asm/src/panic_reason.rs and fuel-vm/src/error.rs. A step of the
-- interpreter ends in a value, in a VM panic with its reason, in a bug report of the interpreter
-- itself, or in a Rust panic of the host (`unreachable!`, `expect`, an index out of range).
use fuel_vm.Prelude.{◌≡◌, refl}

-- `PanicReason`
pub data PanicReason : Type 0 where
  unknown_panic_reason revert out_of_gas transaction_validity memory_overflow : PanicReason
  arithmetic_overflow contract_not_found memory_ownership not_enough_balance : PanicReason
  expected_internal_context asset_id_not_found input_not_found output_not_found : PanicReason
  witness_not_found transaction_maturity invalid_metadata_identifier : PanicReason
  malformed_call_structure reserved_register_not_writable invalid_flags : PanicReason
  invalid_immediate_value expected_coin_input ecal_error memory_write_overlap : PanicReason
  contract_not_in_inputs internal_balance_overflow contract_max_size : PanicReason
  expected_unallocated_stack max_static_contracts_reached transfer_amount_cannot_be_zero :
      PanicReason
  expected_output_variable expected_parent_internal_context predicate_returned_non_one : PanicReason
  contract_id_already_deployed contract_mismatch message_data_too_long arithmetic_error :
      PanicReason
  contract_instruction_not_allowed transfer_zero_coins invalid_instruction : PanicReason
  memory_not_executable policy_is_not_set policy_not_found too_many_receipts : PanicReason
  balance_overflow invalid_block_height too_many_slots expected_nested_caller : PanicReason
  memory_growth_overlap uninitalized_memory_access overriding_consensus_parameters : PanicReason
  unknown_state_transaction_bytecode_root overriding_state_transaction_bytecode : PanicReason
  bytecode_already_uploaded the_part_is_not_sequentially_connected blob_not_found : PanicReason
  blob_id_already_uploaded gas_cost_not_defined unsupported_curve_id : PanicReason
  unsupported_operation_type invalid_elliptic_curve_point : PanicReason
  input_contract_does_not_exist storage_slots_not_found proof_in_upload_not_found : PanicReason
  invalid_upgrade_purpose_type can_not_get_gas_price_in_predicate : PanicReason

-- `BugVariant`
pub data BugVariant : Type 0 where
  context_gas_overflow context_gas_underflow global_gas_underflow : BugVariant
  global_gas_less_than_context stack_pointer_overflow code_size_overflow : BugVariant
  uncomputable_refund receipts_ctx_full witness_index_out_of_bounds : BugVariant
  next_subsection_index_is_higher_than_total_number_of_parts : BugVariant
  input_index_more_than_u16_max : BugVariant

pub data Error : Type 0 where
  panic : PanicReason → Error
  bug : BugVariant → Error
  crash : Error

-- What a fallible function of the source returns.
pub data Result {ℓ} (Value : Type ℓ) : Type ℓ where
  err : Error → Result Value
  ok : Value → Result Value

infixl 5 ◌>>=◌
-- The `?` of the source: the first error ends the function.
abbrev pub ◌>>=◌ {ℓ κ} : {X : Type ℓ} {Y : Type κ} → Result X → (X → Result Y) → Result Y
err reason >>= next = err reason
ok x >>= next = next x

-- A chain that succeeds has a first value, from which the rest succeeds.
pub >>=-ok {ℓ κ} :
    {X : Type ℓ} {Y : Type κ} {y : Y} (next : X → Result Y) (r : Result X)
    → (r >>= next) ≡ ok y
    → (x : X) × (next x ≡ ok y) × (r ≡ ok x)
>>=-ok next (err reason) e = cc
>>=-ok next (ok x) e = (x, e, refl)
