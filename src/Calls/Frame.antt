-- ===== src/Calls/Frame.antt =====
-- Contexts (fuel-vm/src/context.rs), call structures and frames (fuel-vm/src/call.rs), and the
-- padding of fuel-types/src/bytes.rs.
use fuel_vm.Prelude.{
  ℕ, zero, suc, ◌+◌, ◌-◌, ◌%◌, Bool, true, false, not, Option, none, some, List, [], ◌++◌, ltb,
  ◌==◌, if◌then◌else◌, length, take, drop, to_be_bytes, from_be_bytes, checked_add,
}
use fuel_vm.Outcome.{Result, ok, err, panic, PanicReason}
use fuel_vm.Memory.{MemoryRange}
use fuel_vm.Vm.{CallFrame, Registers}

pub record RuntimePredicate : Type 0 where
  pub range : MemoryRange
  pub idx : ℕ

pub data Context : Type 0 where
  predicate_estimation predicate_verification : (program : RuntimePredicate) → Context
  script call : (block_height : ℕ) → Context
  not_initialized : Context

unfoldable pub is_external : Context → Bool
is_external (Context.predicate_estimation program) = true
is_external (Context.predicate_verification program) = true
is_external (Context.script block_height) = true
is_external (Context.call block_height) = false
is_external Context.not_initialized = false

unfoldable pub is_internal : Context → Bool
unfolding is_external
is_internal context = not (is_external context)

unfoldable pub update_from_frame_pointer : ℕ → Context → Context
update_from_frame_pointer fp (Context.predicate_estimation program) =
    Context.predicate_estimation program
update_from_frame_pointer fp (Context.predicate_verification program) =
    Context.predicate_verification program
update_from_frame_pointer fp (Context.script block_height) =
    if fp == 0 then Context.script block_height else Context.call block_height
update_from_frame_pointer fp (Context.call block_height) =
    if fp == 0 then Context.script block_height else Context.call block_height
update_from_frame_pointer fp Context.not_initialized = Context.not_initialized

-- `Call`
pub record CallParams : Type 0 where
  pub to : List ℕ
  pub a : ℕ
  pub b : ℕ

abbrev pub contract_id_len : ℕ
contract_id_len = 32

abbrev pub call_len : ℕ
call_len = 48

unfoldable pub call_try_from : List ℕ → Result CallParams
call_try_from bytes =
    if ltb (length bytes) call_len
    then err (panic PanicReason.malformed_call_structure)
    else ok (record {
      to = take contract_id_len bytes;
      a = from_be_bytes (take 8 (drop contract_id_len bytes));
      b = from_be_bytes (take 8 (drop (contract_id_len + 8) bytes));
    })

-- `padded_len_usize`
unfoldable pub padded_len : ℕ → Option ℕ
padded_len len = if len % 8 == 0 then some len else checked_add len (8 - len % 8)

unfoldable pub new_frame : List ℕ → List ℕ → Registers → ℕ → ℕ → ℕ → Option CallFrame
new_frame to asset_id registers code_size a b = elim (padded_len code_size) [
  | none ↦ none
  | some padded ↦ some (record {
    to = to;
    asset_id = asset_id;
    registers = registers;
    code_size_padded = padded;
    a = a;
    b = b;
  })
]

-- `registers_offset` to `serialized_size`, and `VM_REGISTER_COUNT`
abbrev pub registers_offset : ℕ
registers_offset = 64

abbrev pub vm_register_count : ℕ
vm_register_count = 64

abbrev pub code_size_offset : ℕ
code_size_offset = 576

abbrev pub serialized_size : ℕ
serialized_size = 600

-- The registers from `r` on, for `n` of them
unfoldable pub registers_to_bytes : ℕ → ℕ → Registers → List ℕ
registers_to_bytes zero r registers = []
registers_to_bytes (suc n) r registers =
    to_be_bytes 8 (registers r) ++ registers_to_bytes n (r + 1) registers

-- `to_bytes`: the fields in their order
unfoldable pub frame_to_bytes : CallFrame → List ℕ
unfolding registers_to_bytes
frame_to_bytes frame =
    frame.to
    ++ (frame.asset_id
        ++ (registers_to_bytes vm_register_count 0 frame.registers
            ++ (to_be_bytes 8 frame.code_size_padded
                ++ (to_be_bytes 8 frame.a ++ to_be_bytes 8 frame.b))))
