-- ===== src/Asm.antt =====
-- The encoding of instructions: fuel-asm/src. An instruction is its opcode with the three bytes of
-- its arguments, as the variants of `Instruction` wrap them. The error `InvalidOpcode` is `none`.
pub mod Table
pub mod Packing
pub mod Codec
mod Tests
use fuel_vm.Prelude.{
  ℕ, Bool, true, false, Option, none, some, List, [], ◌∷◌, ◌++◌, map, from_be_bytes, to_be_bytes,
  not,
}
use fuel_vm.Asm.Table.{Opcode, layout, opcode_try_from, to_u8}
use fuel_vm.Asm.Packing.{Data, Args, new, unpack, op_reg_ids, reserved_part_is_zero}

pub record Instruction : Type 0 where
  pub opcode : Opcode
  pub data_bytes : Data

-- The shorthand constructors, of arguments in range
abbrev pub encode : (op : Opcode) → Args (layout op) → Instruction
encode op args = record { opcode = op; data_bytes = new (layout op) args }

unfoldable pub decode : (instruction : Instruction) → Args (layout instruction.opcode)
decode instruction = unpack (layout instruction.opcode) instruction.data_bytes

unfoldable pub reg_ids : Instruction → List (Option ℕ)
reg_ids instruction = op_reg_ids (layout instruction.opcode) instruction.data_bytes

unfoldable pub to_bytes : Instruction → List ℕ
to_bytes instruction =
    to_u8 instruction.opcode
    ∷ instruction.data_bytes.first
    ∷ instruction.data_bytes.second
    ∷ instruction.data_bytes.third
    ∷ []

abbrev accept : Opcode → Data → Bool → Option Instruction
accept op bs true = some (record { opcode = op; data_bytes = bs })
accept op bs false = none

abbrev with_opcode : Data → Option Opcode → Option Instruction
with_opcode bs none = none
with_opcode bs (some op) = accept op bs (reserved_part_is_zero (layout op) bs)

unfoldable pub try_from : ℕ → ℕ → ℕ → ℕ → Option Instruction
try_from op a b c = with_opcode (record { first = a; second = b; third = c }) (opcode_try_from op)

-- `try_from` of an array of four bytes
abbrev pub try_from_four : List ℕ → Option Instruction
try_from_four (op ∷ a ∷ b ∷ c ∷ []) = try_from op a b c
try_from_four _ = none

-- `RawInstruction::from`
unfoldable pub to_u32 : Instruction → ℕ
unfolding to_bytes
to_u32 instruction = from_be_bytes (to_bytes instruction)

-- `Instruction::try_from` of a raw instruction
unfoldable pub try_from_u32 : ℕ → Option Instruction
unfolding try_from
try_from_u32 u = try_from_four (to_be_bytes 4 u)

-- Bytes in fours; a rest of fewer is left.
unfoldable pub from_bytes : List ℕ → List (Option Instruction)
from_bytes (a ∷ b ∷ c ∷ d ∷ rest) = try_from a b c d ∷ from_bytes rest
from_bytes _ = []

unfoldable pub from_u32s : List ℕ → List (Option Instruction)
from_u32s us = map try_from_u32 us

-- `Vec<u8>::from_iter`
unfoldable pub program_bytes : List Instruction → List ℕ
unfolding to_bytes
program_bytes [] = []
program_bytes (instruction ∷ rest) = to_bytes instruction ++ program_bytes rest
