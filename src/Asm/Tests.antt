-- ===== src/Asm/Tests.antt =====
-- Runs of the encoding.
use fuel_vm.Prelude.{◌≡◌, refl, some, none, [], ◌∷◌, arith}
use fuel_vm.Asm.Table
use fuel_vm.Asm.Packing
use fuel_vm.Asm.Codec
use fuel_vm.Asm.{Instruction, encode, decode, to_bytes, try_from, from_bytes, program_bytes}
use fuel_vm.Asm.Table.{Opcode, layout, row}
use fuel_vm.Asm.Packing.{Args, IsMasked}
use fuel_vm.Asm.Codec.{
  decode-encode, encode-IsInstruction, to_bytes-try_from, try_from_u32-to_u32,
  from_bytes-program_bytes,
}

-- `addi 16, 1, 4095`
abbrev an_addi : Instruction
an_addi = record {
  opcode = Opcode.addi;
  data_bytes = record { first = 64; second = 31; third = 255 };
}

abbrev a_noop : Instruction
a_noop = record { opcode = Opcode.noop; data_bytes = record { first = 0; second = 0; third = 0 } }

unfoldable addi_args : Args (layout Opcode.addi)
unfolding layout row
addi_args = (16, 1, 4095)

addi_args-IsMasked : IsMasked (layout Opcode.addi) addi_args
unfolding layout row addi_args
addi_args-IsMasked = (omega arith, omega arith, omega arith)

an_addi-encode : encode Opcode.addi addi_args ≡ an_addi
unfolding addi_args Packing.new Packing.data_from_u32 Packing.u32_from_ra_rb_imm12
    Packing.u32_from_ra_rb Packing.u32_from_ra Packing.u32_from_rb layout row
an_addi-encode = refl

-- A zero reserved part is part of the format.
reserved_noop : try_from 0x47 0 0 1 ≡ none
unfolding try_from Table.opcode_try_from Table.find_opcode Table.table Table.to_u8 layout row
    Packing.reserved_part_is_zero
reserved_noop = refl

try_addi : try_from 0x50 64 31 255 ≡ some an_addi
unfolding try_from Table.opcode_try_from Table.find_opcode Table.table Table.to_u8 layout row
    Packing.reserved_part_is_zero
try_addi = refl

an_addi-IsInstruction : Codec.IsInstruction an_addi
unfolding Packing.reserved_part_is_zero layout row
an_addi-IsInstruction = record {
  bytes = record { first = omega arith; second = omega arith; third = omega arith };
  reserved = refl;
}

a_noop-IsInstruction : Codec.IsInstruction a_noop
unfolding Packing.reserved_part_is_zero layout row
a_noop-IsInstruction = record {
  bytes = record { first = omega arith; second = omega arith; third = omega arith };
  reserved = refl;
}

decode-encode_example : decode (encode Opcode.addi addi_args) ≡ addi_args
decode-encode_example = decode-encode Opcode.addi addi_args addi_args-IsMasked

to_bytes-try_from_example :
    (to_bytes an_addi ≡ 0x50 ∷ 64 ∷ 31 ∷ 255 ∷ []) × (encode Opcode.addi (decode an_addi) ≡ an_addi)
to_bytes-try_from_example =
    to_bytes-try_from 0x50 64 31 255 (omega arith) (omega arith) (omega arith) try_addi

from_bytes-program_bytes_example :
    from_bytes (program_bytes (an_addi ∷ a_noop ∷ [])) ≡ some an_addi ∷ some a_noop ∷ []
from_bytes-program_bytes_example =
    from_bytes-program_bytes (an_addi ∷ a_noop ∷ [])
      (an_addi-IsInstruction, (a_noop-IsInstruction, tt))
