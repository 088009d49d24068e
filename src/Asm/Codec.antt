-- ===== src/Asm/Codec.antt =====
-- Instructions and their bytes (fuel-asm/src/lib.rs and macros.rs) determine each other.
use mathlib.Core.Option.{some_inj}
use fuel_vm.Prelude.{
  ℕ, Bool, ◌<◌, ◌*◌, ◌+◌, ◌/◌, ◌%◌, ◌≡◌, refl, ap, ap₂, subst, All, ◌∙◌, true, false, Option, none,
  some, List, [], ◌∷◌, map, arith, from_be_bytes, from_be_bytes_onto, to_be_bytes,
}
use fuel_vm.Asm.Table.{Opcode, layout, to_u8, opcode_try_from}
use fuel_vm.Asm.Table.Codes.{to_u8-lt, opcode_try_from-to_u8, opcode_try_from-some}
use fuel_vm.Asm.Packing.{Data, Args, IsMasked, reserved_part_is_zero}
use fuel_vm.Asm.Packing.RoundTrip.{
  AreBytes, AreBytes-new, new-unpack, unpack-new, reserved_part_is_zero-new,
}
use fuel_vm.Asm
use fuel_vm.Asm.{
  Instruction, encode, decode, to_bytes, try_from, to_u32, try_from_u32, from_bytes, program_bytes,
}

-- What every constructor of an instruction ensures
pub record IsInstruction (instruction : Instruction) : Type 0 where
  pub bytes : AreBytes instruction.data_bytes
  pub reserved : reserved_part_is_zero (layout instruction.opcode) instruction.data_bytes ≡ true

pub encode-IsInstruction :
    (op : Opcode) (args : Args (layout op))
    → IsMasked (layout op) args
    → IsInstruction (encode op args)
encode-IsInstruction op args h = record {
  bytes = AreBytes-new (layout op) args;
  reserved = reserved_part_is_zero-new (layout op) args h;
}

pub try_from-to_bytes :
    (i : Instruction)
    → IsInstruction i
    → try_from (to_u8 i.opcode) i.data_bytes.first i.data_bytes.second i.data_bytes.third ≡ some i
unfolding try_from
try_from-to_bytes i h = rw (opcode_try_from-to_u8 i.opcode, h.reserved) refl

-- Unpacking an instruction that was built from arguments within the widths of their fields gives the
-- arguments, for every opcode.
pub decode-encode :
    (op : Opcode) (args : Args (layout op))
    → IsMasked (layout op) args
    → decode (encode op args) ≡ args
unfolding decode
decode-encode op args h = unpack-new (layout op) args h

-- What is read from a byte and the data after it
pub record IsReading (u : ℕ) (bs : Data) (instruction : Instruction) : Type 0 where
  pub opcode : to_u8 instruction.opcode ≡ u
  pub data_bytes : instruction.data_bytes ≡ bs
  pub valid : IsInstruction instruction

accepted :
    (u : ℕ) (op : Opcode) (bs : Data) (b : Bool) {i : Instruction}
    → to_u8 op ≡ u
    → reserved_part_is_zero (layout op) bs ≡ b
    → AreBytes bs
    → Asm.accept op bs b ≡ some i
    → IsReading u bs i
accepted u op bs true p z h e =
    subst (λ (o : Instruction). IsReading u bs o) (some_inj.0 e)
      (record { opcode = p; data_bytes = refl; valid = record { bytes = h; reserved = z } })
accepted u op bs false p z h e = cc

read_opcode :
    (u : ℕ) (bs : Data) (o : Option Opcode) {i : Instruction}
    → opcode_try_from u ≡ o
    → AreBytes bs
    → Asm.with_opcode bs o ≡ some i
    → IsReading u bs i
read_opcode u bs none f h e = cc
read_opcode u bs (some op) f h e =
    accepted u op bs (reserved_part_is_zero (layout op) bs) (opcode_try_from-some u f) refl h e

pub try_from-IsReading :
    (op : ℕ) (bs : Data) {i : Instruction}
    → AreBytes bs
    → try_from op bs.first bs.second bs.third ≡ some i
    → IsReading op bs i
unfolding try_from
try_from-IsReading op bs h e = read_opcode op bs (opcode_try_from op) refl h e

-- Where four bytes parse as an instruction, the instruction's bytes are these four, and building an
-- instruction from its opcode and its unpacked arguments gives it again: no other bytes parse to it,
-- and no byte of it stands outside its opcode and arguments.
pub to_bytes-try_from :
    (op a b c : ℕ) {i : Instruction}
    → a < 256
    → b < 256
    → c < 256
    → try_from op a b c ≡ some i
    → (to_bytes i ≡ op ∷ a ∷ b ∷ c ∷ []) × (encode i.opcode (decode i) ≡ i)
unfolding to_bytes decode
to_bytes-try_from op a b c {i} h k l e =
    let reading =
      try_from-IsReading op (record { first = a; second = b; third = c })
        (record { first = h; second = k; third = l }) e in
    (
      ap₂ (λ u bs. u ∷ bs.first ∷ bs.second ∷ bs.third ∷ []) reading.opcode reading.data_bytes,
      ap (λ bs. record { opcode = i.opcode; data_bytes = bs })
          (new-unpack (layout i.opcode) i.data_bytes reading.valid.bytes reading.valid.reserved),
    )

-- Parsing the bytes of a list of instructions, each with zeros in its reserved part, gives each of
-- them, in order and without an error.
pub from_bytes-program_bytes :
    (program : List Instruction)
    → All IsInstruction program
    → from_bytes (program_bytes program) ≡ map some program
unfolding from_bytes program_bytes to_bytes
from_bytes-program_bytes [] h = refl
from_bytes-program_bytes (i ∷ program) h =
    ap₂ (λ o os. o ∷ os) (try_from-to_bytes i h.0) (from_bytes-program_bytes program h.1)

four_bytes :
    (op a b c : ℕ)
    → op < 256
    → a < 256
    → b < 256
    → c < 256
    → to_be_bytes 4 (from_be_bytes (op ∷ a ∷ b ∷ c ∷ [])) ≡ op ∷ a ∷ b ∷ c ∷ []
unfolding to_be_bytes from_be_bytes from_be_bytes_onto
four_bytes op a b c h k l m =
    let first : ((((0 + op) * 256 + a) * 256 + b) * 256 + c) / 16777216 % 256 ≡ op = omega arith in
    let second : ((((0 + op) * 256 + a) * 256 + b) * 256 + c) / 65536 % 256 ≡ a = omega arith in
    let third : ((((0 + op) * 256 + a) * 256 + b) * 256 + c) / 256 % 256 ≡ b = omega arith in
    let fourth : ((((0 + op) * 256 + a) * 256 + b) * 256 + c) / 1 % 256 ≡ c = omega arith in
    λ i. first i ∷ second i ∷ third i ∷ fourth i ∷ []

-- An instruction with zeros in its reserved part is read back from its raw number.
pub try_from_u32-to_u32 : (i : Instruction) → IsInstruction i → try_from_u32 (to_u32 i) ≡ some i
unfolding try_from_u32 to_u32 to_bytes
try_from_u32-to_u32 i h =
    ap Asm.try_from_four (
      four_bytes (to_u8 i.opcode) i.data_bytes.first i.data_bytes.second i.data_bytes.third
        (to_u8-lt i.opcode) h.bytes.first h.bytes.second h.bytes.third)
    ∙ try_from-to_bytes i h
