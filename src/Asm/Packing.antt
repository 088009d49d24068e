-- ===== src/Asm/Packing.antt =====
-- Packing and unpacking of instruction arguments: fuel-asm/src/pack.rs, fuel-asm/src/unpack.rs, and
-- the masked types of fuel-asm/src/lib.rs. A register or an immediate is its number.
pub mod RoundTrip
use Prim.Native.Nat.{bit_or}
use fuel_vm.Prelude.{
  ℕ, ◌+◌, ◌*◌, ◌/◌, ◌%◌, ◌^◌, ◌<◌, Bool, true, ◌&&◌, Option, none, some, List, [], ◌∷◌, ◌==◌,
  if◌then◌else◌,
}
use fuel_vm.Asm.Table.{
  Layout, no_args, ra, ra_rb, ra_rb_rc, ra_rb_rc_rd, ra_rb_rc_imm06, ra_rb_imm12, ra_imm18, imm24,
}

-- The three bytes after the opcode's
pub record Data : Type 0 where
  pub first : ℕ
  pub second : ℕ
  pub third : ℕ

-- `RegId::new` and `Imm06::new` of a byte; the masks keep the lowest bits.
abbrev pub new_reg_id : ℕ → ℕ
new_reg_id u = u % 2 ^ 6

abbrev pub new_imm06 : ℕ → ℕ
new_imm06 u = u % 2 ^ 6

abbrev pub new_imm12 : ℕ → ℕ
new_imm12 u = u % 2 ^ 12

abbrev pub new_imm18 : ℕ → ℕ
new_imm18 u = u % 2 ^ 18

abbrev pub new_imm24 : ℕ → ℕ
new_imm24 u = u % 2 ^ 24

-- `new_checked` of a masked type
unfoldable pub new_checked : (ℕ → ℕ) → ℕ → Option ℕ
new_checked new u = if new u == u then some (new u) else none

-- `u8x3_from_u8x4` after `to_be_bytes`
unfoldable pub data_from_u32 : ℕ → Data
data_from_u32 u = record { first = u / 2 ^ 16 % 256; second = u / 2 ^ 8 % 256; third = u % 256 }

-- `from_be_bytes` after `u8x4_from_u8x3`
unfoldable pub u32_from_data : Data → ℕ
u32_from_data bs = bs.first * 2 ^ 16 + bs.second * 2 ^ 8 + bs.third

unfoldable pub u32_from_ra : ℕ → ℕ
u32_from_ra r = r * 2 ^ 18 % 2 ^ 32

unfoldable pub u32_from_rb : ℕ → ℕ
u32_from_rb r = r * 2 ^ 12 % 2 ^ 32

unfoldable pub u32_from_rc : ℕ → ℕ
u32_from_rc r = r * 2 ^ 6 % 2 ^ 32

unfoldable pub u32_from_ra_rb : ℕ → ℕ → ℕ
u32_from_ra_rb a b = bit_or (u32_from_ra a) (u32_from_rb b)

unfoldable pub u32_from_ra_rb_rc : ℕ → ℕ → ℕ → ℕ
u32_from_ra_rb_rc a b c = bit_or (u32_from_ra_rb a b) (u32_from_rc c)

unfoldable pub u32_from_ra_rb_rc_rd : ℕ → ℕ → ℕ → ℕ → ℕ
u32_from_ra_rb_rc_rd a b c d = bit_or (u32_from_ra_rb_rc a b c) d

unfoldable pub u32_from_ra_rb_rc_imm06 : ℕ → ℕ → ℕ → ℕ → ℕ
u32_from_ra_rb_rc_imm06 a b c imm = bit_or (u32_from_ra_rb_rc a b c) imm

unfoldable pub u32_from_ra_rb_imm12 : ℕ → ℕ → ℕ → ℕ
u32_from_ra_rb_imm12 a b imm = bit_or (u32_from_ra_rb a b) imm

unfoldable pub u32_from_ra_imm18 : ℕ → ℕ → ℕ
u32_from_ra_imm18 a imm = bit_or (u32_from_ra a) imm

unfoldable pub ra_from_bytes : Data → ℕ
unfolding u32_from_data
ra_from_bytes bs = new_reg_id (u32_from_data bs / 2 ^ 18 % 256)

unfoldable pub rb_from_bytes : Data → ℕ
unfolding u32_from_data
rb_from_bytes bs = new_reg_id (u32_from_data bs / 2 ^ 12 % 256)

unfoldable pub rc_from_bytes : Data → ℕ
unfolding u32_from_data
rc_from_bytes bs = new_reg_id (u32_from_data bs / 2 ^ 6 % 256)

unfoldable pub rd_from_bytes : Data → ℕ
unfolding u32_from_data
rd_from_bytes bs = new_reg_id (u32_from_data bs % 256)

unfoldable pub imm06_from_bytes : Data → ℕ
unfolding u32_from_data
imm06_from_bytes bs = new_imm06 (u32_from_data bs % 256)

unfoldable pub imm12_from_bytes : Data → ℕ
unfolding u32_from_data
imm12_from_bytes bs = new_imm12 (u32_from_data bs % 2 ^ 16)

unfoldable pub imm18_from_bytes : Data → ℕ
unfolding u32_from_data
imm18_from_bytes bs = new_imm18 (u32_from_data bs)

unfoldable pub imm24_from_bytes : Data → ℕ
unfolding u32_from_data
imm24_from_bytes bs = new_imm24 (u32_from_data bs)

-- The arguments of an instruction by its layout
abbrev pub Args : Layout → Type 0
Args no_args = Unit
Args ra = ℕ
Args ra_rb = ℕ × ℕ
Args ra_rb_rc = ℕ × ℕ × ℕ
Args ra_rb_rc_rd = ℕ × ℕ × ℕ × ℕ
Args ra_rb_rc_imm06 = ℕ × ℕ × ℕ × ℕ
Args ra_rb_imm12 = ℕ × ℕ × ℕ
Args ra_imm18 = ℕ × ℕ
Args imm24 = ℕ

-- What the masked types ensure
abbrev pub IsMasked : (l : Layout) → Args l → Type 0
IsMasked no_args args = Unit
IsMasked ra a = a < 2 ^ 6
IsMasked ra_rb (a, b) = (a < 2 ^ 6) × (b < 2 ^ 6)
IsMasked ra_rb_rc (a, b, c) = (a < 2 ^ 6) × (b < 2 ^ 6) × (c < 2 ^ 6)
IsMasked ra_rb_rc_rd (a, b, c, d) = (a < 2 ^ 6) × (b < 2 ^ 6) × (c < 2 ^ 6) × (d < 2 ^ 6)
IsMasked ra_rb_rc_imm06 (a, b, c, imm) = (a < 2 ^ 6) × (b < 2 ^ 6) × (c < 2 ^ 6) × (imm < 2 ^ 6)
IsMasked ra_rb_imm12 (a, b, imm) = (a < 2 ^ 6) × (b < 2 ^ 6) × (imm < 2 ^ 12)
IsMasked ra_imm18 (a, imm) = (a < 2 ^ 6) × (imm < 2 ^ 18)
IsMasked imm24 imm = imm < 2 ^ 24

-- `op_new!`
unfoldable pub new : (l : Layout) → Args l → Data
unfolding data_from_u32
new no_args args = record { first = 0; second = 0; third = 0 }
new ra a = data_from_u32 (u32_from_ra a)
new ra_rb (a, b) = data_from_u32 (u32_from_ra_rb a b)
new ra_rb_rc (a, b, c) = data_from_u32 (u32_from_ra_rb_rc a b c)
new ra_rb_rc_rd (a, b, c, d) = data_from_u32 (u32_from_ra_rb_rc_rd a b c d)
new ra_rb_rc_imm06 (a, b, c, imm) = data_from_u32 (u32_from_ra_rb_rc_imm06 a b c imm)
new ra_rb_imm12 (a, b, imm) = data_from_u32 (u32_from_ra_rb_imm12 a b imm)
new ra_imm18 (a, imm) = data_from_u32 (u32_from_ra_imm18 a imm)
new imm24 imm = data_from_u32 imm

-- `op_unpack!`
unfoldable pub unpack : (l : Layout) → Data → Args l
unpack no_args bs = tt
unpack ra bs = ra_from_bytes bs
unpack ra_rb bs = (ra_from_bytes bs, rb_from_bytes bs)
unpack ra_rb_rc bs = (ra_from_bytes bs, rb_from_bytes bs, rc_from_bytes bs)
unpack ra_rb_rc_rd bs = (ra_from_bytes bs, rb_from_bytes bs, rc_from_bytes bs, rd_from_bytes bs)
unpack ra_rb_rc_imm06 bs =
    (ra_from_bytes bs, rb_from_bytes bs, rc_from_bytes bs, imm06_from_bytes bs)
unpack ra_rb_imm12 bs = (ra_from_bytes bs, rb_from_bytes bs, imm12_from_bytes bs)
unpack ra_imm18 bs = (ra_from_bytes bs, imm18_from_bytes bs)
unpack imm24 bs = imm24_from_bytes bs

-- `op_reserved_part!`
unfoldable pub reserved_part_is_zero : Layout → Data → Bool
reserved_part_is_zero no_args bs = bs.first == 0 && (bs.second == 0 && bs.third == 0)
reserved_part_is_zero ra bs = imm18_from_bytes bs == 0
reserved_part_is_zero ra_rb bs = imm12_from_bytes bs == 0
reserved_part_is_zero ra_rb_rc bs = imm06_from_bytes bs == 0
reserved_part_is_zero _ bs = true

-- `op_reg_ids!`
unfoldable pub op_reg_ids : Layout → Data → List (Option ℕ)
op_reg_ids ra bs = some (ra_from_bytes bs) ∷ none ∷ none ∷ none ∷ []
op_reg_ids ra_rb bs = some (ra_from_bytes bs) ∷ some (rb_from_bytes bs) ∷ none ∷ none ∷ []
op_reg_ids ra_rb_rc bs =
    some (ra_from_bytes bs) ∷ some (rb_from_bytes bs) ∷ some (rc_from_bytes bs) ∷ none ∷ []
op_reg_ids ra_rb_rc_rd bs =
    some (ra_from_bytes bs)
    ∷ some (rb_from_bytes bs)
    ∷ some (rc_from_bytes bs)
    ∷ some (rd_from_bytes bs)
    ∷ []
op_reg_ids ra_rb_rc_imm06 bs =
    some (ra_from_bytes bs) ∷ some (rb_from_bytes bs) ∷ some (rc_from_bytes bs) ∷ none ∷ []
op_reg_ids ra_rb_imm12 bs = some (ra_from_bytes bs) ∷ some (rb_from_bytes bs) ∷ none ∷ none ∷ []
op_reg_ids ra_imm18 bs = some (ra_from_bytes bs) ∷ none ∷ none ∷ none ∷ []
op_reg_ids _ bs = none ∷ none ∷ none ∷ none ∷ []
