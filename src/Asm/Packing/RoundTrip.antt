-- ===== src/Asm/Packing/RoundTrip.antt =====
-- Packing and unpacking (fuel-asm/src/pack.rs and unpack.rs) invert each other.
use Prim.Native.Nat.{bit_or}
use fuel_vm.Prelude.{
  ℕ, ◌+◌, ◌*◌, ◌/◌, ◌%◌, ◌^◌, ◌<◌, ◌≡◌, refl, sym, ap, ap₂, ◌∙◌, true, ==_iff, arith,
  bit_or-disjoint,
}
use fuel_vm.Asm.Table.{
  Layout, no_args, ra, ra_rb, ra_rb_rc, ra_rb_rc_rd, ra_rb_rc_imm06, ra_rb_imm12, ra_imm18, imm24,
}
use fuel_vm.Asm.Packing.{
  Data, Args, IsMasked, new, unpack, reserved_part_is_zero, data_from_u32, u32_from_data,
  u32_from_ra, u32_from_rb, u32_from_rc, u32_from_ra_rb, u32_from_ra_rb_rc, u32_from_ra_rb_rc_rd,
  u32_from_ra_rb_rc_imm06, u32_from_ra_rb_imm12, u32_from_ra_imm18, ra_from_bytes, rb_from_bytes,
  rc_from_bytes, rd_from_bytes, imm06_from_bytes, imm12_from_bytes, imm18_from_bytes,
  imm24_from_bytes,
}

-- Fields that do not meet add up.
joined :
    (k q hi lo : ℕ) {high low : ℕ}
    → high ≡ hi
    → low ≡ lo
    → hi ≡ q * 2 ^ k
    → lo < 2 ^ k
    → bit_or high low ≡ hi + lo
joined k q hi lo e f h l =
    ap₂ bit_or (e ∙ h) f ∙ bit_or-disjoint k q lo l ∙ ap (λ (t : ℕ). t + lo) (sym h)

u32_from_ra-eq : (a : ℕ) → a < 2 ^ 6 → u32_from_ra a ≡ a * 2 ^ 18
unfolding u32_from_ra
u32_from_ra-eq a h = omega arith

u32_from_ra_rb-eq : (a b : ℕ) → a < 2 ^ 6 → b < 2 ^ 6 → u32_from_ra_rb a b ≡ a * 2 ^ 18 + b * 2 ^ 12
unfolding u32_from_ra_rb u32_from_rb
u32_from_ra_rb-eq a b h k =
    joined 18 a (a * 2 ^ 18) (b * 2 ^ 12) (u32_from_ra-eq a h) (omega arith) (omega arith)
      (omega arith)

u32_from_ra_rb_rc-eq :
    (a b c : ℕ)
    → a < 2 ^ 6
    → b < 2 ^ 6
    → c < 2 ^ 6
    → u32_from_ra_rb_rc a b c ≡ a * 2 ^ 18 + b * 2 ^ 12 + c * 2 ^ 6
unfolding u32_from_ra_rb_rc u32_from_rc
u32_from_ra_rb_rc-eq a b c h k l =
    joined 12 (a * 64 + b) (a * 2 ^ 18 + b * 2 ^ 12) (c * 2 ^ 6) (u32_from_ra_rb-eq a b h k)
      (omega arith) (omega arith) (omega arith)

u32_from_ra_rb_rc_rd-eq :
    (a b c d : ℕ)
    → a < 2 ^ 6
    → b < 2 ^ 6
    → c < 2 ^ 6
    → d < 2 ^ 6
    → u32_from_ra_rb_rc_rd a b c d ≡ a * 2 ^ 18 + b * 2 ^ 12 + c * 2 ^ 6 + d
unfolding u32_from_ra_rb_rc_rd
u32_from_ra_rb_rc_rd-eq a b c d h k l m =
    joined 6 (a * 4096 + b * 64 + c) (a * 2 ^ 18 + b * 2 ^ 12 + c * 2 ^ 6) d
      (u32_from_ra_rb_rc-eq a b c h k l) refl (omega arith) (omega arith)

u32_from_ra_rb_rc_imm06-eq :
    (a b c imm : ℕ)
    → a < 2 ^ 6
    → b < 2 ^ 6
    → c < 2 ^ 6
    → imm < 2 ^ 6
    → u32_from_ra_rb_rc_imm06 a b c imm ≡ a * 2 ^ 18 + b * 2 ^ 12 + c * 2 ^ 6 + imm
unfolding u32_from_ra_rb_rc_imm06 u32_from_ra_rb_rc_rd
u32_from_ra_rb_rc_imm06-eq = u32_from_ra_rb_rc_rd-eq

u32_from_ra_rb_imm12-eq :
    (a b imm : ℕ)
    → a < 2 ^ 6
    → b < 2 ^ 6
    → imm < 2 ^ 12
    → u32_from_ra_rb_imm12 a b imm ≡ a * 2 ^ 18 + b * 2 ^ 12 + imm
unfolding u32_from_ra_rb_imm12
u32_from_ra_rb_imm12-eq a b imm h k l =
    joined 12 (a * 64 + b) (a * 2 ^ 18 + b * 2 ^ 12) imm (u32_from_ra_rb-eq a b h k) refl
      (omega arith) (omega arith)

u32_from_ra_imm18-eq :
    (a imm : ℕ) → a < 2 ^ 6 → imm < 2 ^ 18 → u32_from_ra_imm18 a imm ≡ a * 2 ^ 18 + imm
unfolding u32_from_ra_imm18
u32_from_ra_imm18-eq a imm h k =
    joined 18 a (a * 2 ^ 18) imm (u32_from_ra-eq a h) refl (omega arith) (omega arith)

u32_from_data-data_from_u32 : (u : ℕ) → u < 2 ^ 24 → u32_from_data (data_from_u32 u) ≡ u
unfolding u32_from_data data_from_u32
u32_from_data-data_from_u32 u h = omega arith

pub unpack-new : (l : Layout) (args : Args l) → IsMasked l args → unpack l (new l args) ≡ args
unfolding unpack new ra_from_bytes rb_from_bytes rc_from_bytes rd_from_bytes imm06_from_bytes
    imm12_from_bytes imm18_from_bytes imm24_from_bytes
unpack-new no_args args h = refl
unpack-new ra a h =
    rw (u32_from_ra-eq a h, u32_from_data-data_from_u32 (a * 2 ^ 18) (omega arith)) (omega arith)
unpack-new ra_rb (a, b) h =
    rw
      (
        u32_from_ra_rb-eq a b h.0 h.1,
        u32_from_data-data_from_u32 (a * 2 ^ 18 + b * 2 ^ 12) (omega arith),
      )
      (ground arith)
unpack-new ra_rb_rc (a, b, c) h =
    rw
      (
        u32_from_ra_rb_rc-eq a b c h.0 h.1 h.2,
        u32_from_data-data_from_u32 (a * 2 ^ 18 + b * 2 ^ 12 + c * 2 ^ 6) (omega arith),
      )
      (ground arith)
unpack-new ra_rb_rc_rd (a, b, c, d) h =
    rw
      (
        u32_from_ra_rb_rc_rd-eq a b c d h.0 h.1 h.2 h.3,
        u32_from_data-data_from_u32 (a * 2 ^ 18 + b * 2 ^ 12 + c * 2 ^ 6 + d) (omega arith),
      )
      (ground arith)
unpack-new ra_rb_rc_imm06 (a, b, c, imm) h =
    rw
      (
        u32_from_ra_rb_rc_imm06-eq a b c imm h.0 h.1 h.2 h.3,
        u32_from_data-data_from_u32 (a * 2 ^ 18 + b * 2 ^ 12 + c * 2 ^ 6 + imm) (omega arith),
      )
      (ground arith)
unpack-new ra_rb_imm12 (a, b, imm) h =
    rw
      (
        u32_from_ra_rb_imm12-eq a b imm h.0 h.1 h.2,
        u32_from_data-data_from_u32 (a * 2 ^ 18 + b * 2 ^ 12 + imm) (omega arith),
      )
      (ground arith)
unpack-new ra_imm18 (a, imm) h =
    rw
      (
        u32_from_ra_imm18-eq a imm h.0 h.1,
        u32_from_data-data_from_u32 (a * 2 ^ 18 + imm) (omega arith),
      )
      (ground arith)
unpack-new imm24 imm h = rw (u32_from_data-data_from_u32 imm h) (omega arith)

pub reserved_part_is_zero-new :
    (l : Layout) (args : Args l) → IsMasked l args → reserved_part_is_zero l (new l args) ≡ true
unfolding reserved_part_is_zero new imm06_from_bytes imm12_from_bytes imm18_from_bytes
reserved_part_is_zero-new no_args args h = refl
reserved_part_is_zero-new ra a h =
    rw (u32_from_ra-eq a h, u32_from_data-data_from_u32 (a * 2 ^ 18) (omega arith)) (ground arith)
reserved_part_is_zero-new ra_rb (a, b) h =
    rw
      (
        u32_from_ra_rb-eq a b h.0 h.1,
        u32_from_data-data_from_u32 (a * 2 ^ 18 + b * 2 ^ 12) (omega arith),
      )
      (ground arith)
reserved_part_is_zero-new ra_rb_rc (a, b, c) h =
    rw
      (
        u32_from_ra_rb_rc-eq a b c h.0 h.1 h.2,
        u32_from_data-data_from_u32 (a * 2 ^ 18 + b * 2 ^ 12 + c * 2 ^ 6) (omega arith),
      )
      (ground arith)
reserved_part_is_zero-new ra_rb_rc_rd args h = refl
reserved_part_is_zero-new ra_rb_rc_imm06 args h = refl
reserved_part_is_zero-new ra_rb_imm12 args h = refl
reserved_part_is_zero-new ra_imm18 args h = refl
reserved_part_is_zero-new imm24 args h = refl

-- Each field is a byte.
pub record AreBytes (bs : Data) : Type 0 where
  pub first : bs.first < 256
  pub second : bs.second < 256
  pub third : bs.third < 256

pub AreBytes-new : (l : Layout) (args : Args l) → AreBytes (new l args)
unfolding new data_from_u32
AreBytes-new no_args args = record {
  first = omega arith;
  second = omega arith;
  third = omega arith;
}
AreBytes-new ra args = record { first = omega arith; second = omega arith; third = omega arith }
AreBytes-new ra_rb args = record { first = omega arith; second = omega arith; third = omega arith }
AreBytes-new ra_rb_rc args = record {
  first = omega arith;
  second = omega arith;
  third = omega arith;
}
AreBytes-new ra_rb_rc_rd args = record {
  first = omega arith;
  second = omega arith;
  third = omega arith;
}
AreBytes-new ra_rb_rc_imm06 args = record {
  first = omega arith;
  second = omega arith;
  third = omega arith;
}
AreBytes-new ra_rb_imm12 args = record {
  first = omega arith;
  second = omega arith;
  third = omega arith;
}
AreBytes-new ra_imm18 args = record {
  first = omega arith;
  second = omega arith;
  third = omega arith;
}
AreBytes-new imm24 args = record { first = omega arith; second = omega arith; third = omega arith }

Data-ext : {x y : Data} → x.first ≡ y.first → x.second ≡ y.second → x.third ≡ y.third → x ≡ y
Data-ext p q r = λ i. record { first = p i; second = q i; third = r i }

data_from_u32-u32_from_data :
    (bs : Data) {u : ℕ} → AreBytes bs → u ≡ u32_from_data bs → data_from_u32 u ≡ bs
unfolding u32_from_data data_from_u32
data_from_u32-u32_from_data bs {u} h e =
    let f : u / 2 ^ 16 % 256 ≡ bs.first = omega (arith, h.first, h.second, h.third) in
    let g : u / 2 ^ 8 % 256 ≡ bs.second = omega (arith, h.first, h.second, h.third) in
    let k : u % 256 ≡ bs.third = omega (arith, h.first, h.second, h.third) in Data-ext f g k

u32_from_data-lt : (bs : Data) → AreBytes bs → u32_from_data bs < 2 ^ 24
unfolding u32_from_data
u32_from_data-lt bs h = omega (arith, h.first, h.second, h.third)

no_bytes :
    (bs : Data)
    → reserved_part_is_zero no_args bs ≡ true
    → record { first = 0; second = 0; third = 0 } ≡ bs
unfolding reserved_part_is_zero
no_bytes bs z =
    let f : 0 ≡ bs.first = ground arith in
    let g : 0 ≡ bs.second = ground arith in let k : 0 ≡ bs.third = ground arith in Data-ext f g k

pub new-unpack :
    (l : Layout) (bs : Data)
    → AreBytes bs
    → reserved_part_is_zero l bs ≡ true
    → new l (unpack l bs) ≡ bs
unfolding unpack new reserved_part_is_zero ra_from_bytes rb_from_bytes rc_from_bytes rd_from_bytes
    imm06_from_bytes imm12_from_bytes imm18_from_bytes imm24_from_bytes
new-unpack no_args bs h z = no_bytes bs z
new-unpack ra bs h z =
    data_from_u32-u32_from_data bs h
      (u32_from_ra-eq _ (omega arith) ∙ omega (arith, u32_from_data-lt bs h, (==_iff _ _).0 z))
new-unpack ra_rb bs h z = data_from_u32-u32_from_data bs h (
    u32_from_ra_rb-eq _ _ (omega arith) (omega arith)
    ∙ omega (arith, u32_from_data-lt bs h, (==_iff _ _).0 z))
new-unpack ra_rb_rc bs h z = data_from_u32-u32_from_data bs h (
    u32_from_ra_rb_rc-eq _ _ _ (omega arith) (omega arith) (omega arith)
    ∙ omega (arith, u32_from_data-lt bs h, (==_iff _ _).0 z))
new-unpack ra_rb_rc_rd bs h z = data_from_u32-u32_from_data bs h (
    u32_from_ra_rb_rc_rd-eq _ _ _ _ (omega arith) (omega arith) (omega arith) (omega arith)
    ∙ omega (arith, u32_from_data-lt bs h))
new-unpack ra_rb_rc_imm06 bs h z = data_from_u32-u32_from_data bs h (
    u32_from_ra_rb_rc_imm06-eq _ _ _ _ (omega arith) (omega arith) (omega arith) (omega arith)
    ∙ omega (arith, u32_from_data-lt bs h))
new-unpack ra_rb_imm12 bs h z = data_from_u32-u32_from_data bs h (
    u32_from_ra_rb_imm12-eq _ _ _ (omega arith) (omega arith) (omega arith)
    ∙ omega (arith, u32_from_data-lt bs h))
new-unpack ra_imm18 bs h z =
    data_from_u32-u32_from_data bs h
      (u32_from_ra_imm18-eq _ _ (omega arith) (omega arith) ∙ omega (arith, u32_from_data-lt bs h))
new-unpack imm24 bs h z = data_from_u32-u32_from_data bs h (omega (arith, u32_from_data-lt bs h))
