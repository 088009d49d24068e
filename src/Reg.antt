-- ===== src/Reg.antt =====
-- The registers by number: `RegId` of fuel-asm/src/lib.rs. The first sixteen are the system's, and
-- a program writes those from `writable` on.
use fuel_vm.Prelude.{ℕ}

abbrev pub zero : ℕ
zero = 0x00

abbrev pub one : ℕ
one = 0x01

abbrev pub of : ℕ
of = 0x02

abbrev pub pc : ℕ
pc = 0x03

abbrev pub ssp : ℕ
ssp = 0x04

abbrev pub sp : ℕ
sp = 0x05

abbrev pub fp : ℕ
fp = 0x06

abbrev pub hp : ℕ
hp = 0x07

abbrev pub err : ℕ
err = 0x08

abbrev pub ggas : ℕ
ggas = 0x09

abbrev pub cgas : ℕ
cgas = 0x0a

abbrev pub bal : ℕ
bal = 0x0b

abbrev pub is : ℕ
is = 0x0c

abbrev pub ret : ℕ
ret = 0x0d

abbrev pub retl : ℕ
retl = 0x0e

abbrev pub flag : ℕ
flag = 0x0f

abbrev pub writable : ℕ
writable = 0x10
