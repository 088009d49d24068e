-- ===== src/Asm/Table/Codes.antt =====
-- Opcodes and their bytes determine each other.
use fuel_vm.Prelude.{
  ℕ, Bool, true, some, ◌≡◌, refl, List, [], ◌∷◌, ◌==◌, ==_iff, Bool-cases, inl, inr, sym, false,
  ◌∙◌, ◌&&◌, ◌<◌, ltb, ltb→lt, tests,
}
use fuel_vm.Asm.Table.{Opcode, find_opcode, opcode_try_from, to_u8, row, table}

pub opcode_try_from-to_u8 : (op : Opcode) → opcode_try_from (to_u8 op) ≡ some op
unfolding opcode_try_from find_opcode to_u8 row table
opcode_try_from-to_u8 Opcode.add = refl
opcode_try_from-to_u8 Opcode.and = refl
opcode_try_from-to_u8 Opcode.div = refl
opcode_try_from-to_u8 Opcode.eq = refl
opcode_try_from-to_u8 Opcode.exp = refl
opcode_try_from-to_u8 Opcode.gt = refl
opcode_try_from-to_u8 Opcode.lt = refl
opcode_try_from-to_u8 Opcode.mlog = refl
opcode_try_from-to_u8 Opcode.mroo = refl
opcode_try_from-to_u8 Opcode.mod_op = refl
opcode_try_from-to_u8 Opcode.move_op = refl
opcode_try_from-to_u8 Opcode.mul = refl
opcode_try_from-to_u8 Opcode.not = refl
opcode_try_from-to_u8 Opcode.or = refl
opcode_try_from-to_u8 Opcode.sll = refl
opcode_try_from-to_u8 Opcode.srl = refl
opcode_try_from-to_u8 Opcode.sub = refl
opcode_try_from-to_u8 Opcode.xor = refl
opcode_try_from-to_u8 Opcode.mldv = refl
opcode_try_from-to_u8 Opcode.ret = refl
opcode_try_from-to_u8 Opcode.retd = refl
opcode_try_from-to_u8 Opcode.aloc = refl
opcode_try_from-to_u8 Opcode.mcl = refl
opcode_try_from-to_u8 Opcode.mcp = refl
opcode_try_from-to_u8 Opcode.meq = refl
opcode_try_from-to_u8 Opcode.bhsh = refl
opcode_try_from-to_u8 Opcode.bhei = refl
opcode_try_from-to_u8 Opcode.burn = refl
opcode_try_from-to_u8 Opcode.call = refl
opcode_try_from-to_u8 Opcode.ccp = refl
opcode_try_from-to_u8 Opcode.croo = refl
opcode_try_from-to_u8 Opcode.csiz = refl
opcode_try_from-to_u8 Opcode.cb = refl
opcode_try_from-to_u8 Opcode.ldc = refl
opcode_try_from-to_u8 Opcode.log = refl
opcode_try_from-to_u8 Opcode.logd = refl
opcode_try_from-to_u8 Opcode.mint = refl
opcode_try_from-to_u8 Opcode.rvrt = refl
opcode_try_from-to_u8 Opcode.scwq = refl
opcode_try_from-to_u8 Opcode.srw = refl
opcode_try_from-to_u8 Opcode.srwq = refl
opcode_try_from-to_u8 Opcode.sww = refl
opcode_try_from-to_u8 Opcode.swwq = refl
opcode_try_from-to_u8 Opcode.tr = refl
opcode_try_from-to_u8 Opcode.tro = refl
opcode_try_from-to_u8 Opcode.eck1 = refl
opcode_try_from-to_u8 Opcode.ecr1 = refl
opcode_try_from-to_u8 Opcode.ed19 = refl
opcode_try_from-to_u8 Opcode.k256 = refl
opcode_try_from-to_u8 Opcode.s256 = refl
opcode_try_from-to_u8 Opcode.time = refl
opcode_try_from-to_u8 Opcode.noop = refl
opcode_try_from-to_u8 Opcode.flag = refl
opcode_try_from-to_u8 Opcode.bal = refl
opcode_try_from-to_u8 Opcode.jmp = refl
opcode_try_from-to_u8 Opcode.jne = refl
opcode_try_from-to_u8 Opcode.smo = refl
opcode_try_from-to_u8 Opcode.addi = refl
opcode_try_from-to_u8 Opcode.andi = refl
opcode_try_from-to_u8 Opcode.divi = refl
opcode_try_from-to_u8 Opcode.expi = refl
opcode_try_from-to_u8 Opcode.modi = refl
opcode_try_from-to_u8 Opcode.muli = refl
opcode_try_from-to_u8 Opcode.ori = refl
opcode_try_from-to_u8 Opcode.slli = refl
opcode_try_from-to_u8 Opcode.srli = refl
opcode_try_from-to_u8 Opcode.subi = refl
opcode_try_from-to_u8 Opcode.xori = refl
opcode_try_from-to_u8 Opcode.jnei = refl
opcode_try_from-to_u8 Opcode.lb = refl
opcode_try_from-to_u8 Opcode.lw = refl
opcode_try_from-to_u8 Opcode.sb = refl
opcode_try_from-to_u8 Opcode.sw = refl
opcode_try_from-to_u8 Opcode.mcpi = refl
opcode_try_from-to_u8 Opcode.gtf = refl
opcode_try_from-to_u8 Opcode.lqw = refl
opcode_try_from-to_u8 Opcode.lhw = refl
opcode_try_from-to_u8 Opcode.sqw = refl
opcode_try_from-to_u8 Opcode.shw = refl
opcode_try_from-to_u8 Opcode.mcli = refl
opcode_try_from-to_u8 Opcode.gm = refl
opcode_try_from-to_u8 Opcode.movi = refl
opcode_try_from-to_u8 Opcode.jnzi = refl
opcode_try_from-to_u8 Opcode.jmpf = refl
opcode_try_from-to_u8 Opcode.jmpb = refl
opcode_try_from-to_u8 Opcode.jnzf = refl
opcode_try_from-to_u8 Opcode.jnzb = refl
opcode_try_from-to_u8 Opcode.jnef = refl
opcode_try_from-to_u8 Opcode.jneb = refl
opcode_try_from-to_u8 Opcode.ji = refl
opcode_try_from-to_u8 Opcode.cfei = refl
opcode_try_from-to_u8 Opcode.cfsi = refl
opcode_try_from-to_u8 Opcode.cfe = refl
opcode_try_from-to_u8 Opcode.cfs = refl
opcode_try_from-to_u8 Opcode.pshl = refl
opcode_try_from-to_u8 Opcode.pshh = refl
opcode_try_from-to_u8 Opcode.popl = refl
opcode_try_from-to_u8 Opcode.poph = refl
opcode_try_from-to_u8 Opcode.jal = refl
opcode_try_from-to_u8 Opcode.wdcm = refl
opcode_try_from-to_u8 Opcode.wqcm = refl
opcode_try_from-to_u8 Opcode.wdop = refl
opcode_try_from-to_u8 Opcode.wqop = refl
opcode_try_from-to_u8 Opcode.wdml = refl
opcode_try_from-to_u8 Opcode.wqml = refl
opcode_try_from-to_u8 Opcode.wddv = refl
opcode_try_from-to_u8 Opcode.wqdv = refl
opcode_try_from-to_u8 Opcode.wdmd = refl
opcode_try_from-to_u8 Opcode.wqmd = refl
opcode_try_from-to_u8 Opcode.wdam = refl
opcode_try_from-to_u8 Opcode.wqam = refl
opcode_try_from-to_u8 Opcode.wdmm = refl
opcode_try_from-to_u8 Opcode.wqmm = refl
opcode_try_from-to_u8 Opcode.ecal = refl
opcode_try_from-to_u8 Opcode.bsiz = refl
opcode_try_from-to_u8 Opcode.bldd = refl
opcode_try_from-to_u8 Opcode.ecop = refl
opcode_try_from-to_u8 Opcode.epar = refl

and_left : (a b : Bool) → (a && b) ≡ true → a ≡ true
and_left true b e = refl
and_left false b e = e

and_right : (a b : Bool) → (a && b) ≡ true → b ≡ true
and_right true b e = e
and_right false b e = cc

find_opcode-to_u8 :
    (u : ℕ) (ops : List Opcode) {op : Opcode} → find_opcode u ops ≡ some op → to_u8 op ≡ u
unfolding find_opcode
find_opcode-to_u8 u [] e = cc
find_opcode-to_u8 u (first ∷ ops) {op} e = elim (Bool-cases (u == to_u8 first)) [
  | inl p ↦
      let here : find_opcode u (first ∷ ops) ≡ some first = rw (find_opcode, p) refl in
      cc (here, e, (==_iff u (to_u8 first)).0 p)
  | inr p ↦
      let later : find_opcode u (first ∷ ops) ≡ find_opcode u ops = rw (find_opcode, p) refl in
      find_opcode-to_u8 u ops (sym later ∙ e)
]

pub opcode_try_from-some : (u : ℕ) {op : Opcode} → opcode_try_from u ≡ some op → to_u8 op ≡ u
unfolding opcode_try_from
opcode_try_from-some u e = find_opcode-to_u8 u table e

unfoldable all_small : List Opcode → Bool
all_small [] = true
all_small (op ∷ ops) = ltb (to_u8 op) 256 && all_small ops

table_small : all_small table ≡ true
unfolding all_small to_u8 row table
table_small = refl

find_opcode-lt :
    (u : ℕ) (ops : List Opcode) {op : Opcode}
    → all_small ops ≡ true
    → find_opcode u ops ≡ some op
    → u < 256
unfolding find_opcode all_small
find_opcode-lt u [] s e = cc
find_opcode-lt u (first ∷ ops) {op} s e = elim (Bool-cases (u == to_u8 first)) [
  | inl p ↦ omega (
    tests,
    (==_iff u (to_u8 first)).0 p,
    ltb→lt (to_u8 first) 256 (and_left (ltb (to_u8 first) 256) (all_small ops) s),
  )
  | inr p ↦
      let later : find_opcode u (first ∷ ops) ≡ find_opcode u ops = rw (find_opcode, p) refl in
      find_opcode-lt u ops (and_right (ltb (to_u8 first) 256) (all_small ops) s) (sym later ∙ e)
]

pub to_u8-lt : (op : Opcode) → to_u8 op < 256
unfolding opcode_try_from
to_u8-lt op = find_opcode-lt (to_u8 op) table table_small (opcode_try_from-to_u8 op)
