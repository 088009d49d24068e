-- ===== src/Asm/Table.antt =====
-- The table of instructions in fuel-asm/src/lib.rs, and what `impl_instructions!` of
-- fuel-asm/src/macros.rs makes of it: the opcodes with their bytes and layouts.
pub mod Codes
use fuel_vm.Prelude.{ℕ, Bool, true, false, Option, none, some, List, [], ◌∷◌, ◌==◌}

pub data Opcode : Type 0 where
  add and div eq exp gt lt mlog mroo mod_op move_op mul not or sll srl : Opcode
  sub xor mldv ret retd aloc mcl mcp meq bhsh bhei burn call ccp croo : Opcode
  csiz cb ldc log logd mint rvrt scwq srw srwq sww swwq tr tro eck1 ecr1 : Opcode
  ed19 k256 s256 time noop flag bal jmp jne smo addi andi divi expi modi : Opcode
  muli ori slli srli subi xori jnei lb lw sb sw mcpi gtf lqw lhw sqw shw : Opcode
  mcli gm movi jnzi jmpf jmpb jnzf jnzb jnef jneb ji cfei cfsi cfe cfs : Opcode
  pshl pshh popl poph jal wdcm wqcm wdop wqop wdml wqml wddv wqdv wdmd : Opcode
  wqmd wdam wqam wdmm wqmm ecal bsiz bldd ecop epar : Opcode

-- The fields after the opcode's byte
pub data Layout : Type 0 where
  no_args ra ra_rb ra_rb_rc ra_rb_rc_rd ra_rb_rc_imm06 ra_rb_imm12 ra_imm18 imm24 : Layout

-- A row of the table
pub record Row : Type 0 where
  pub byte : ℕ
  pub op : Opcode
  pub args : Layout

unfoldable pub row : Opcode → Row
row add = record { byte = 0x10; op = add; args = ra_rb_rc }
row and = record { byte = 0x11; op = and; args = ra_rb_rc }
row div = record { byte = 0x12; op = div; args = ra_rb_rc }
row eq = record { byte = 0x13; op = eq; args = ra_rb_rc }
row exp = record { byte = 0x14; op = exp; args = ra_rb_rc }
row gt = record { byte = 0x15; op = gt; args = ra_rb_rc }
row lt = record { byte = 0x16; op = lt; args = ra_rb_rc }
row mlog = record { byte = 0x17; op = mlog; args = ra_rb_rc }
row mroo = record { byte = 0x18; op = mroo; args = ra_rb_rc }
row mod_op = record { byte = 0x19; op = mod_op; args = ra_rb_rc }
row move_op = record { byte = 0x1a; op = move_op; args = ra_rb }
row mul = record { byte = 0x1b; op = mul; args = ra_rb_rc }
row not = record { byte = 0x1c; op = not; args = ra_rb }
row or = record { byte = 0x1d; op = or; args = ra_rb_rc }
row sll = record { byte = 0x1e; op = sll; args = ra_rb_rc }
row srl = record { byte = 0x1f; op = srl; args = ra_rb_rc }
row sub = record { byte = 0x20; op = sub; args = ra_rb_rc }
row xor = record { byte = 0x21; op = xor; args = ra_rb_rc }
row mldv = record { byte = 0x22; op = mldv; args = ra_rb_rc_rd }
row ret = record { byte = 0x24; op = ret; args = ra }
row retd = record { byte = 0x25; op = retd; args = ra_rb }
row aloc = record { byte = 0x26; op = aloc; args = ra }
row mcl = record { byte = 0x27; op = mcl; args = ra_rb }
row mcp = record { byte = 0x28; op = mcp; args = ra_rb_rc }
row meq = record { byte = 0x29; op = meq; args = ra_rb_rc_rd }
row bhsh = record { byte = 0x2a; op = bhsh; args = ra_rb }
row bhei = record { byte = 0x2b; op = bhei; args = ra }
row burn = record { byte = 0x2c; op = burn; args = ra_rb }
row call = record { byte = 0x2d; op = call; args = ra_rb_rc_rd }
row ccp = record { byte = 0x2e; op = ccp; args = ra_rb_rc_rd }
row croo = record { byte = 0x2f; op = croo; args = ra_rb }
row csiz = record { byte = 0x30; op = csiz; args = ra_rb }
row cb = record { byte = 0x31; op = cb; args = ra }
row ldc = record { byte = 0x32; op = ldc; args = ra_rb_rc_imm06 }
row log = record { byte = 0x33; op = log; args = ra_rb_rc_rd }
row logd = record { byte = 0x34; op = logd; args = ra_rb_rc_rd }
row mint = record { byte = 0x35; op = mint; args = ra_rb }
row rvrt = record { byte = 0x36; op = rvrt; args = ra }
row scwq = record { byte = 0x37; op = scwq; args = ra_rb_rc }
row srw = record { byte = 0x38; op = srw; args = ra_rb_rc }
row srwq = record { byte = 0x39; op = srwq; args = ra_rb_rc_rd }
row sww = record { byte = 0x3a; op = sww; args = ra_rb_rc }
row swwq = record { byte = 0x3b; op = swwq; args = ra_rb_rc_rd }
row tr = record { byte = 0x3c; op = tr; args = ra_rb_rc }
row tro = record { byte = 0x3d; op = tro; args = ra_rb_rc_rd }
row eck1 = record { byte = 0x3e; op = eck1; args = ra_rb_rc }
row ecr1 = record { byte = 0x3f; op = ecr1; args = ra_rb_rc }
row ed19 = record { byte = 0x40; op = ed19; args = ra_rb_rc_rd }
row k256 = record { byte = 0x41; op = k256; args = ra_rb_rc }
row s256 = record { byte = 0x42; op = s256; args = ra_rb_rc }
row time = record { byte = 0x43; op = time; args = ra_rb }
row noop = record { byte = 0x47; op = noop; args = no_args }
row flag = record { byte = 0x48; op = flag; args = ra }
row bal = record { byte = 0x49; op = bal; args = ra_rb_rc }
row jmp = record { byte = 0x4a; op = jmp; args = ra }
row jne = record { byte = 0x4b; op = jne; args = ra_rb_rc }
row smo = record { byte = 0x4c; op = smo; args = ra_rb_rc_rd }
row addi = record { byte = 0x50; op = addi; args = ra_rb_imm12 }
row andi = record { byte = 0x51; op = andi; args = ra_rb_imm12 }
row divi = record { byte = 0x52; op = divi; args = ra_rb_imm12 }
row expi = record { byte = 0x53; op = expi; args = ra_rb_imm12 }
row modi = record { byte = 0x54; op = modi; args = ra_rb_imm12 }
row muli = record { byte = 0x55; op = muli; args = ra_rb_imm12 }
row ori = record { byte = 0x56; op = ori; args = ra_rb_imm12 }
row slli = record { byte = 0x57; op = slli; args = ra_rb_imm12 }
row srli = record { byte = 0x58; op = srli; args = ra_rb_imm12 }
row subi = record { byte = 0x59; op = subi; args = ra_rb_imm12 }
row xori = record { byte = 0x5a; op = xori; args = ra_rb_imm12 }
row jnei = record { byte = 0x5b; op = jnei; args = ra_rb_imm12 }
row lb = record { byte = 0x5c; op = lb; args = ra_rb_imm12 }
row lw = record { byte = 0x5d; op = lw; args = ra_rb_imm12 }
row sb = record { byte = 0x5e; op = sb; args = ra_rb_imm12 }
row sw = record { byte = 0x5f; op = sw; args = ra_rb_imm12 }
row mcpi = record { byte = 0x60; op = mcpi; args = ra_rb_imm12 }
row gtf = record { byte = 0x61; op = gtf; args = ra_rb_imm12 }
row lqw = record { byte = 0x62; op = lqw; args = ra_rb_imm12 }
row lhw = record { byte = 0x63; op = lhw; args = ra_rb_imm12 }
row sqw = record { byte = 0x64; op = sqw; args = ra_rb_imm12 }
row shw = record { byte = 0x65; op = shw; args = ra_rb_imm12 }
row mcli = record { byte = 0x70; op = mcli; args = ra_imm18 }
row gm = record { byte = 0x71; op = gm; args = ra_imm18 }
row movi = record { byte = 0x72; op = movi; args = ra_imm18 }
row jnzi = record { byte = 0x73; op = jnzi; args = ra_imm18 }
row jmpf = record { byte = 0x74; op = jmpf; args = ra_imm18 }
row jmpb = record { byte = 0x75; op = jmpb; args = ra_imm18 }
row jnzf = record { byte = 0x76; op = jnzf; args = ra_rb_imm12 }
row jnzb = record { byte = 0x77; op = jnzb; args = ra_rb_imm12 }
row jnef = record { byte = 0x78; op = jnef; args = ra_rb_rc_imm06 }
row jneb = record { byte = 0x79; op = jneb; args = ra_rb_rc_imm06 }
row ji = record { byte = 0x90; op = ji; args = imm24 }
row cfei = record { byte = 0x91; op = cfei; args = imm24 }
row cfsi = record { byte = 0x92; op = cfsi; args = imm24 }
row cfe = record { byte = 0x93; op = cfe; args = ra }
row cfs = record { byte = 0x94; op = cfs; args = ra }
row pshl = record { byte = 0x95; op = pshl; args = imm24 }
row pshh = record { byte = 0x96; op = pshh; args = imm24 }
row popl = record { byte = 0x97; op = popl; args = imm24 }
row poph = record { byte = 0x98; op = poph; args = imm24 }
row jal = record { byte = 0x99; op = jal; args = ra_rb_imm12 }
row wdcm = record { byte = 0xa0; op = wdcm; args = ra_rb_rc_imm06 }
row wqcm = record { byte = 0xa1; op = wqcm; args = ra_rb_rc_imm06 }
row wdop = record { byte = 0xa2; op = wdop; args = ra_rb_rc_imm06 }
row wqop = record { byte = 0xa3; op = wqop; args = ra_rb_rc_imm06 }
row wdml = record { byte = 0xa4; op = wdml; args = ra_rb_rc_imm06 }
row wqml = record { byte = 0xa5; op = wqml; args = ra_rb_rc_imm06 }
row wddv = record { byte = 0xa6; op = wddv; args = ra_rb_rc_imm06 }
row wqdv = record { byte = 0xa7; op = wqdv; args = ra_rb_rc_imm06 }
row wdmd = record { byte = 0xa8; op = wdmd; args = ra_rb_rc_rd }
row wqmd = record { byte = 0xa9; op = wqmd; args = ra_rb_rc_rd }
row wdam = record { byte = 0xaa; op = wdam; args = ra_rb_rc_rd }
row wqam = record { byte = 0xab; op = wqam; args = ra_rb_rc_rd }
row wdmm = record { byte = 0xac; op = wdmm; args = ra_rb_rc_rd }
row wqmm = record { byte = 0xad; op = wqmm; args = ra_rb_rc_rd }
row ecal = record { byte = 0xb0; op = ecal; args = ra_rb_rc_rd }
row bsiz = record { byte = 0xba; op = bsiz; args = ra_rb }
row bldd = record { byte = 0xbb; op = bldd; args = ra_rb_rc_rd }
row ecop = record { byte = 0xbc; op = ecop; args = ra_rb_rc_rd }
row epar = record { byte = 0xbe; op = epar; args = ra_rb_rc_rd }

unfoldable pub table : List Opcode
table =
    add ∷ and ∷ div ∷ eq ∷ exp ∷ gt ∷ lt ∷ mlog ∷ mroo ∷ mod_op ∷ move_op ∷ mul ∷ not ∷ or ∷ sll
    ∷ srl ∷ sub ∷ xor ∷ mldv ∷ ret ∷ retd ∷ aloc ∷ mcl ∷ mcp ∷ meq ∷ bhsh ∷ bhei ∷ burn ∷ call ∷ ccp
    ∷ croo ∷ csiz ∷ cb ∷ ldc ∷ log ∷ logd ∷ mint ∷ rvrt ∷ scwq ∷ srw ∷ srwq ∷ sww ∷ swwq ∷ tr ∷ tro
    ∷ eck1 ∷ ecr1 ∷ ed19 ∷ k256 ∷ s256 ∷ time ∷ noop ∷ flag ∷ bal ∷ jmp ∷ jne ∷ smo ∷ addi ∷ andi
    ∷ divi ∷ expi ∷ modi ∷ muli ∷ ori ∷ slli ∷ srli ∷ subi ∷ xori ∷ jnei ∷ lb ∷ lw ∷ sb ∷ sw ∷ mcpi
    ∷ gtf ∷ lqw ∷ lhw ∷ sqw ∷ shw ∷ mcli ∷ gm ∷ movi ∷ jnzi ∷ jmpf ∷ jmpb ∷ jnzf ∷ jnzb ∷ jnef
    ∷ jneb ∷ ji ∷ cfei ∷ cfsi ∷ cfe ∷ cfs ∷ pshl ∷ pshh ∷ popl ∷ poph ∷ jal ∷ wdcm ∷ wqcm ∷ wdop
    ∷ wqop ∷ wdml ∷ wqml ∷ wddv ∷ wqdv ∷ wdmd ∷ wqmd ∷ wdam ∷ wqam ∷ wdmm ∷ wqmm ∷ ecal ∷ bsiz
    ∷ bldd ∷ ecop ∷ epar ∷ []

-- `op as u8`
unfoldable pub to_u8 : Opcode → ℕ
unfolding row
to_u8 op = (row op).byte

unfoldable pub layout : Opcode → Layout
unfolding row
layout op = (row op).args

-- The first opcode of a list with a byte
unfoldable pub find_opcode : ℕ → List Opcode → Option Opcode
find_opcode u [] = none
find_opcode u (op ∷ ops) =
    let rest = find_opcode u ops in elim (u == to_u8 op) [ true ↦ some op | false ↦ rest ]

-- `Opcode::try_from`
unfoldable pub opcode_try_from : ℕ → Option Opcode
opcode_try_from u = find_opcode u table

unfoldable pub is_predicate_allowed : Opcode → Bool
is_predicate_allowed add = true
is_predicate_allowed and = true
is_predicate_allowed div = true
is_predicate_allowed eq = true
is_predicate_allowed exp = true
is_predicate_allowed gt = true
is_predicate_allowed lt = true
is_predicate_allowed mlog = true
is_predicate_allowed mroo = true
is_predicate_allowed mod_op = true
is_predicate_allowed move_op = true
is_predicate_allowed mul = true
is_predicate_allowed not = true
is_predicate_allowed or = true
is_predicate_allowed sll = true
is_predicate_allowed srl = true
is_predicate_allowed sub = true
is_predicate_allowed xor = true
is_predicate_allowed wdcm = true
is_predicate_allowed wqcm = true
is_predicate_allowed wdop = true
is_predicate_allowed wqop = true
is_predicate_allowed wdml = true
is_predicate_allowed wqml = true
is_predicate_allowed wddv = true
is_predicate_allowed wqdv = true
is_predicate_allowed wdmd = true
is_predicate_allowed wqmd = true
is_predicate_allowed wdam = true
is_predicate_allowed wqam = true
is_predicate_allowed wdmm = true
is_predicate_allowed wqmm = true
is_predicate_allowed pshh = true
is_predicate_allowed pshl = true
is_predicate_allowed poph = true
is_predicate_allowed popl = true
is_predicate_allowed ret = true
is_predicate_allowed aloc = true
is_predicate_allowed mcl = true
is_predicate_allowed mcp = true
is_predicate_allowed meq = true
is_predicate_allowed eck1 = true
is_predicate_allowed ecr1 = true
is_predicate_allowed ed19 = true
is_predicate_allowed k256 = true
is_predicate_allowed s256 = true
is_predicate_allowed noop = true
is_predicate_allowed flag = true
is_predicate_allowed addi = true
is_predicate_allowed andi = true
is_predicate_allowed divi = true
is_predicate_allowed expi = true
is_predicate_allowed modi = true
is_predicate_allowed muli = true
is_predicate_allowed mldv = true
is_predicate_allowed ori = true
is_predicate_allowed slli = true
is_predicate_allowed srli = true
is_predicate_allowed subi = true
is_predicate_allowed xori = true
is_predicate_allowed jnei = true
is_predicate_allowed lb = true
is_predicate_allowed lqw = true
is_predicate_allowed lhw = true
is_predicate_allowed lw = true
is_predicate_allowed sb = true
is_predicate_allowed sqw = true
is_predicate_allowed shw = true
is_predicate_allowed sw = true
is_predicate_allowed mcpi = true
is_predicate_allowed mcli = true
is_predicate_allowed gm = true
is_predicate_allowed movi = true
is_predicate_allowed jnzi = true
is_predicate_allowed ji = true
is_predicate_allowed jmp = true
is_predicate_allowed jne = true
is_predicate_allowed jmpf = true
is_predicate_allowed jmpb = true
is_predicate_allowed jnzf = true
is_predicate_allowed jnzb = true
is_predicate_allowed jnef = true
is_predicate_allowed jneb = true
is_predicate_allowed jal = true
is_predicate_allowed cfei = true
is_predicate_allowed cfsi = true
is_predicate_allowed cfe = true
is_predicate_allowed cfs = true
is_predicate_allowed gtf = true
is_predicate_allowed ldc = true
is_predicate_allowed bsiz = true
is_predicate_allowed bldd = true
is_predicate_allowed ecop = true
is_predicate_allowed epar = true
is_predicate_allowed _ = false
