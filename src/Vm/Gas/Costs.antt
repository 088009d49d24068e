-- ===== src/Vm/Gas/Costs.antt =====
-- The costs of the modelled instructions: the fields of that name in `GasCostsValues` of
-- fuel-tx/src/transaction/consensus_parameters/gas.rs.
use fuel_vm.Prelude.{ℕ}
use fuel_vm.Vm.Gas.{DependentCost, heavy_operation}

pub record GasCosts : Type 0 where
  pub add : ℕ
  pub addi : ℕ
  pub and : ℕ
  pub andi : ℕ
  pub cfsi : ℕ
  pub div : ℕ
  pub divi : ℕ
  pub eq : ℕ
  pub exp : ℕ
  pub expi : ℕ
  pub flag : ℕ
  pub gt : ℕ
  pub ji : ℕ
  pub jmp : ℕ
  pub jmpb : ℕ
  pub jmpf : ℕ
  pub jne : ℕ
  pub jneb : ℕ
  pub jnef : ℕ
  pub jnei : ℕ
  pub jnzb : ℕ
  pub jnzf : ℕ
  pub jnzi : ℕ
  pub lb : ℕ
  pub lt : ℕ
  pub lw : ℕ
  pub mldv : ℕ
  pub mod_op : ℕ
  pub modi : ℕ
  pub move_op : ℕ
  pub movi : ℕ
  pub mul : ℕ
  pub muli : ℕ
  pub noop : ℕ
  pub not : ℕ
  pub or : ℕ
  pub ori : ℕ
  pub poph : ℕ
  pub popl : ℕ
  pub pshh : ℕ
  pub pshl : ℕ
  pub sb : ℕ
  pub sll : ℕ
  pub slli : ℕ
  pub srl : ℕ
  pub srli : ℕ
  pub sub : ℕ
  pub subi : ℕ
  pub sw : ℕ
  pub xor : ℕ
  pub xori : ℕ
  pub aloc : DependentCost
  pub cfe : DependentCost
  pub cfei : DependentCost
  pub mcl : DependentCost
  pub mcli : DependentCost
  pub mcp : DependentCost
  pub mcpi : DependentCost
  pub meq : DependentCost

-- Every instruction costs one: `GasCostsValuesV1::unit` and `DependentCost::unit`.
abbrev pub unit_costs : GasCosts
unit_costs = record {
  add = 1;
  addi = 1;
  and = 1;
  andi = 1;
  cfsi = 1;
  div = 1;
  divi = 1;
  eq = 1;
  exp = 1;
  expi = 1;
  flag = 1;
  gt = 1;
  ji = 1;
  jmp = 1;
  jmpb = 1;
  jmpf = 1;
  jne = 1;
  jneb = 1;
  jnef = 1;
  jnei = 1;
  jnzb = 1;
  jnzf = 1;
  jnzi = 1;
  lb = 1;
  lt = 1;
  lw = 1;
  mldv = 1;
  mod_op = 1;
  modi = 1;
  move_op = 1;
  movi = 1;
  mul = 1;
  muli = 1;
  noop = 1;
  not = 1;
  or = 1;
  ori = 1;
  poph = 1;
  popl = 1;
  pshh = 1;
  pshl = 1;
  sb = 1;
  sll = 1;
  slli = 1;
  srl = 1;
  srli = 1;
  sub = 1;
  subi = 1;
  sw = 1;
  xor = 1;
  xori = 1;
  aloc = heavy_operation 1 0;
  cfe = heavy_operation 1 0;
  cfei = heavy_operation 1 0;
  mcl = heavy_operation 1 0;
  mcli = heavy_operation 1 0;
  mcp = heavy_operation 1 0;
  mcpi = heavy_operation 1 0;
  meq = heavy_operation 1 0;
}
