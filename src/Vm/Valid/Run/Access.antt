-- ===== src/Vm/Valid/Run/Access.antt =====
-- The instructions on memory, the stack and the flags of
-- fuel-vm/src/interpreter/executors/opcodes_impl.rs keep the invariant.
use fuel_vm.Prelude.{ℕ, arith}
use fuel_vm.Vm.{set_flag}
use fuel_vm.Vm.Gas.Costs.{GasCosts}
use fuel_vm.Vm.MemoryOps.{
  overflowing_add, overflowing_sub, ProgramRegistersSegment, store, load, stack_pointer_overflow,
}
use fuel_vm.Vm.Instruction.{
  execute_aloc, execute_cfei, execute_cfe, execute_cfsi, execute_cfs, execute_pshl, execute_pshh,
  execute_popl, execute_poph, execute_lb, execute_lqw, execute_lhw, execute_lw, execute_mcl,
  execute_mcli, execute_mcp, execute_mcpi, execute_meq, execute_sb, execute_sqw, execute_shw,
  execute_sw, execute_flag,
}
use fuel_vm.Vm.Valid.{Keeps, Runs-bind, Runs-then, reg-Runs}
use fuel_vm.Vm.Valid.Handlers.{dependent_gas_charge-Keeps, set_flag-Keeps}
use fuel_vm.Vm.Valid.Stack.{stack_pointer_overflow-Keeps, malloc-Keeps}
use fuel_vm.Vm.Valid.Access.{
  store-Keeps, load-Keeps, memclear-Keeps, memory_copy-Keeps, memeq-Keeps,
}
use fuel_vm.Vm.Valid.Push.{push_selected_registers-Keeps, pop_selected_registers-Keeps}
use fuel_vm.Vm.Valid.Charged.{charged, charged_one, charged_two, IsChargeable}

pub execute_aloc-Keeps :
    (costs : GasCosts) (a : ℕ) → IsChargeable costs → Keeps (execute_aloc costs a)
unfolding execute_aloc
execute_aloc-Keeps costs a h = Runs-bind (reg-Runs a) λ number_of_bytes _.
    Runs-then (dependent_gas_charge-Keeps costs.aloc number_of_bytes h.aloc)
      (malloc-Keeps number_of_bytes)

pub execute_cfei-Keeps :
    (costs : GasCosts) (imm : ℕ) → IsChargeable costs → Keeps (execute_cfei costs imm)
unfolding execute_cfei
execute_cfei-Keeps costs imm h =
    Runs-then (dependent_gas_charge-Keeps costs.cfei imm h.cfei)
      (stack_pointer_overflow-Keeps overflowing_add imm)

pub execute_cfe-Keeps :
    (costs : GasCosts) (a : ℕ) → IsChargeable costs → Keeps (execute_cfe costs a)
unfolding execute_cfe
execute_cfe-Keeps costs a h = Runs-bind (reg-Runs a) λ number_of_bytes _.
    Runs-then (dependent_gas_charge-Keeps costs.cfe number_of_bytes h.cfe)
      (stack_pointer_overflow-Keeps overflowing_add number_of_bytes)

pub execute_cfsi-Keeps : (costs : GasCosts) (imm : ℕ) → Keeps (execute_cfsi costs imm)
unfolding execute_cfsi
execute_cfsi-Keeps costs imm = charged costs.cfsi (stack_pointer_overflow-Keeps overflowing_sub imm)

pub execute_cfs-Keeps : (costs : GasCosts) (a : ℕ) → Keeps (execute_cfs costs a)
unfolding execute_cfs
execute_cfs-Keeps costs a =
    charged_one costs.cfsi a (λ x. stack_pointer_overflow overflowing_sub x)
      λ x p. stack_pointer_overflow-Keeps overflowing_sub x

pub execute_pshl-Keeps : (costs : GasCosts) (bitmask : ℕ) → Keeps (execute_pshl costs bitmask)
unfolding execute_pshl
execute_pshl-Keeps costs bitmask =
    charged costs.pshl (push_selected_registers-Keeps ProgramRegistersSegment.low bitmask)

pub execute_pshh-Keeps : (costs : GasCosts) (bitmask : ℕ) → Keeps (execute_pshh costs bitmask)
unfolding execute_pshh
execute_pshh-Keeps costs bitmask =
    charged costs.pshh (push_selected_registers-Keeps ProgramRegistersSegment.high bitmask)

pub execute_popl-Keeps : (costs : GasCosts) (bitmask : ℕ) → Keeps (execute_popl costs bitmask)
unfolding execute_popl
execute_popl-Keeps costs bitmask =
    charged costs.popl (pop_selected_registers-Keeps ProgramRegistersSegment.low bitmask)

pub execute_poph-Keeps : (costs : GasCosts) (bitmask : ℕ) → Keeps (execute_poph costs bitmask)
unfolding execute_poph
execute_poph-Keeps costs bitmask =
    charged costs.poph (pop_selected_registers-Keeps ProgramRegistersSegment.high bitmask)

pub execute_lb-Keeps : (costs : GasCosts) (a b imm : ℕ) → Keeps (execute_lb costs a b imm)
unfolding execute_lb
execute_lb-Keeps costs a b imm =
    charged_one costs.lb b (λ x. load 1 a x imm) λ x p. load-Keeps 1 a x imm (omega arith)

pub execute_lqw-Keeps : (costs : GasCosts) (a b imm : ℕ) → Keeps (execute_lqw costs a b imm)
unfolding execute_lqw
execute_lqw-Keeps costs a b imm =
    charged_one costs.lw b (λ x. load 2 a x imm) λ x p. load-Keeps 2 a x imm (omega arith)

pub execute_lhw-Keeps : (costs : GasCosts) (a b imm : ℕ) → Keeps (execute_lhw costs a b imm)
unfolding execute_lhw
execute_lhw-Keeps costs a b imm =
    charged_one costs.lw b (λ x. load 4 a x imm) λ x p. load-Keeps 4 a x imm (omega arith)

pub execute_lw-Keeps : (costs : GasCosts) (a b imm : ℕ) → Keeps (execute_lw costs a b imm)
unfolding execute_lw
execute_lw-Keeps costs a b imm =
    charged_one costs.lw b (λ x. load 8 a x imm) λ x p. load-Keeps 8 a x imm (omega arith)

pub execute_mcl-Keeps :
    (costs : GasCosts) (a b : ℕ) → IsChargeable costs → Keeps (execute_mcl costs a b)
unfolding execute_mcl
execute_mcl-Keeps costs a b h = Runs-bind (reg-Runs b) λ number_of_bytes _.
    Runs-then (dependent_gas_charge-Keeps costs.mcl number_of_bytes h.mcl)
      (Runs-bind (reg-Runs a) λ x _. memclear-Keeps x number_of_bytes)

pub execute_mcli-Keeps :
    (costs : GasCosts) (a imm : ℕ) → IsChargeable costs → Keeps (execute_mcli costs a imm)
unfolding execute_mcli
execute_mcli-Keeps costs a imm h =
    Runs-then (dependent_gas_charge-Keeps costs.mcli imm h.mcli)
      (Runs-bind (reg-Runs a) λ x _. memclear-Keeps x imm)

pub execute_mcp-Keeps :
    (costs : GasCosts) (a b c : ℕ) → IsChargeable costs → Keeps (execute_mcp costs a b c)
unfolding execute_mcp
execute_mcp-Keeps costs a b c h = Runs-bind (reg-Runs c) λ number_of_bytes _.
    Runs-then (dependent_gas_charge-Keeps costs.mcp number_of_bytes h.mcp) (
      Runs-bind (reg-Runs a)
        λ x _. Runs-bind (reg-Runs b) λ y _. memory_copy-Keeps x y number_of_bytes)

pub execute_mcpi-Keeps :
    (costs : GasCosts) (a b imm : ℕ) → IsChargeable costs → Keeps (execute_mcpi costs a b imm)
unfolding execute_mcpi
execute_mcpi-Keeps costs a b imm h =
    Runs-then (dependent_gas_charge-Keeps costs.mcpi imm h.mcpi)
      (Runs-bind (reg-Runs a) λ x _. Runs-bind (reg-Runs b) λ y _. memory_copy-Keeps x y imm)

pub execute_meq-Keeps :
    (costs : GasCosts) (a b c d : ℕ) → IsChargeable costs → Keeps (execute_meq costs a b c d)
unfolding execute_meq
execute_meq-Keeps costs a b c d h = Runs-bind (reg-Runs d) λ number_of_bytes _.
    Runs-then (dependent_gas_charge-Keeps costs.meq number_of_bytes h.meq) (
      Runs-bind (reg-Runs b) λ x _. Runs-bind (reg-Runs c) λ y _. memeq-Keeps a x y number_of_bytes)

pub execute_sb-Keeps : (costs : GasCosts) (a b imm : ℕ) → Keeps (execute_sb costs a b imm)
unfolding execute_sb
execute_sb-Keeps costs a b imm =
    charged_two costs.sb a b (λ x y. store 1 x y imm) λ x y p q. store-Keeps 1 x y imm

pub execute_sqw-Keeps : (costs : GasCosts) (a b imm : ℕ) → Keeps (execute_sqw costs a b imm)
unfolding execute_sqw
execute_sqw-Keeps costs a b imm =
    charged_two costs.sw a b (λ x y. store 2 x y imm) λ x y p q. store-Keeps 2 x y imm

pub execute_shw-Keeps : (costs : GasCosts) (a b imm : ℕ) → Keeps (execute_shw costs a b imm)
unfolding execute_shw
execute_shw-Keeps costs a b imm =
    charged_two costs.sw a b (λ x y. store 4 x y imm) λ x y p q. store-Keeps 4 x y imm

pub execute_sw-Keeps : (costs : GasCosts) (a b imm : ℕ) → Keeps (execute_sw costs a b imm)
unfolding execute_sw
execute_sw-Keeps costs a b imm =
    charged_two costs.sw a b (λ x y. store 8 x y imm) λ x y p q. store-Keeps 8 x y imm

pub execute_flag-Keeps : (costs : GasCosts) (a : ℕ) → Keeps (execute_flag costs a)
unfolding execute_flag
execute_flag-Keeps costs a = charged_one costs.flag a (λ x. set_flag x) λ x p. set_flag-Keeps x p
