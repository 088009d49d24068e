-- ===== src/Lib.antt =====
-- Models and proofs for the Fuel virtual machine.
--
-- The machine runs a program on sixty-four registers and 64 MiB of memory that a stack grows into
-- from below and a heap from above. `execute` charges gas, reads the operands' registers, and calls
-- a handler, which checks the destination register, works on the registers or on the memory, and
-- moves the program counter on. The memory checks every range against the stack and the heap, and
-- every write against the part that the running context owns.
--
-- Prelude: Boolean tests, lists over the native numbers, machine words, bytes and bits.
-- Outcome: PanicReason (fuel-asm/src/panic_reason.rs), BugVariant (fuel-vm/src/error.rs), and results.
--   A result is a value, a panic of the machine, a bug report, or a panic of the host (`crash`):
--   slices out of range, `expect` and `assert!` are modelled as `crash`, so that a theorem that no
--   crash occurs speaks of them.
-- Reg: the numbers of the registers (fuel-asm/src/lib.rs).
-- Memory: MemoryInstance of fuel-vm/src/interpreter/memory.rs, with the ownership checks. The two
--   vectors are lists of bytes. `grow_heap_by` is composed of the parts of its body; a mutable slice
--   that `write` returns is a `Slot`, the vector and the range, which `copy_from_slice` fills.
--   Memory/Copy has `memcopy`, and Memory/Rollback `collect_rollback_data` and `rollback`.
--   Memory/Valid, Access, Write, Grow, GrowHeap and the modules below Memory/Rollback hold the
--   proofs.
-- Vm: the state of Interpreter (fuel-vm/src/interpreter.rs) as registers, memory and frames, the
--   monad of its methods, and the helpers of fuel-vm/src/interpreter/internal.rs. What a method
--   wrote before it failed stays written, so every result comes with a state.
-- Vm/Gas: fuel-vm/src/interpreter/gas.rs, and DependentCost of
--   fuel-tx/src/transaction/consensus_parameters/gas.rs.
-- Vm/Alu: fuel-vm/src/interpreter/alu.rs and alu/muldiv.rs. Vm/Alu/Root: `checked_nth_root` of
--   executors/instruction.rs. Vm/Jump: the jumps of flow.rs.
-- Vm/MemoryOps: the handlers of the second half of memory.rs, with the round trips of loads and
--   stores and of pushes and pops.
-- Vm/Instruction: the executors of fuel-vm/src/interpreter/executors/opcodes_impl.rs, one function
--   each, and their dispatch in executors/instruction.rs. Operands come unpacked.
-- Vm/Valid: the invariant of the state, and that every handler and instruction keeps it.
-- Vm/WideInt: fuel-vm/src/interpreter/alu/wideint.rs, the immediates of
--   fuel-asm/src/args/wideint.rs and the fourteen executors. WideOps is the interface to `u128` and
--   the types of ethnum and primitive_types; Vm/WideInt/Laws has what they are documented to compute
--   and the operations on numbers that do so.
-- Vm/Step: a round of the interpreter, from the bytes at the program counter to the executor
--   (fuel-vm/src/interpreter/executors/instruction.rs), and the loop of `run_program`
--   (fuel-vm/src/interpreter/executors/main.rs) by its rounds. An instruction that Vm/Instruction and
--   Vm/WideInt do not execute is handed out, fetched, parsed and allowed, and the rounds end there.
-- Asm: the encoding of instructions. Asm/Table is the table of fuel-asm/src/lib.rs with what
--   fuel-asm/src/macros.rs makes of a row, Asm/Packing is fuel-asm/src/pack.rs and unpack.rs, and
--   Asm has parsing and printing. An instruction is its opcode and three bytes.
-- Merkle: the binary trees of fuel-merkle/src/binary. Merkle/Position is
--   fuel-merkle/src/common/position.rs, Merkle has the root calculator and the tree over a storage,
--   and Merkle/Reference the tree hash of RFC 6962 as a relation. Merkle/Peaks has what the stack of
--   nodes is to the leaves, and Merkle/Calculator and Merkle/Tree the theorems. SHA-256 is a
--   parameter of which nothing is assumed.
-- Fee: the gas and the fees of a transaction, fuel-tx/src/transaction/fee.rs, with what Script
--   and Upload override (fuel-tx/src/transaction/types/script.rs and upload.rs). Chargeable has the
--   kind of a transaction and what the fees read. Fee/Bounds says what the fees are to the gas.
-- Calls: the state that calls between contracts touch, Vm with the context, the receipts, the
--   free balances and the storage, the helpers of fuel-vm/src/interpreter/internal.rs on it, and
--   fuel-vm/src/verification.rs. The storage is that of fuel-vm/src/storage/memory.rs, which
--   does not fail; its maps are functions.
-- Calls/Receipts: fuel-vm/src/interpreter/receipts.rs and fuel-tx/src/receipt.rs.
--   Calls/Balances: fuel-vm/src/interpreter/balances.rs, with the map as a list that has one
--   entry for an asset. Calls/Frame: fuel-vm/src/context.rs and call.rs. Calls/Contract: the
--   balances and transfers of fuel-vm/src/interpreter/contract.rs. Calls/Mint: `mint` and `burn`
--   of fuel-vm/src/interpreter/blockchain.rs. Calls/Log: fuel-vm/src/interpreter/log.rs.
--   Calls/Flow: the calls, returns, reverts and panic receipts of
--   fuel-vm/src/interpreter/flow.rs with their executors; `prepare_call` is composed of the
--   parts of its body. The bytes of a receipt and SHA-256 are parameters. Calls/Binds has the
--   rules by which a sequence of steps is reasoned about, and Calls/Quiet, Calls/Coins and
--   Calls/Debits what the steps do to the machine and to the coins.
--
-- Numbers are unbounded; a word's wrap-around and saturation are written out. A register is a number
-- that the invariant bounds by 2^64 - 1. The loops over bytes and over the registers of a segment
-- recur on the list or on a count, and the doubling of the heap's capacity takes one round per bit,
-- so no function needs fuel that could run out. Trees are bounded by 2^62 leaves, more than any
-- memory holds, where positions fit a word. A 12-bit offset times a size never overflows a word, so
-- the multiplication in loads and stores is a plain one.
--
-- Not modelled: the entry of a call into the loop of `step`, the executors of MLOG and MROO,
-- transfers to outputs, the slots of contracts and the instructions on the chain, which need the
-- transaction or more of the storage, cryptography, proofs and loading of Merkle trees, sparse
-- Merkle trees, the formats and checks of transactions, the verifier of estimations, and the
-- other crates of the repository.
pub mod Prelude
pub mod Outcome
pub mod Memory
pub mod Reg
pub mod Vm
pub mod Merkle
pub mod Asm
pub mod Fee
pub mod Calls
