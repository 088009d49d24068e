-- ===== src/Calls/Flow/Return.antt =====
-- What a return to the caller leaves: `return_from_context` of fuel-vm/src/interpreter/flow.rs.
use fuel_vm.Reg
use fuel_vm.Prelude.{ℕ, ◌+◌, ◌≤◌, ◌≡◌, ◌≢◌, refl, ap, ◌∙◌, List, ◌∷◌, arith, word_max, le→leb}
use fuel_vm.Outcome.{ok}
use fuel_vm.Vm
use fuel_vm.Vm.{CallFrame, instruction_size}
use fuel_vm.Calls.Receipts
use fuel_vm.Calls.Receipts.{Receipt, ReceiptsCtx}
use fuel_vm.Calls.Frame.{update_from_frame_pointer}
use fuel_vm.Calls.{Interpreter, Parameters, ◌>>◌, push_receipt, set_frame_pointer, on_vm}
use fuel_vm.Calls.Binds.{bind_ok}
use fuel_vm.Calls.Flow.{restore, leave_frame, return_from_context}

-- The caller goes on behind its call: `t` is the machine after a return from the frame on top of
-- `rest`, and `s` the one before.
pub record Returned (frame : CallFrame) (rest : List CallFrame) (s t : Interpreter) : Type 0 where
  pub frames : t.vm.frames ≡ rest
  pub pc : t.vm.registers Reg.pc ≡ frame.registers Reg.pc + instruction_size
  pub cgas : t.vm.registers Reg.cgas ≡ s.vm.registers Reg.cgas + frame.registers Reg.cgas
  pub ggas : t.vm.registers Reg.ggas ≡ s.vm.registers Reg.ggas
  pub ret : t.vm.registers Reg.ret ≡ s.vm.registers Reg.ret
  pub retl : t.vm.registers Reg.retl ≡ s.vm.registers Reg.retl
  pub hp : t.vm.registers Reg.hp ≡ s.vm.registers Reg.hp
  pub others :
      (r : ℕ)
      → r ≢ Reg.pc
      → r ≢ Reg.cgas
      → r ≢ Reg.ggas
      → r ≢ Reg.ret
      → r ≢ Reg.retl
      → r ≢ Reg.hp
      → t.vm.registers r ≡ frame.registers r
  pub memory : t.vm.memory ≡ s.vm.memory
  pub context : t.context ≡ update_from_frame_pointer (frame.registers Reg.fp) s.context

left : CallFrame → List CallFrame → Interpreter → Interpreter
left frame rest s = record s {
  vm = record s.vm {
    frames = rest;
    registers =
        Vm.update
          (restore frame.registers (
            Vm.update s.vm.registers Reg.cgas (s.vm.registers Reg.cgas + frame.registers Reg.cgas)))
          Reg.fp (frame.registers Reg.fp);
  };
  context = update_from_frame_pointer (frame.registers Reg.fp) s.context;
}

leave_frame-ok :
    (frame : CallFrame) (rest : List CallFrame) (s : Interpreter)
    → s.vm.registers Reg.cgas + frame.registers Reg.cgas ≤ word_max
    → leave_frame (frame ∷ rest) s ≡ (ok tt, left frame rest s)
unfolding leave_frame left set_frame_pointer restore
leave_frame-ok frame rest s h =
    rw (le→leb (s.vm.registers Reg.cgas + frame.registers Reg.cgas) word_max h) refl

unfoldable pub received : ReceiptsCtx → Interpreter → Interpreter
received ctx s = record s { receipts = ctx }

pub push_receipt-ok :
    (p : Parameters) (receipt : Receipt) (s : Interpreter) {ctx : ReceiptsCtx}
    → Receipts.push p.sha256 p.to_bytes receipt s.receipts ≡ ok ctx
    → push_receipt p receipt s ≡ (ok tt, received ctx s)
unfolding push_receipt received
push_receipt-ok p receipt s e = rw (e, push_receipt) refl

unfoldable pub advanced : Interpreter → Interpreter
advanced s = record s {
  vm = record s.vm {
    registers = Vm.update s.vm.registers Reg.pc (s.vm.registers Reg.pc + instruction_size);
  };
}

pub inc_pc-ok :
    (s : Interpreter)
    → s.vm.registers Reg.pc + instruction_size ≤ word_max
    → on_vm Vm.inc_pc s ≡ (ok tt, advanced s)
unfolding Vm.inc_pc advanced
inc_pc-ok s h = rw (le→leb (s.vm.registers Reg.pc + instruction_size) word_max h) refl

advanced-Returned :
    (frame : CallFrame) (rest : List CallFrame) (s : Interpreter) (ctx : ReceiptsCtx)
    → Returned frame rest s (advanced (received ctx (left frame rest s)))
unfolding advanced received left restore
advanced-Returned frame rest s ctx = record {
  frames = refl;
  pc = refl;
  cgas = refl;
  ggas = refl;
  ret = refl;
  retl = refl;
  hp = refl;
  others = λ r a b c d e f. ground arith;
  memory = refl;
  context = refl;
}

-- With a frame left, the gas of which fits the counter, a free slot for the receipt, and a caller
-- that is not at the end of the words, a return restores the caller's registers from the frame, but
-- for the gas, the result and the heap pointer, drops the frame, adds the gas that is left to the
-- caller's, and goes on behind the call.
pub return_from_context_lem :
    (p : Parameters) (receipt : Receipt) (s : Interpreter) (frame : CallFrame)
    (rest : List CallFrame) {ctx : ReceiptsCtx}
    → s.vm.frames ≡ frame ∷ rest
    → s.vm.registers Reg.cgas + frame.registers Reg.cgas ≤ word_max
    → frame.registers Reg.pc + instruction_size ≤ word_max
    → Receipts.push p.sha256 p.to_bytes receipt s.receipts ≡ ok ctx
    → (t : Interpreter) × (return_from_context p receipt s ≡ (ok tt, t)) × Returned frame rest s t
unfolding return_from_context left received restore
return_from_context_lem p receipt s frame rest {ctx} f g h e =
    let u = left frame rest s in
    (
      advanced (received ctx u),
      bind_ok (leave_frame s.vm.frames) (λ _. push_receipt p receipt >> on_vm Vm.inc_pc) s
          (ap (λ (frames : List CallFrame). leave_frame frames s) f ∙ leave_frame-ok frame rest s g)
          (bind_ok (push_receipt p receipt) (λ _. on_vm Vm.inc_pc) u (push_receipt-ok p receipt u e)
            (inc_pc-ok (received ctx u) h)),
      advanced-Returned frame rest s ctx,
    )
