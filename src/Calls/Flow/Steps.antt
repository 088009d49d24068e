-- ===== src/Calls/Flow/Steps.antt =====
-- The parts of `prepare_call` (fuel-vm/src/interpreter/flow.rs).
use fuel_vm.Reg
use fuel_vm.Prelude.{
  ℕ, saturating_add, ◌+◌, ◌-◌, ◌≡◌, ◌≢◌, refl, ap, ◌∙◌, Option, none, some, List, ◌∷◌, arith,
  checked_add, le→leb, replicate, min,
}
use fuel_vm.Outcome.{Result, ok, err, panic, bug, PanicReason, BugVariant}
use fuel_vm.Memory.{Slot, read, write_noownerchecks, grow_stack, copy_from_slice}
use fuel_vm.Vm
use fuel_vm.Vm.{CallFrame, Registers, instruction_size}
use fuel_vm.Calls.Receipts
use fuel_vm.Calls.Receipts.{Bytes32, Receipt, ReceiptsCtx}
use fuel_vm.Calls.Frame.{
  call_len, call_try_from, serialized_size, new_frame, frame_to_bytes, padded_len,
}
use fuel_vm.Calls.{
  Interpreter, Parameters, from_option, gets, reg, read_id, internal_contract_or_zeroed,
  push_receipt, set_frame_pointer,
}
use fuel_vm.Calls.Binds.{Ends, Ended, Ends-bind, Ends-map, pure-Ends}
use fuel_vm.Calls.Quiet.{
  Quiet, QuietVm, Quietly, Quietly-bind, gets-Quietly, from_result-Quietly, from_option-Quietly,
  pure-Quietly, on_memory-Quietly, Quiet-refl, quiet-Ends,
}
use fuel_vm.Calls.Contract.{contract_size}
use fuel_vm.Calls.Flow.{
  Callee, split_at, read_contract, set_stack, set_start, read_callee, forward_gas, new_call_frame,
  enter_frame, start_code, write_frame, fill, set_frames,
}

pub reg-Quietly : (r : ℕ) → Quietly (reg r)
reg-Quietly r = record { quiet = Quiet-refl }

pub read_id-Quietly : (addr : ℕ) → Quietly (read_id addr)
read_id-Quietly addr = record { quiet = Quiet-refl }

pub read_callee-Quietly : (a b : ℕ) → Quietly (read_callee a b)
unfolding read_callee
read_callee-Quietly a b = Quietly-bind (gets-Quietly (λ s. read s.vm.memory a call_len)) λ bytes.
    Quietly-bind (from_result-Quietly bytes) λ call_bytes.
      Quietly-bind (from_result-Quietly (call_try_from call_bytes)) λ call.
        Quietly-bind (read_id-Quietly b) λ asset_id.
          Quietly-bind (gets-Quietly (λ s. contract_size s.storage call.to)) λ size.
            Quietly-bind (from_result-Quietly size) λ code_size.
              Quietly-bind
                (from_option-Quietly (padded_len code_size) (panic PanicReason.memory_overflow))
                λ padded.
                  Quietly-bind
                    (from_option-Quietly (checked_add serialized_size padded)
                      (bug BugVariant.code_size_overflow))
                    λ total. pure-Quietly (record {
                      call = call;
                      asset_id = asset_id;
                      code_size = code_size;
                      code_size_padded = padded;
                      total_size = total;
                    })

pub fill-Quietly : (slot : Slot) (bytes : List ℕ) → Quietly (fill slot bytes)
unfolding fill
fill-Quietly slot bytes = on_memory-Quietly (λ memory. copy_from_slice memory slot bytes)

pub write_frame-Quietly : (frame : CallFrame) (callee : Callee) → Quietly (write_frame frame callee)
unfolding write_frame
write_frame-Quietly frame callee = Quietly-bind (reg-Quietly Reg.fp) λ fp.
    Quietly-bind (gets-Quietly (λ s. write_noownerchecks s.vm.memory fp callee.total_size)) λ slot.
      Quietly-bind (from_result-Quietly slot) λ dst.
        Quietly-bind (fill-Quietly (split_at serialized_size dst).0 (frame_to_bytes frame)) λ _.
          Quietly-bind (gets-Quietly (λ s. read_contract s.storage callee.call.to)) λ c.
            Quietly-bind (from_result-Quietly c) λ code.
              Quietly-bind
                (fill-Quietly (split_at callee.code_size (split_at serialized_size dst).1).0 code)
                λ _.
                  fill-Quietly (split_at callee.code_size (split_at serialized_size dst).1).1
                    (replicate (callee.code_size_padded - callee.code_size) 0)

pub forward_gas-Ends :
    (amount : ℕ) (s : Interpreter)
    → Ends
        (λ gas t.
          QuietVm s.vm t.vm
          × (t.vm.registers Reg.cgas + gas ≡ s.vm.registers Reg.cgas)
          × (t.vm.registers Reg.ggas ≡ s.vm.registers Reg.ggas))
        (forward_gas amount)
        s
unfolding forward_gas
forward_gas-Ends amount s = record {
  ends =
      rw (le→leb (min (s.vm.registers Reg.cgas) amount) (s.vm.registers Reg.cgas) (omega arith)) (
        record { others = λ r h k. ground arith; less_gas = omega arith; frames = refl },
        omega arith,
        refl,
      );
}

framed :
    (callee : Callee) (s : Interpreter) (padded : Option ℕ)
    → Ended {A = CallFrame}
        (λ frame t. Quiet s t × (frame.registers ≡ t.vm.registers))
        (from_option
          (elim padded [
            | none ↦ none
            | some n ↦ some (record {
              to = callee.call.to;
              asset_id = callee.asset_id;
              registers = s.vm.registers;
              code_size_padded = n;
              a = callee.call.a;
              b = callee.call.b;
            })
          ])
          (panic PanicReason.memory_overflow)
          s)
framed callee s none = tt
framed callee s (some n) = (Quiet-refl s, refl)

pub new_call_frame-Ends :
    (callee : Callee) (s : Interpreter)
    → Ends (λ frame t. Quiet s t × (frame.registers ≡ t.vm.registers)) (new_call_frame callee) s
unfolding new_call_frame new_frame
new_call_frame-Ends callee s = record {
  ends = framed callee s (padded_len callee.code_size_padded);
}

pub set_stack-Ends :
    (new_sp : ℕ) (s : Interpreter)
    → Ends
        (λ _ t. (t.vm.registers Reg.ssp ≡ t.vm.registers Reg.sp) × (t.vm.frames ≡ s.vm.frames))
        (set_stack new_sp)
        s
unfolding set_stack
set_stack-Ends new_sp s = record { ends = (refl, refl) }

pub set_frame_pointer-Ends :
    (fp : ℕ) (s : Interpreter)
    → Ends
        (λ _ t.
          (t.vm.registers Reg.fp ≡ fp)
          × (t.vm.registers Reg.ssp ≡ s.vm.registers Reg.ssp)
          × (t.vm.registers Reg.sp ≡ s.vm.registers Reg.sp)
          × (t.vm.frames ≡ s.vm.frames))
        (set_frame_pointer fp)
        s
unfolding set_frame_pointer
set_frame_pointer-Ends fp s = record { ends = (refl, refl, refl, refl) }

pub kept :
    {s t : Interpreter}
    → Quiet s t
    → (r : ℕ) → (r ≢ Reg.cgas) × (r ≢ Reg.ggas)
    → t.vm.registers r ≡ s.vm.registers r
kept q r (h, k) = q.machine.others r h k

pub old_sp-Ends :
    (s : Interpreter)
    → Ends (λ old_sp t. (old_sp ≡ s.vm.registers Reg.sp) × Quiet s t) (reg Reg.sp) s
old_sp-Ends s = record { ends = (refl, Quiet-refl s) }

pub enter_frame-Ends :
    (frame : CallFrame) (callee : Callee) (s : Interpreter)
    → Ends
        (λ _ t.
          (t.vm.registers Reg.fp ≡ s.vm.registers Reg.sp)
          × (t.vm.registers Reg.ssp ≡ t.vm.registers Reg.sp)
          × (t.vm.frames ≡ s.vm.frames))
        (enter_frame frame callee)
        s
unfolding enter_frame
enter_frame-Ends frame callee s = Ends-bind (old_sp-Ends s) λ old_sp s₁ (e, q₁).
    Ends-bind
      (quiet-Ends (on_memory-Quietly (λ m. grow_stack m (saturating_add old_sp callee.total_size)))
        s₁)
      λ _ s₂ q₂.
        Ends-bind (set_stack-Ends (saturating_add old_sp callee.total_size) s₂) λ _ s₃ (t₃, f₃).
          Ends-bind (quiet-Ends (gets-Quietly internal_contract_or_zeroed) s₃) λ id s₄ q₄.
            Ends-bind (set_frame_pointer-Ends old_sp s₄) λ _ s₅ (p₅, a₅, b₅, f₅).
              Ends-bind (quiet-Ends (write_frame-Quietly frame callee) s₅) λ _ s₆ q₆.
                pure-Ends id s₆ (
                  kept q₆ Reg.fp (omega arith) ∙ p₅ ∙ e,
                  omega (
                    arith,
                    kept q₆ Reg.ssp (omega arith),
                    kept q₆ Reg.sp (omega arith),
                    a₅,
                    b₅,
                    kept q₄ Reg.ssp (omega arith),
                    kept q₄ Reg.sp (omega arith),
                    t₃,
                  ),
                  q₆.machine.frames
                      ∙ (f₅ ∙ (q₄.machine.frames ∙ (f₃ ∙ (q₂.machine.frames ∙ q₁.machine.frames)))),
                )

-- The registers that a call starts the callee with
pub record Started (amount gas : ℕ) (s t : Interpreter) : Type 0 where
  pub pc : t.vm.registers Reg.pc ≡ s.vm.registers Reg.fp + serialized_size
  pub is : t.vm.registers Reg.is ≡ t.vm.registers Reg.pc
  pub cgas : t.vm.registers Reg.cgas ≡ gas
  pub bal : t.vm.registers Reg.bal ≡ amount
  pub flag : t.vm.registers Reg.flag ≡ 0
  pub fp : t.vm.registers Reg.fp ≡ s.vm.registers Reg.fp
  pub ssp : t.vm.registers Reg.ssp ≡ s.vm.registers Reg.ssp
  pub sp : t.vm.registers Reg.sp ≡ s.vm.registers Reg.sp
  pub frames : t.vm.frames ≡ s.vm.frames

pub set_start-Ends :
    (amount gas : ℕ) (s : Interpreter)
    → Ends (λ _ t. Started amount gas s t) (set_start amount gas) s
unfolding set_start
set_start-Ends amount gas s = record {
  ends = record {
    pc = refl;
    is = refl;
    cgas = refl;
    bal = refl;
    flag = refl;
    fp = refl;
    ssp = refl;
    sp = refl;
    frames = refl;
  };
}

pushed :
    (s : Interpreter) (r : Result ReceiptsCtx)
    → Ended {A = Unit {0}}
        (λ _ t. t.vm ≡ s.vm)
        (elim r [ ok ctx ↦ (ok tt, record s { receipts = ctx }) | err e ↦ (err e, s) ])
pushed s (ok ctx) = refl
pushed s (err e) = tt

pub push_receipt-Ends :
    (p : Parameters) (receipt : Receipt) (s : Interpreter)
    → Ends (λ _ t. t.vm ≡ s.vm) (push_receipt p receipt) s
unfolding push_receipt
push_receipt-Ends p receipt s = record {
  ends = pushed s (Receipts.push p.sha256 p.to_bytes receipt s.receipts);
}

pub frames-Ends :
    (s : Interpreter)
    → Ends (λ frames t. (frames ≡ s.vm.frames) × (t.vm ≡ s.vm)) (gets (λ t. t.vm.frames)) s
frames-Ends s = record { ends = (refl, refl) }

pub set_frames-Ends :
    (frames : List CallFrame) (s : Interpreter)
    → Ends (λ _ t. (t.vm.frames ≡ frames) × (t.vm.registers ≡ s.vm.registers)) (set_frames frames) s
unfolding set_frames
set_frames-Ends frames s = record { ends = (refl, refl) }

pub start_code-Ends :
    (p : Parameters) (frame : CallFrame) (callee : Callee) (id : Bytes32) (amount gas : ℕ)
    (s : Interpreter)
    → Ends
        (λ _ t.
          (t.vm.frames ≡ frame ∷ s.vm.frames)
          × ((u : Interpreter) × Started amount gas s u × (t.vm.registers ≡ u.vm.registers)))
        (start_code p frame callee id amount gas)
        s
unfolding start_code
start_code-Ends p frame callee id amount gas s =
    Ends-bind (set_start-Ends amount gas s) λ start s₁ h.
      Ends-bind
        (push_receipt-Ends p
          (Receipt.call id callee.call.to amount callee.asset_id gas callee.call.a callee.call.b
            start start)
          s₁)
        λ _ s₂ e. Ends-bind (frames-Ends s₂) λ frames s₃ (f, g).
          Ends-map
            (λ _ t (k, l). (
              k
                  ∙ ap (λ (fs : List CallFrame). frame ∷ fs)
                      (f ∙ (ap (λ (vm : Vm.Vm). vm.frames) e ∙ h.frames)),
              (s₁, h, l ∙ ap (λ (vm : Vm.Vm). vm.registers) (g ∙ e)),
            ))
            (set_frames-Ends (frame ∷ frames) s₃)
