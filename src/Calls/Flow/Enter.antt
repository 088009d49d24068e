-- ===== src/Calls/Flow/Enter.antt =====
-- What a call leaves: `prepare_call` of fuel-vm/src/interpreter/flow.rs.
use fuel_vm.Reg
use fuel_vm.Prelude.{ℕ, ◌+◌, ◌≤◌, ◌≡◌, ◌≢◌, ap, ◌∙◌, List, ◌∷◌, arith, word_max}
use fuel_vm.Outcome.{ok}
use fuel_vm.Vm.{CallFrame, Registers, instruction_size}
use fuel_vm.Vm.Gas.{base_cost}
use fuel_vm.Calls.Receipts
use fuel_vm.Calls.Receipts.{Bytes32, Receipt, ReceiptsCtx}
use fuel_vm.Calls.Frame.{serialized_size}
use fuel_vm.Calls.{Interpreter, Parameters, current_contract}
use fuel_vm.Calls.Binds.{Ends, Ends-bind, Ends-ok, Ends-map}
use fuel_vm.Calls.Quiet.{
  QuietVm, QuietVm-trans, gets-Quietly, from_result-Quietly, Quiet-trans, quiet-Ends,
  gas_charge-Quietly, dependent_gas_charge_without_base-Quietly, forward_coins-Quietly,
}
use fuel_vm.Calls.Flow.Return.{return_from_context_lem}
use fuel_vm.Calls.Flow.{return_from_context, prepare_call}
use fuel_vm.Calls.Flow.Steps.{
  Started, read_callee-Quietly, forward_gas-Ends, new_call_frame-Ends, enter_frame-Ends,
  start_code-Ends,
}

-- The callee's machine: `t` is the state after a call from `s`.
pub record Entered (amount : ℕ) (s t : Interpreter) (frame : CallFrame) : Type 0 where
  pub frames : t.vm.frames ≡ frame ∷ s.vm.frames
  pub saved : (r : ℕ) → r ≢ Reg.cgas → r ≢ Reg.ggas → frame.registers r ≡ s.vm.registers r
  pub gas : t.vm.registers Reg.cgas + frame.registers Reg.cgas ≤ s.vm.registers Reg.cgas
  pub charged :
      t.vm.registers Reg.cgas + frame.registers Reg.cgas + s.vm.registers Reg.ggas
      ≡ s.vm.registers Reg.cgas + frame.registers Reg.ggas
  pub fp : t.vm.registers Reg.fp ≡ s.vm.registers Reg.sp
  pub pc : t.vm.registers Reg.pc ≡ s.vm.registers Reg.sp + serialized_size
  pub is : t.vm.registers Reg.is ≡ t.vm.registers Reg.pc
  pub ssp : t.vm.registers Reg.ssp ≡ t.vm.registers Reg.sp
  pub bal : t.vm.registers Reg.bal ≡ amount
  pub flag : t.vm.registers Reg.flag ≡ 0

entered :
    {amount gas : ℕ} {s₉ u : Interpreter} (s t s₈ : Interpreter) {frame : CallFrame}
    → QuietVm s.vm s₈.vm
    → s₈.vm.registers Reg.cgas + gas ≤ s.vm.registers Reg.cgas
    → s₈.vm.registers Reg.cgas + gas + s.vm.registers Reg.ggas
      ≡ s.vm.registers Reg.cgas + s₈.vm.registers Reg.ggas
    → frame.registers ≡ s₈.vm.registers
    → (s₉.vm.registers Reg.fp ≡ s₈.vm.registers Reg.sp)
      × (s₉.vm.registers Reg.ssp ≡ s₉.vm.registers Reg.sp)
      × (s₉.vm.frames ≡ s₈.vm.frames)
    → t.vm.frames ≡ frame ∷ s₉.vm.frames
    → Started amount gas s₉ u
    → t.vm.registers ≡ u.vm.registers
    → Entered amount s t frame
entered {s₉ = s₉} {u = u} s t s₈ {frame} q g c f (fp, ssp, frames) k st l =
    let at : (r : ℕ) → t.vm.registers r ≡ u.vm.registers r =
      λ r. ap (λ (regs : Registers). regs r) l in
    let sp = q.others Reg.sp (omega arith) (omega arith) in
    record {
      frames = k ∙ ap (λ (fs : List CallFrame). frame ∷ fs) (frames ∙ q.frames);
      saved = λ r a b. ap (λ (regs : Registers). regs r) f ∙ q.others r a b;
      gas = omega (arith, at Reg.cgas, st.cgas, ap (λ (regs : Registers). regs Reg.cgas) f);
      charged = omega (
        arith,
        at Reg.cgas,
        st.cgas,
        c,
        ap (λ (regs : Registers). regs Reg.cgas) f,
        ap (λ (regs : Registers). regs Reg.ggas) f,
      );
      fp = omega (arith, at Reg.fp, st.fp, fp, sp);
      pc = omega (arith, at Reg.pc, st.pc, fp, sp);
      is = omega (arith, at Reg.is, st.is, at Reg.pc);
      ssp = omega (arith, at Reg.ssp, st.ssp, ssp, st.sp, at Reg.sp);
      bal = omega (arith, at Reg.bal, st.bal);
      flag = omega (arith, at Reg.flag, st.flag);
    }

prepare_call-Ends :
    (p : Parameters) (a amount b limit : ℕ) (s : Interpreter)
    → Ends
        (λ _ t. (frame : CallFrame) × Entered amount s t frame)
        (prepare_call p a amount b limit)
        s
unfolding prepare_call
prepare_call-Ends p a amount b limit s =
    Ends-bind (quiet-Ends (gas_charge-Quietly (base_cost p.call)) s) λ _ s₁ q₁.
      Ends-bind (quiet-Ends (gets-Quietly current_contract) s₁) λ r s₂ q₂.
        Ends-bind (quiet-Ends (from_result-Quietly r) s₂) λ source s₃ q₃.
          Ends-bind (quiet-Ends (read_callee-Quietly a b) s₃) λ callee s₄ q₄.
            Ends-bind
              (quiet-Ends (dependent_gas_charge_without_base-Quietly p.call callee.code_size_padded)
                s₄)
              λ _ s₅ q₅.
                Ends-bind
                  (quiet-Ends (forward_coins-Quietly p source callee.call.to callee.asset_id amount)
                    s₅)
                  λ _ s₆ q₆. Ends-bind (forward_gas-Ends limit s₆) λ gas s₇ (q₇, g, y).
                    Ends-bind (new_call_frame-Ends callee s₇) λ frame s₈ (q₈, f).
                      Ends-bind (enter_frame-Ends frame callee s₈) λ id s₉ e.
                        Ends-map
                          (λ _ t (k, (u, st, l)).
                            let before = Quiet-trans q₁ (
                              Quiet-trans q₂
                                (Quiet-trans q₃ (Quiet-trans q₄ (Quiet-trans q₅ q₆)))) in
                            (
                              frame,
                              entered s t s₈
                                  (QuietVm-trans before.machine (QuietVm-trans q₇ q₈.machine))
                                  (omega (arith, q₈.machine.less_gas, before.machine.less_gas))
                                  (omega (arith, before.spent, q₈.spent, g, y)) f e k st l,
                            ))
                          (start_code-Ends p frame callee id amount gas s₉)

-- A call that succeeds puts a frame with the caller's registers on the frames and starts the callee
-- behind it: `$fp` is the caller's `$sp`, `$pc` and `$is` are the start of the code, `$ssp` and
-- `$sp` agree, `$bal` is the amount, the flags are clear, and the gas of the frame and of the callee
-- are no more than the caller has had.
pub prepare_call_lem :
    (p : Parameters) (a amount b limit : ℕ) (s : Interpreter)
    → (prepare_call p a amount b limit s).0 ≡ ok tt
    → (frame : CallFrame) × Entered amount s (prepare_call p a amount b limit s).1 frame
prepare_call_lem p a amount b limit s e = Ends-ok (prepare_call-Ends p a amount b limit s) e

-- A call that succeeds, any execution of the callee that leaves the frames as the call has left
-- them, and a return that has room for its receipt: the caller goes on behind its call with its own
-- registers, but for gas, result and heap pointer, and the global gas stays. Its gas is the frame's
-- and the rest of the callee's, where those of the frame and of the callee at its start are all
-- that the caller has had, less what both counters have paid before the frame was made.
pub prepare_call-return_from_context :
    (p : Parameters) (a amount b limit : ℕ) (s t : Interpreter) (receipt : Receipt)
    {ctx : ReceiptsCtx}
    → (prepare_call p a amount b limit s).0 ≡ ok tt
    → t.vm.frames ≡ (prepare_call p a amount b limit s).1.vm.frames
    → t.vm.registers Reg.cgas + s.vm.registers Reg.cgas ≤ word_max
    → s.vm.registers Reg.pc + instruction_size ≤ word_max
    → Receipts.push p.sha256 p.to_bytes receipt t.receipts ≡ ok ctx
    → (u : Interpreter) × (return_from_context p receipt t ≡ (ok tt, u))
      × (u.vm.frames ≡ s.vm.frames)
      × (u.vm.registers Reg.pc ≡ s.vm.registers Reg.pc + instruction_size)
      × ((r : ℕ)
          → r ≢ Reg.pc
          → r ≢ Reg.cgas
          → r ≢ Reg.ggas
          → r ≢ Reg.ret
          → r ≢ Reg.retl
          → r ≢ Reg.hp
          → u.vm.registers r ≡ s.vm.registers r)
      × (u.vm.registers Reg.cgas + (prepare_call p a amount b limit s).1.vm.registers Reg.cgas
          ≤ s.vm.registers Reg.cgas + t.vm.registers Reg.cgas)
      × (u.vm.registers Reg.ggas ≡ t.vm.registers Reg.ggas)
      × ((frame : CallFrame) × ((prepare_call p a amount b limit s).1.vm.frames
            ≡ frame ∷ s.vm.frames)
          × (u.vm.registers Reg.cgas ≡ t.vm.registers Reg.cgas + frame.registers Reg.cgas)
          × ((prepare_call p a amount b limit s).1.vm.registers Reg.cgas
                + frame.registers Reg.cgas
                + s.vm.registers Reg.ggas
              ≡ s.vm.registers Reg.cgas + frame.registers Reg.ggas))
prepare_call-return_from_context p a amount b limit s t receipt e f g h k =
    let (frame, n) = prepare_call_lem p a amount b limit s e in
    let pc = n.saved Reg.pc (omega arith) (omega arith) in
    let (u, run, r) =
      return_from_context_lem p receipt t frame s.vm.frames (f ∙ n.frames) (omega (arith, n.gas))
        (omega (arith, pc)) k in
    (
      u,
      run,
      r.frames,
      omega (arith, r.pc, pc),
      λ i c₁ c₂ c₃ c₄ c₅ c₆. r.others i c₁ c₂ c₃ c₄ c₅ c₆ ∙ n.saved i c₂ c₃,
      omega (arith, r.cgas, n.gas),
      r.ggas,
      (frame, n.frames, r.cgas, n.charged),
    )
