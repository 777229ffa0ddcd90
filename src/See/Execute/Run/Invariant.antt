-- ===== src/See/Execute/Run/Invariant.antt =====
-- What every state of the run of `execute_supervisor` keeps.
use rustsbi_d.Base.{
  ℕ, ◌-◌, ◌/◌, ◌^◌, ◌≤◌, bit_and, ◌≡◌, refl, sym, ap, ◌∙◌, inl, inr, ◌&&◌, some, List, arith, ◌==◌,
  Bool-cases, length, set, length-set, u64_max, ◌>>>◌, complement,
}
use rustsbi_d.Base.Bits.{bit_and_mask}
use rustsbi_d.See.Riscv.{Riscv, IsRiscv, SbiSpec, SbiRet}
use rustsbi_d.See.Execute.{
  Machine, Context, Trap, machine_timer, machine_soft, supervisor_env_call, illegal_instruction,
  other, handle, handle_ecall, emulate_rdtime, do_transfer_trap, deliver, prepare, illegal, resumed,
  left, spp_of, skip, set_arg, set_reg, new, arg, leaves, rd_mask, rdtime_code,
}
use rustsbi_d.See.Execute.Transfer.{mpp, spp_of_le, deliver-IsDelivered}
use mathlib.Core.Option
use rustsbi_d.See.Execute.Loop.{prepare_lem}
use mathlib.Core.Path.{subst}
use rustsbi_d.See.Execute.Ecall.{answer}
use rustsbi_d.See.Execute.Run.{
  args_of, State, supervised, returned, trapped, stopped, panicked, after, Step, run, round, Reach,
  here, next,
}

-- What holds of the supervisor's registers and of the machine.
pub record Held (handler medeleg : ℕ) (c : Context) (m : Machine) : Type 0 where
  pub regs : length c.x ≡ 31
  pub not_machine : mpp c.mstatus ≤ 1
  pub delegated : m.mideleg ≡ u64_max
  pub exceptions : m.medeleg ≡ medeleg
  pub handler_kept : m.mtvec ≡ handler

pub IsHeld : ℕ → ℕ → State → Type 0
IsHeld handler medeleg (supervised c m) = Held handler medeleg c m
IsHeld handler medeleg (returned c m) = Held handler medeleg c m
IsHeld handler medeleg (trapped t c m) = Held handler medeleg c m
IsHeld handler medeleg stopped = Unit
IsHeld handler medeleg panicked = ⊥

-- rustsbi::ecall runs the extensions, none of which touches the delegation or the trap handler.
pub record KeepsTraps (ecall : ℕ → ℕ → List ℕ → Machine → SbiRet × Machine) : Type 0 where
  pub mideleg : (e f : ℕ) (args : List ℕ) (m : Machine) → (ecall e f args m).1.mideleg ≡ m.mideleg
  pub medeleg : (e f : ℕ) (args : List ℕ) (m : Machine) → (ecall e f args m).1.medeleg ≡ m.medeleg
  pub mtvec : (e f : ℕ) (args : List ℕ) (m : Machine) → (ecall e f args m).1.mtvec ≡ m.mtvec

module _ (r : Riscv) (spec : SbiSpec) (ecall : ℕ → ℕ → List ℕ → Machine → SbiRet × Machine)
    (handler medeleg : ℕ) (crate : IsRiscv r) (keeps : KeepsTraps ecall) where
  -- Other registers, and the same status.
  with_registers :
      (c c' : Context) (m : Machine)
      → Held handler medeleg c m
      → length c'.x ≡ length c.x
      → c'.mstatus ≡ c.mstatus
      → Held handler medeleg c' m
  with_registers c c' m h e k = record {
    regs = e ∙ h.regs;
    not_machine = rw k h.not_machine;
    delegated = h.delegated;
    exceptions = h.exceptions;
    handler_kept = h.handler_kept;
  }

  transfer-Held :
      (cause : ℕ) (c : Context) (m : Machine)
      → Held handler medeleg c m
      → IsHeld handler medeleg (after (resumed (do_transfer_trap r cause c m)))
  unfolding IsHeld do_transfer_trap deliver
  transfer-Held cause c m h =
      let (p, e, _) = spp_of_le (mpp c.mstatus) h.not_machine in
      let d = deliver-IsDelivered r p cause c m crate in
      let delivered : do_transfer_trap r cause c m ≡ some (deliver r p cause c m) =
        ap (λ o. Option.map (λ q. deliver r q cause c m) (spp_of o))
          (bit_and_mask 2 (c.mstatus / 2 ^ 11))
        ∙ ap (Option.map (λ q. deliver r q cause c m)) e in
      let held : Held handler medeleg (deliver r p cause c m).0 (deliver r p cause c m).1 = record {
        regs = h.regs;
        not_machine = omega (arith, d.returns_to_s);
        delegated = h.delegated;
        exceptions = h.exceptions;
        handler_kept = h.handler_kept;
      } in
      subst (λ o. IsHeld handler medeleg (after (resumed o))) (sym delivered) held

  ecall-Held :
      (c : Context) (m : Machine)
      → Held handler medeleg c m
      → IsHeld handler medeleg (after (left (handle_ecall spec ecall c m)))
  unfolding IsHeld handle_ecall
  ecall-Held c m h =
      let ans = answer spec ecall c m in
      let kept : Held handler medeleg c ans.1 = record {
        regs = h.regs;
        not_machine = h.not_machine;
        delegated = keeps.mideleg (arg 7 c) (arg 6 c) (args_of c) m ∙ h.delegated;
        exceptions = keeps.medeleg (arg 7 c) (arg 6 c) (args_of c) m ∙ h.exceptions;
        handler_kept = keeps.mtvec (arg 7 c) (arg 6 c) (args_of c) m ∙ h.handler_kept;
      } in
      elim (Bool-cases
        ((ans.0.error == spec.ret_success) && leaves spec (arg 7 c) (arg 6 c) (arg 0 c))) [
          | inl e ↦ rw e kept
          | inr e ↦ rw e (
              with_registers c (skip (set_arg 1 ans.0.value (set_arg 0 ans.0.error c))) ans.1 kept
                (length-set (set c.x 9 ans.0.error) 10 ans.0.value ∙ length-set c.x 9 ans.0.error)
                refl)
        ]

  rdtime-Held :
      (c : Context) (m : Machine)
      → Held handler medeleg c m
      → IsHeld handler medeleg (after (illegal r spec ecall (emulate_rdtime m.time m.mtval c) m))
  unfolding IsHeld emulate_rdtime
  rdtime-Held c m h = elim (Bool-cases (bit_and m.mtval (complement 64 rd_mask) == rdtime_code)) [
    | inl e ↦ rw e (elim (Bool-cases ((bit_and m.mtval rd_mask >>> 7) == 0)) [
      | inl z ↦ rw z (with_registers c (skip c) m h refl refl)
      | inr z ↦ rw z (
          with_registers c (skip (set_reg (bit_and m.mtval rd_mask >>> 7) m.time c)) m h
            (length-set c.x ((bit_and m.mtval rd_mask >>> 7) - 1) m.time) refl)
    ])
    | inr e ↦ rw e (transfer-Held r.illegal_instruction c m h)
  ]

  handle-Held :
      (t : Trap) (c : Context) (m : Machine)
      → Held handler medeleg c m
      → IsHeld handler medeleg (after (handle r spec ecall t c m))
  unfolding IsHeld handle
  handle-Held machine_timer c m h = record {
    regs = h.regs;
    not_machine = h.not_machine;
    delegated = h.delegated;
    exceptions = h.exceptions;
    handler_kept = h.handler_kept;
  }
  handle-Held machine_soft c m h = record {
    regs = h.regs;
    not_machine = h.not_machine;
    delegated = h.delegated;
    exceptions = h.exceptions;
    handler_kept = h.handler_kept;
  }
  handle-Held supervisor_env_call c m h = ecall-Held c m h
  handle-Held illegal_instruction c m h = rdtime-Held c m h
  handle-Held other c m h = tt

  Step-IsHeld :
      {s t : State} → Step r spec ecall s t → IsHeld handler medeleg s → IsHeld handler medeleg t
  unfolding IsHeld
  Step-IsHeld (run t k) h = record {
    regs = k.regs;
    not_machine = k.from_s_or_u;
    delegated = k.mideleg ∙ h.delegated;
    exceptions = k.medeleg ∙ h.exceptions;
    handler_kept = k.mtvec ∙ h.handler_kept;
  }
  Step-IsHeld (round {c} {m} {t}) h = handle-Held t c m h

  reached :
      {s t : State} → Reach r spec ecall s t → IsHeld handler medeleg s → IsHeld handler medeleg t
  reached here h = h
  reached (next k step) h = Step-IsHeld step (reached k h)

-- From the state that `execute_supervisor` prepares, with a supervisor that the architecture keeps from the delegation
-- and the trap handler of the machine, and SBI calls that leave both alone: whatever S and U mode do and however often they trap,
-- the loop never reaches `unreachable!`, no context ever returns to M mode, and the delegation of all interrupts,
-- that of the exceptions and the trap handler stay as they were prepared. (A context is an array of 31
-- registers; their values are the supervisor's.)
pub Reach-IsHeld :
    (r : Riscv) (spec : SbiSpec) (ecall : ℕ → ℕ → List ℕ → Machine → SbiRet × Machine)
    (handler start_addr opaque : ℕ) (m : Machine) (s : State)
    → IsRiscv r
    → KeepsTraps ecall
    → Reach r spec ecall
        (supervised
          (prepare r handler start_addr opaque m).0
          (prepare r handler start_addr opaque m).1)
        s
    → IsHeld handler (prepare r handler start_addr opaque m).1.medeleg s
unfolding prepare new IsHeld
Reach-IsHeld r spec ecall handler start_addr opaque m s crate keeps reach =
    let (c0, m0) = prepare r handler start_addr opaque m in
    reached r spec ecall handler m0.medeleg crate keeps reach (record {
      regs = refl;
      not_machine = omega (arith, (prepare_lem r handler start_addr opaque m crate).3);
      delegated = refl;
      exceptions = refl;
      handler_kept = refl;
    })
