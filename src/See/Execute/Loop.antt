-- ===== src/See/Execute/Loop.antt =====
-- One round of the loop of `execute_supervisor`: what each trap leads to.
use rustsbi_d.Base.{
  ℕ, ◌^◌, ◌≤◌, ◌<◌, ◌≡◌, refl, ap, ◌≢◌, Bool, true, false, Option, none, some, List, arith, u64_max,
}
use rustsbi_d.See.Execute.{illegal, resumed, left}
use rustsbi_d.See.Execute.Rdtime.{emulate_rdtime_refused}
use rustsbi_d.Base.{refl, ap, Option, none, some, true, false}
use rustsbi_d.Hal.Clint
use rustsbi_d.Hal.Clint.{mtimecmp, mtimecmp-write}
use rustsbi_d.See.Riscv.{Riscv, IsRiscv, SbiSpec, SbiRet, bits}
use rustsbi_d.See.Execute.{
  Machine, Context, Trap, machine_timer, machine_soft, supervisor_env_call, illegal_instruction,
  other, resume, leave, handle, handle_ecall, emulate_rdtime, do_transfer_trap, arg, prepare, reg,
}
use rustsbi_d.See.Execute.Ecall.{IsSbiSpec, Leaves, answer, handle_ecall-Leaves_iff}
use rustsbi_d.See.Execute.Rdtime.{rdtime}
use rustsbi_d.See.Execute.Transfer.{mpp, IsDelivered, do_transfer_trap-IsDelivered}

left-leave :
    (x : Context × Machine × Bool) (c : Context) (m : Machine) → left x ≡ leave c m → x.2 ≡ false
left-leave (a, b, true) c m e = cc
left-leave (a, b, false) c m e = refl

resumed_stays : (o : Option (Context × Machine)) (c : Context) (m : Machine) → resumed o ≢ leave c m
resumed_stays none c m e = cc
resumed_stays (some (a, b)) c m e = cc

illegal_stays :
    (r : Riscv) (spec : SbiSpec) (ecall : ℕ → ℕ → List ℕ → Machine → SbiRet × Machine)
    (x : Context × Bool) (m : Machine) (c' : Context) (m' : Machine)
    → illegal r spec ecall x m ≢ leave c' m'
illegal_stays r spec ecall (c, true) m c' m' e = cc
illegal_stays r spec ecall (c, false) m c' m' e =
    resumed_stays (do_transfer_trap r r.illegal_instruction c m) c' m' e

module _ (r : Riscv) (spec : SbiSpec) (ecall : ℕ → ℕ → List ℕ → Machine → SbiRet × Machine) where
  -- A machine timer interrupt resumes the supervisor with its registers as they were, the compare
  -- value at all ones (so that the interrupt is no longer pending at any earlier time), the
  -- supervisor's timer interrupt pending and its software interrupt as it was.
  pub handle_timer :
      (c : Context) (m : Machine)
      → IsRiscv r
      → (m' : Machine) × (handle r spec ecall machine_timer c m ≡ resume c m')
        × (mtimecmp m'.clint ≡ u64_max)
        × (bits 5 1 m'.mip ≡ 1)
        × (bits 1 1 m'.mip ≡ bits 1 1 m.mip)
  unfolding handle
  handle_timer c m k = (
    record m { clint = Clint.mtimecmp_write u64_max m.clint; mip = r.set_stimer m.mip },
    refl,
    (mtimecmp-write u64_max m.clint (omega arith)).0,
    omega (arith, k.stip_set m.mip),
    omega (arith, k.stip_set m.mip),
  )

  -- A machine software interrupt resumes the supervisor with its registers as they were, the
  -- machine's request cleared, the supervisor's software interrupt pending and its timer interrupt
  -- as it was.
  pub handle_soft :
      (c : Context) (m : Machine)
      → IsRiscv r
      → (m' : Machine) × (handle r spec ecall machine_soft c m ≡ resume c m')
        × (m'.clint.msip ≡ 0)
        × (bits 1 1 m'.mip ≡ 1)
        × (bits 5 1 m'.mip ≡ bits 5 1 m.mip)
  unfolding handle
  handle_soft c m k = (
    record m { clint = Clint.msip_clear m.clint; mip = r.set_ssoft m.mip },
    refl,
    unfold Clint.msip_clear in refl,
    omega (arith, k.ssip_set m.mip),
    omega (arith, k.ssip_set m.mip),
  )

  -- An illegal instruction that is no `rdtime`, from U or S mode, is delivered to the supervisor.
  pub handle_illegal :
      (c : Context) (m : Machine)
      → IsRiscv r
      → mpp c.mstatus ≤ 1
      → m.mtval < 2 ^ 64
      → ((rd : ℕ) → rd < 32 → m.mtval ≢ rdtime rd)
      → (c' : Context) × (m' : Machine) × (handle r spec ecall illegal_instruction c m
          ≡ resume c' m')
        × IsDelivered r r.illegal_instruction (mpp c.mstatus) c m c' m'
  unfolding handle
  handle_illegal c m k h fits differs =
      let (c', m', e, d) = do_transfer_trap-IsDelivered r r.illegal_instruction c m k h in
      (c', m', rw (emulate_rdtime_refused m.time m.mtval c fits differs) (ap resumed e), d)

  -- The loop is left only by a supervisor call that succeeds and does not come back.
  pub handle-Leaves :
      (t : Trap) (c c' : Context) (m m' : Machine)
      → IsSbiSpec spec
      → handle r spec ecall t c m ≡ leave c' m'
      → (t ≡ supervisor_env_call)
        × ((answer spec ecall c m).0.error ≡ spec.ret_success)
        × Leaves spec (arg 7 c) (arg 6 c) (arg 0 c)
  unfolding handle
  handle-Leaves machine_timer c c' m m' k e = cc
  handle-Leaves machine_soft c c' m m' k e = cc
  handle-Leaves supervisor_env_call c c' m m' k e =
      let (ok, away) =
        (handle_ecall-Leaves_iff spec ecall c m k).0
          (left-leave (handle_ecall spec ecall c m) c' m' e) in
      (refl, ok, away)
  handle-Leaves illegal_instruction c c' m m' k e =
      absurd (illegal_stays r spec ecall (emulate_rdtime m.time m.mtval c) m c' m' e)
  handle-Leaves other c c' m m' k e = cc

-- The supervisor starts at its entry with a0 = 0 (the hart), a1 the device tree, and in S mode.
pub prepare_lem :
    (r : Riscv) (handler start_addr opaque : ℕ) (m : Machine)
    → IsRiscv r
    → let (c, m') = prepare r handler start_addr opaque m in
      (c.mepc ≡ start_addr)
      × (reg 10 c ≡ 0)
      × (reg 11 c ≡ opaque)
      × (mpp c.mstatus ≡ 1)
      × (bits 3 1 m'.mstatus ≡ 0)
      × (m'.mtvec ≡ handler)
      × (m'.mideleg ≡ u64_max)
unfolding prepare
prepare_lem r handler start_addr opaque m k = (
  refl,
  refl,
  refl,
  omega (arith, k.mpp m.mstatus, k.mie_set (r.set_mpp_supervisor m.mstatus)),
  omega (arith, k.mie_clear (r.set_mie (r.set_mpp_supervisor m.mstatus))),
  refl,
  refl,
)
