-- ===== src/See/Execute/Run.antt =====
-- The whole of `execute_supervisor` as a step relation: the supervisor and its user programs run and trap, and the
-- loop handles each trap. What runs in S and U mode is free to do everything but what the architecture
-- keeps from it.
pub mod Invariant
use rustsbi_d.Base.{
  ℕ, zero, suc, ◌+◌, ◌-◌, ◌*◌, ◌/◌, ◌%◌, ◌^◌, ◌≤◌, ◌<◌, min, max, bit_and, bit_or, ◌≡◌, refl, sym,
  ap, ◌∙◌, fun_ext, ◌≢◌, ◌↔◌, ◌⊎◌, inl, inr, Bool, true, false, not, ◌&&◌, ◌||◌, Option, none, some,
  List, [], ◌∷◌, ◌++◌, map, arith, ltb, leb, ◌==◌, if◌then◌else◌, Bool-cases, Option-cases, ltb→lt,
  lt→ltb, le→ltb_false, ==_iff, length, get_elem?, get_or, set, take, drop, replicate,
  length-append, length-set, get_or-set_self, get_or-set_ne, length-replicate, u8, u32, u64,
  u32_max, u64_max, ◌<<<◌, ◌>>>◌, complement, ◌>>=◌,
}
use rustsbi_d.Base.Bits.{bit_and_mask}
use rustsbi_d.See.Riscv.{Riscv, IsRiscv, SbiSpec, SbiRet}
use rustsbi_d.See.Execute.{
  Machine, Context, Trap, machine_timer, machine_soft, supervisor_env_call, illegal_instruction,
  other, Outcome, resume, leave, stop, panic, handle, handle_ecall, emulate_rdtime,
  do_transfer_trap, deliver, prepare, illegal, resumed, left, spp_of, skip, set_arg, set_reg, new,
  arg, leaves, rd_mask, rdtime_code,
}
use rustsbi_d.See.Execute.Transfer.{mpp, spp_of_le, deliver-IsDelivered}
use mathlib.Core.Option
use rustsbi_d.See.Execute.Loop.{prepare_lem}
use mathlib.Core.Path.{subst}
use rustsbi_d.See.Execute.Ecall.{answer}

-- Between two traps: a run in S or U mode ends in a trap that saves its mode in MPP, and cannot change the
-- delegation or the machine's trap handler.
pub record Runs (c : Context) (m : Machine) (c' : Context) (m' : Machine) : Type 0 where
  pub regs : length c'.x ≡ 31
  pub from_s_or_u : mpp c'.mstatus ≤ 1
  pub mideleg : m'.mideleg ≡ m.mideleg
  pub medeleg : m'.medeleg ≡ m.medeleg
  pub mtvec : m'.mtvec ≡ m.mtvec

abbrev pub args_of : Context → List ℕ
args_of c = arg 0 c ∷ arg 1 c ∷ arg 2 c ∷ arg 3 c ∷ arg 4 c ∷ arg 5 c ∷ []

pub data State : Type 0 where
  supervised returned : Context → Machine → State
  trapped : Trap → Context → Machine → State
  stopped panicked : State

abbrev pub after : Outcome → State
after (resume c m) = supervised c m
after (leave c m) = returned c m
after stop = stopped
after panic = panicked

module _ (r : Riscv) (spec : SbiSpec) (ecall : ℕ → ℕ → List ℕ → Machine → SbiRet × Machine) where
  pub data Step : State → State → Type 0 where
    run :
        {c c' : Context} {m m' : Machine} (t : Trap)
        → Runs c m c' m'
        → Step (supervised c m) (trapped t c' m')
    round :
        {c : Context} {m : Machine} {t : Trap}
        → Step (trapped t c m) (after (handle r spec ecall t c m))

  pub data Reach (s : State) : State → Type 0 where
    here : Reach s s
    next : {u v : State} → Reach s u → Step u v → Reach s v
