-- ===== src/Examples/See.antt =====
-- Examples for the parts in See.
use rustsbi_d.Base.{
  ℕ, ◌+◌, ◌*◌, ◌^◌, ◌<◌, ◌≡◌, refl, ◌↔◌, inl, inr, true, false, some, List, arith, ◌==◌,
  if◌then◌else◌, set, replicate, u64_max,
}
use rustsbi_d.Hal.Clint.{mtimecmp}
use rustsbi_d.See.Cpu.{Cpu, run, mscratch, mstatus, mepc}
use rustsbi_d.See.Switch.{m_to_s, s_to_m, a0}
use rustsbi_d.See.Switch.Laws.{HasRoom, m_to_s_lem, s_to_m-m_to_s}
use rustsbi_d.See.Riscv.{bits, SbiRet}
use rustsbi_d.See.Execute.{
  leaves, Machine, Context, reg, handle, handle_ecall, emulate_rdtime, do_transfer_trap,
  machine_timer, supervisor_env_call, resume,
}
use rustsbi_d.See.Execute.Rdtime.{rdtime, emulate_rdtime_iff, emulate_rdtime_runs}
use rustsbi_d.See.Execute.Ecall.{Leaves, answer, handle_ecall-Leaves_iff, handle_ecall_returns}
use rustsbi_d.See.Execute.Transfer.{IsDelivered, do_transfer_trap-IsDelivered}
use rustsbi_d.See.Execute.Loop.{handle_timer, handle-Leaves}
use rustsbi_d.Examples.Models.{riscv, riscv-IsRiscv, spec, spec-IsSbiSpec}

abbrev cpu : Cpu
cpu = record {
  x = λ n. if n == 2 then 4096 else if n == 10 then 8192 else n;
  mem = λ p. p;
  csr = λ c. 0;
}

cpu-HasRoom : HasRoom cpu (cpu.x a0)
cpu-HasRoom = record {
  stack_low = omega arith;
  stack_high = omega arith;
  apart = inr (omega arith);
}

m_to_s_lem_example :
    let s = run m_to_s cpu in
    (s.x 5 ≡ 8192 + 5 * 8)
    × (s.csr mstatus ≡ 8192 + 32 * 8)
    × (s.csr mepc ≡ 8192 + 33 * 8)
    × (s.csr mscratch ≡ 8192)
    × (s.mem 64 ≡ 64)
m_to_s_lem_example =
    m_to_s_lem cpu 5 64 cpu-HasRoom (omega arith) (omega arith) (inl (omega arith)) (omega arith)

-- The supervisor sets all its registers to 7.
abbrev trapped : Cpu
trapped = record (run m_to_s cpu) { x = λ n. 7 }

s_to_m-m_to_s_example :
    let back = run s_to_m trapped in
    (back.x 9 ≡ 9)
    × (back.mem (8192 + 9 * 8) ≡ 7)
    × (back.mem (8192 + 32 * 8) ≡ trapped.csr mstatus)
    × (back.mem (8192 + 33 * 8) ≡ trapped.csr mepc)
s_to_m-m_to_s_example =
    s_to_m-m_to_s cpu trapped 9 cpu-HasRoom
      (record { scratch = refl; first = refl; stack = λ n _ _. refl }) (omega arith) (omega arith)

abbrev machine : Machine
machine = record {
  mstatus = 2;
  mtval = 0;
  scause = 0;
  stval = 0;
  sepc = 0;
  stvec = 0x40201000;
  mip = 0;
  mie = 0;
  mideleg = 0;
  medeleg = 0;
  mtvec = 0;
  time = 77;
  clint = record { msip = 1; mtimecmpl = 7; mtimecmph = 1; ssip = 0; stimecmpl = 0; stimecmph = 0 };
}

-- The supervisor, in S mode, asks for the hart to stop.
abbrev context : Context
context = record {
  msp = 0;
  x = set (replicate 31 0) 16 0x48534D;
  mstatus = 2 ^ 11;
  mepc = 0x40200000;
}

abbrev stopping : Context
stopping = record context { x = set context.x 15 1 }

abbrev ecall : ℕ → ℕ → List ℕ → Machine → SbiRet × Machine
ecall e f args m = (record { error = 0; value = f }, m)

do_transfer_trap-IsDelivered_example :
    (c' : Context) × (m' : Machine) × (do_transfer_trap riscv 2 context machine ≡ some (c', m'))
    × IsDelivered riscv 2 1 context machine c' m'
do_transfer_trap-IsDelivered_example =
    do_transfer_trap-IsDelivered riscv 2 context machine riscv-IsRiscv (omega arith)

handle_ecall-Leaves_iff_example :
    ((handle_ecall spec ecall stopping machine).2 ≡ false)
    ↔ (((answer spec ecall stopping machine).0.error ≡ 0) × Leaves spec 0x48534D 1 0)
handle_ecall-Leaves_iff_example = handle_ecall-Leaves_iff spec ecall stopping machine spec-IsSbiSpec

handle_ecall_returns_example :
    let (c', m', _) = handle_ecall spec ecall context machine in
    (m' ≡ machine) × (c'.mepc ≡ 0x40200004) × (c'.mstatus ≡ 2 ^ 11) × (reg 17 c' ≡ 0x48534D)
unfolding handle_ecall leaves
handle_ecall_returns_example =
    handle_ecall_returns spec ecall context machine 17 refl (omega arith) (omega arith) refl

emulate_rdtime_iff_example :
    ((emulate_rdtime 77 (rdtime 5) context).1 ≡ true)
    ↔ ((rd : ℕ) × (rd < 32) × (rdtime 5 ≡ rdtime rd))
emulate_rdtime_iff_example = emulate_rdtime_iff 77 (rdtime 5) context (omega arith)

emulate_rdtime_runs_example :
    let c' = (emulate_rdtime 77 (rdtime 5) context).0 in
    (c'.mepc ≡ 0x40200004) × (c'.mstatus ≡ 2 ^ 11) × (reg 5 c' ≡ 77)
emulate_rdtime_runs_example =
    emulate_rdtime_runs 77 5 5 context (omega arith) refl (omega arith) (omega arith)

handle_timer_example :
    (m' : Machine) × (handle riscv spec ecall machine_timer context machine ≡ resume context m')
    × (mtimecmp m'.clint ≡ u64_max)
    × (bits 5 1 m'.mip ≡ 1)
    × (bits 1 1 m'.mip ≡ bits 1 1 0)
handle_timer_example = handle_timer riscv spec ecall context machine riscv-IsRiscv

handle-Leaves_example :
    (supervisor_env_call ≡ supervisor_env_call)
    × ((answer spec ecall stopping machine).0.error ≡ 0)
    × Leaves spec 0x48534D 1 0
unfolding handle handle_ecall leaves
handle-Leaves_example =
    handle-Leaves riscv spec ecall supervisor_env_call stopping stopping machine machine
      spec-IsSbiSpec refl
