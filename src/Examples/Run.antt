-- ===== src/Examples/Run.antt =====
-- An example for the run of the supervisor: it starts, changes its registers, and a timer interrupt is handled.
use rustsbi_d.Base.{ℕ, refl, List, arith, replicate}
use rustsbi_d.See.Riscv.{SbiRet}
use rustsbi_d.See.Execute.{Machine, Context, machine_timer, handle, prepare}
use rustsbi_d.See.Execute.Run.{Runs, after, run, round, here, next}
use rustsbi_d.See.Execute.Run.Invariant.{IsHeld, Reach-IsHeld}
use rustsbi_d.Examples.Models.{riscv, riscv-IsRiscv, spec}

abbrev sbi : ℕ → ℕ → List ℕ → Machine → SbiRet × Machine
sbi e f args m = (record { error = 0; value = 5 }, m)

abbrev pub machine : Machine
machine = record {
  mstatus = 0;
  mtval = 0;
  scause = 0;
  stval = 0;
  sepc = 0;
  stvec = 0x80200000;
  mip = 0;
  mie = 0;
  mideleg = 0;
  medeleg = 0x100;
  mtvec = 0;
  time = 7;
  clint = record { msip = 0; mtimecmpl = 7; mtimecmph = 1; ssip = 0; stimecmpl = 0; stimecmph = 0 };
}

-- The machine as it was prepared, and a trap from user mode with all registers at 9.
abbrev first : Machine
first = (prepare riscv 0x40000100 0x40200000 0x41000000 machine).1

abbrev later : Context
later = record { msp = 0; x = replicate 31 9; mstatus = 0; mepc = 0x40200010 }

ran : Runs (prepare riscv 0x40000100 0x40200000 0x41000000 machine).0 first later first
ran = record {
  regs = refl;
  from_s_or_u = omega arith;
  mideleg = refl;
  medeleg = refl;
  mtvec = refl;
}

Reach-IsHeld_example :
    IsHeld 0x40000100 first.medeleg (after (handle riscv spec sbi machine_timer later first))
Reach-IsHeld_example =
    Reach-IsHeld riscv spec sbi 0x40000100 0x40200000 0x41000000 machine
      (after (handle riscv spec sbi machine_timer later first)) riscv-IsRiscv
      (record {
        mideleg = λ e f args m. refl;
        medeleg = λ e f args m. refl;
        mtvec = λ e f args m. refl;
      })
      (next (next here (run machine_timer ran)) round)
