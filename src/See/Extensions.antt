-- ===== src/See/Extensions.antt =====
-- see/src/extensions.rs: the timer, the IPI and the console that the SEE offers to rustsbi. A reset only
-- lets the arrow walk.
use rustsbi_d.Base.{
  ℕ, zero, suc, ◌^◌, ◌<◌, ◌≡◌, ap, ◌∙◌, Bool, Option, none, some, arith, if◌then◌else◌,
}
use rustsbi_d.Hal.Clint.{mtimecmp, mtimecmp_write, msip_set, mtimecmp-write}
use rustsbi_d.See.Riscv.{Riscv, IsRiscv, SbiRet, bits}
use rustsbi_d.See.Execute.{Machine}

module _ {U : Type 0} (is_full : U → Bool × U) (thr_write : ℕ → U → U) where
  -- The spin loop, for `polls` rounds at most.
  unfoldable pub putchar : ℕ → ℕ → U → Option U
  putchar zero ch u = none
  putchar (suc polls) ch u =
      let (full, u') = is_full u in
      let again = putchar polls ch u' in if full then again else some (thr_write ch u')

unfoldable pub set_timer : Riscv → ℕ → Machine → Machine
set_timer r stime_value m = record m {
  clint = mtimecmp_write stime_value m.clint;
  mip = r.clear_stimer m.mip;
}

-- `hart_0` is `hart_mask.has_bit(0)`.
unfoldable pub send_ipi_many : Bool → Machine → SbiRet × Machine
send_ipi_many hart_0 m =
    (record { error = 0; value = 0 }, if hart_0 then record m { clint = msip_set m.clint } else m)

-- Setting the timer to a 64-bit value sets the deadline, takes back the supervisor's pending timer
-- interrupt, keeps its software interrupt as it was, and leaves the machine's own request alone.
pub set_timer_lem :
    (r : Riscv) (stime_value : ℕ) (m : Machine)
    → IsRiscv r
    → stime_value < 2 ^ 64
    → let m' = set_timer r stime_value m in
      (mtimecmp m'.clint ≡ stime_value)
      × (bits 5 1 m'.mip ≡ 0)
      × (bits 1 1 m'.mip ≡ bits 1 1 m.mip)
      × (m'.clint.msip ≡ m.clint.msip)
unfolding set_timer
set_timer_lem r v m k h =
    let (deadline, _, soft, _, _) = mtimecmp-write v m.clint h in
    (
      deadline,
      ap (bits 5 1) (k.stip_clear m.mip) ∙ omega arith,
      ap (bits 1 1) (k.stip_clear m.mip) ∙ omega arith,
      soft,
    )
