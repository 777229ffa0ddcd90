-- ===== src/Hal/Clint.antt =====
-- hal/src/clint.rs: the timer and software interrupt registers of the hart. A 64-bit compare
-- value is two 32-bit registers, and the high one is written first.
use rustsbi_d.Base.{ℕ, ◌+◌, ◌*◌, ◌^◌, ◌≤◌, ◌<◌, ◌≡◌, refl, arith, u32, u64_max, ◌>>>◌}

pub record Clint : Type 0 where
  pub msip : ℕ
  pub mtimecmpl : ℕ
  pub mtimecmph : ℕ
  pub ssip : ℕ
  pub stimecmpl : ℕ
  pub stimecmph : ℕ

-- The two writes of `mtimecmp::write`, each a step of its own.
unfoldable pub mtimecmp_write_high : ℕ → Clint → Clint
mtimecmp_write_high v c = record c { mtimecmph = u32 (v >>> 32) }

unfoldable pub mtimecmp_write_low : ℕ → Clint → Clint
mtimecmp_write_low v c = record c { mtimecmpl = u32 v }

unfoldable pub mtimecmp_write : ℕ → Clint → Clint
unfolding mtimecmp_write_high mtimecmp_write_low
mtimecmp_write v c = mtimecmp_write_low v (mtimecmp_write_high v c)

unfoldable pub stimecmp_write : ℕ → Clint → Clint
stimecmp_write v c =
    let c' = record c { stimecmph = u32 (v >>> 32) } in record c' { stimecmpl = u32 v }

unfoldable pub msip_set : Clint → Clint
msip_set c = record c { msip = 1 }

-- `reset` writes the reset value, 0.
unfoldable pub msip_clear : Clint → Clint
msip_clear c = record c { msip = 0 }

unfoldable pub ssip_set : Clint → Clint
ssip_set c = record c { ssip = 1 }

unfoldable pub ssip_clear : Clint → Clint
ssip_clear c = record c { ssip = 0 }

-- The value that the hardware compares with the time.
abbrev pub mtimecmp : Clint → ℕ
mtimecmp c = c.mtimecmph * 2 ^ 32 + c.mtimecmpl

abbrev pub stimecmp : Clint → ℕ
stimecmp c = c.stimecmph * 2 ^ 32 + c.stimecmpl

-- The registers are 32 bits wide.
pub record IsClint (c : Clint) : Type 0 where
  pub low : c.mtimecmpl < 2 ^ 32
  pub high : c.mtimecmph < 2 ^ 32

-- A 64-bit compare value written is the value compared, and the other registers keep theirs.
pub mtimecmp-write :
    (v : ℕ) (c : Clint)
    → v < 2 ^ 64
    → let d = mtimecmp_write v c in
      (mtimecmp d ≡ v)
      × (stimecmp d ≡ stimecmp c)
      × (d.msip ≡ c.msip)
      × (d.ssip ≡ c.ssip)
      × IsClint d
unfolding mtimecmp_write
mtimecmp-write v c h =
    (omega arith, refl, refl, refl, record { low = omega arith; high = omega arith })

-- When the deadline of the two 32-bit registers is put off, the value compared between the two writes is never before the old
-- deadline.
pub mtimecmp_put_off :
    (v : ℕ) (c : Clint)
    → IsClint c
    → v < 2 ^ 64
    → mtimecmp c ≤ v
    → mtimecmp c ≤ mtimecmp (mtimecmp_write_high v c)
unfolding mtimecmp_write_high
mtimecmp_put_off v c k h le = omega (arith, k.low, k.high)

-- When a deadline is set where none was (all ones, as the trap handler leaves it), the value
-- compared between the two writes is never before the new deadline.
pub mtimecmp_from_idle :
    (v : ℕ) (c : Clint)
    → IsClint c
    → v < 2 ^ 64
    → mtimecmp c ≡ u64_max
    → v ≤ mtimecmp (mtimecmp_write_high v c)
unfolding mtimecmp_write_high
mtimecmp_from_idle v c k h e = omega (arith, k.low, k.high)
