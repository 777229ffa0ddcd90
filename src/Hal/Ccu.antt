-- ===== src/Hal/Ccu.antt =====
-- hal/src/ccu.rs: the gate and the reset of a peripheral. The fields of its bus gating register (of the
-- crate d1-pac), which `modify` changes one at a time, are a parameter on a state `D`.
use rustsbi_d.Hal.Time.{Hz}
use rustsbi_d.Base.{Bool, true, false}

pub record Clocks : Type 0 where
  pub psi : Hz
  pub apb1 : Hz

-- The peripherals that the macro `define_gating_reset` names.
pub data Peripheral : Type 0 where
  uart0 spi0 : Peripheral

-- `set_gating p true` passes the clock, `set_rst p true` takes the reset away.
pub record Gates (D : Type 0) : Type 0 where
  pub set_gating : Peripheral → Bool → D → D
  pub set_rst : Peripheral → Bool → D → D

module _ {D : Type 0} (gates : Gates D) where
  abbrev pub gating_pass : Peripheral → D → D
  gating_pass p d = gates.set_gating p true d

  abbrev pub gating_mask : Peripheral → D → D
  gating_mask p d = gates.set_gating p false d

  abbrev pub deassert_reset : Peripheral → D → D
  deassert_reset p d = gates.set_rst p true d

  abbrev pub assert_reset : Peripheral → D → D
  assert_reset p d = gates.set_rst p false d
