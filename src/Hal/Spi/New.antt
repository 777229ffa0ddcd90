-- ===== src/Hal/Spi/New.antt =====
-- hal/src/spi.rs: the rest of `Spi::new`, and `drop`. The registers of the controller and of the clock unit
-- (of the crate d1-pac) are a parameter on a state `D`; a field is written by the name of its variant.
pub mod Ready
use rustsbi_d.Base.{ℕ, Bool, true, not, ◌&&◌, Option, some, ◌>>=◌}
use rustsbi_d.Hal.Ccu.{Clocks, Gates, spi0, assert_reset, gating_mask}
use rustsbi_d.Hal.Time.{Hz}
use rustsbi_d.Hal.Spi.{Factor, dividers}
use rustsbi_d.Hal.Spin.{spin}

-- `Polarity`, `Phase` and `Mode` of the crate embedded-hal.
pub data Polarity : Type 0 where
  idle_low idle_high : Polarity

pub data Phase : Type 0 where
  capture_on_first_transition capture_on_second_transition : Phase

pub record Mode : Type 0 where
  pub polarity : Polarity
  pub phase : Phase

abbrev pub mode_3 : Mode
mode_3 = record { polarity = idle_high; phase = capture_on_second_transition }

pub data Cpol : Type 0 where
  cpol_high cpol_low : Cpol

pub data Cpha : Type 0 where
  p0 p1 : Cpha

abbrev pub cpol : Polarity → Cpol
cpol idle_high = cpol_low
cpol idle_low = cpol_high

abbrev pub cpha : Phase → Cpha
cpha capture_on_first_transition = p0
cpha capture_on_second_transition = p1

pub data ClkSrc : Type 0 where
  pll_peri_1x : ClkSrc

pub record SpiClk : Type 0 where
  pub clk_src_sel : ClkSrc
  pub factor_n : Factor
  pub factor_m : ℕ
  pub clk_gating : Bool

pub record SpiBgr : Type 0 where
  pub rst_deasserted : Bool
  pub gating : Bool

pub data TpEn : Type 0 where
  stop_when_full : TpEn

pub data GcrMode : Type 0 where
  slave master : GcrMode

pub record Gcr : Type 0 where
  pub srst : Bool
  pub tp_en : TpEn
  pub mode : GcrMode
  pub en : Bool

pub record Fcr : Type 0 where
  pub tf_rst : Bool
  pub rf_rst : Bool

pub data SsOwner : Type 0 where
  spi_controller : SsOwner

pub data SsSel : Type 0 where
  ss0 : SsSel

pub data Spol : Type 0 where
  spol_low : Spol

pub data Sample : Type 0 where
  sample_normal sample_delay : Sample

pub record Tcr : Type 0 where
  pub ss_owner : SsOwner
  pub ss_sel : SsSel
  pub spol : Spol
  pub cpol : Cpol
  pub cpha : Cpha
  pub sdm : Sample
  pub sdc : Sample
  pub sdc1 : Sample

-- The registers: `read_srst` is the bit `srst` of the control register.
pub record Registers (D : Type 0) : Type 0 where
  pub write_spi0_clk : SpiClk → D → D
  pub write_spi_bgr : SpiBgr → D → D
  pub write_gcr : Gcr → D → D
  pub read_srst : D → Bool × D
  pub write_fcr : Fcr → D → D
  pub read_fcr : D → Fcr × D
  pub write_tcr : Tcr → D → D

abbrev pub spi_clk : Factor → ℕ → SpiClk
spi_clk n m = record { clk_src_sel = pll_peri_1x; factor_n = n; factor_m = m; clk_gating = true }

abbrev pub gcr_reset : Gcr
gcr_reset = record { srst = true; tp_en = stop_when_full; mode = master; en = true }

abbrev pub tcr_of : Mode → Tcr
tcr_of mode = record {
  ss_owner = spi_controller;
  ss_sel = ss0;
  spol = spol_low;
  cpol = cpol mode.polarity;
  cpha = cpha mode.phase;
  sdm = sample_delay;
  sdc = sample_delay;
  sdc1 = sample_normal;
}

module _ {D : Type 0} (r : Registers D) where
  -- Steps 2 and 3 up to the first loop: the clock, the reset line, the soft reset.
  abbrev pub power_up : Factor → ℕ → D → D
  power_up n m d = r.write_gcr gcr_reset (
      r.write_spi_bgr (record { rst_deasserted = true; gating = true })
        (r.write_spi0_clk (spi_clk n m) d))

  -- The test of the second loop.
  abbrev pub fifo_resets : D → Bool × D
  fifo_resets d = let (fcr, d') = r.read_fcr d in (not (not fcr.tf_rst && not fcr.rf_rst), d')

  -- `none` is the `unreachable!` of the dividers, or a loop that would spin on.
  unfoldable pub new : ℕ → Mode → Hz → Clocks → D → Option D
  new polls mode freq clocks d = do
    factors ← dividers clocks.psi.hertz freq.hertz
    d1 ← spin r.read_srst polls (power_up factors.0 factors.1 d)
    d2 ← spin fifo_resets polls (r.write_fcr (record { tf_rst = true; rf_rst = true }) d1)
    some (r.write_tcr (tcr_of mode) d2)

-- `free` drops the stub, too, and gives back what it holds.
abbrev pub drop_stub : {D : Type 0} → Gates D → D → D
drop_stub gates d = gating_mask gates spi0 (assert_reset gates spi0 d)
