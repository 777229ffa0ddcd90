-- ===== src/Examples/Setup.antt =====
-- A model of the registers that `Spi::new` writes, and the set-up of the loader on it.
use rustsbi_d.Base.{ℕ, ◌+◌, ◌/◌, ◌≤◌, ◌<◌, ◌≡◌, refl, inl, Bool, true, false, some, arith, set}
use rustsbi_d.Hal.Ccu.{Clocks}
use rustsbi_d.Hal.Gpio.{Store}
use rustsbi_d.Hal.Gpio.Mode.{mode_field}
use rustsbi_d.Spl.Setup.{setup, miso}
use rustsbi_d.Spl.Setup.Ready.{setup-IsReady}
use rustsbi_d.Hal.Time.{hz}
use rustsbi_d.Hal.Spi.{n2, Factor, n4, abs_diff, actual}
use rustsbi_d.Hal.Spi.Divider.{number}
use rustsbi_d.Hal.Spi.New.{Registers, Fcr, gcr_reset, tcr_of, spi_clk, mode_3, new, fifo_resets}
use rustsbi_d.Hal.Spi.New.Ready.{View, IsSpi, IsUp, IsReady, new-IsReady}

-- A reset that was just asked for lasts one poll longer.
abbrev Spi0 : Type 0
Spi0 = View × Bool

abbrev poll_srst : Spi0 → Bool × Spi0
poll_srst (v, true) = (true, (v, false))
poll_srst (v, false) = (false, (record v { gcr = record v.gcr { srst = false } }, false))

abbrev poll_fcr : Spi0 → Fcr × Spi0
poll_fcr (v, true) = (record { tf_rst = false; rf_rst = true }, (v, false))
poll_fcr (v, false) =
    let off : Fcr = record { tf_rst = false; rf_rst = false } in
    (off, (record v { fcr = off }, false))

abbrev registers : Registers Spi0
registers = record {
  write_spi0_clk = λ c d. (record d.0 { clk = c }, d.1);
  write_spi_bgr = λ b d. (record d.0 { bgr = b }, d.1);
  write_gcr = λ g d. (record d.0 { gcr = g }, true);
  read_srst = poll_srst;
  write_fcr = λ f d. (record d.0 { fcr = f }, true);
  read_fcr = poll_fcr;
  write_tcr = λ t d. (record d.0 { tcr = t }, d.1);
}

abbrev reset_delay : Spi0 → ℕ
reset_delay (v, true) = 1
reset_delay (v, false) = 0

reset_prompt : (d : Spi0) → reset_delay d ≤ 1
reset_prompt (v, true) = omega arith
reset_prompt (v, false) = omega arith

registers_srst :
    (d : Spi0)
    → IsUp d.0
    → let (set, d') = poll_srst d in
      (set ≡ true → (d'.0 ≡ d.0) × (reset_delay d' < reset_delay d))
      × (set ≡ false → d'.0 ≡ record d.0 { gcr = record d.0.gcr { srst = false } })
registers_srst (v, true) up = (λ e. (refl, omega arith), λ e. absurd (cc e))
registers_srst (v, false) up = (λ e. absurd (cc e), λ e. refl)

registers_fifo :
    (d : Spi0)
    → IsUp d.0
    → let (set, d') = fifo_resets registers d in
      (set ≡ true → (d'.0 ≡ d.0) × (reset_delay d' < reset_delay d))
      × (set ≡ false → d'.0 ≡ record d.0 { fcr = record { tf_rst = false; rf_rst = false } })
registers_fifo (v, true) up = (λ e. (refl, omega arith), λ e. absurd (cc e))
registers_fifo (v, false) up = (λ e. absurd (cc e), λ e. refl)

registers-IsSpi : IsSpi registers (λ d. d.0) reset_delay 1
registers-IsSpi = record {
  prompt = reset_prompt;
  clk = λ c d. refl;
  bgr = λ b d. refl;
  gcr = λ g d up. refl;
  fcr = λ f d up. refl;
  tcr = λ t d up. refl;
  srst = registers_srst;
  fifo = registers_fifo;
}

abbrev clocks : Clocks
clocks = record { psi = hz 600000000; apb1 = hz 24000000 }

-- After power on.
abbrev dark : Spi0
dark = (
  record {
    clk = record (spi_clk n4 3) { clk_gating = false };
    bgr = record { rst_deasserted = false; gating = false };
    gcr = record gcr_reset { srst = false; en = false };
    fcr = record { tf_rst = false; rf_rst = false };
    tcr = tcr_of mode_3;
  },
  false,
)

new-IsReady_example :
    (f : Factor) × (k : ℕ) × (d' : Spi0) × (new registers 2 mode_3 (hz 100000000) clocks dark
      ≡ some d')
    × IsReady f k 3 d'.0
    × (abs_diff (actual 600000000 100000000 (number f) (k + 1)) 100000000
        ≤ abs_diff (actual 600000000 100000000 1 6) 100000000)
new-IsReady_example =
    new-IsReady registers (λ d. d.0) reset_delay 1 2 1 6 mode_3 (hz 100000000) clocks dark
      registers-IsSpi (omega arith) (omega arith) (omega arith) (inl refl) (omega arith)
      (omega arith)

-- Every pin is disabled.
abbrev reset_pins : Store
reset_pins a = 0xFFFFFFFF

setup-IsReady_example :
    (s' : Store) × (d' : Spi0) × (setup 0x02000000 registers 2 (reset_pins, dark) ≡ some (s', d'))
    × IsReady n2 2 3 d'.0
    × (600000000 / 2 / (2 + 1) ≡ 100000000)
    × (mode_field 0x02000000 miso s' ≡ 2)
setup-IsReady_example =
    setup-IsReady 0x02000000 registers (λ d. d.0) reset_delay 1 2 reset_pins dark miso
      registers-IsSpi (omega arith) (λ a. omega arith)
      (record { port_ge = omega arith; num_lt = omega arith })
