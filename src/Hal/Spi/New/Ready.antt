-- ===== src/Hal/Spi/New/Ready.antt =====
-- hal/src/spi.rs: `Spi::new` brings the controller up, and dropping it takes it down again.
use rustsbi_d.Base.{ℕ, ◌+◌, ◌*◌, ◌≤◌, ◌<◌, ◌≡◌, refl, ap, ◌∙◌, Bool, true, false, some, arith, set}
use rustsbi_d.Hal.Ccu.{Clocks}
use rustsbi_d.Hal.Time.{Hz}
use rustsbi_d.Hal.Spin.{spin, spin-ends}
use rustsbi_d.Hal.Spi.{Factor, abs_diff, actual, dividers}
use rustsbi_d.Hal.Spi.Divider.{number, dividers_optimal, IsFactor}
use rustsbi_d.Hal.Spi.New.{
  Mode, Registers, SpiClk, SpiBgr, Gcr, Fcr, Tcr, spi_clk, gcr_reset, tcr_of, power_up, fifo_resets,
  new, Polarity, idle_low, idle_high, Phase, capture_on_first_transition,
  capture_on_second_transition, Cpol, cpol_high, cpol_low, Cpha, p0, p1, cpol, cpha, master,
}

-- What the registers hold.
pub record View : Type 0 where
  pub clk : SpiClk
  pub bgr : SpiBgr
  pub gcr : Gcr
  pub fcr : Fcr
  pub tcr : Tcr

-- The controller is clocked and out of reset.
pub record IsUp (v : View) : Type 0 where
  pub clocked : v.clk.clk_gating ≡ true
  pub gated : v.bgr.gating ≡ true
  pub running : v.bgr.rst_deasserted ≡ true

-- The writes to the clock unit always hold; those to the controller, and the end of its resets, only when it
-- is up. `delay` bounds the polls until a reset that runs has ended.
pub record IsSpi {D : Type 0} (r : Registers D) (view : D → View) (delay : D → ℕ) (latency : ℕ)
    : Type 0 where
  pub prompt : (d : D) → delay d ≤ latency
  pub clk : (c : SpiClk) (d : D) → view (r.write_spi0_clk c d) ≡ record (view d) { clk = c }
  pub bgr : (b : SpiBgr) (d : D) → view (r.write_spi_bgr b d) ≡ record (view d) { bgr = b }
  pub gcr : (g : Gcr) (d : D) → IsUp (view d) → view (r.write_gcr g d) ≡ record (view d) { gcr = g }
  pub fcr : (f : Fcr) (d : D) → IsUp (view d) → view (r.write_fcr f d) ≡ record (view d) { fcr = f }
  pub tcr : (t : Tcr) (d : D) → IsUp (view d) → view (r.write_tcr t d) ≡ record (view d) { tcr = t }
  pub srst :
      (d : D)
      → IsUp (view d)
      → let (set, d') = r.read_srst d in
        (set ≡ true → (view d' ≡ view d) × (delay d' < delay d))
        × (set ≡ false → view d' ≡ record (view d) { gcr = record (view d).gcr { srst = false } })
  pub fifo :
      (d : D)
      → IsUp (view d)
      → let (set, d') = fifo_resets r d in
        (set ≡ true → (view d' ≡ view d) × (delay d' < delay d))
        × (set ≡ false
            → view d' ≡ record (view d) { fcr = record { tf_rst = false; rf_rst = false } })

-- The number of the mode that a transfer register sets, as the controller's manual has it: 2 when the clock idles high
-- (CPOL 1, active low), and 1 more when the second edge captures (CPHA 1).
abbrev cpol_number : Cpol → ℕ
cpol_number cpol_high = 0
cpol_number cpol_low = 2

abbrev cpha_number : Cpha → ℕ
cpha_number p0 = 0
cpha_number p1 = 1

abbrev pub spi_mode : Tcr → ℕ
spi_mode t = cpol_number t.cpol + cpha_number t.cpha

-- The number that a mode of embedded-hal has.
abbrev pub number_of : Polarity → Phase → ℕ
number_of idle_low capture_on_first_transition = 0
number_of idle_low capture_on_second_transition = 1
number_of idle_high capture_on_first_transition = 2
number_of idle_high capture_on_second_transition = 3

-- What a bus in the mode of this number needs of the controller, with the clock divided by `n` and `m + 1`.
pub record IsReady (n : Factor) (m mode : ℕ) (v : View) : Type 0 where
  pub up : IsUp v
  pub divided : (v.clk.factor_n ≡ n) × (v.clk.factor_m ≡ m)
  pub soft_reset_over : v.gcr.srst ≡ false
  pub fifo_reset_over : (v.fcr.tf_rst ≡ false) × (v.fcr.rf_rst ≡ false)
  pub enabled : v.gcr.en ≡ true
  pub is_master : v.gcr.mode ≡ master
  pub in_mode : spi_mode v.tcr ≡ mode

-- The registers after `new`, but for those of the dividers and the mode what they were at the start does not
-- matter.
abbrev ready : Factor → ℕ → Mode → View
ready n m mode = record {
  clk = spi_clk n m;
  bgr = record { rst_deasserted = true; gating = true };
  gcr = record gcr_reset { srst = false };
  fcr = record { tf_rst = false; rf_rst = false };
  tcr = tcr_of mode;
}

abbrev with_bgr : SpiBgr → View → View
with_bgr b v = record v { bgr = b }

abbrev with_gcr : Gcr → View → View
with_gcr g v = record v { gcr = g }

abbrev with_fcr : Fcr → View → View
with_fcr f v = record v { fcr = f }

abbrev with_tcr : Tcr → View → View
with_tcr t v = record v { tcr = t }

-- The soft reset is over.
abbrev rested : View → View
rested v = with_gcr (record v.gcr { srst = false }) v

is_up :
    {c : SpiClk} {g : Gcr} {f : Fcr} {t : Tcr}
    → c.clk_gating ≡ true
    → IsUp (record {
      clk = c;
      bgr = record { rst_deasserted = true; gating = true };
      gcr = g;
      fcr = f;
      tcr = t;
    })
is_up e = record { clocked = e; gated = refl; running = refl }

in_mode_lem :
    (polarity : Polarity) (phase : Phase)
    → cpol_number (cpol polarity) + cpha_number (cpha phase) ≡ number_of polarity phase
in_mode_lem idle_low capture_on_first_transition = refl
in_mode_lem idle_low capture_on_second_transition = refl
in_mode_lem idle_high capture_on_first_transition = refl
in_mode_lem idle_high capture_on_second_transition = refl

ready-IsReady :
    (n : Factor) (m : ℕ) (mode : Mode) (v : View)
    → v ≡ ready n m mode
    → IsReady n m (number_of mode.polarity mode.phase) v
ready-IsReady n m mode v e = rw e (record {
  up = is_up refl;
  divided = (refl, refl);
  soft_reset_over = refl;
  fifo_reset_over = (refl, refl);
  enabled = refl;
  is_master = refl;
  in_mode = in_mode_lem mode.polarity mode.phase;
})

module _ {D : Type 0} (r : Registers D) (view : D → View) (delay : D → ℕ) (latency : ℕ)
    (is : IsSpi r view delay latency) where
  abbrev upped : Factor → ℕ → View → View
  upped n m v = record v {
    clk = spi_clk n m;
    bgr = record { rst_deasserted = true; gating = true };
    gcr = gcr_reset;
  }

  power_up-view : (n : Factor) (m : ℕ) (d : D) → view (power_up r n m d) ≡ upped n m (view d)
  power_up-view n m d =
      let b : SpiBgr = record { rst_deasserted = true; gating = true } in
      let d1 = r.write_spi0_clk (spi_clk n m) d in
      let d2 = r.write_spi_bgr b d1 in
      let e : view d2 ≡ record (view d) { clk = spi_clk n m; bgr = b } =
        is.bgr b d1 ∙ ap (with_bgr b) (is.clk (spi_clk n m) d) in
      let up : IsUp (view d2) = rw e (is_up refl) in
      is.gcr gcr_reset d2 up ∙ ap (with_gcr gcr_reset) e

  -- A loop that waits for a reset ends with what the reset does.
  reset-ends :
      (test : D → Bool × D) (done : View → View)
      → ((d : D)
          → IsUp (view d)
          → let (set, d') = test d in
            (set ≡ true → (view d' ≡ view d) × (delay d' < delay d))
            × (set ≡ false → view d' ≡ done (view d)))
      → (polls : ℕ) (d : D) → latency < polls
      → IsUp (view d)
      → (d' : D) × (spin test polls d ≡ some d') × (view d' ≡ done (view d))
  reset-ends test done law polls d enough up =
      spin-ends test (λ d0. view d0 ≡ view d) (λ d0. view d0 ≡ done (view d)) delay
        (λ d0 held e. let (same, less) = (law d0 (rw held up)).0 e in (same ∙ held, less))
        (λ d0 held e. (law d0 (rw held up)).1 e ∙ ap done held) polls d refl
        (omega (arith, is.prompt d, enough))

  new_chain :
      (polls m : ℕ) (n : Factor) (mode : Mode) (freq : Hz) (clocks : Clocks) (d d1 d2 : D)
      → dividers clocks.psi.hertz freq.hertz ≡ some (n, m)
      → spin r.read_srst polls (power_up r n m d) ≡ some d1
      → spin (fifo_resets r) polls (r.write_fcr (record { tf_rst = true; rf_rst = true }) d1)
        ≡ some d2
      → new r polls mode freq clocks d ≡ some (r.write_tcr (tcr_of mode) d2)
  unfolding new
  new_chain polls m n mode freq clocks d d1 d2 e0 e1 e2 = rw (e0, e1, e2) refl

  pub new_up :
      (polls m : ℕ) (n : Factor) (mode : Mode) (freq : Hz) (clocks : Clocks) (d : D)
      → latency < polls
      → dividers clocks.psi.hertz freq.hertz ≡ some (n, m)
      → (d' : D) × (new r polls mode freq clocks d ≡ some d')
        × IsReady n m (number_of mode.polarity mode.phase) (view d')
  new_up polls m n mode freq clocks d enough found =
      let on : Fcr = record { tf_rst = true; rf_rst = true } in
      let off : Fcr = record { tf_rst = false; rf_rst = false } in
      let e0 = power_up-view n m d in
      let (d1, s1, e1) =
        reset-ends r.read_srst rested is.srst polls (power_up r n m d) enough
          (rw e0 (is_up refl)) in
      let v1 = e1 ∙ ap rested e0 in
      let e2 = is.fcr on d1 (rw v1 (is_up refl)) ∙ ap (with_fcr on) v1 in
      let (d2, s2, e3) =
        reset-ends (fifo_resets r) (with_fcr off) is.fifo polls (r.write_fcr on d1) enough
          (rw e2 (is_up refl)) in
      let v3 = e3 ∙ ap (with_fcr off) e2 in
      (
        r.write_tcr (tcr_of mode) d2,
        new_chain polls m n mode freq clocks d d1 d2 found s1 s2,
        ready-IsReady n m mode (view (r.write_tcr (tcr_of mode) d2))
            (is.tcr (tcr_of mode) d2 (rw v3 (is_up refl)) ∙ ap (with_tcr (tcr_of mode)) v3),
      )

-- With a controller that keeps `IsSpi`, more polls than its latency, and a wanted frequency below twice the
-- source, `new` ends, whatever the registers held: the clock runs through dividers no pair of which comes
-- closer to the wanted frequency, the clock unit lets it through and the reset line is released, both resets are
-- over, and the controller is the enabled master of a bus in the mode asked for: the clock's idle level and the
-- capturing edge that the manual gives its bits are those of embedded-hal's mode.
pub new-IsReady :
    {D : Type 0} (r : Registers D) (view : D → View) (delay : D → ℕ) (latency polls n m : ℕ)
    (mode : Mode) (freq : Hz) (clocks : Clocks) (d : D)
    → IsSpi r view delay latency
    → latency < polls
    → 0 < clocks.psi.hertz
    → freq.hertz < 2 * clocks.psi.hertz
    → IsFactor n
    → 1 ≤ m
    → m < 17
    → (f : Factor) × (k : ℕ) × (d' : D) × (new r polls mode freq clocks d ≡ some d')
      × IsReady f k (number_of mode.polarity mode.phase) (view d')
      × (abs_diff (actual clocks.psi.hertz freq.hertz (number f) (k + 1)) freq.hertz
          ≤ abs_diff (actual clocks.psi.hertz freq.hertz n m) freq.hertz)
new-IsReady r view delay latency polls n m mode freq clocks d is enough pos near g lo hi =
    let (f, k, found, _, best) =
      dividers_optimal clocks.psi.hertz freq.hertz n m pos near g lo hi in
    let (d', goes, e) = new_up r view delay latency is polls k f mode freq clocks d enough found in
    (f, k, d', goes, e, best)
