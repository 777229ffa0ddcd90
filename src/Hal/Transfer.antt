-- ===== src/Hal/Transfer.antt =====
-- hal/src/spi.rs, `Spi::transfer`: the bytes out, the dummy bytes and the bytes in. The registers of the
-- controller (of the crate d1-pac), with the bus behind them, are a parameter on a state `D`; a loop
-- that would spin on, or the assertion at the end when it fails, is `none`.
pub mod Bus
pub mod Exchange
pub mod Loops
use rustsbi_d.Hal.Spin.{spin}
use rustsbi_d.Base.{
  ℕ, zero, suc, ◌+◌, ◌-◌, ◌*◌, ◌/◌, ◌%◌, ◌^◌, ◌≤◌, ◌<◌, min, max, bit_and, bit_or, ◌≡◌, refl, sym,
  ap, ◌∙◌, fun_ext, ◌≢◌, ◌↔◌, ◌⊎◌, inl, inr, Bool, true, false, not, ◌&&◌, ◌||◌, Option, none, some,
  List, [], ◌∷◌, ◌++◌, map, arith, ltb, leb, ◌==◌, if◌then◌else◌, Bool-cases, Option-cases, ltb→lt,
  lt→ltb, le→ltb_false, ==_iff, length, get_elem?, get_or, set, take, drop, replicate,
  length-append, length-set, get_or-set_self, get_or-set_ne, length-replicate, u8, u32, u64,
  u32_max, u64_max, ◌<<<◌, ◌>>>◌, complement, ◌>>=◌,
}

-- The registers of the controller that `transfer` writes and reads.
pub record Port (D : Type 0) : Type 0 where
  pub write_mbc : ℕ → D → D
  pub write_mtc : ℕ → D → D
  pub write_stc : ℕ → D → D
  pub write_dbc : ℕ → D → D
  pub set_xch : D → D
  pub tf_cnt : D → ℕ × D
  pub rf_cnt : D → ℕ × D
  pub write_txd : ℕ → D → D
  pub read_rxd : D → ℕ × D
  pub xch_is_clear : D → Bool × D

module _ {D : Type 0} (port : Port D) where
  -- Waits until fewer than 64 bytes are in the FIFO to the bus.
  abbrev pub tf_full : D → Bool × D
  tf_full d = let (cnt, d') = port.tf_cnt d in (leb 64 cnt, d')

  unfoldable pub wait_tf : ℕ → D → Option D
  wait_tf polls d = spin tf_full polls d

  -- Waits until a byte is in the FIFO from the bus.
  abbrev pub rf_empty : D → Bool × D
  rf_empty d = let (cnt, d') = port.rf_cnt d in (cnt == 0, d')

  unfoldable pub wait_rf : ℕ → D → Option D
  wait_rf polls d = spin rf_empty polls d

  unfoldable pub send : ℕ → List ℕ → D → Option D
  send polls [] d = some d
  send polls (b ∷ bs) d = do d1 ← wait_tf polls d; send polls bs (port.write_txd b d1)

  -- `count` bytes come in, in order.
  unfoldable pub receive : ℕ → ℕ → D → Option (List ℕ × D)
  receive polls zero d = some ([], d)
  receive polls (suc count) d = do
    d1 ← wait_rf polls d
    let (b, d2) = port.read_rxd d1
    rest ← receive polls count d2
    some (b ∷ rest.0, rest.1)

  -- The transfer is configured and started. The second count of `spi_bcc` is a byte.
  unfoldable pub configure : ℕ → ℕ → ℕ → D → D
  configure lx ld lr d = port.set_xch (
      port.write_dbc (u8 ld)
        (port.write_stc lx (port.write_mtc lx (port.write_mbc (u32 (lx + ld + lr)) d))))

  unfoldable pub transfer : ℕ → List ℕ → ℕ → ℕ → D → Option (List ℕ × D)
  transfer polls x dummy count d = do
    let lx = u32 (length x)
    let ld = u32 dummy
    d1 ← send polls x (configure lx ld (u32 count) d)
    skipped ← receive polls (u32 (lx + ld)) d1
    r ← receive polls count skipped.1
    let (clear, d2) = port.xch_is_clear r.1
    if clear then some (r.0, d2) else none
