-- ===== src/Hal/Transfer/Bus.antt =====
-- hal/src/spi.rs, `Spi::transfer`: what the code relies on of the SPI controller, and the transfer as one
-- exchange with the chip behind it.
use rustsbi_d.Base.{
  ℕ, ◌+◌, ◌-◌, ◌^◌, ◌≤◌, ◌<◌, ◌≡◌, true, Option, none, some, List, [], ◌∷◌, ◌++◌, length,
}
use rustsbi_d.Hal.Transfer.{Port}

-- A burst that runs: the counters it was started with, the bytes put into the FIFO to the bus, and how many
-- bytes were taken from the other.
pub record Burst : Type 0 where
  pub total : ℕ
  pub out : ℕ
  pub single : ℕ
  pub dummy : ℕ
  pub sent : List ℕ
  pub taken : ℕ

module _ {D C : Type 0} (port : Port D) where
  -- `burst` is the burst that runs, `chip` the state of the chip before it. For the bytes sent and the
  -- dummy bytes, `wire` gives the byte that comes in at each position of a burst, and `next` the chip
  -- after a burst that reads so many bytes. `delay` bounds the polls until a byte has come in.
  pub record IsController (burst : D → Option Burst) (chip : D → C) (wire : List ℕ → ℕ → C → ℕ → ℕ)
      (next : List ℕ → ℕ → ℕ → C → C) (delay : D → ℕ) (latency : ℕ) : Type 0 where
    pub prompt : (d : D) → delay d ≤ latency
    pub begins :
        (total out dummy : ℕ) (d : D)
        → burst d ≡ none
        → total < 2 ^ 24
        → out + dummy ≤ total
        → dummy < 2 ^ 4
        → let d' = port.set_xch (
            port.write_dbc dummy
              (port.write_stc out (port.write_mtc out (port.write_mbc total d)))) in
          (burst d'
            ≡ some (record {
              total = total;
              out = out;
              single = out;
              dummy = dummy;
              sent = [];
              taken = 0;
            }))
          × (chip d' ≡ chip d)
    pub room :
        (d : D) (b : Burst)
        → burst d ≡ some b
        → let (cnt, d') = port.tf_cnt d in
          (cnt ≤ length b.sent) × (burst d' ≡ some b) × (chip d' ≡ chip d)
    pub put :
        (byte : ℕ) (d : D) (b : Burst)
        → burst d ≡ some b
        → length b.sent < b.out
        → (port.tf_cnt d).0 < 64
        → let d' = port.write_txd byte (port.tf_cnt d).1 in
          (burst d' ≡ some (record b { sent = b.sent ++ (byte ∷ []) })) × (chip d' ≡ chip d)
    pub poll :
        (d : D) (b : Burst)
        → burst d ≡ some b
        → length b.sent ≡ b.out
        → b.taken < b.total
        → let (cnt, d') = port.rf_cnt d in
          (burst d' ≡ some b) × (chip d' ≡ chip d) × (cnt ≡ 0 → delay d' < delay d)
    pub got :
        (d : D) (b : Burst)
        → burst d ≡ some b
        → length b.sent ≡ b.out
        → b.taken < b.total
        → 0 < (port.rf_cnt d).0
        → let (byte, d') = port.read_rxd (port.rf_cnt d).1 in
          (byte ≡ wire b.sent b.dummy (chip d) b.taken)
          × (burst d' ≡ some (record b { taken = b.taken + 1 }))
          × (chip d' ≡ chip d)
    pub ends :
        (d : D) (b : Burst)
        → burst d ≡ some b
        → length b.sent ≡ b.out
        → b.taken ≡ b.total
        → let (clear, d') = port.xch_is_clear d in
          (clear ≡ true)
          × (burst d' ≡ none)
          × (chip d' ≡ next b.sent b.dummy (b.total - (b.out + b.dummy)) (chip d))
