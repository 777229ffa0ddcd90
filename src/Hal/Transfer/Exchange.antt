-- ===== src/Hal/Transfer/Exchange.antt =====
-- hal/src/spi.rs, `Spi::transfer`: over a controller that keeps `IsController`, the transfer is one exchange
-- with the chip.
use rustsbi_d.Base.{
  ℕ, ◌+◌, ◌^◌, ◌≤◌, ◌<◌, ◌≡◌, refl, ap, ◌∙◌, true, Option, none, some, List, [], arith, length, u8,
  u32,
}
use rustsbi_d.Base.Ram.{peek}
use rustsbi_d.Hal.Transfer.{Port, send, receive, configure, transfer}
use rustsbi_d.Hal.Transfer.Loops.{Runs, send-Runs, receive-Runs}
use rustsbi_d.Hal.Transfer.Bus.{Burst, IsController}

module _ {D C : Type 0} (port : Port D) (burst : D → Option Burst) (chip : D → C)
    (wire : List ℕ → ℕ → C → ℕ → ℕ) (next : List ℕ → ℕ → ℕ → C → C) (delay : D → ℕ) (latency : ℕ)
    (c : IsController port burst chip wire next delay latency) where
  configure_eq :
      (lx ld lr : ℕ) (d : D)
      → lx + ld + lr < 2 ^ 24
      → ld < 2 ^ 4
      → configure port lx ld lr d
        ≡ port.set_xch (
            port.write_dbc ld
              (port.write_stc lx (port.write_mtc lx (port.write_mbc (lx + ld + lr) d))))
  unfolding configure
  configure_eq lx ld lr d short few =
      let e1 : u32 (lx + ld + lr) ≡ lx + ld + lr = omega (arith, short) in
      let e2 : u8 ld ≡ ld = omega (arith, few) in rw (configure, e1, e2) refl

  configure-Runs :
      (x : List ℕ) (dummy count : ℕ) (d : D)
      → burst d ≡ none
      → dummy < 2 ^ 4
      → length x + dummy + count < 2 ^ 24
      → Runs port burst chip wire next delay latency c
          (record {
            total = length x + dummy + count;
            out = length x;
            single = length x;
            dummy = dummy;
            sent = [];
            taken = 0;
          })
          (chip d)
          (configure port (length x) dummy count d)
  configure-Runs x dummy count d idle few short =
      let e = configure_eq (length x) dummy count d short few in
      let run =
        c.begins (length x + dummy + count) (length x) dummy d idle short (omega arith) few in
      (ap burst e ∙ run.0, ap chip e ∙ run.1)

  transfer_steps :
      (polls dummy count : ℕ) (x skipped r : List ℕ) (d d1 d2 d3 : D)
      → dummy < 2 ^ 4
      → length x + dummy + count < 2 ^ 24
      → send port polls x (configure port (length x) dummy count d) ≡ some d1
      → receive port polls (length x + dummy) d1 ≡ some (skipped, d2)
      → receive port polls count d2 ≡ some (r, d3)
      → (port.xch_is_clear d3).0 ≡ true
      → transfer port polls x dummy count d ≡ some (r, (port.xch_is_clear d3).1)
  unfolding transfer
  transfer_steps polls dummy count x skipped r d d1 d2 d3 few short sends skips reads clear =
      let e1 : u32 (length x) ≡ length x = omega (arith, short) in
      let e2 : u32 dummy ≡ dummy = omega (arith, few) in
      let e3 : u32 count ≡ count = omega (arith, short) in
      let e4 : u32 (length x + dummy) ≡ length x + dummy = omega (arith, short) in
      rw (e1, e2, e3, e4, sends, skips, reads, clear) refl

  transfer-Runs :
      (polls dummy count : ℕ) (x : List ℕ) (d : D)
      → burst d ≡ none
      → latency < polls
      → length x ≤ 64
      → dummy < 2 ^ 4
      → length x + dummy + count < 2 ^ 24
      → (d' : D) × (transfer port polls x dummy count d
          ≡ some (peek (length x + dummy) count (wire x dummy (chip d)), d'))
        × (burst d' ≡ none)
        × (chip d' ≡ next x dummy count (chip d))
  transfer-Runs polls dummy count x d idle enough small few short =
      let all = length x + dummy + count in
      let run = configure-Runs x dummy count d idle few short in
      let sent : Burst = record {
        total = all;
        out = length x;
        single = length x;
        dummy = dummy;
        sent = x;
        taken = 0;
      } in
      let (d1, sends, run1) =
        send-Runs port burst chip wire next delay latency c polls x (record sent { sent = [] })
          (chip d) (configure port (length x) dummy count d) (omega (arith, enough)) (omega arith)
          small run in
      let (d2, skips, run2) =
        receive-Runs port burst chip wire next delay latency c polls (length x + dummy)
          (length x + dummy) sent (chip d) d1 enough refl (omega arith) (omega arith) run1 in
      let (d3, reads, run3) =
        receive-Runs port burst chip wire next delay latency c polls count all
          (record sent { taken = length x + dummy }) (chip d) d2 enough refl refl (omega arith)
          run2 in
      let (clear, idle', chip') = c.ends d3 (record sent { taken = all }) run3.0 refl refl in
      (
        (port.xch_is_clear d3).1,
        transfer_steps polls dummy count x (peek 0 (length x + dummy) (wire x dummy (chip d)))
            (peek (length x + dummy) count (wire x dummy (chip d))) d d1 d2 d3 few short sends skips
            reads clear,
        idle',
        chip'
            ∙ ap (λ n. next x dummy n (chip d3)) {y = count} (omega arith)
            ∙ ap (next x dummy count) run3.1,
      )

-- Over a controller that keeps `IsController`, with no burst running and more polls than its latency, a
-- transfer of at most 64 bytes out, fewer than 16 dummy bytes and fewer than 2^24 bytes in all ends: it
-- brings the bytes that come in behind the bytes out and the dummy bytes, leaves no burst running, and the
-- chip as the exchange does.
pub transfer-exchange :
    {D C : Type 0} (port : Port D) (burst : D → Option Burst) (chip : D → C)
    (wire : List ℕ → ℕ → C → ℕ → ℕ) (next : List ℕ → ℕ → ℕ → C → C) (delay : D → ℕ)
    (latency polls dummy count : ℕ) (x : List ℕ) (d : D)
    → IsController port burst chip wire next delay latency
    → burst d ≡ none
    → latency < polls
    → length x ≤ 64
    → dummy < 2 ^ 4
    → length x + dummy + count < 2 ^ 24
    → (d' : D) × (transfer port polls x dummy count d
        ≡ some (peek (length x + dummy) count (wire x dummy (chip d)), d'))
      × (burst d' ≡ none)
      × (chip d' ≡ next x dummy count (chip d))
transfer-exchange port burst chip wire next delay latency polls dummy count x d c =
    transfer-Runs port burst chip wire next delay latency c polls dummy count x d
