-- ===== src/Hal/Transfer/Loops.antt =====
-- hal/src/spi.rs, `Spi::transfer`: its two loops over a controller that keeps `IsController`.
use rustsbi_d.Base.{
  ℕ, zero, suc, ◌+◌, ◌≤◌, ◌<◌, ◌≡◌, refl, sym, ap, ◌∙◌, Option, some, List, [], ◌∷◌, ◌++◌, arith,
  ==_iff, length, length-append,
}
use rustsbi_d.Hal.Spin.{spin, spin-ends}
use rustsbi_d.Base.Ram.{peek}
use mathlib.Core.List.{append-nil, append_assoc}
use rustsbi_d.Base.{lt→leb_false, positive}
use rustsbi_d.Hal.Transfer.{Port, wait_tf, rf_empty, wait_rf, send, receive}
use rustsbi_d.Hal.Transfer.Bus.{Burst, IsController}

module _ {D C : Type 0} (port : Port D) (burst : D → Option Burst) (chip : D → C)
    (wire : List ℕ → ℕ → C → ℕ → ℕ) (next : List ℕ → ℕ → ℕ → C → C) (delay : D → ℕ) (latency : ℕ)
    (c : IsController port burst chip wire next delay latency) where
  -- A state in which the burst `b` runs and the chip is at `s`.
  abbrev pub Runs : Burst → C → D → Type 0
  Runs b s d = (burst d ≡ some b) × (chip d ≡ s)

  tf_room :
      (polls : ℕ) (d : D)
      → 0 < polls
      → (port.tf_cnt d).0 < 64
      → wait_tf port polls d ≡ some (port.tf_cnt d).1
  unfolding wait_tf spin
  tf_room zero d p h = absurd (omega arith)
  tf_room (suc polls) d p h = rw (lt→leb_false 64 (port.tf_cnt d).0 h) refl

  send_one :
      (polls x : ℕ) (bs : List ℕ) (d : D)
      → 0 < polls
      → (port.tf_cnt d).0 < 64
      → send port polls (x ∷ bs) d ≡ send port polls bs (port.write_txd x (port.tf_cnt d).1)
  unfolding send
  send_one polls x bs d p h = rw (tf_room polls d p h) refl

  pub send-Runs :
      (polls : ℕ) (bs : List ℕ) (b : Burst) (s : C) (d : D)
      → 0 < polls
      → length b.sent + length bs ≡ b.out
      → b.out ≤ 64
      → Runs b s d
      → (d' : D) × (send port polls bs d ≡ some d') × Runs (record b { sent = b.sent ++ bs }) s d'
  unfolding send
  send-Runs polls [] b s d p e small r =
      (d, refl, (r.0 ∙ ap (λ l. some (record b { sent = l })) (sym (append-nil b.sent)), r.1))
  send-Runs polls (x ∷ bs) b s d p e small r =
      let (few, _, _) = c.room d b r.0 in
      let (r', same) = c.put x d b r.0 (omega (arith, e)) (omega (arith, few, e, small)) in
      let (d', ends, last) =
        send-Runs polls bs (record b { sent = b.sent ++ (x ∷ []) }) s
          (port.write_txd x (port.tf_cnt d).1) p (omega (arith, length-append b.sent (x ∷ []), e))
          small (r', same ∙ r.1) in
      (
        d',
        send_one polls x bs d p (omega (arith, few, e, small)) ∙ ends,
        (last.0 ∙ ap (λ l. some (record b { sent = l })) (append_assoc b.sent (x ∷ []) bs), last.1),
      )

  -- A state just after a poll that found a byte.
  HasByte : Burst → C → D → Type 0
  HasByte b s d = (d0 : D) × Runs b s d0 × (0 < (port.rf_cnt d0).0) × (d ≡ (port.rf_cnt d0).1)

  wait_rf-HasByte :
      (polls : ℕ) (b : Burst) (s : C) (d : D)
      → latency < polls
      → length b.sent ≡ b.out
      → b.taken < b.total
      → Runs b s d
      → (d' : D) × (wait_rf port polls d ≡ some d') × HasByte b s d'
  unfolding wait_rf HasByte
  wait_rf-HasByte polls b s d enough full left r =
      spin-ends (rf_empty port) (Runs b s) (HasByte b s) delay
        (λ d0 held e.
          let (run, same, less) = c.poll d0 b held.0 full left in
          ((run, same ∙ held.1), less ((==_iff (port.rf_cnt d0).0 0).0 e)))
        (λ d0 held e. (d0, held, positive (port.rf_cnt d0).0 e, refl)) polls d r
        (omega (arith, c.prompt d, enough))

  receive_one :
      (polls n : ℕ) (d d1 d2 : D) (l : List ℕ)
      → wait_rf port polls d ≡ some d1
      → receive port polls n (port.read_rxd d1).1 ≡ some (l, d2)
      → receive port polls (suc n) d ≡ some ((port.read_rxd d1).0 ∷ l, d2)
  unfolding receive
  receive_one polls n d d1 d2 l e1 e2 = rw (e1, e2) refl

  pub receive-Runs :
      (polls n until : ℕ) (b : Burst) (s : C) (d : D)
      → latency < polls
      → length b.sent ≡ b.out
      → b.taken + n ≡ until
      → until ≤ b.total
      → Runs b s d
      → (d' : D) × (receive port polls n d ≡ some (peek b.taken n (wire b.sent b.dummy s), d'))
        × Runs (record b { taken = until }) s d'
  unfolding receive HasByte
  receive-Runs polls zero until b s d enough full e left r =
      (d, refl, (r.0 ∙ ap (λ t. some (record b { taken = t })) (omega (arith, e)), r.1))
  receive-Runs polls (suc n) until b s d enough full e left r =
      let (d1, e1, (d0, held, some_byte, e0)) =
        wait_rf-HasByte polls b s d enough full (omega (arith, e, left)) r in
      let (byte, run, same) = c.got d0 b held.0 full (omega (arith, e, left)) some_byte in
      let (d', e2, last) =
        receive-Runs polls n until (record b { taken = b.taken + 1 }) s
          (port.read_rxd (port.rf_cnt d0).1).1 enough full (omega (arith, e)) left
          (run, same ∙ held.1) in
      (
        d',
        receive_one polls n d (port.rf_cnt d0).1 d' (peek (b.taken + 1) n (wire b.sent b.dummy s))
              (e1 ∙ ap some e0) e2
            ∙ ap (λ x. some (x ∷ peek (b.taken + 1) n (wire b.sent b.dummy s), d'))
                (byte ∙ ap (λ t. wire b.sent b.dummy t b.taken) held.1),
        last,
      )
