-- ===== src/Spl/Setup/Ready.antt =====
-- spl/src/main.rs, `main`: after the set-up the four pins carry the bus and the controller is ready.
use rustsbi_d.Base.{
  ℕ, zero, suc, ◌+◌, ◌/◌, ◌%◌, ◌^◌, ◌<◌, ◌≡◌, refl, sym, ap, inl, inr, Bool, ◌&&◌, some, arith, leb,
  ◌==◌, if◌then◌else◌, Bool-cases,
}
use native.Mathlib.Nat.{pow-suc}
use mathlib.Core.Path.{subst}
use rustsbi_d.Base.Digits.{with_nibble}
use rustsbi_d.Hal.Gpio.{write, Pin, Store, value, function, into_function, into_mode, cfg_reg}
use rustsbi_d.Hal.Gpio.Mode.{mode_field, IsPin, mode_field-set_mode, set_mode_word}
use rustsbi_d.Hal.Spi.{n2, dividers, best}
use rustsbi_d.Spl.Setup.{sck, scs, mosi, miso, set_pins, setup}
use rustsbi_d.Hal.Spi.New.{Registers, mode_3}
use rustsbi_d.Hal.Spi.New.Ready.{View, IsSpi, IsReady, new_up}
use rustsbi_d.Hal.Time.{hz}
use rustsbi_d.Spl.Setup.{clocks}

with_nibble_fits : (i n v w : ℕ) → i < n → v < 16 → w < 16 ^ n → with_nibble i v w < 16 ^ n
with_nibble_fits i zero v w h k l = absurd (omega arith)
with_nibble_fits zero (suc n) v w h k l = omega (arith, pow-suc 16 n, l)
with_nibble_fits (suc i) (suc n) v w h k l = omega (
  arith,
  pow-suc 16 n,
  with_nibble_fits i n v (w / 16) (omega arith) k (omega (arith, pow-suc 16 n, l)),
)

-- Every word has 32 bits.
abbrev pub Words : Store → Type 0
Words s = (a : ℕ) → s a < 2 ^ 32

into_function-Words :
    (base n : ℕ) (p : Pin) (s : Store) → n < 16 → Words s → Words (into_function base n p s)
unfolding into_mode value
into_function-Words base n p s h words a =
    let at = cfg_reg base p in
    let e = ap (λ st. st a) (set_mode_word base (function n) p s h (words at)) in
    let b : write at (with_nibble (p.num % 8) n (s at)) s a < 2 ^ 32 = elim (Bool-cases (a == at)) [
      | inl t ↦ rw t (with_nibble_fits (p.num % 8) 8 n (s at) (omega arith) h (words at))
      | inr t ↦ rw t (words a)
    ] in
    subst (λ x. x < 2 ^ 32) (sym e) b

-- A pin that is one of the four has the number 2, and every other pin keeps its mode.
abbrev pub is_spi_pin : Pin → Bool
is_spi_pin q = q.port == b'C' && leb 2 q.num && leb q.num 5

sck_is : IsPin sck
sck_is = record { port_ge = omega arith; num_lt = omega arith }

scs_is : IsPin scs
scs_is = record { port_ge = omega arith; num_lt = omega arith }

mosi_is : IsPin mosi
mosi_is = record { port_ge = omega arith; num_lt = omega arith }

miso_is : IsPin miso
miso_is = record { port_ge = omega arith; num_lt = omega arith }

set_pins-mode :
    (base : ℕ) (s : Store) (q : Pin)
    → Words s
    → IsPin q
    → mode_field base q (set_pins base s) ≡ (if is_spi_pin q then 2 else mode_field base q s)
unfolding set_pins into_mode value
set_pins-mode base s q words is =
    let s1 = into_function base 2 sck s in
    let s2 = into_function base 2 scs s1 in
    let s3 = into_function base 2 mosi s2 in
    let w1 = into_function-Words base 2 sck s (omega arith) words in
    let w2 = into_function-Words base 2 scs s1 (omega arith) w1 in
    let w3 = into_function-Words base 2 mosi s2 (omega arith) w2 in
    let e1 =
      mode_field-set_mode base (function 2) sck q s (omega arith) (words (cfg_reg base sck)) sck_is
        is in
    let e2 =
      mode_field-set_mode base (function 2) scs q s1 (omega arith) (w1 (cfg_reg base scs)) scs_is
        is in
    let e3 =
      mode_field-set_mode base (function 2) mosi q s2 (omega arith) (w2 (cfg_reg base mosi)) mosi_is
        is in
    let e4 =
      mode_field-set_mode base (function 2) miso q s3 (omega arith) (w3 (cfg_reg base miso)) miso_is
        is in
    rw (e4, e3, e2, e1) (ground arith)

divided : dividers 600000000 100000000 ≡ some (n2, 2)
unfolding dividers best
divided = refl

-- With a controller that keeps `IsSpi`, more polls than its latency, and pin registers of 32 bits, the loader's
-- set-up ends, whatever the registers held: the clock is divided by 2 and by 3 to exactly the 100 MHz asked for,
-- the controller is the enabled master, past its resets, of a bus in SPI mode 3 (the clock idles high, which the
-- manual calls active low, and the second edge captures), the pins 2 to 5 of port C have the function of the bus, and
-- every other pin has the mode that it had.
pub setup-IsReady :
    {D : Type 0} (base : ℕ) (r : Registers D) (view : D → View) (delay : D → ℕ) (latency polls : ℕ)
    (s : Store) (d : D) (q : Pin)
    → IsSpi r view delay latency
    → latency < polls
    → Words s
    → IsPin q
    → (s' : Store) × (d' : D) × (setup base r polls (s, d) ≡ some (s', d'))
      × IsReady n2 2 3 (view d')
      × (600000000 / 2 / (2 + 1) ≡ 100000000)
      × (mode_field base q s' ≡ (if is_spi_pin q then 2 else mode_field base q s))
unfolding setup
setup-IsReady base r view delay latency polls s d q ok enough words is =
    let (d', goes, e) =
      new_up r view delay latency ok polls 2 n2 mode_3 (hz 100000000) clocks d enough divided in
    (set_pins base s, d', rw goes refl, e, refl, set_pins-mode base s q words is)
