-- ===== src/Hal/Gpio/Mode.antt =====
-- The configuration of a pin and of its neighbours.
use mathlib.Core.Path.{ap₂}
use rustsbi_d.Base.{
  ℕ, ◌*◌, ◌%◌, ◌^◌, ◌≤◌, ◌<◌, bit_and, bit_or, ◌≡◌, sym, ap, ◌∙◌, fun_ext, ◌≢◌, ◌⊎◌, inl, inr, ◌&&◌,
  arith, ◌==◌, if◌then◌else◌, complement,
}
use native.Mathlib.Decide.{ℕ_discrete}
use rustsbi_d.Base.Bits.{bit_and_mask, bit_or-zero}
use rustsbi_d.Base.Digits.{nibble, with_nibble, nibble-with_nibble, write_nibble}
use rustsbi_d.Hal.Gpio.{
  PinMode, Pin, Store, value, write, cfg_reg, pull_reg, set_mode, set_pull_none,
}

-- The configuration that the hardware reads for a pin.
abbrev pub mode_field : ℕ → Pin → Store → ℕ
mode_field base p s = nibble (p.num % 8) (s (cfg_reg base p))

-- A pin of the device: a port from A on and a number that its four configuration words hold.
pub record IsPin (p : Pin) : Type 0 where
  pub port_ge : b'A' ≤ p.port
  pub num_lt : p.num < 32

pub set_mode_word :
    (base : ℕ) (m : PinMode) (p : Pin) (s : Store)
    → value m < 16
    → s (cfg_reg base p) < 2 ^ 32
    → set_mode base m p s
      ≡ write (cfg_reg base p) (with_nibble (p.num % 8) (value m) (s (cfg_reg base p))) s
unfolding set_mode
set_mode_word base m p s h k =
    ap (λ w. write (cfg_reg base p) w s)
      (ap
          (λ i.
            bit_or (bit_and (s (cfg_reg base p)) (complement 32 (15 * 2 ^ i))) (value m * 2 ^ i))
          (ap (λ t. t * 2 ^ 2) (bit_and_mask 3 p.num) ∙ omega arith)
        ∙ write_nibble (p.num % 8) (value m) (s (cfg_reg base p)) (omega arith) h k)

-- Setting a pin's mode, on a register of 32 bits, gives that pin the mode's number.
pub set_mode_self :
    (base : ℕ) (m : PinMode) (p : Pin) (s : Store)
    → value m < 16
    → s (cfg_reg base p) < 2 ^ 32
    → mode_field base p (set_mode base m p s) ≡ value m
set_mode_self base m p s h k =
    ap (mode_field base p) (set_mode_word base m p s h k)
    ∙ ground (arith, nibble-with_nibble (p.num % 8) (p.num % 8) (value m) (s (cfg_reg base p)))

-- Setting a pin's mode, on a register of 32 bits, leaves the mode of every other pin, of any port, as it was.
pub set_mode_other :
    (base : ℕ) (m : PinMode) (p q : Pin) (s : Store)
    → value m < 16
    → s (cfg_reg base p) < 2 ^ 32
    → IsPin p
    → IsPin q
    → (p.port ≢ q.port) ⊎ (p.num ≢ q.num)
    → mode_field base q (set_mode base m p s) ≡ mode_field base q s
set_mode_other base m p q s h k v w ne =
    ap (mode_field base q) (set_mode_word base m p s h k)
    ∙ elim (ℕ_discrete (cfg_reg base q) (cfg_reg base p)) [
      | yes e ↦ ground (
        arith,
        e,
        v.port_ge,
        v.num_lt,
        w.port_ge,
        w.num_lt,
        nibble-with_nibble (p.num % 8) (q.num % 8) (value m) (s (cfg_reg base p)),
      )
      | no away ↦ ground arith
    ]

-- Setting a pin's mode, on a register of 32 bits, gives that pin the mode's number and leaves the mode of every other pin, of
-- any port, as it was.
pub mode_field-set_mode :
    (base : ℕ) (m : PinMode) (p q : Pin) (s : Store)
    → value m < 16
    → s (cfg_reg base p) < 2 ^ 32
    → IsPin p
    → IsPin q
    → mode_field base q (set_mode base m p s)
      ≡ (if p.port == q.port && p.num == q.num then value m else mode_field base q s)
mode_field-set_mode base m p q s h k v w = elim (ℕ_discrete p.port q.port) [
  | yes e ↦ elim (ℕ_discrete p.num q.num) [
    | yes n ↦
        ap₂ (λ a b. mode_field base (record { port = a; num = b }) (set_mode base m p s)) (sym e)
          (sym n)
        ∙ set_mode_self base m p s h k
        ∙ ground arith
    | no n ↦ set_mode_other base m p q s h k v w (inr n) ∙ ground arith
  ]
  | no n ↦ set_mode_other base m p q s h k v w (inl n) ∙ ground arith
]

-- `set_pull_none` changes no register: the resistors that were on stay on.
pub set_pull_none_unchanged : (base : ℕ) (p : Pin) (s : Store) → set_pull_none base p s ≡ s
unfolding set_pull_none
set_pull_none_unchanged base p s = fun_ext (λ a. ground (arith, bit_or-zero (s (pull_reg base p))))
