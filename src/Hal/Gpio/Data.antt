-- ===== src/Hal/Gpio/Data.antt =====
-- Driving and reading a pin, and its neighbours.
use rustsbi_d.Base.{ℕ, ◌*◌, ◌^◌, ◌<◌, ◌≡◌, ap, ◌∙◌, ◌&&◌, arith, ◌==◌, if◌then◌else◌, complement}
use native.Mathlib.Nat.{pow-le-pow_right}
use rustsbi_d.Base.Digits.{bit, bit-or, bit-and, bit-pow, bit-complement, bit-le-one, test_bit}
use rustsbi_d.Hal.Gpio.{Pin, Store, data_reg, is_high, is_low, set_high, set_low}
use rustsbi_d.Hal.Gpio.Mode.{IsPin}

-- The level of a pin.
abbrev pub level : ℕ → Pin → Store → ℕ
level base p s = bit p.num (s (data_reg base p))

-- `is_high` reads whether a pin's level is 1 and `is_low` whether it is 0.
pub is_high-level :
    (base : ℕ) (p : Pin) (s : Store)
    → (is_high base p s ≡ (level base p s == 1)) × (is_low base p s ≡ (level base p s == 0))
unfolding is_high is_low
is_high-level base p s =
    ground (arith, test_bit p.num (s (data_reg base p)), bit-le-one p.num (s (data_reg base p)))

mask_bit : (i n : ℕ) → bit i (1 * 2 ^ n) ≡ (if i == n then 1 else 0)
mask_bit i n = ap (bit i) {y = 2 ^ n} (omega arith) ∙ bit-pow i n

mask-lt : (n : ℕ) → n < 32 → 1 * 2 ^ n < 2 ^ 32
mask-lt n h = omega (arith, pow-le-pow_right {n = 2} (omega arith) {i = n} {j = 31} (omega arith))

-- Driving a pin high raises its level and leaves every other pin's level, of any port, as it was.
pub level-set_high :
    (base : ℕ) (p q : Pin) (s : Store)
    → IsPin p
    → IsPin q
    → level base q (set_high base p s)
      ≡ (if p.port == q.port && p.num == q.num then 1 else level base q s)
unfolding set_high
level-set_high base p q s v w = ground (
  arith,
  v.port_ge,
  w.port_ge,
  bit-or q.num (s (data_reg base p)) (1 * 2 ^ p.num),
  mask_bit q.num p.num,
  bit-le-one q.num (s (data_reg base p)),
)

-- Driving a pin low, with a data register of 32 bits, takes its level to 0 and leaves every other pin's
-- level, of any port, as it was.
pub level-set_low :
    (base : ℕ) (p q : Pin) (s : Store)
    → IsPin p
    → IsPin q
    → s (data_reg base p) < 2 ^ 32
    → level base q (set_low base p s)
      ≡ (if p.port == q.port && p.num == q.num then 0 else level base q s)
unfolding set_low
level-set_low base p q s v w h = ground (
  arith,
  v.port_ge,
  w.port_ge,
  bit-and q.num (s (data_reg base p)) (complement 32 (1 * 2 ^ p.num)),
  bit-complement 32 q.num (1 * 2 ^ p.num) w.num_lt (mask-lt p.num v.num_lt),
  mask_bit q.num p.num,
  bit-le-one q.num (s (data_reg base p)),
)

-- Driving a pin low or high, with a data register of 32 bits, gives it that level and leaves every other pin's level, of
-- any port, as it was.
pub level-set :
    (base : ℕ) (p q : Pin) (s : Store)
    → IsPin p
    → IsPin q
    → s (data_reg base p) < 2 ^ 32
    → let here = p.port == q.port && p.num == q.num in
      (level base q (set_low base p s) ≡ (if here then 0 else level base q s))
      × (level base q (set_high base p s) ≡ (if here then 1 else level base q s))
level-set base p q s v w h = (level-set_low base p q s v w h, level-set_high base p q s v w)
