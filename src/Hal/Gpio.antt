-- ===== src/Hal/Gpio.antt =====
-- hal/src/gpio.rs: the pins. A pin is its port's letter and its number; the registers are a store
-- of 32-bit words by address, and `base` is the peripheral's address (of the crate d1-pac).
pub mod Mode
pub mod Data
use rustsbi_d.Base.{
  ℕ, zero, suc, ◌+◌, ◌-◌, ◌*◌, ◌/◌, ◌%◌, ◌^◌, ◌≤◌, ◌<◌, min, max, bit_and, bit_or, ◌≡◌, refl, sym,
  ap, ◌∙◌, fun_ext, ◌≢◌, ◌↔◌, ◌⊎◌, inl, inr, Bool, true, false, not, ◌&&◌, ◌||◌, Option, none, some,
  List, [], ◌∷◌, ◌++◌, map, arith, ltb, leb, ◌==◌, if◌then◌else◌, Bool-cases, Option-cases, ltb→lt,
  lt→ltb, le→ltb_false, ==_iff, length, get_elem?, get_or, set, take, drop, replicate,
  length-append, length-set, get_or-set_self, get_or-set_ne, length-replicate, u8, u32, u64,
  u32_max, u64_max, ◌<<<◌, ◌>>>◌, complement, ◌>>=◌,
}

pub data PinMode : Type 0 where
  input output eint disabled : PinMode
  function : ℕ → PinMode

-- `PinMode::VALUE`
unfoldable pub value : PinMode → ℕ
value input = 0
value output = 1
value (function n) = n
value eint = 14
value disabled = 15

pub record Pin : Type 0 where
  pub port : ℕ
  pub num : ℕ

abbrev pub Store : Type 0
Store = ℕ → ℕ

abbrev pub write : ℕ → ℕ → Store → Store
write a v s p = if p == a then v else s p

module _ (base : ℕ) where
  abbrev pub port_offset_bytes : Pin → ℕ
  port_offset_bytes p = (p.port - b'A') * 0x30

  abbrev pub cfg_reg : Pin → ℕ
  cfg_reg p = base + port_offset_bytes p + ((p.num >>> 3) <<< 2)

  abbrev pub data_reg : Pin → ℕ
  data_reg p = base + port_offset_bytes p + 0x10

  abbrev pub pull_reg : Pin → ℕ
  pull_reg p = base + port_offset_bytes p + 0x24 + ((p.num >>> 4) <<< 2)

abbrev pub cfg_idx : Pin → ℕ
cfg_idx p = bit_and p.num 0x7 <<< 2

abbrev pub pull_idx : Pin → ℕ
pull_idx p = bit_and p.num 0xF <<< 1

module _ (base : ℕ) where
  unfoldable pub set_mode : PinMode → Pin → Store → Store
  set_mode m p s =
      let cleared = bit_and (s (cfg_reg base p)) (complement 32 (0xF <<< cfg_idx p)) in
      write (cfg_reg base p) (bit_or cleared (value m <<< cfg_idx p)) s

  -- `into_mode` also changes the pin's type; the alternate functions go by the number that the
  -- generated `into_function_n` gives.
  unfoldable pub into_mode : PinMode → Pin → Store → Store
  unfolding set_mode
  into_mode m p s = set_mode m p s

  unfoldable pub set_pull_up : Pin → Store → Store
  set_pull_up p s = write (pull_reg base p) (bit_or (s (pull_reg base p)) (0b01 <<< pull_idx p)) s

  unfoldable pub set_pull_down : Pin → Store → Store
  set_pull_down p s = write (pull_reg base p) (bit_or (s (pull_reg base p)) (0b10 <<< pull_idx p)) s

  unfoldable pub set_pull_none : Pin → Store → Store
  set_pull_none p s = write (pull_reg base p) (bit_or (s (pull_reg base p)) (0b00 <<< pull_idx p)) s

  unfoldable pub is_high : Pin → Store → Bool
  is_high p s = not (bit_and (s (data_reg base p)) (1 <<< p.num) == 0)

  unfoldable pub is_low : Pin → Store → Bool
  is_low p s = bit_and (s (data_reg base p)) (1 <<< p.num) == 0

  unfoldable pub set_low : Pin → Store → Store
  set_low p s =
      write (data_reg base p) (bit_and (s (data_reg base p)) (complement 32 (1 <<< p.num))) s

  unfoldable pub set_high : Pin → Store → Store
  set_high p s = write (data_reg base p) (bit_or (s (data_reg base p)) (1 <<< p.num)) s

  unfoldable pub is_set_high : Pin → Store → Bool
  is_set_high p s = not (bit_and (s (data_reg base p)) (1 <<< p.num) == 0)

  unfoldable pub is_set_low : Pin → Store → Bool
  is_set_low p s = bit_and (s (data_reg base p)) (1 <<< p.num) == 0

  abbrev pub into_disabled : Pin → Store → Store
  into_disabled p s = into_mode disabled p s

  abbrev pub into_input : Pin → Store → Store
  into_input p s = into_mode input p s

  abbrev pub into_output : Pin → Store → Store
  into_output p s = into_mode output p s

  abbrev pub into_external_interrupt : Pin → Store → Store
  into_external_interrupt p s = into_mode eint p s

  -- `into_function_n`, generated for each pin.
  abbrev pub into_function : ℕ → Pin → Store → Store
  into_function n p s = into_mode (function n) p s
