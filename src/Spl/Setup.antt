-- ===== src/Spl/Setup.antt =====
-- spl/src/main.rs, `main`: the pins and the controller of the SPI bus. The singletons of d1-pac are left out.
pub mod Ready
use rustsbi_d.Base.{
  ℕ, zero, suc, ◌+◌, ◌-◌, ◌*◌, ◌/◌, ◌%◌, ◌^◌, ◌≤◌, ◌<◌, min, max, bit_and, bit_or, ◌≡◌, refl, sym,
  ap, ◌∙◌, fun_ext, ◌≢◌, ◌↔◌, ◌⊎◌, inl, inr, Bool, true, false, not, ◌&&◌, ◌||◌, Option, none, some,
  List, [], ◌∷◌, ◌++◌, map, arith, ltb, leb, ◌==◌, if◌then◌else◌, Bool-cases, Option-cases, ltb→lt,
  lt→ltb, le→ltb_false, ==_iff, length, get_elem?, get_or, set, take, drop, replicate,
  length-append, length-set, get_or-set_self, get_or-set_ne, length-replicate, u8, u32, u64,
  u32_max, u64_max, ◌<<<◌, ◌>>>◌, complement, ◌>>=◌,
}
use rustsbi_d.Hal.Ccu.{Clocks}
use rustsbi_d.Hal.Gpio.{Pin, Store, into_function}
use rustsbi_d.Hal.Spi.New.{Registers, mode_3, new}
use rustsbi_d.Hal.Time.{hz}

abbrev pub clocks : Clocks
clocks = record { psi = hz 600000000; apb1 = hz 24000000 }

abbrev pub sck : Pin
sck = record { port = b'C'; num = 2 }

abbrev pub scs : Pin
scs = record { port = b'C'; num = 3 }

abbrev pub mosi : Pin
mosi = record { port = b'C'; num = 4 }

abbrev pub miso : Pin
miso = record { port = b'C'; num = 5 }

unfoldable pub set_pins : ℕ → Store → Store
set_pins base s =
    into_function base 2 miso
      (into_function base 2 mosi (into_function base 2 scs (into_function base 2 sck s)))

-- The registers of the pins at `base`, then the controller.
unfoldable pub setup : {D : Type 0} → ℕ → Registers D → ℕ → Store × D → Option (Store × D)
setup base r polls (s, d) = do
  d' ← new r polls mode_3 (hz 100000000) clocks d
  some (set_pins base s, d')
