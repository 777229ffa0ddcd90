-- ===== src/Examples/Hal.antt =====
-- Examples for the parts in Hal.
use rustsbi_d.Base.{◌≡◌, none, arith, ◌==◌, u32_max}
use rustsbi_d.Hal.Clint.{Clint}
use rustsbi_d.Hal.Gpio.{Pin, Store, set_pull_none, is_high, is_low}
use rustsbi_d.Hal.Gpio.Mode.{set_pull_none_unchanged}
use rustsbi_d.Hal.Gpio.Data.{level, is_high-level}
use rustsbi_d.Hal.Spi.{dividers}
use rustsbi_d.Hal.Spi.Divider.{dividers_unreachable}

abbrev clint : Clint
clint = record { msip = 0; mtimecmpl = 7; mtimecmph = 1; ssip = 0; stimecmpl = 0; stimecmph = 0 }

abbrev idle : Clint
idle = record clint { mtimecmpl = u32_max; mtimecmph = u32_max }

abbrev pc2 : Pin
pc2 = record { port = b'C'; num = 2 }

abbrev pc9 : Pin
pc9 = record { port = b'C'; num = 9 }

abbrev store : Store
store a = u32_max

set_pull_none_unchanged_example : set_pull_none 0x02000000 pc2 store ≡ store
set_pull_none_unchanged_example = set_pull_none_unchanged 0x02000000 pc2 store

is_high-level_example :
    (is_high 0x02000000 pc2 store ≡ (level 0x02000000 pc2 store == 1))
    × (is_low 0x02000000 pc2 store ≡ (level 0x02000000 pc2 store == 0))
is_high-level_example = is_high-level 0x02000000 pc2 store

dividers_unreachable_example : dividers 1000 2000 ≡ none
dividers_unreachable_example = dividers_unreachable 1000 2000 (omega arith)
