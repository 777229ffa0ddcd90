-- ===== src/Examples/Common.antt =====
-- Examples for the parts in Common and the loader's log.
use rustsbi_d.Base.{
  ℕ, ◌+◌, ◌-◌, ◌*◌, ◌%◌, ◌^◌, ◌≤◌, ◌<◌, ◌≡◌, ◌≢◌, ◌⊎◌, true, some, List, [], ◌∷◌, arith,
}
use rustsbi_d.Common.Memory as memory
use rustsbi_d.Common.FlashMeta as table
use rustsbi_d.Common.Memory.{no_offset, dtb_offset, page, dram}
use rustsbi_d.Common.Memory.Laws as memory_laws
use rustsbi_d.Common.Payload.{PayloadMeta}
use rustsbi_d.Common.Arrow.{init}
use rustsbi_d.Common.Arrow.Screen.{show}
use rustsbi_d.Common.Arrow.Laws.{Shows, blank, walk, walk-init-Shows}
use rustsbi_d.Spl.Logging.{show_usize, put_all}
use rustsbi_d.Spl.Logging.Decimal as decimal
use rustsbi_d.Spl.Logging.Uart.{put_all-sent}
use rustsbi_d.Examples.Models.{Uart, is_full, thr_write, sent, delay, is_full-IsUart}

dtb_offset_last_page_example :
    (dtb_offset (2 ^ 29) % page ≡ 0)
    × (dtb_offset (2 ^ 29) + page ≤ 2 ^ 29)
    × (2 ^ 29 < dtb_offset (2 ^ 29) + 2 * page)
dtb_offset_last_page_example = memory_laws.dtb_offset_last_page (2 ^ 29) (omega arith)

dtb_offset_wraps_example : dtb_offset 0 ≡ 2 ^ 32 - page
dtb_offset_wraps_example = memory_laws.dtb_offset_wraps 0 (omega arith)

abbrev meta : memory.Meta
meta = record {
  from_flash = true;
  zeros = (0xff, 0xff, 0xff);
  see = 0;
  kernel = 0x200000;
  dtb = no_offset;
}

abbrev entries : table.Meta
entries = record {
  see = record { offset = 0x400000; size = 0 };
  kernel = record { offset = 0x800000; size = 9000 };
  dtb = table.default_entry;
}

abbrev payload : PayloadMeta
payload = record { see = 0; kernel = 0; dtb = 4096; dtb_offset = 0x1fe00000 }

walk-init-Shows_example : let (b, l) = walk 20 (init 25).0 (show (init 25).1 blank) in Shows b l
walk-init-Shows_example = walk-init-Shows 25 19 (omega arith)

show_usize-parse_example :
    (c : ℕ) × (cs : List ℕ) × (show_usize 21 4096 ≡ some (c ∷ cs))
    × (decimal.parse 0 (c ∷ cs) ≡ 4096)
    × decimal.AllDigits (c ∷ cs)
    × (((let n : ℕ = 4096 in n) ≡ 0) ⊎ (c ≢ b'0'))
show_usize-parse_example = decimal.show_usize-parse 4096 (omega arith)

put_all-sent_example :
    (u : Uart) × (put_all is_full thr_write 2 (b'o' ∷ b'k' ∷ []) (true, b'>' ∷ []) ≡ some u)
    × (sent u ≡ b'>' ∷ b'o' ∷ b'k' ∷ [])
put_all-sent_example =
    put_all-sent is_full thr_write sent delay 1 2 (b'o' ∷ b'k' ∷ []) (true, b'>' ∷ [])
      is_full-IsUart (omega arith)
