-- ===== src/Examples/Boot.antt =====
-- Examples for the flash driver and the boot from the flash: a flash whose table at 2 MiB names three small
-- payloads.
use rustsbi_d.Base.{ℕ, ◌+◌, ◌%◌, ◌^◌, ◌≡◌, refl, true, some, arith, ◌==◌, if◌then◌else◌, get_or}
use rustsbi_d.Common.Bytes.{as_u32s}
use rustsbi_d.Common.Memory as memory
use rustsbi_d.Common.FlashMeta as table
use rustsbi_d.Common.Memory.{dram, kernel_base, dtb_offset, no_offset}
use rustsbi_d.Spl.Flash.{copy_into}
use rustsbi_d.Spl.Flash.Chip.{image, flash}
use rustsbi_d.Spl.Flash.Laws.{copy_into-image}
use rustsbi_d.Spl.Boot.{Loader, jump, load_dtb, main}
use rustsbi_d.Spl.Boot.Misses.{Missed, load_dtb-misses}
use rustsbi_d.Spl.Boot.Stages.{Booted}
use rustsbi_d.Spl.Boot.Laws.{main-Booted}
use rustsbi_d.Common.Dtb.{parse_memory_size, visit_size}
use rustsbi_d.Examples.Start.{size_in_tree}
use rustsbi_d.Examples.Models.{Nand, busy, loaded, nand, nand-IsNand}

abbrev pub entries : table.Meta
entries = record {
  see = record { offset = 0x400000; size = 5 };
  kernel = record { offset = 0x800000; size = 2050 };
  dtb = record { offset = 0x600000; size = 3 };
}

abbrev pub pages : ℕ → ℕ → ℕ
pages p c = if p == 1024 then get_or (table.as_bytes entries) c 0xff else (p + c) % 256

copy_into-image_example :
    (d : Nand) × (copy_into (nand pages) 2 20 8190 20 (true, 0)
      ≡ some (image (flash pages) 8190 20, d))
copy_into-image_example =
    copy_into-image (nand pages) pages busy loaded 1 2 8190 20 (true, 0) (nand-IsNand pages)
      (omega arith) (omega arith)

abbrev pub start : Loader Nand
start = record {
  meta = record memory.default { from_flash = true };
  mem = λ a. 0;
  chip = (true, 0);
}

-- A tree without a memory node.
load_dtb-misses_example :
    (t : Loader Nand) × (load_dtb (nand pages) (λ mem. some 0) 2 (some (0x600000, 3)) start
      ≡ some t)
    × Missed (image (flash pages) 0x600000 3) start t
load_dtb-misses_example =
    load_dtb-misses (nand pages) (λ mem. some 0) pages busy loaded 1 2 0x600000 3 0 start
      (nand-IsNand pages) (omega arith) (omega arith) (omega arith) (λ mem e. refl) (omega arith)

main-Booted_example :
    (t : Loader Nand) × (main (nand pages) size_in_tree 2 start ≡ some (jump dram, t))
    × Booted (flash pages) (0x400000, 5) (0x800000, 2050) (0x600000, 3) (dtb_offset (2 ^ 29)) t
unfolding dtb_offset table.as_bytes table.of_bytes table.of_words table.read_see table.read_kernel
    table.read_dtb as_u32s parse_memory_size visit_size
main-Booted_example =
    main-Booted (nand pages) size_in_tree pages busy loaded 1 2 (2 ^ 29) (0x400000, 5)
      (0x800000, 2050) (0x600000, 3) entries start (nand-IsNand pages) (omega arith) refl refl refl
      refl refl (omega arith) (omega arith) (omega arith) (λ mem e. refl) (omega arith)
      (omega arith) (omega arith) (omega arith)
