-- ===== src/Examples/Chain.antt =====
-- The boot from the flash of Examples/Boot, over the controller of Examples/Controller, down to the kernel's first instruction.
use rustsbi_d.Base.{◌^◌, ◌≡◌, refl, some, List, arith}
use rustsbi_d.Base.Ram.{peek}
use rustsbi_d.Common.Bytes.{as_u32s}
use rustsbi_d.Common.Dtb.{parse_memory_size, visit_size}
use rustsbi_d.Common.FlashMeta as table
use rustsbi_d.Common.Memory.{dram, kernel_base, dtb_offset}
use rustsbi_d.See.Board.{visit}
use rustsbi_d.See.Execute.{prepare}
use rustsbi_d.See.Pmp.{Pmp, Region}
use rustsbi_d.See.Pmp.Protect.{rights}
use rustsbi_d.See.Start.{banner, supervise, rust_main}
use rustsbi_d.Spl.Flash.Chip.{image, flash}
use rustsbi_d.Spl.Boot.{Loader, jump, main}
use rustsbi_d.Spl.Boot.Chain.{IsEntered}
use rustsbi_d.Spl.Boot.Registers.{main-carried}
use rustsbi_d.Spl.Flash.Controller.{carried}
use rustsbi_d.Examples.Controller.{
  Line, port, line_delay, port-IsController, nand_wire, nand_next, wired-IsNand, idle_nand,
}
use rustsbi_d.Examples.Boot.{entries, pages, start}
use rustsbi_d.Examples.Models.{Nand, busy, loaded, riscv, riscv-IsRiscv}
use rustsbi_d.Examples.Run.{machine}
use rustsbi_d.Examples.Start.{
  set_cfg, set_cfg-SetsByte, reset, closed, allowed, tree, tree_only, found_board,
}

abbrev start_line : Loader (Line Nand)
start_line = record { meta = start.meta; mem = start.mem; chip = idle_nand }

main-carried_example :
    (l : Loader (Line Nand)) × (q : Pmp) × (regions : List Region) × (main
        (carried (port (nand_wire pages) (nand_next pages)) 2)
        (λ mem. parse_memory_size (λ ptr f. some tree) dram)
        2
        start_line
      ≡ some (jump dram, l))
    × (rust_main set_cfg (λ ptr f. some tree) 0x40000000 l.meta reset closed
        ≡ some (
          banner 0x40000000 kernel_base (some found_board),
          supervise (record { start_addr = kernel_base; opaque = 0x5fe00000 }) q allowed regions,
        ))
    × IsEntered kernel_base 0x5fe00000 (prepare riscv 0x40000100 kernel_base 0x5fe00000 machine).0
    × (peek kernel_base 2050 l.mem ≡ image (flash pages) 0x800000 2050)
    × (peek 0x5fe00000 3 l.mem ≡ image (flash pages) 0x600000 3)
    × (rights 8 0 0 q 0x40001234 ≡ some 0)
unfolding dtb_offset table.as_bytes table.of_bytes table.of_words table.read_see table.read_kernel
    table.read_dtb as_u32s visit_size visit
main-carried_example =
    main-carried (port (nand_wire pages) (nand_next pages)) (λ d. d.burst) (λ d. d.chip)
      (nand_wire pages) (nand_next pages) (line_delay (nand_wire pages) (nand_next pages)) 1 2
      (λ mem ptr f. some tree) pages busy loaded 1 2 (2 ^ 29) (0x400000, 5) (0x800000, 2050)
      (0x600000, 3) entries start_line tree found_board set_cfg riscv 0x40000000 0x40000100
      0x40001234 reset closed machine (port-IsController (nand_wire pages) (nand_next pages))
      (omega arith) refl (wired-IsNand pages) (omega arith) refl refl refl refl refl (omega arith)
      (omega arith) (omega arith) (omega arith) (omega arith) (omega arith) (omega arith)
      (λ mem a e. refl) tree_only refl refl (omega arith) (omega arith) (omega arith) (omega arith)
      (omega arith) set_cfg-SetsByte riscv-IsRiscv
