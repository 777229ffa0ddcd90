-- ===== src/Spl/Boot/Registers.antt =====
-- The whole boot over the registers of the SPI controller.
use rustsbi_d.Base.{
  ℕ, ◌+◌, ◌-◌, ◌%◌, ◌^◌, ◌≤◌, ◌<◌, ◌≡◌, refl, sym, ap, ◌∙◌, Bool, true, Option, none, some, List,
  u32,
}
use rustsbi_d.Base.Ram.{peek}
use rustsbi_d.Common.Dtb.{HeaderError, Dtb, OnlyCalls, visit_size, parse_memory_size}
use rustsbi_d.Common.Memory.{dram, kernel_base, dtb_offset}
use rustsbi_d.Common.FlashMeta as flash_meta
use rustsbi_d.Common.FlashMeta.{meta_pos}
use rustsbi_d.Hal.Plic.{Plic, allow_supervisor}
use rustsbi_d.See.Board.{BoardInfo, blank, visit}
use rustsbi_d.See.Execute.{Machine, prepare}
use rustsbi_d.See.Pmp.{Pmp, Range, Permission, Region, SetsByte}
use rustsbi_d.See.Pmp.Protect.{rights}
use rustsbi_d.See.Riscv.{Riscv, IsRiscv}
use rustsbi_d.See.Start.{banner, supervise, rust_main}
use rustsbi_d.Spl.Flash.Chip.{image, flash, IsNand}
use rustsbi_d.Spl.Boot.{Loader, jump, main}
use rustsbi_d.Base.Both.{Both-some}
use rustsbi_d.Hal.Transfer.{Port}
use rustsbi_d.Hal.Transfer.Bus.{Burst, IsController}
use rustsbi_d.Spl.Flash.Controller.{exchange, carried, Idle, carried-Simulates}
use rustsbi_d.Spl.Boot.Over.{SameEnd, main-Both}
use rustsbi_d.Spl.Boot.Chain.{Reads, IsEntered, main-rust_main}

-- With a controller that keeps `IsController`, no burst running and more polls than its latency, a flash chip
-- behind it that keeps `IsNand` over its exchanges and becomes ready within the polls of each loop, a table in
-- the flash that names all three payloads, each within 4 GiB, a device tree of at most 2 MiB, with the SEE below the kernel's place and the
-- kernel below the device tree's, a crate that reads the tree `t` wherever its bytes lie, whose walk only calls
-- its callback and finds the size `size`, whose low 32 bits are at least 2 MiB, and the board `i`, with a memory range of multiples of 4 around the
-- kernel's place, and CSR crates that do what their names say: the loader, over the registers, ends with the
-- DRAM's address; the SEE, started on the memory and the meta data that the loader leaves, enters the kernel in
-- S mode at its place with the address of the tree in a1; the kernel and the tree lie there as in the flash; and
-- S mode has no right to the memory below the kernel, where the SEE lies.
pub main-carried :
    {D C : Type 0} (port : Port D) (burst : D → Option Burst) (chip : D → C)
    (wire : List ℕ → ℕ → C → ℕ → ℕ) (next : List ℕ → ℕ → ℕ → C → C) (delay : D → ℕ)
    (port_latency port_polls : ℕ) (from_raw : (ℕ → ℕ) → ℕ → (HeaderError → Bool) → Option Dtb)
    (page : ℕ → ℕ → ℕ) (busy loaded : C → ℕ) (latency polls size : ℕ) (see kernel dtb : ℕ × ℕ)
    (table : flash_meta.Meta) (s : Loader D) (t : Dtb) (i : BoardInfo)
    (set_cfg : ℕ → Range → Permission → ℕ → ℕ) (r : Riscv) (entry handler a : ℕ) (p : Pmp)
    (plic : Plic) (m : Machine)
    → IsController port burst chip wire next delay port_latency
    → port_latency < port_polls
    → burst s.chip ≡ none
    → IsNand (exchange wire next) page busy loaded latency
    → latency < polls
    → s.meta.from_flash ≡ true
    → flash_meta.of_bytes (image (flash page) meta_pos 24) ≡ some table
    → flash_meta.read_see table ≡ some see
    → flash_meta.read_kernel table ≡ some kernel
    → flash_meta.read_dtb table ≡ some dtb
    → see.0 + see.1 ≤ 2 ^ 32
    → kernel.0 + kernel.1 ≤ 2 ^ 32
    → dtb.0 + dtb.1 ≤ 2 ^ 32
    → see.1 ≤ kernel_base - dram
    → dtb.1 ≤ 2 ^ 21
    → 2 ^ 21 ≤ u32 size
    → kernel_base - dram + kernel.1 ≤ dtb_offset size
    → Reads from_raw (image (flash page) dtb.0 dtb.1) t
    → OnlyCalls t
    → t.walk visit_size 0 ≡ some size
    → t.walk visit (blank (dram + dtb_offset size) t) ≡ some i
    → i.mem.0 % 4 ≡ 0
    → i.mem.1 % 4 ≡ 0
    → i.mem.0 ≤ a
    → a < kernel_base
    → kernel_base ≤ i.mem.1
    → SetsByte set_cfg
    → IsRiscv r
    → (l : Loader D) × (q : Pmp) × (regions : List Region) × (main
          (carried port port_polls)
          (λ mem. parse_memory_size (from_raw mem) dram)
          polls
          s
        ≡ some (jump dram, l))
      × (rust_main set_cfg (from_raw l.mem) entry l.meta p plic
          ≡ some (
            banner entry kernel_base (some i),
            supervise
                (record { start_addr = kernel_base; opaque = dram + dtb_offset size })
                q
                (allow_supervisor plic)
                regions,
          ))
      × IsEntered kernel_base
          (dram + dtb_offset size)
          (prepare r handler kernel_base (dram + dtb_offset size) m).0
      × (peek kernel_base kernel.1 l.mem ≡ image (flash page) kernel.0 kernel.1)
      × (peek (dram + dtb_offset size) dtb.1 l.mem ≡ image (flash page) dtb.0 dtb.1)
      × (rights 8 0 0 q a ≡ some 0)
main-carried {C = C} port burst chip wire next delay port_latency port_polls from_raw page busy
      loaded latency polls size see kernel dtb table s t i set_cfg r entry handler a p plic m
      controller port_enough idle nand enough from_flash on_flash has_see has_kernel has_dtb fits_s
      fits_k fits_d below_s small ample below_k reads only sized walked s4 e4 low high ends sets
      crate =
    let bus = carried port port_polls in
    let ex = exchange wire next in
    let R = Idle port burst chip wire next delay port_latency port_polls controller port_enough in
    let sized_by = λ (mem : ℕ → ℕ). parse_memory_size (from_raw mem) dram in
    let (k, q, regions, loads, starts, entered, kernel_there, dtb_there, denied) =
      main-rust_main ex from_raw page busy loaded latency polls size see kernel dtb table
        (record { meta = s.meta; mem = s.mem; chip = chip s.chip }) t i set_cfg r entry handler a p
        plic m nand enough from_flash on_flash has_see has_kernel has_dtb fits_s fits_k fits_d
        below_s small ample below_k reads only sized walked s4 e4 low high ends sets crate in
    let sim =
      carried-Simulates port burst chip wire next delay port_latency port_polls controller
        port_enough in
    let held = main-Both bus ex R sized_by polls sim s (chip s.chip) (idle, refl) in
    let (e, goes, (jumps, (c, same, _))) =
      Both-some (SameEnd bus ex R sized_by polls) (main bus sized_by polls s) (jump dram, k)
        (rw loads at held) in
    (
      e.1,
      q,
      regions,
      goes ∙ ap (λ n. some (n, e.1)) jumps,
      ap (λ (x : Loader C). rust_main set_cfg (from_raw x.mem) entry x.meta p plic) (sym same)
          ∙ starts,
      entered,
      ap (λ (x : Loader C). peek kernel_base kernel.1 x.mem) (sym same) ∙ kernel_there,
      ap (λ (x : Loader C). peek (dram + dtb_offset size) dtb.1 x.mem) (sym same) ∙ dtb_there,
      denied,
    )
