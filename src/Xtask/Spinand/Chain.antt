-- ===== src/Xtask/Spinand/Chain.antt =====
-- From the tool to the kernel: `Components::flash` of xtask/src/components.rs, then the loader, the SEE and the entry of
-- the kernel on the flash that the tool wrote.
use rustsbi_d.Base.{
  ℕ, ◌+◌, ◌-◌, ◌%◌, ◌^◌, ◌≤◌, ◌<◌, ◌≡◌, refl, Bool, true, false, ◌&&◌, Option, some, List, length,
  u32,
}
use rustsbi_d.Base.Ram.{peek}
use rustsbi_d.Common.Dtb.{HeaderError, Dtb, OnlyCalls, visit_size, parse_memory_size}
use rustsbi_d.Common.Memory.{dram, kernel_base, dtb_offset}
use rustsbi_d.Hal.Plic.{Plic, allow_supervisor}
use rustsbi_d.See.Board.{BoardInfo, blank, visit}
use rustsbi_d.See.Execute.{Machine, prepare}
use rustsbi_d.See.Pmp.{Pmp, Range, Permission, Region, SetsByte}
use rustsbi_d.See.Pmp.Protect.{rights}
use rustsbi_d.See.Riscv.{Riscv, IsRiscv}
use rustsbi_d.See.Start.{banner, supervise, rust_main}
use rustsbi_d.Spl.Boot.Chain.{Reads, IsEntered, enters}
use rustsbi_d.Spl.Flash.Chip.{IsNand}
use rustsbi_d.Spl.Boot.{Loader, jump, main}
use rustsbi_d.Common.FlashMeta.{kernel_pos}
use rustsbi_d.Xtask.Result.{ok}
use rustsbi_d.Xtask.World.{Target, Host, World, Holds}
use rustsbi_d.Xtask.Make.{Components, make}
use rustsbi_d.Xtask.Spinand.{FlashArgs, flash}
use rustsbi_d.Xtask.Spinand.Layout.{unit, IsProgram}
use rustsbi_d.Xtask.Spinand.Boots.{pages_of, Ready, flash-main}

-- The size that the crate finds in the tree that lies at the start of the DRAM.
tree_size :
    (from_raw : (ℕ → ℕ) → ℕ → (HeaderError → Bool) → Option Dtb) (bytes : List ℕ) (t : Dtb)
    (size : ℕ) (mem : ℕ → ℕ)
    → Reads from_raw bytes t
    → t.walk visit_size 0 ≡ some size
    → peek dram (length bytes) mem ≡ bytes
    → parse_memory_size (from_raw mem) dram ≡ some size
unfolding parse_memory_size
tree_size from_raw bytes t size mem reads sized e = rw (reads mem dram e, sized) refl

-- From the command on the host to the kernel's first instruction: with an xfel that writes what it is given, files that
-- are there and no outputs of the tool, a SEE and a device tree of at most 2 MiB, a kernel that ends below 4 GiB of the
-- flash and below the device tree's place in memory, a reset that fails if there is one, a flash of bytes, a chip that
-- holds what was written and becomes ready within the polls, a loader started from the flash, a crate that reads the
-- tree `tree` wherever its bytes lie, whose walk only calls its callback and finds the size `size`, whose low 32 bits are at least 2 MiB, and the board `i`, with
-- a memory range of multiples of 4 around the kernel's place, and CSR crates that do what their names say: `flash`
-- succeeds, the loader ends with the DRAM's address, and the SEE, on the memory and the meta data that the loader
-- leaves, enters the kernel in S mode at its place with the address of the tree in a1; the bytes of the three
-- files lie in memory where the meta data says, and S mode has no right to the memory below the kernel, where the
-- SEE lies.
pub flash-rust_main :
    (h : Host) (c : Components) (args : FlashArgs) (w w1 : World) (t : Target)
    (spl : Option (List ℕ)) (see kernel dtb : List ℕ) {D : Type 0}
    (transfer : (ℕ → ℕ) → List ℕ → ℕ → ℕ → D → List ℕ × D)
    (from_raw : (ℕ → ℕ) → ℕ → (HeaderError → Bool) → Option Dtb) (busy loaded : D → ℕ)
    (latency polls size : ℕ) (s : Loader D) (tree : Dtb) (i : BoardInfo)
    (set_cfg : ℕ → Range → Permission → ℕ → ℕ) (r : Riscv) (entry handler a : ℕ) (p : Pmp)
    (plic : Plic) (m : Machine)
    → IsProgram h.program
    → make h c w ≡ ok (t, w1)
    → Holds w1.files t.spl spl
    → Holds w1.files t.see (some see)
    → Holds w1.files t.kernel (some kernel)
    → Holds w1.files t.dtb (some dtb)
    → (args.boot && h.reset) ≡ false
    → ((a : ℕ) → w1.flash a < 2 ^ 8)
    → length see ≤ unit
    → length dtb ≤ unit
    → length kernel ≤ 2 ^ 32 - kernel_pos
    → ((f : ℕ → ℕ) → IsNand (transfer f) (pages_of f) busy loaded latency)
    → latency < polls
    → s.meta.from_flash ≡ true
    → 2 ^ 21 ≤ u32 size
    → kernel_base - dram + length kernel ≤ dtb_offset size
    → Reads from_raw dtb tree
    → OnlyCalls tree
    → tree.walk visit_size 0 ≡ some size
    → tree.walk visit (blank (dram + dtb_offset size) tree) ≡ some i
    → i.mem.0 % 4 ≡ 0
    → i.mem.1 % 4 ≡ 0
    → i.mem.0 ≤ a
    → a < kernel_base
    → kernel_base ≤ i.mem.1
    → SetsByte set_cfg
    → IsRiscv r
    → (w2 : World) × (l : Loader D) × (q : Pmp) × (regions : List Region) × (flash h c args w
        ≡ ok w2)
      × (main (transfer w2.flash) (λ mem. parse_memory_size (from_raw mem) dram) polls s
          ≡ some (jump dram, l))
      × (rust_main set_cfg (from_raw l.mem) entry l.meta p plic
          ≡ some (
            banner entry kernel_base (some i),
            supervise
                (record { start_addr = kernel_base; opaque = dram + dtb_offset size })
                q
                (allow_supervisor plic)
                regions,
          ))
      × IsEntered kernel_base
          (dram + dtb_offset size)
          (prepare r handler kernel_base (dram + dtb_offset size) m).0
      × Ready see kernel dtb (dtb_offset size) l
      × (rights 8 0 0 q a ≡ some 0)
flash-rust_main h c args w w1 t spl see kernel dtb transfer from_raw busy loaded latency polls size
      s tree i set_cfg r entry handler a p plic m xfel made has_spl has_see has_kernel has_dtb fails
      small see_fits dtb_fits kernel_fits chips enough from_flash ample below reads only sized
      walked s4 e4 low high ends sets crate =
    let (w2, l, wrote, loads, ready) =
      flash-main h c args w w1 t spl see kernel dtb transfer
        (λ mem. parse_memory_size (from_raw mem) dram) busy loaded latency polls size s xfel made
        has_spl has_see has_kernel has_dtb fails small see_fits dtb_fits kernel_fits chips enough
        from_flash (λ mem e. tree_size from_raw dtb tree size mem reads sized e) ample below in
    let (q, regions, starts, entered, denied) =
      enters from_raw size dtb tree i set_cfg r entry handler a p plic m l.meta l.mem
        ready.kernel_offset ready.dtb_offset ready.dtb_loaded reads only walked s4 e4 low high ends
        sets crate in
    (w2, l, q, regions, wrote, loads, starts, entered, ready, denied)
