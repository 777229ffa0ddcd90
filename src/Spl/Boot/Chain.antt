-- ===== src/Spl/Boot/Chain.antt =====
-- From the loader to the kernel: `main` of spl/src/main.rs, `rust_main` of see/src/main.rs on the memory and the meta data
-- that it leaves, and what `execute_supervisor` of see/src/execute.rs prepares.
use rustsbi_d.Base.{
  ℕ, ◌+◌, ◌-◌, ◌%◌, ◌^◌, ◌≤◌, ◌<◌, ◌≡◌, refl, ap, ◌∙◌, Bool, true, false, Option, some, List, arith,
  ◌==◌, lt→ltb, le→ltb_false, length, u32,
}
use rustsbi_d.Base.Ram.{peek}
use rustsbi_d.Common.Dtb.{HeaderError, is_version_16, Dtb, OnlyCalls, visit_size, parse_memory_size}
use rustsbi_d.Common.Memory as memory
use rustsbi_d.Common.Memory.{dram, kernel_base, dtb_offset, no_offset}
use rustsbi_d.Common.Memory.Laws.{dtb_offset_page}
use rustsbi_d.Common.FlashMeta as flash_meta
use rustsbi_d.Common.FlashMeta.{meta_pos}
use rustsbi_d.Hal.Plic.{Plic, allow_supervisor}
use rustsbi_d.See.Board.{BoardInfo, blank, visit}
use rustsbi_d.See.Execute.{Machine, Context, prepare, reg}
use rustsbi_d.See.Execute.Loop.{prepare_lem}
use rustsbi_d.See.Execute.Transfer.{mpp}
use rustsbi_d.See.Pmp.{Pmp, Range, Permission, Region, SetsByte}
use rustsbi_d.See.Pmp.Protect.{rights}
use rustsbi_d.See.Riscv.{Riscv, IsRiscv}
use rustsbi_d.See.Start.{banner, supervise, rust_main}
use rustsbi_d.See.Start.Boots.{rust_main-board}
use rustsbi_d.Spl.Flash.Chip.{image, flash, IsNand}
use rustsbi_d.Spl.Boot.{Loader, jump, main}
use rustsbi_d.Spl.Boot.Stages.{length-image}
use rustsbi_d.Spl.Boot.Laws.{main-Booted}

-- The crate that reads a tree `t` wherever its `bytes` lie in the memory.
abbrev pub Reads : ((ℕ → ℕ) → ℕ → (HeaderError → Bool) → Option Dtb) → List ℕ → Dtb → Type 1
Reads from_raw bytes t =
    (mem : ℕ → ℕ) (a : ℕ)
    → peek a (length bytes) mem ≡ bytes
    → from_raw mem a is_version_16 ≡ some t

-- What the kernel finds when it is entered: the tree's address in a1, 0 in a0, and S mode.
pub record IsEntered (start_addr opaque : ℕ) (c : Context) : Type 0 where
  pub entry : c.mepc ≡ start_addr
  pub hart : reg 10 c ≡ 0
  pub tree : reg 11 c ≡ opaque
  pub s_mode : mpp c.mstatus ≡ 1

read_offset :
    (size : ℕ) (m : memory.Meta)
    → m.kernel ≡ kernel_base - dram
    → m.dtb ≡ dtb_offset size
    → (memory.read_kernel m ≡ some (dram + (kernel_base - dram)))
      × (memory.read_dtb m ≡ some (dram + dtb_offset size))
unfolding memory.read_kernel memory.read_dtb
read_offset size m k d =
    let (aligned, _) = dtb_offset_page size in
    let there : (dtb_offset size == no_offset) ≡ false = ground (arith, aligned) in
    (rw k refl, rw (d, there) refl)

-- What the walker finds in the tree that the loader copied, at the start of the DRAM.
pub size_found :
    (from_raw : (ℕ → ℕ) → ℕ → (HeaderError → Bool) → Option Dtb) (f : ℕ → ℕ) (dtb : ℕ × ℕ) (t : Dtb)
    (size : ℕ) (mem : ℕ → ℕ)
    → Reads from_raw (image f dtb.0 dtb.1) t
    → t.walk visit_size 0 ≡ some size
    → peek dram dtb.1 mem ≡ image f dtb.0 dtb.1
    → parse_memory_size (from_raw mem) dram ≡ some size
unfolding parse_memory_size
size_found from_raw f dtb t size mem reads sized e =
    let found = reads mem dram (ap (λ n. peek dram n mem) (length-image f dtb.0 dtb.1) ∙ e) in
    rw (found, sized) refl

-- The SEE and its supervisor, on what a loader leaves: the offsets of the kernel and of the tree whose `bytes` lie
-- there.
pub enters :
    (from_raw : (ℕ → ℕ) → ℕ → (HeaderError → Bool) → Option Dtb) (size : ℕ) (bytes : List ℕ)
    (t : Dtb) (i : BoardInfo) (set_cfg : ℕ → Range → Permission → ℕ → ℕ) (r : Riscv)
    (entry handler a : ℕ) (p : Pmp) (plic : Plic) (m : Machine) (meta : memory.Meta) (mem : ℕ → ℕ)
    → meta.kernel ≡ kernel_base - dram
    → meta.dtb ≡ dtb_offset size
    → peek (dram + dtb_offset size) (length bytes) mem ≡ bytes
    → Reads from_raw bytes t
    → OnlyCalls t
    → t.walk visit (blank (dram + dtb_offset size) t) ≡ some i
    → i.mem.0 % 4 ≡ 0
    → i.mem.1 % 4 ≡ 0
    → i.mem.0 ≤ a
    → a < kernel_base
    → kernel_base ≤ i.mem.1
    → SetsByte set_cfg
    → IsRiscv r
    → (q : Pmp) × (regions : List Region) × (rust_main set_cfg (from_raw mem) entry meta p plic
        ≡ some (
          banner entry kernel_base (some i),
          supervise
              (record { start_addr = kernel_base; opaque = dram + dtb_offset size })
              q
              (allow_supervisor plic)
              regions,
        ))
      × IsEntered kernel_base
          (dram + dtb_offset size)
          (prepare r handler kernel_base (dram + dtb_offset size) m).0
      × (rights 8 0 0 q a ≡ some 0)
enters from_raw size bytes t i set_cfg r entry handler a p plic m meta mem k d there reads only
      walked s4 e4 low high ends sets crate =
    let off = dtb_offset size in
    let (rk, rd) = read_offset size meta k d in
    let found = reads mem (dram + off) there in
    let (q, regions, starts, _, has) =
      rust_main-board set_cfg (from_raw mem) entry (kernel_base - dram) a (dram + off) t i meta p
        plic sets rk rd found only walked s4 (omega arith) e4 (omega arith) (omega arith)
        (omega arith) in
    let (at, a0, a1, mode, _, _, _) = prepare_lem r handler kernel_base (dram + off) m crate in
    (
      q,
      regions,
      starts,
      record { entry = at; hart = a0; tree = a1; s_mode = mode },
      has ∙ rw (le→ltb_false a i.mem.0 low, lt→ltb a kernel_base high) refl,
    )

-- A boot from a flash whose table names all three payloads, each within 4 GiB, a device tree of at most 2 MiB, with the SEE below the kernel's
-- place and the kernel below the device tree's, a chip that becomes ready within the polls of each loop, a
-- crate that reads the tree `t` wherever its bytes lie, whose walk only calls its callback and finds the
-- size `size`, whose low 32 bits are at least 2 MiB, and the board `i`, with a memory range of multiples of 4 around the kernel's place, and CSR
-- crates that do what their names say: the loader ends with the DRAM's address; the SEE, started on the
-- memory and the meta data that the loader leaves, enters the kernel in S mode at its place with the address of the
-- tree in a1; the kernel and the tree lie there as in the flash; and S mode has no right to the memory below the
-- kernel, where the SEE lies.
pub main-rust_main :
    {D : Type 0} (transfer : List ℕ → ℕ → ℕ → D → List ℕ × D)
    (from_raw : (ℕ → ℕ) → ℕ → (HeaderError → Bool) → Option Dtb) (page : ℕ → ℕ → ℕ)
    (busy loaded : D → ℕ) (latency polls size : ℕ) (see kernel dtb : ℕ × ℕ)
    (table : flash_meta.Meta) (s : Loader D) (t : Dtb) (i : BoardInfo)
    (set_cfg : ℕ → Range → Permission → ℕ → ℕ) (r : Riscv) (entry handler a : ℕ) (p : Pmp)
    (plic : Plic) (m : Machine)
    → IsNand transfer page busy loaded latency
    → latency < polls
    → s.meta.from_flash ≡ true
    → flash_meta.of_bytes (image (flash page) meta_pos 24) ≡ some table
    → flash_meta.read_see table ≡ some see
    → flash_meta.read_kernel table ≡ some kernel
    → flash_meta.read_dtb table ≡ some dtb
    → see.0 + see.1 ≤ 2 ^ 32
    → kernel.0 + kernel.1 ≤ 2 ^ 32
    → dtb.0 + dtb.1 ≤ 2 ^ 32
    → see.1 ≤ kernel_base - dram
    → dtb.1 ≤ 2 ^ 21
    → 2 ^ 21 ≤ u32 size
    → kernel_base - dram + kernel.1 ≤ dtb_offset size
    → Reads from_raw (image (flash page) dtb.0 dtb.1) t
    → OnlyCalls t
    → t.walk visit_size 0 ≡ some size
    → t.walk visit (blank (dram + dtb_offset size) t) ≡ some i
    → i.mem.0 % 4 ≡ 0
    → i.mem.1 % 4 ≡ 0
    → i.mem.0 ≤ a
    → a < kernel_base
    → kernel_base ≤ i.mem.1
    → SetsByte set_cfg
    → IsRiscv r
    → (l : Loader D) × (q : Pmp) × (regions : List Region) × (main transfer
          (λ mem. parse_memory_size (from_raw mem) dram)
          polls
          s
        ≡ some (jump dram, l))
      × (rust_main set_cfg (from_raw l.mem) entry l.meta p plic
          ≡ some (
            banner entry kernel_base (some i),
            supervise
                (record { start_addr = kernel_base; opaque = dram + dtb_offset size })
                q
                (allow_supervisor plic)
                regions,
          ))
      × IsEntered kernel_base
          (dram + dtb_offset size)
          (prepare r handler kernel_base (dram + dtb_offset size) m).0
      × (peek kernel_base kernel.1 l.mem ≡ image (flash page) kernel.0 kernel.1)
      × (peek (dram + dtb_offset size) dtb.1 l.mem ≡ image (flash page) dtb.0 dtb.1)
      × (rights 8 0 0 q a ≡ some 0)
main-rust_main transfer from_raw page busy loaded latency polls size see kernel dtb table s t i
      set_cfg r entry handler a p plic m chip enough from_flash on_flash has_see has_kernel has_dtb
      fits_s fits_k fits_d below_s small ample below_k reads only sized walked s4 e4 low high ends
      sets crate =
    let f = flash page in
    let (l, loads, b) =
      main-Booted transfer (λ mem. parse_memory_size (from_raw mem) dram) page busy loaded latency
        polls size see kernel dtb table s chip enough from_flash on_flash has_see has_kernel has_dtb
        fits_s fits_k fits_d (λ mem. size_found from_raw f dtb t size mem reads sized) below_s small
        ample below_k in
    let off = dtb_offset size in
    let there = ap (λ n. peek (dram + off) n l.mem) (length-image f dtb.0 dtb.1) ∙ b.dtb_loaded in
    let (q, regions, starts, entered, denied) =
      enters from_raw size (image f dtb.0 dtb.1) t i set_cfg r entry handler a p plic m l.meta l.mem
        b.kernel_offset b.dtb_offset there reads only walked s4 e4 low high ends sets crate in
    (l, q, regions, loads, starts, entered, b.kernel_loaded, b.dtb_loaded, denied)
