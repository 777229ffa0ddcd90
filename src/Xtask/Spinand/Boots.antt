-- ===== src/Xtask/Spinand/Boots.antt =====
-- The tool and the loader together: what `Components::flash` wrote, `main` of spl/src/main.rs boots.
use rustsbi_d.Base.{
  ℕ, zero, suc, ◌+◌, ◌-◌, ◌*◌, ◌/◌, ◌%◌, ◌^◌, ◌≤◌, ◌<◌, ◌≡◌, refl, ap, ◌∙◌, true, false, ◌&&◌,
  Option, some, List, ◌∷◌, arith, length, u32, u32_max,
}
use mathlib.Core.Path.{ap₂}
use rustsbi_d.Base.Ram.{peek}
use rustsbi_d.Common.Memory.{dram, kernel_base, dtb_offset}
use rustsbi_d.Common.FlashMeta.{meta_pos, see_pos, kernel_pos, dtb_pos}
use rustsbi_d.Spl.Flash.{len_page}
use rustsbi_d.Spl.Flash.Chip.{image, IsNand}
use rustsbi_d.Spl.Boot.{Loader, jump, main}
use rustsbi_d.Spl.Boot.Stages.{Booted}
use rustsbi_d.Spl.Boot.Laws.{main-Booted}
use rustsbi_d.Xtask.Result.{ok}
use rustsbi_d.Xtask.World.{Target, Host, World, Holds}
use rustsbi_d.Xtask.Make.{Components, make}
use rustsbi_d.Xtask.Spinand.{FlashArgs, flash}
use rustsbi_d.Xtask.Spinand.Layout.{unit, IsProgram, Part}
use rustsbi_d.Xtask.Spinand.Run.{new_table}
use rustsbi_d.Xtask.Spinand.Flashed.{Flashed}
use rustsbi_d.Xtask.Spinand.Laws.{image_of, flash-Flashed}
use rustsbi_d.Common.FlashMeta as flash_meta
use rustsbi_d.Spl.Flash.Chip as chip

-- The pages of a chip that holds `f`.
abbrev pub pages_of : (ℕ → ℕ) → ℕ → ℕ → ℕ
pages_of f p c = f (p * len_page + c)

image-pages_of : (f : ℕ → ℕ) (a n : ℕ) → image (chip.flash (pages_of f)) a n ≡ peek a n f
image-pages_of f a zero = refl
image-pages_of f a (suc n) =
    ap₂ ◌∷◌ (ap f {x = a / len_page * len_page + a % len_page} {y = a} (omega arith))
      (image-pages_of f (a + 1) n)

-- The entries of a table with all three payloads.
table_lem :
    (see kernel dtb : ℕ) (m : flash_meta.Meta)
    → see < u32_max
    → kernel < u32_max
    → dtb < u32_max
    → let table =
        flash_meta.set_dtb dtb_pos (u32 dtb) (
          flash_meta.set_kernel kernel_pos (u32 kernel) (flash_meta.set_see see_pos (u32 see) m)) in
      (flash_meta.read_see table ≡ some (see_pos, see))
      × (flash_meta.read_kernel table ≡ some (kernel_pos, kernel))
      × (flash_meta.read_dtb table ≡ some (dtb_pos, dtb))
unfolding flash_meta.read_see flash_meta.read_kernel flash_meta.read_dtb flash_meta.set_see
    flash_meta.set_kernel flash_meta.set_dtb
table_lem see kernel dtb m s k d = ground arith

-- The loader's memory and meta data when the next stage starts: the three payloads, byte for byte, where the meta
-- data says.
pub record Ready {D : Type 0} (see kernel dtb : List ℕ) (offset : ℕ) (s : Loader D) : Type 0 where
  pub see_loaded : peek dram (length see) s.mem ≡ see
  pub kernel_loaded : peek kernel_base (length kernel) s.mem ≡ kernel
  pub dtb_loaded : peek (dram + offset) (length dtb) s.mem ≡ dtb
  pub see_offset : s.meta.see ≡ 0
  pub kernel_offset : s.meta.kernel ≡ kernel_base - dram
  pub dtb_offset : s.meta.dtb ≡ offset

Booted-Ready :
    {D : Type 0} (f g : ℕ → ℕ) (spl : Option (List ℕ)) (see kernel dtb : List ℕ)
    (table : flash_meta.Meta) (offset : ℕ) (s : Loader D)
    → Flashed f g spl (some see) (some kernel) (some dtb) table
    → Booted
        (chip.flash (pages_of g))
        (see_pos, length see)
        (kernel_pos, length kernel)
        (dtb_pos, length dtb)
        offset
        s
    → Ready see kernel dtb offset s
unfolding Part
Booted-Ready f g spl see kernel dtb table offset s flashed b = record {
  see_loaded = b.see_loaded ∙ image-pages_of g see_pos (length see) ∙ flashed.see_part;
  kernel_loaded =
      b.kernel_loaded ∙ image-pages_of g kernel_pos (length kernel) ∙ flashed.kernel_part;
  dtb_loaded = b.dtb_loaded ∙ image-pages_of g dtb_pos (length dtb) ∙ flashed.dtb_part;
  see_offset = b.see_offset;
  kernel_offset = b.kernel_offset;
  dtb_offset = b.dtb_offset;
}

-- The tool and the loader together, with an xfel that writes what it is given, files that are there and no outputs of the
-- tool, a SEE and a device tree of at most 2 MiB, a kernel that ends below 4 GiB of the flash and below the device
-- tree's place in memory, a reset that fails if there is one, a flash of bytes, a chip that holds what was written and
-- becomes ready within the polls, a loader started from the flash, and a walker that finds `size`, whose low 32 bits are
-- at least 2 MiB, in the tree: `flash`
-- succeeds, the loader then comes back with the DRAM's address, and the bytes of the three files lie in memory
-- where its meta data says.
pub flash-main :
    (h : Host) (c : Components) (args : FlashArgs) (w w1 : World) (t : Target)
    (spl : Option (List ℕ)) (see kernel dtb : List ℕ) {D : Type 0}
    (transfer : (ℕ → ℕ) → List ℕ → ℕ → ℕ → D → List ℕ × D) (memory_size : (ℕ → ℕ) → Option ℕ)
    (busy loaded : D → ℕ) (latency polls size : ℕ) (s : Loader D)
    → IsProgram h.program
    → make h c w ≡ ok (t, w1)
    → Holds w1.files t.spl spl
    → Holds w1.files t.see (some see)
    → Holds w1.files t.kernel (some kernel)
    → Holds w1.files t.dtb (some dtb)
    → (args.boot && h.reset) ≡ false
    → ((a : ℕ) → w1.flash a < 2 ^ 8)
    → length see ≤ unit
    → length dtb ≤ unit
    → length kernel ≤ 2 ^ 32 - kernel_pos
    → ((f : ℕ → ℕ) → IsNand (transfer f) (pages_of f) busy loaded latency)
    → latency < polls
    → s.meta.from_flash ≡ true
    → ((mem : ℕ → ℕ) → peek dram (length dtb) mem ≡ dtb → memory_size mem ≡ some size)
    → 2 ^ 21 ≤ u32 size
    → kernel_base - dram + length kernel ≤ dtb_offset size
    → (w2 : World) × (r : Loader D) × (flash h c args w ≡ ok w2)
      × (main (transfer w2.flash) memory_size polls s ≡ some (jump dram, r))
      × Ready see kernel dtb (dtb_offset size) r
unfolding Part
flash-main h c args w w1 t spl see kernel dtb transfer memory_size busy loaded latency polls size s
      xfel made has_spl has_see has_kernel has_dtb fails small see_fits dtb_fits kernel_fits chips
      enough from_flash tree ample below =
    let (m, w2, _, run, flashed) =
      flash-Flashed h c args w w1 t spl (some see) (some kernel) (some dtb) xfel made has_spl
        has_see has_kernel has_dtb fails small see_fits dtb_fits kernel_fits in
    let g = w2.flash in
    let (rs, rk, rd) =
      table_lem (length see) (length kernel) (length dtb) m (omega arith) (omega arith)
        (omega arith) in
    let (r, e, b) =
      main-Booted (transfer g) memory_size (pages_of g) busy loaded latency polls size
        (see_pos, length see) (kernel_pos, length kernel) (dtb_pos, length dtb)
        (new_table (some see) (some kernel) (some dtb) m) s (chips g) enough from_flash
        (ap flash_meta.of_bytes (image-pages_of g meta_pos 24) ∙ flashed.table_part) rs rk rd
        (omega arith) (omega arith) (omega arith)
        (λ mem e. tree mem (e ∙ image-pages_of g dtb_pos (length dtb) ∙ flashed.dtb_part))
        (omega arith) (omega arith) ample below in
    (
      w2,
      r,
      run,
      e,
      Booted-Ready w1.flash g (image_of spl) see kernel dtb
          (new_table (some see) (some kernel) (some dtb) m) (dtb_offset size) r flashed b,
    )
