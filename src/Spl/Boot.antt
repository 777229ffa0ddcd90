-- ===== src/Spl/Boot.antt =====
-- spl/src/main.rs, `main`: what the loader copies from the flash to the DRAM, what it records in the meta data
-- in SRAM, and where it jumps. The memory is a function from an address to a byte. The crate that walks
-- the device tree is the parameter `memory_size`, the size that `parse_memory_size` of Common/Dtb finds with
-- it in the memory, or its panic. What is printed, and the set-up of clocks and pins, is left out.
pub mod Stages
pub mod Laws
pub mod Chain
pub mod Over
pub mod Registers
pub mod Misses
use rustsbi_d.Base.{
  ℕ, zero, suc, ◌+◌, ◌-◌, ◌*◌, ◌/◌, ◌%◌, ◌^◌, ◌≤◌, ◌<◌, min, max, bit_and, bit_or, ◌≡◌, refl, sym,
  ap, ◌∙◌, fun_ext, ◌≢◌, ◌↔◌, ◌⊎◌, inl, inr, Bool, true, false, not, ◌&&◌, ◌||◌, Option, none, some,
  List, [], ◌∷◌, ◌++◌, map, arith, ltb, leb, ◌==◌, if◌then◌else◌, Bool-cases, Option-cases, ltb→lt,
  lt→ltb, le→ltb_false, ==_iff, length, get_elem?, get_or, set, take, drop, replicate,
  length-append, length-set, get_or-set_self, get_or-set_ne, length-replicate, u8, u32, u64,
  u32_max, u64_max, ◌<<<◌, ◌>>>◌, complement, ◌>>=◌,
}
use rustsbi_d.Base.Ram.{place, peek}
use rustsbi_d.Common.Memory as memory
use rustsbi_d.Common.FlashMeta as flash
use rustsbi_d.Common.Memory.{dram, kernel_base, dtb_offset, no_offset}
use rustsbi_d.Common.FlashMeta.{meta_pos}
use rustsbi_d.Spl.Flash.{read_id, copy_into}

pub record Loader (D : Type 0) : Type 0 where
  pub meta : memory.Meta
  pub mem : ℕ → ℕ
  pub chip : D

-- `idle` is `arrow_walk`, `jump` the address that `main` returns.
pub data Next : Type 0 where
  idle : Next
  jump : ℕ → Next

-- `copy_from_nonoverlapping`; the copy of ranges that overlap is undefined, which is `none`.
unfoldable pub copy_nonoverlapping : ℕ → ℕ → ℕ → (ℕ → ℕ) → Option (ℕ → ℕ)
copy_nonoverlapping src dst len mem =
    if leb (src + len) dst || leb (dst + len) src
    then some (place dst (peek src len mem) mem)
    else none

module _ {D : Type 0} (transfer : List ℕ → ℕ → ℕ → D → List ℕ × D)
    (memory_size : (ℕ → ℕ) → Option ℕ) (polls : ℕ) where
  -- `flash.copy_into(pos, static_buf(base, len))`
  unfoldable pub load : ℕ → ℕ → ℕ → Loader D → Option (Loader D)
  load base pos len s = do
    part ← copy_into transfer polls len pos len s.chip
    some (record s { mem = place base part.0 s.mem; chip = part.1 })

  -- The device tree goes to the start of the DRAM, and from there to its place at the end. That address is a sum of
  -- two u32, which wraps.
  unfoldable pub load_dtb : Option (ℕ × ℕ) → Loader D → Option (Loader D)
  load_dtb none s = some s
  load_dtb (some (pos, len)) s = do
    t ← load dram pos len s
    size ← memory_size t.mem
    let offset = dtb_offset size
    copied ← copy_nonoverlapping dram (u32 (dram + offset)) len t.mem
    some (record t { meta = memory.set_dtb offset t.meta; mem = copied })

  unfoldable pub load_see : ℕ × ℕ → Loader D → Option (Loader D)
  load_see (pos, len) s = do
    t ← load dram pos len s
    some (record t { meta = memory.set_see 0 t.meta })

  unfoldable pub load_kernel : Option (ℕ × ℕ) → Loader D → Option (Loader D)
  load_kernel none s = some s
  load_kernel (some (pos, len)) s = do
    t ← load kernel_base pos len s
    some (record t { meta = memory.set_kernel (kernel_base - dram) t.meta })

  -- With the table of the flash; without a SEE the loader stops here.
  unfoldable pub load_all : Option (ℕ × ℕ) → flash.Meta → Loader D → Option (Next × Loader D)
  load_all none table s = some (idle, s)
  load_all (some see) table s = do
    s1 ← load_dtb (flash.read_dtb table) s
    s2 ← load_see see s1
    s3 ← load_kernel (flash.read_kernel table) s2
    some (jump dram, s3)

  unfoldable pub main : Loader D → Option (Next × Loader D)
  main s =
      if not s.meta.from_flash
      then some ((if s.meta.see == no_offset then idle else jump (dram + s.meta.see)), s)
      else do
        id ← read_id transfer polls s.chip
        part ← copy_into transfer polls 24 meta_pos 24 id.1
        table ← flash.of_bytes part.0
        load_all (flash.read_see table) table (record s { chip = part.1 })
