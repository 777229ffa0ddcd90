-- ===== src/Xtask/Debug.antt =====
-- xtask/src/components.rs, `Components::debug`: the stages written straight to the RAM of the board, the meta
-- data that tells each of them where the next one is, and the start.
pub mod Laws
pub mod Debugged
pub mod Start
use rustsbi_d.Base.{
  ℕ, zero, suc, ◌+◌, ◌-◌, ◌*◌, ◌/◌, ◌%◌, ◌^◌, ◌≤◌, ◌<◌, min, max, bit_and, bit_or, ◌≡◌, refl, sym,
  ap, ◌∙◌, fun_ext, ◌≢◌, ◌↔◌, ◌⊎◌, inl, inr, Bool, true, false, not, ◌&&◌, ◌||◌, Option, none, some,
  List, [], ◌∷◌, ◌++◌, map, arith, ltb, leb, ◌==◌, if◌then◌else◌, Bool-cases, Option-cases, ltb→lt,
  lt→ltb, le→ltb_false, ==_iff, length, get_elem?, get_or, set, take, drop, replicate,
  length-append, length-set, get_or-set_self, get_or-set_ne, length-replicate, u8, u32, u64,
  u32_max, u64_max, ◌<<<◌, ◌>>>◌, complement,
}
use rustsbi_d.Common.Memory.{sram, dram, kernel_base, meta_base, dtb_offset}
use rustsbi_d.Xtask.Result.{invalid_procedure, Result, ok, err, ◌>>=◌, unwrap}
use rustsbi_d.Xtask.World.{FilePath, meta_ram, Target, Host, World, write_file, ddr, write, exec}
use rustsbi_d.Xtask.Make.{Components, make}
use rustsbi_d.Common.Memory as memory
use rustsbi_d.Common.Dtb.{parse_memory_size}

abbrev pub is_some : {A : Type 0} → Option A → Bool
is_some none = false
is_some (some a) = true

module _ (h : Host) where
  unfoldable pub debug_kernel : Option FilePath → memory.Meta × World → Result (memory.Meta × World)
  debug_kernel none s = ok s
  debug_kernel (some file) (m, w) = do
    w1 ← write kernel_base file w
    ok (memory.set_kernel (u32 (kernel_base - dram)) m, w1)

  -- What `parse_memory_size` finds in the buffer; `none` is its panic, for bytes that are no tree, or an empty `reg`.
  unfoldable pub tree_size : List ℕ → Option ℕ
  tree_size bytes = parse_memory_size (λ ptr. h.from_raw bytes) 0

  -- The device tree is read to learn the size of the memory, and goes to its end.
  unfoldable pub debug_dtb : Option FilePath → memory.Meta × World → Result (memory.Meta × World)
  debug_dtb none s = ok s
  debug_dtb (some file) (m, w) = do
    bytes ← unwrap (w.files file)
    size ← unwrap (tree_size bytes)
    let offset = dtb_offset size
    w1 ← write (dram + offset) file w
    ok (memory.set_dtb offset m, w1)

  -- Without a SEE neither the kernel nor the device tree is written.
  unfoldable pub debug_see :
      Option FilePath → Target → memory.Meta × World → Result (memory.Meta × World)
  debug_see none target s = ok s
  debug_see (some file) target (m, w) = do
    w1 ← write dram file (ddr w)
    s ← debug_kernel target.kernel (memory.set_see 0 m, w1)
    debug_dtb target.dtb s

  -- The loader, or what was already in the DRAM.
  unfoldable pub debug_spl : Option FilePath → World → Result (ℕ × World)
  debug_spl none w = ok (dram, w)
  debug_spl (some file) w = do w1 ← write sram file w; ok (sram, w1)

  unfoldable pub start : memory.Meta → ℕ × World → Result World
  start m (entry, w) = do
    w1 ← write meta_base meta_ram (write_file meta_ram (memory.as_bytes m) w)
    ok (exec entry w1)

  unfoldable pub debug : Components → World → Result World
  debug c w =
      if c.spl && c.see
      then err invalid_procedure
      else if not c.see && is_some c.kernel
      then err invalid_procedure
      else do
        made ← make h c w
        s ← debug_see made.0.see made.0 (memory.default, made.1)
        t ← debug_spl made.0.spl s.1
        start s.0 t
