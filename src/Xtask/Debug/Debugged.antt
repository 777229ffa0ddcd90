-- ===== src/Xtask/Debug/Debugged.antt =====
-- `Components::debug`: what the stages find in the RAM when the board starts.
use rustsbi_d.Base.{
  ℕ, ◌+◌, ◌-◌, ◌^◌, ◌≤◌, min, ◌≡◌, refl, sym, ap, ◌∙◌, inl, inr, true, Option, none, some, List,
  arith, length, u32,
}
use rustsbi_d.Base.Ram.{peek-place_other, peek-place, peek, place}
use rustsbi_d.Common.Memory.{dram, kernel_base, meta_base, dtb_offset, Meta, page, no_offset}
use rustsbi_d.Common.Memory.Laws.{of_bytes-as_bytes, dtb_offset_last_page}
use rustsbi_d.Xtask.Spinand.Layout.{len_of}
use rustsbi_d.Xtask.World.{World}
use rustsbi_d.Common.Memory as memory
use rustsbi_d.Xtask.Debug.Laws.{
  put_at, at, offset_of, meta_of, meta_of-IsMeta, read-meta_of, peek-put_at_other, length-as_bytes,
  below_tree,
}

-- The payload lies at `base`, if there is one.
unfoldable pub LoadedAt : ℕ → Option (List ℕ) → (ℕ → ℕ) → Type 0
LoadedAt base none mem = Unit
LoadedAt base (some bytes) mem = peek base (length bytes) mem ≡ bytes

LoadedAt_lem :
    (base : ℕ) (b : Option (List ℕ)) (mem : ℕ → ℕ)
    → ((bytes : List ℕ) → b ≡ some bytes → peek base (length bytes) mem ≡ bytes)
    → LoadedAt base b mem
unfolding LoadedAt
LoadedAt_lem base none mem h = tt
LoadedAt_lem base (some bytes) mem h = h bytes refl

-- The board when the first stage starts: the payloads where the meta data in SRAM says.
pub record Debugged (size : ℕ) (see : List ℕ) (kernel dtb : Option (List ℕ)) (m : Meta) (w : World)
    : Type 0 where
  pub see_loaded : peek dram (length see) w.ram ≡ see
  pub kernel_loaded : LoadedAt kernel_base kernel w.ram
  pub dtb_in_memory : offset_of size dtb + page ≤ min (u32 size) (2 ^ 30)
  pub dtb_loaded : LoadedAt (dram + offset_of size dtb) dtb w.ram
  pub meta_loaded : memory.of_bytes (peek meta_base 16 w.ram) ≡ some m
  pub see_read : memory.read_see m ≡ some dram
  pub kernel_read : memory.read_kernel m ≡ at kernel_base kernel
  pub dtb_read : memory.read_dtb m ≡ at (dram + offset_of size dtb) dtb
  pub dram_ready : w.ddr ≡ true
  pub started : w.entry ≡ some dram

put_at_loaded :
    (base : ℕ) (b : Option (List ℕ)) (mem : ℕ → ℕ) (bytes : List ℕ)
    → b ≡ some bytes
    → peek base (length bytes) (put_at base b mem) ≡ bytes
put_at_loaded base b mem bytes e = rw e (peek-place base bytes mem)

unfoldable pub final_ram : ℕ → List ℕ → Option (List ℕ) → Option (List ℕ) → (ℕ → ℕ) → ℕ → ℕ
final_ram size see kernel dtb mem =
    place meta_base (memory.as_bytes (meta_of size kernel dtb))
      (put_at (dram + offset_of size dtb) dtb (put_at kernel_base kernel (place dram see mem)))

offset_of_fits :
    (size : ℕ) (dtb : Option (List ℕ))
    → page ≤ u32 size
    → offset_of size dtb + page ≤ min (u32 size) (2 ^ 30)
offset_of_fits size none ample = omega (arith, ample)
offset_of_fits size (some d) ample = (dtb_offset_last_page size ample).1

-- The memory of a debug run, with the parts in their order.
pub final_ram_lem :
    (size : ℕ) (see : List ℕ) (kernel dtb : Option (List ℕ)) (w : World) (mem : ℕ → ℕ)
    → length see ≤ kernel_base - dram
    → page ≤ u32 size
    → ((bytes : List ℕ)
        → dtb ≡ some bytes
        → kernel_base - dram + len_of kernel ≤ offset_of size dtb)
    → w.ram ≡ final_ram size see kernel dtb mem
    → w.ddr ≡ true
    → w.entry ≡ some dram
    → Debugged size see kernel dtb (meta_of size kernel dtb) w
unfolding final_ram
final_ram_lem size see kernel dtb w mem see_fits ample kernel_fits ram ready started =
    let m = meta_of size kernel dtb in
    let tree = dram + offset_of size dtb in
    let bytes = memory.as_bytes m in
    let n = length-as_bytes m in
    let r1 : ℕ → ℕ = place dram see mem in
    let r2 : ℕ → ℕ = put_at kernel_base kernel r1 in
    let r3 : ℕ → ℕ = put_at tree dtb r2 in
    let past : (a k : ℕ) → dram ≤ a → peek a k w.ram ≡ peek a k r3 = λ a k high.
      ap (peek a k) ram ∙ peek-place_other meta_base bytes r3 a k (inr (omega (arith, n))) in
    let (see_read, kernel_read, dtb_read) = read-meta_of size kernel dtb in
    record {
      see_loaded =
          past dram (length see) (omega arith)
          ∙ below_tree size dtb r2 dram (length see) (λ d e. omega (arith, kernel_fits d e))
          ∙ peek-put_at_other kernel_base kernel r1 dram (length see) (inl (omega arith))
          ∙ peek-place dram see mem;
      kernel_loaded = LoadedAt_lem kernel_base kernel w.ram (λ k e.
          past kernel_base (length k) (omega arith)
          ∙ below_tree size dtb r2 kernel_base (length k)
              (λ d e1. omega (arith, kernel_fits d e1, ap len_of e))
          ∙ put_at_loaded kernel_base kernel r1 k e);
      dtb_in_memory = offset_of_fits size dtb ample;
      dtb_loaded =
          LoadedAt_lem tree dtb w.ram
            (λ d e. past tree (length d) (omega arith) ∙ put_at_loaded tree dtb r2 d e);
      meta_loaded =
          ap memory.of_bytes (
            ap (λ k. peek meta_base k w.ram) (sym n)
            ∙ ap (peek meta_base (length bytes)) ram
            ∙ peek-place meta_base bytes r3)
          ∙ of_bytes-as_bytes m (meta_of-IsMeta size kernel dtb);
      see_read = see_read;
      kernel_read = kernel_read;
      dtb_read = dtb_read;
      dram_ready = ready;
      started = started;
    }
