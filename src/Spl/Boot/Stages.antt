-- ===== src/Spl/Boot/Stages.antt =====
-- What each copy of the loader leaves in memory, and the three copies together.
use rustsbi_d.Base.{
  le→leb, ℕ, zero, suc, ◌+◌, ◌-◌, ◌^◌, ◌≤◌, ◌<◌, ◌≡◌, refl, sym, ap, ◌∙◌, ◌⊎◌, inl, inr, Option,
  some, List, arith, length, u32, ◌>>=◌,
}
use rustsbi_d.Common.Memory as memory
use rustsbi_d.Common.Memory.{dram, kernel_base, dtb_offset, no_offset}
use rustsbi_d.Common.Memory.Laws.{dtb_offset_last_page}
use rustsbi_d.Spl.Flash.Chip.{image, flash, IsNand}
use rustsbi_d.Spl.Flash.Laws.{copy_into-image}
use rustsbi_d.Spl.Boot.{Loader, load, copy_nonoverlapping, load_dtb, load_see, load_kernel}
use rustsbi_d.Base.Ram.{place, peek, peek-place, peek-place_other}

pub length-image : (f : ℕ → ℕ) (a n : ℕ) → length (image f a n) ≡ n
length-image f a zero = refl
length-image f a (suc n) = ap suc (length-image f (a + 1) n)

-- The same for bytes of the flash.
pub peek-place-image :
    (f mem : ℕ → ℕ) (base p n : ℕ) → peek base n (place base (image f p n) mem) ≡ image f p n
peek-place-image f mem base p n =
    ap (λ k. peek base k (place base (image f p n) mem)) (sym (length-image f p n))
    ∙ peek-place base (image f p n) mem

-- What the boot leaves behind: each payload in its place, and the meta data that says where.
pub record Booted {D : Type 0} (f : ℕ → ℕ) (see kernel dtb : ℕ × ℕ) (offset : ℕ) (s : Loader D)
    : Type 0 where
  pub see_loaded : peek dram see.1 s.mem ≡ image f see.0 see.1
  pub kernel_loaded : peek kernel_base kernel.1 s.mem ≡ image f kernel.0 kernel.1
  pub dtb_loaded : peek (dram + offset) dtb.1 s.mem ≡ image f dtb.0 dtb.1
  pub see_offset : s.meta.see ≡ 0
  pub kernel_offset : s.meta.kernel ≡ kernel_base - dram
  pub dtb_offset : s.meta.dtb ≡ offset

-- The memory that the three copies leave.
abbrev pub after : (ℕ → ℕ) → ℕ × ℕ → ℕ × ℕ → ℕ × ℕ → ℕ → (ℕ → ℕ) → ℕ → ℕ
after f see kernel dtb off mem = place kernel_base (image f kernel.0 kernel.1) (
    place dram (image f see.0 see.1)
      (place (dram + off) (image f dtb.0 dtb.1) (place dram (image f dtb.0 dtb.1) mem)))

pub booted :
    {D : Type 0} (f : ℕ → ℕ) (see kernel dtb : ℕ × ℕ) (off : ℕ) (s : Loader D) (d : D)
    → see.1 ≤ kernel_base - dram
    → kernel_base - dram + kernel.1 ≤ off
    → Booted f see kernel dtb off (record s {
      meta = record s.meta { see = 0; kernel = kernel_base - dram; dtb = off };
      mem = after f see kernel dtb off s.mem;
      chip = d;
    })
booted f see kernel dtb off s d see_below kernel_below =
    let m0 : ℕ → ℕ = place dram (image f dtb.0 dtb.1) s.mem in
    let m1 : ℕ → ℕ = place (dram + off) (image f dtb.0 dtb.1) m0 in
    let m2 : ℕ → ℕ = place dram (image f see.0 see.1) m1 in
    let ls = length-image f see.0 see.1 in
    let lk = length-image f kernel.0 kernel.1 in
    record {
      see_loaded =
          peek-place_other kernel_base (image f kernel.0 kernel.1) m2 dram see.1 (inl (omega arith))
          ∙ peek-place-image f m1 dram see.0 see.1;
      kernel_loaded = peek-place-image f m2 kernel_base kernel.0 kernel.1;
      dtb_loaded =
          peek-place_other kernel_base (image f kernel.0 kernel.1) m2 (dram + off) dtb.1
            (inr (omega (arith, lk)))
          ∙ peek-place_other dram (image f see.0 see.1) m1 (dram + off) dtb.1
              (inr (omega (arith, ls)))
          ∙ peek-place-image f m0 (dram + off) dtb.0 dtb.1;
      see_offset = refl;
      kernel_offset = refl;
      dtb_offset = refl;
    }

module _ {D : Type 0} (transfer : List ℕ → ℕ → ℕ → D → List ℕ × D)
    (memory_size : (ℕ → ℕ) → Option ℕ) (page : ℕ → ℕ → ℕ) (busy loaded : D → ℕ) (latency polls : ℕ)
    (chip : IsNand transfer page busy loaded latency) (enough : latency < polls) where
  pub load_lem :
      (base pos len : ℕ) (s : Loader D)
      → pos + len ≤ 2 ^ 32
      → (d' : D) × (load transfer memory_size polls base pos len s
          ≡ some (record s { mem = place base (image (flash page) pos len) s.mem; chip = d' }))
  unfolding load
  load_lem base pos len s fits =
      let (d', e) =
        copy_into-image transfer page busy loaded latency polls pos len s.chip chip enough fits in
      (
        d',
        ap (λ o. o >>= λ part. some (record s { mem = place base part.0 s.mem; chip = part.1 })) e,
      )

  copy_apart :
      (src dst len : ℕ) (mem : ℕ → ℕ)
      → (src + len ≤ dst) ⊎ (dst + len ≤ src)
      → copy_nonoverlapping src dst len mem ≡ some (place dst (peek src len mem) mem)
  unfolding copy_nonoverlapping
  copy_apart src dst len mem (inl h) = rw (le→leb (src + len) dst h) refl
  copy_apart src dst len mem (inr h) = rw (le→leb (dst + len) src h) (ground arith)

  -- The copy of the tree does not wrap.
  dst_fits : (size : ℕ) → 2 ^ 21 ≤ u32 size → u32 (dram + dtb_offset size) ≡ dram + dtb_offset size
  dst_fits size ample = omega (arith, (dtb_offset_last_page size ample).1)

  pub load_dtb_steps :
      (pos len size : ℕ) (s t : Loader D)
      → load transfer memory_size polls dram pos len s ≡ some t
      → memory_size t.mem ≡ some size
      → (let dst = u32 (dram + dtb_offset size) in (dram + len ≤ dst) ⊎ (dst + len ≤ dram))
      → load_dtb transfer memory_size polls (some (pos, len)) s
        ≡ some (record t {
          meta = memory.set_dtb (dtb_offset size) t.meta;
          mem = place (u32 (dram + dtb_offset size)) (peek dram len t.mem) t.mem;
        })
  unfolding load_dtb
  load_dtb_steps pos len size s t e found apart =
      rw (e, found, copy_apart dram (u32 (dram + dtb_offset size)) len t.mem apart) refl

  pub load_dtb_lem :
      (pos len size : ℕ) (s : Loader D)
      → pos + len ≤ 2 ^ 32
      → ((mem : ℕ → ℕ)
          → peek dram len mem ≡ image (flash page) pos len
          → memory_size mem ≡ some size)
      → 2 ^ 21 ≤ u32 size
      → len ≤ dtb_offset size
      → (d' : D) × (load_dtb transfer memory_size polls (some (pos, len)) s
          ≡ some (record s {
            meta = memory.set_dtb (dtb_offset size) s.meta;
            mem =
                place
                  (dram + dtb_offset size)
                  (image (flash page) pos len)
                  (place dram (image (flash page) pos len) s.mem);
            chip = d';
          }))
  unfolding load_dtb
  load_dtb_lem pos len size s fits tree ample small =
      let (d', e) = load_lem dram pos len s fits in
      let here = peek-place-image (flash page) s.mem dram pos len in
      let mem1 = place dram (image (flash page) pos len) s.mem in
      (
        d',
        load_dtb_steps pos len size s (record s { mem = mem1; chip = d' }) e (tree mem1 here)
              (inl (omega (arith, small, dst_fits size ample)))
            ∙ ap
                (λ l. some (record s {
                  meta = memory.set_dtb (dtb_offset size) s.meta;
                  mem = place (u32 (dram + dtb_offset size)) l mem1;
                  chip = d';
                }))
                here
            ∙ ap
                (λ a. some (record s {
                  meta = memory.set_dtb (dtb_offset size) s.meta;
                  mem = place a (image (flash page) pos len) mem1;
                  chip = d';
                }))
                (dst_fits size ample),
      )

  pub load_see_lem :
      (pos len : ℕ) (s : Loader D)
      → pos + len ≤ 2 ^ 32
      → (d' : D) × (load_see transfer memory_size polls (pos, len) s
          ≡ some (record s {
            meta = memory.set_see 0 s.meta;
            mem = place dram (image (flash page) pos len) s.mem;
            chip = d';
          }))
  unfolding load_see
  load_see_lem pos len s fits =
      let (d', e) = load_lem dram pos len s fits in
      (
        d',
        ap
            (λ (o : Option (Loader D)).
              o >>= λ t. some (record t { meta = memory.set_see 0 t.meta }))
            e,
      )

  pub load_kernel_lem :
      (pos len : ℕ) (s : Loader D)
      → pos + len ≤ 2 ^ 32
      → (d' : D) × (load_kernel transfer memory_size polls (some (pos, len)) s
          ≡ some (record s {
            meta = memory.set_kernel (kernel_base - dram) s.meta;
            mem = place kernel_base (image (flash page) pos len) s.mem;
            chip = d';
          }))
  unfolding load_kernel
  load_kernel_lem pos len s fits =
      let (d', e) = load_lem kernel_base pos len s fits in
      (
        d',
        ap
            (λ (o : Option (Loader D)). o >>= λ (t : Loader D).
              some (record t { meta = memory.set_kernel (kernel_base - dram) t.meta }))
            e,
      )
