-- ===== src/Spl/Boot/Laws.antt =====
-- `main` of the loader, for a boot from the flash.
use rustsbi_d.Base.{
  ℕ, ◌+◌, ◌-◌, ◌^◌, ◌≤◌, ◌<◌, ◌≡◌, refl, ap, ◌∙◌, true, Option, some, List, [], ◌∷◌, arith, u32,
  ◌>>=◌,
}
use rustsbi_d.Base.Ram.{place, peek}
use rustsbi_d.Common.Memory as memory
use rustsbi_d.Common.FlashMeta as flash_meta
use rustsbi_d.Common.Memory.{dram, kernel_base, dtb_offset, no_offset}
use rustsbi_d.Common.FlashMeta.{meta_pos}
use rustsbi_d.Spl.Flash.{read_id, copy_into, cmd_read_id}
use rustsbi_d.Spl.Flash.Chip.{image, flash, IsNand}
use rustsbi_d.Spl.Flash.Laws.{copy_into-image, wait_ready}
use rustsbi_d.Spl.Boot.{Loader, Next, jump, load_dtb, load_see, load_kernel, load_all, main}
use rustsbi_d.Spl.Boot.Stages.{Booted, booted, load_dtb_lem, load_see_lem, load_kernel_lem}

module _ {D : Type 0} (transfer : List ℕ → ℕ → ℕ → D → List ℕ × D)
    (memory_size : (ℕ → ℕ) → Option ℕ) (page : ℕ → ℕ → ℕ) (busy loaded : D → ℕ) (latency polls : ℕ)
    (chip : IsNand transfer page busy loaded latency) (enough : latency < polls) where
  read_id_lem : (d : D) → (got : List ℕ × D) × (read_id transfer polls d ≡ some got)
  unfolding read_id
  read_id_lem d =
      let (d', e, _, _) =
        wait_ready transfer page busy loaded latency chip polls d (omega (arith, chip.prompt d)) in
      (
        transfer (cmd_read_id ∷ []) 1 3 d',
        ap (λ (o : Option D). o >>= λ t. some (transfer (cmd_read_id ∷ []) 1 3 t)) e,
      )

  main_flash :
      (s : Loader D)
      → s.meta.from_flash ≡ true
      → main transfer memory_size polls s ≡ (
          read_id transfer polls s.chip >>= λ id.
          copy_into transfer polls 24 meta_pos 24 id.1 >>= λ part.
          flash_meta.of_bytes part.0 >>= λ table.
          load_all transfer memory_size polls
            (flash_meta.read_see table)
            table
            (record s { chip = part.1 }))
  unfolding main
  main_flash s h = rw h refl

  module _ (see kernel dtb : ℕ × ℕ) (size : ℕ) (see_fits : see.0 + see.1 ≤ 2 ^ 32)
      (kernel_fits : kernel.0 + kernel.1 ≤ 2 ^ 32) (dtb_fits : dtb.0 + dtb.1 ≤ 2 ^ 32)
      (tree : (mem : ℕ → ℕ)
        → peek dram dtb.1 mem ≡ image (flash page) dtb.0 dtb.1
        → memory_size mem ≡ some size)
      (see_below : see.1 ≤ kernel_base - dram) (dtb_small : dtb.1 ≤ 2 ^ 21)
      (ample : 2 ^ 21 ≤ u32 size)
      (kernel_below : kernel_base - dram + kernel.1 ≤ dtb_offset size) where
    load_all_lem :
        (table : flash_meta.Meta) (s : Loader D)
        → flash_meta.read_kernel table ≡ some kernel
        → flash_meta.read_dtb table ≡ some dtb
        → (t : Loader D) × (load_all transfer memory_size polls (some see) table s
            ≡ some (jump dram, t))
          × Booted (flash page) see kernel dtb (dtb_offset size) t
    unfolding load_all memory.set_see memory.set_kernel memory.set_dtb
    load_all_lem table s has_kernel has_dtb =
        let f = flash page in
        let off = dtb_offset size in
        let (d1, e1) =
          load_dtb_lem transfer memory_size page busy loaded latency polls chip enough dtb.0 dtb.1
            size s dtb_fits tree ample (omega (arith, dtb_small, kernel_below)) in
        let mem1 : ℕ → ℕ =
          place (dram + off) (image f dtb.0 dtb.1) (place dram (image f dtb.0 dtb.1) s.mem) in
        let s1 : Loader D = record s { meta = memory.set_dtb off s.meta; mem = mem1; chip = d1 } in
        let (d2, e2) =
          load_see_lem transfer memory_size page busy loaded latency polls chip enough see.0 see.1
            s1 see_fits in
        let mem2 : ℕ → ℕ = place dram (image f see.0 see.1) mem1 in
        let s2 : Loader D = record s1 { meta = memory.set_see 0 s1.meta; mem = mem2; chip = d2 } in
        let (d3, e3) =
          load_kernel_lem transfer memory_size page busy loaded latency polls chip enough kernel.0
            kernel.1 s2 kernel_fits in
        let mem3 : ℕ → ℕ = place kernel_base (image f kernel.0 kernel.1) mem2 in
        let s3 : Loader D = record s2 {
          meta = memory.set_kernel (kernel_base - dram) s2.meta;
          mem = mem3;
          chip = d3;
        } in
        let k3 : Loader D → Option (Next × Loader D) = λ t. some (jump dram, t) in
        let k2 : Option (ℕ × ℕ) → Loader D → Option (Next × Loader D) =
          λ k t. load_kernel transfer memory_size polls k t >>= k3 in
        let k1 : Option (ℕ × ℕ) → Loader D → Option (Next × Loader D) =
          λ k t. load_see transfer memory_size polls see t >>= k2 k in
        let rk = flash_meta.read_kernel table in
        (
          s3,
          ap (λ d. load_dtb transfer memory_size polls d s >>= k1 rk) has_dtb
              ∙ ap (λ (o : Option (Loader D)). o >>= k1 rk) e1
              ∙ ap (λ (o : Option (Loader D)). o >>= k2 rk) e2
              ∙ ap (λ k. k2 k s2) has_kernel
              ∙ ap (λ (o : Option (Loader D)). o >>= k3) e3,
          booted f see kernel dtb off s d3 see_below kernel_below,
        )

    main_lem :
        (table : flash_meta.Meta) (s : Loader D)
        → s.meta.from_flash ≡ true
        → flash_meta.of_bytes (image (flash page) meta_pos 24) ≡ some table
        → flash_meta.read_see table ≡ some see
        → flash_meta.read_kernel table ≡ some kernel
        → flash_meta.read_dtb table ≡ some dtb
        → (t : Loader D) × (main transfer memory_size polls s ≡ some (jump dram, t))
          × Booted (flash page) see kernel dtb (dtb_offset size) t
    main_lem table s from_flash on_flash has_see has_kernel has_dtb =
        let (id, i) = read_id_lem s.chip in
        let (d1, e1) =
          copy_into-image transfer page busy loaded latency polls meta_pos 24 id.1 chip enough
            (omega arith) in
        let s1 : Loader D = record s { chip = d1 } in
        let (t, e, b) = load_all_lem table s1 has_kernel has_dtb in
        let k2 : List ℕ × D → Option (Next × Loader D) = λ part.
          flash_meta.of_bytes part.0 >>= λ table.
          load_all transfer memory_size polls (flash_meta.read_see table) table
            (record s { chip = part.1 }) in
        let k1 : List ℕ × D → Option (Next × Loader D) =
          λ id. copy_into transfer polls 24 meta_pos 24 id.1 >>= k2 in
        (
          t,
          main_flash s from_flash
              ∙ ap (λ (o : Option (List ℕ × D)). o >>= k1) i
              ∙ ap (λ (o : Option (List ℕ × D)). o >>= k2) e1
              ∙ ap
                  (λ (o : Option flash_meta.Meta). o >>= λ table.
                    load_all transfer memory_size polls (flash_meta.read_see table) table s1)
                  on_flash
              ∙ ap (λ o. load_all transfer memory_size polls o table s1) has_see
              ∙ e,
          b,
        )

-- A boot from a flash whose table names all three payloads, each within 4 GiB, a device tree of at most 2 MiB, with the SEE below the kernel's place and the
-- kernel below the device tree's: with a chip that becomes ready within the polls of each loop, and a
-- walker that finds `size` in the tree, whose low 32 bits are at least 2 MiB, `main` comes back with the DRAM's address; each payload then lies in
-- memory as it does in the flash, none overwritten by another, and the meta data holds their offsets.
pub main-Booted :
    {D : Type 0} (transfer : List ℕ → ℕ → ℕ → D → List ℕ × D) (memory_size : (ℕ → ℕ) → Option ℕ)
    (page : ℕ → ℕ → ℕ) (busy loaded : D → ℕ) (latency polls size : ℕ) (see kernel dtb : ℕ × ℕ)
    (table : flash_meta.Meta) (s : Loader D)
    → IsNand transfer page busy loaded latency
    → latency < polls
    → s.meta.from_flash ≡ true
    → flash_meta.of_bytes (image (flash page) meta_pos 24) ≡ some table
    → flash_meta.read_see table ≡ some see
    → flash_meta.read_kernel table ≡ some kernel
    → flash_meta.read_dtb table ≡ some dtb
    → see.0 + see.1 ≤ 2 ^ 32
    → kernel.0 + kernel.1 ≤ 2 ^ 32
    → dtb.0 + dtb.1 ≤ 2 ^ 32
    → ((mem : ℕ → ℕ)
        → peek dram dtb.1 mem ≡ image (flash page) dtb.0 dtb.1
        → memory_size mem ≡ some size)
    → see.1 ≤ kernel_base - dram
    → dtb.1 ≤ 2 ^ 21
    → 2 ^ 21 ≤ u32 size
    → kernel_base - dram + kernel.1 ≤ dtb_offset size
    → (t : Loader D) × (main transfer memory_size polls s ≡ some (jump dram, t))
      × Booted (flash page) see kernel dtb (dtb_offset size) t
main-Booted transfer memory_size page busy loaded latency polls size see kernel dtb table s chip
      enough from_flash on_flash has_see has_kernel has_dtb fits_s fits_k fits_d tree below_s small
      ample below_k =
    main_lem transfer memory_size page busy loaded latency polls chip enough see kernel dtb size
      fits_s fits_k fits_d tree below_s small ample below_k table s from_flash on_flash has_see
      has_kernel has_dtb
