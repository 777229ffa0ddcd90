-- ===== src/Spl/Boot/Misses.antt =====
-- spl/src/main.rs, `main`: the copy of the device tree, when the place of the tree wraps.
use rustsbi_d.Base.{
  ℕ, ◌+◌, ◌-◌, ◌^◌, ◌≤◌, ◌<◌, ◌≡◌, refl, ap, ◌∙◌, inr, Option, some, List, arith, length, u32,
}
use rustsbi_d.Base.Ram.{place, peek, peek-place_other}
use rustsbi_d.Common.Memory as memory
use rustsbi_d.Common.Memory.{dram, dtb_offset, page, no_offset}
use rustsbi_d.Common.Memory.Laws.{dtb_offset_wraps}
use rustsbi_d.Spl.Flash.Chip.{image, flash, IsNand}
use rustsbi_d.Spl.Boot.{Loader, load_dtb}
use rustsbi_d.Spl.Boot.Stages.{length-image, peek-place-image, load_lem, load_dtb_steps}

-- What the loader leaves: the tree below the DRAM, the address that the next stage reads, and there what was
-- there before.
pub record Missed {D : Type 0} (bytes : List ℕ) (s t : Loader D) : Type 0 where
  pub below_dram : peek (dram - page) (length bytes) t.mem ≡ bytes
  pub address : memory.read_dtb t.meta ≡ some (dram + (2 ^ 32 - page))
  pub untouched :
      (n : ℕ) → peek (dram + (2 ^ 32 - page)) n t.mem ≡ peek (dram + (2 ^ 32 - page)) n s.mem

read_wrapped :
    (m : memory.Meta)
    → memory.read_dtb (memory.set_dtb (2 ^ 32 - page) m) ≡ some (dram + (2 ^ 32 - page))
unfolding memory.read_dtb memory.set_dtb
read_wrapped m = refl

missed :
    {D : Type 0} (f : ℕ → ℕ) (pos len : ℕ) (s : Loader D) (d : D)
    → len ≤ page
    → Missed (image f pos len) s (record s {
      meta = memory.set_dtb (2 ^ 32 - page) s.meta;
      mem = place (dram - page) (image f pos len) (place dram (image f pos len) s.mem);
      chip = d;
    })
missed f pos len s d fits =
    let bytes = image f pos len in
    let n = length-image f pos len in
    let m0 : ℕ → ℕ = place dram bytes s.mem in
    record {
      below_dram =
          ap (λ k. peek (dram - page) k (place (dram - page) bytes m0)) n
          ∙ peek-place-image f m0 (dram - page) pos len;
      address = read_wrapped s.meta;
      untouched = λ k.
          peek-place_other (dram - page) bytes m0 (dram + (2 ^ 32 - page)) k
            (inr (omega (arith, n)))
          ∙ peek-place_other dram bytes s.mem (dram + (2 ^ 32 - page)) k (inr (omega (arith, n)));
    }

-- With a chip that becomes ready within the polls, a tree of at most 2 MiB within 4 GiB of the flash, and a walker that finds
-- in it a size whose low 32 bits are less than 2 MiB (as without a memory node, or with exactly 4 GiB): the loader goes on, but
-- copies the tree to 2 MiB below the DRAM, while the address that the next stage reads from the meta data is
-- beyond the 32-bit addresses, and what was there is still there.
pub load_dtb-misses :
    {D : Type 0} (transfer : List ℕ → ℕ → ℕ → D → List ℕ × D) (memory_size : (ℕ → ℕ) → Option ℕ)
    (page_of : ℕ → ℕ → ℕ) (busy loaded : D → ℕ) (latency polls pos len size : ℕ) (s : Loader D)
    → IsNand transfer page_of busy loaded latency
    → latency < polls
    → pos + len ≤ 2 ^ 32
    → len ≤ page
    → ((mem : ℕ → ℕ)
        → peek dram len mem ≡ image (flash page_of) pos len
        → memory_size mem ≡ some size)
    → u32 size < page
    → (t : Loader D) × (load_dtb transfer memory_size polls (some (pos, len)) s ≡ some t)
      × Missed (image (flash page_of) pos len) s t
load_dtb-misses transfer memory_size page_of busy loaded latency polls pos len size s chip enough
      fits small tree none_there =
    let bytes = image (flash page_of) pos len in
    let (d, e) =
      load_lem transfer memory_size page_of busy loaded latency polls chip enough dram pos len s
        fits in
    let mem1 : ℕ → ℕ = place dram bytes s.mem in
    let here = peek-place-image (flash page_of) s.mem dram pos len in
    let off = dtb_offset_wraps size none_there in
    (
      record s {
        meta = memory.set_dtb (2 ^ 32 - page) s.meta;
        mem = place (dram - page) bytes mem1;
        chip = d;
      },
      load_dtb_steps transfer memory_size page_of busy loaded latency polls chip enough pos len size
            s (record s { mem = mem1; chip = d }) e (tree mem1 here)
            (inr (omega (arith, off, small)))
          ∙ rw (off, here) refl,
      missed (flash page_of) pos len s d small,
    )
