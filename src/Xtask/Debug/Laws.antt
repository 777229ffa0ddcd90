-- ===== src/Xtask/Debug/Laws.antt =====
-- What each part of `Components::debug` does to the RAM and the meta data.
use rustsbi_d.Base.{ℕ, ◌+◌, ◌-◌, ◌≤◌, ◌≡◌, refl, ◌⊎◌, inl, Option, none, some, List, arith, length}
use rustsbi_d.Base.Ram.{peek-place_other, peek, place}
use rustsbi_d.Common.Memory.{dram, kernel_base, meta_base, dtb_offset, Meta, page, no_offset}
use rustsbi_d.Common.Memory.Laws.{dtb_offset_page, IsMeta, read-set}
use rustsbi_d.Xtask.Spinand.Layout.{len_of}
use rustsbi_d.Xtask.Result.{ok}
use rustsbi_d.Xtask.World.{FilePath, Target, Host, World, ddr, write, Holds, absent, present}
use rustsbi_d.Xtask.Debug.{tree_size, debug_kernel, debug_dtb, debug_see}
use rustsbi_d.Common.Memory as memory

abbrev pub put_at : ℕ → Option (List ℕ) → (ℕ → ℕ) → ℕ → ℕ
put_at base none mem = mem
put_at base (some bytes) mem = place base bytes mem

abbrev set_if : (ℕ → Meta → Meta) → ℕ → Option (List ℕ) → Meta → Meta
set_if set_offset v none m = m
set_if set_offset v (some bytes) m = set_offset v m

-- Where the payload is read from, if there is one.
abbrev pub at : ℕ → Option (List ℕ) → Option ℕ
at address none = none
at address (some bytes) = some address

abbrev pub offset_of : ℕ → Option (List ℕ) → ℕ
offset_of size none = 0
offset_of size (some bytes) = dtb_offset size

-- The device tree, if there is one, is a tree with a memory of `size`.
abbrev pub Sized : Host → ℕ → Option (List ℕ) → Type 0
Sized h size dtb = (bytes : List ℕ) → dtb ≡ some bytes → tree_size h bytes ≡ some size

abbrev pub meta_of : ℕ → Option (List ℕ) → Option (List ℕ) → Meta
meta_of size kernel dtb =
    set_if memory.set_dtb (offset_of size dtb) dtb
      (set_if memory.set_kernel (kernel_base - dram) kernel (memory.set_see 0 memory.default))

module _ (h : Host) where
  debug_kernel_lem :
      (t : Option FilePath) (b : Option (List ℕ)) (m : Meta) (w : World)
      → Holds w.files t b
      → debug_kernel h t (m, w)
        ≡ ok (
          set_if memory.set_kernel (kernel_base - dram) b m,
          record w { ram = put_at kernel_base b w.ram },
        )
  unfolding debug_kernel write
  debug_kernel_lem none none m w absent = refl
  debug_kernel_lem (some p) (some bytes) m w (present hp e) = rw e refl
  debug_kernel_lem none (some bytes) m w x = elim x [ ]
  debug_kernel_lem (some p) none m w x = elim x [ ]

  debug_dtb_lem :
      (size : ℕ) (t : Option FilePath) (b : Option (List ℕ)) (m : Meta) (w : World)
      → Holds w.files t b
      → Sized h size b
      → debug_dtb h t (m, w)
        ≡ ok (
          set_if memory.set_dtb (offset_of size b) b m,
          record w { ram = put_at (dram + offset_of size b) b w.ram },
        )
  unfolding debug_dtb write
  debug_dtb_lem size none none m w absent sized = refl
  debug_dtb_lem size (some p) (some bytes) m w (present hp e) sized = rw (e, sized bytes refl) refl
  debug_dtb_lem size none (some bytes) m w x sized = elim x [ ]
  debug_dtb_lem size (some p) none m w x sized = elim x [ ]

  pub debug_see_lem :
      (size : ℕ) (t : Option FilePath) (target : Target) (see : List ℕ)
      (kernel dtb : Option (List ℕ)) (m : Meta) (w : World)
      → Holds w.files t (some see)
      → Holds w.files target.kernel kernel
      → Holds w.files target.dtb dtb
      → Sized h size dtb
      → debug_see h t target (m, w)
        ≡ ok (
          set_if memory.set_dtb
              (offset_of size dtb)
              dtb
              (set_if memory.set_kernel (kernel_base - dram) kernel (memory.set_see 0 m)),
          record (ddr w) {
            ram =
                put_at
                  (dram + offset_of size dtb)
                  dtb
                  (put_at kernel_base kernel (place dram see w.ram));
          },
        )
  unfolding debug_see write ddr
  debug_see_lem size (some p) target see kernel dtb m w (present hp e) has_kernel has_dtb sized =
      let v1 : World = record (ddr w) { ram = place dram see w.ram } in
      let v2 : World = record v1 { ram = put_at kernel_base kernel v1.ram } in
      let m1 = memory.set_see 0 m in
      let m2 = set_if memory.set_kernel (kernel_base - dram) kernel m1 in
      rw
        (
          e,
          debug_kernel_lem target.kernel kernel m1 v1 has_kernel,
          debug_dtb_lem size target.dtb dtb m2 v2 has_dtb sized,
        )
        refl
  debug_see_lem size none target see kernel dtb m w x has_kernel has_dtb sized = elim x [ ]

pub meta_of-IsMeta : (size : ℕ) (kernel dtb : Option (List ℕ)) → IsMeta (meta_of size kernel dtb)
unfolding memory.set_see memory.set_kernel memory.set_dtb
meta_of-IsMeta size none none = record {
  see_fits = omega arith;
  kernel_fits = omega arith;
  dtb_fits = omega arith;
}
meta_of-IsMeta size (some k) none = record {
  see_fits = omega arith;
  kernel_fits = omega arith;
  dtb_fits = omega arith;
}
meta_of-IsMeta size none (some d) = record {
  see_fits = omega arith;
  kernel_fits = omega arith;
  dtb_fits = (dtb_offset_page size).1;
}
meta_of-IsMeta size (some k) (some d) = record {
  see_fits = omega arith;
  kernel_fits = omega arith;
  dtb_fits = (dtb_offset_page size).1;
}

-- The offset of a device tree is never the mark of a missing one.
read-set_dtb_offset :
    (size : ℕ) (m : Meta)
    → memory.read_dtb (memory.set_dtb (dtb_offset size) m) ≡ some (dram + dtb_offset size)
read-set_dtb_offset size m =
    let (aligned, _) = dtb_offset_page size in
    (read-set (dtb_offset size) m (λ e. absurd (omega (arith, aligned, e)))).6

pub read-meta_of :
    (size : ℕ) (kernel dtb : Option (List ℕ))
    → let m = meta_of size kernel dtb in
      (memory.read_see m ≡ some dram)
      × (memory.read_kernel m ≡ at kernel_base kernel)
      × (memory.read_dtb m ≡ at (dram + offset_of size dtb) dtb)
unfolding memory.set_see memory.set_kernel memory.set_dtb memory.read_see memory.read_kernel
    memory.read_dtb
read-meta_of size none none = (refl, refl, refl)
read-meta_of size (some k) none = (refl, refl, refl)
read-meta_of size none (some d) =
    (refl, refl, read-set_dtb_offset size (memory.set_see 0 memory.default))
read-meta_of size (some k) (some d) = (
  refl,
  refl,
  read-set_dtb_offset size
      (memory.set_kernel (kernel_base - dram) (memory.set_see 0 memory.default)),
)

pub peek-put_at_other :
    (base : ℕ) (b : Option (List ℕ)) (mem : ℕ → ℕ) (a n : ℕ)
    → (a + n ≤ base) ⊎ (base + len_of b ≤ a)
    → peek a n (put_at base b mem) ≡ peek a n mem
peek-put_at_other base none mem a n apart = refl
peek-put_at_other base (some bytes) mem a n apart = peek-place_other base bytes mem a n apart

pub length-as_bytes : (m : Meta) → length (memory.as_bytes m) ≡ 16
unfolding memory.as_bytes
length-as_bytes m = refl

pub below_tree :
    (size : ℕ) (dtb : Option (List ℕ)) (mem : ℕ → ℕ) (a n : ℕ)
    → ((bytes : List ℕ) → dtb ≡ some bytes → a + n ≤ dram + offset_of size dtb)
    → peek a n (put_at (dram + offset_of size dtb) dtb mem) ≡ peek a n mem
below_tree size none mem a n fits = refl
below_tree size (some d) mem a n fits =
    peek-put_at_other (dram + offset_of size (some d)) (some d) mem a n (inl (fits d refl))
