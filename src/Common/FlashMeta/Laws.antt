-- ===== src/Common/FlashMeta/Laws.antt =====
-- The flash's table between its writer (the host tool) and its reader (the loader).
use rustsbi_d.Base.{ℕ, ◌^◌, ◌<◌, ◌≡◌, refl, ◌↔◌, none, some, arith, u32_max}
use rustsbi_d.Common.Bytes.{as_u32s, word_of_bytes}
use rustsbi_d.Common.FlashMeta.{
  MetaEntry, Meta, default, read_see, read_kernel, read_dtb, set_see, set_kernel, set_dtb, as_bytes,
  of_bytes,
}

abbrev EntryFits : MetaEntry → Type 0
EntryFits e = (e.offset < 2 ^ 32) × (e.size < 2 ^ 32)

-- All six numbers are u32.
pub record IsMeta (m : Meta) : Type 0 where
  pub see_fits : EntryFits m.see
  pub kernel_fits : EntryFits m.kernel
  pub dtb_fits : EntryFits m.dtb

-- A table of 32-bit entries that the tool writes as bytes is the table that the loader reads.
pub flash_of_bytes-as_bytes : (m : Meta) → IsMeta m → of_bytes (as_bytes m) ≡ some m
unfolding of_bytes as_bytes as_u32s
flash_of_bytes-as_bytes m h = ground (
  arith,
  word_of_bytes m.see.offset,
  word_of_bytes m.see.size,
  word_of_bytes m.kernel.offset,
  word_of_bytes m.kernel.size,
  word_of_bytes m.dtb.offset,
  word_of_bytes m.dtb.size,
)

-- A payload of the flash's table is read exactly as it was set if its size is below `!0`, and no other payload changes.
pub flash_read-set :
    (base size : ℕ) (m : Meta)
    → size < u32_max
    → (read_see (set_see base size m) ≡ some (base, size))
      × (read_kernel (set_see base size m) ≡ read_kernel m)
      × (read_dtb (set_see base size m) ≡ read_dtb m)
      × (read_kernel (set_kernel base size m) ≡ some (base, size))
      × (read_see (set_kernel base size m) ≡ read_see m)
      × (read_dtb (set_kernel base size m) ≡ read_dtb m)
      × (read_dtb (set_dtb base size m) ≡ some (base, size))
      × (read_see (set_dtb base size m) ≡ read_see m)
      × (read_kernel (set_dtb base size m) ≡ read_kernel m)
unfolding read_see read_kernel read_dtb set_see set_kernel set_dtb
flash_read-set base size m h = ground arith

-- An entry of the flash's table reads as none exactly when its size is `!0`; the size 0 counts as a
-- payload.
pub read_see-none_iff :
    (m : Meta) → m.see.size < 2 ^ 32 → (read_see m ≡ none) ↔ (m.see.size ≡ u32_max)
unfolding read_see
read_see-none_iff m h = ground arith

-- A table that was never written offers no payload.
default_empty : (read_see default ≡ none) × (read_kernel default ≡ none) × (read_dtb default ≡ none)
unfolding read_see read_kernel read_dtb
default_empty = (refl, refl, refl)
