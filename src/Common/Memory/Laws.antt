-- ===== src/Common/Memory/Laws.antt =====
-- The place of the device tree, and the meta data between two stages.
use rustsbi_d.Base.{
  ℕ, ◌+◌, ◌-◌, ◌*◌, ◌/◌, ◌%◌, ◌^◌, ◌≤◌, ◌<◌, min, ◌≡◌, ap, ◌∙◌, ◌≢◌, some, arith, u32,
}
use rustsbi_d.Base.Bits.{bit_and_high, bit_and_mask}
use rustsbi_d.Common.Bytes.{word_of_bytes}
use rustsbi_d.Common.Memory.{
  page, dtb_offset, Meta, dram, no_offset, read_see, read_kernel, read_dtb, set_see, set_kernel,
  set_dtb, as_bytes, of_bytes,
}

dtb_offset_arith :
    (m : ℕ) → dtb_offset m ≡ u32 (min (u32 m) (2 ^ 30) + 2 ^ 32 - page) / 2 ^ 21 % 2 ^ 11 * 2 ^ 21
unfolding dtb_offset
dtb_offset_arith m =
    bit_and_high 21 (u32 (min (u32 m) (2 ^ 30) + 2 ^ 32 - page)) (2 ^ 11 - 1)
    ∙ ap (λ t. t * 2 ^ 21) (bit_and_mask 11 _)

-- The size of the memory counts with its low 32 bits only. When these are at least 2 MiB, as they are for any
-- memory from 2 MiB to just below 4 GiB, the device tree goes to the last 2 MiB page that lies wholly below both
-- that many bytes and 1 GiB.
pub dtb_offset_last_page :
    (m : ℕ)
    → page ≤ u32 m
    → let top = min (u32 m) (2 ^ 30) in
      (dtb_offset m % page ≡ 0) × (dtb_offset m + page ≤ top) × (top < dtb_offset m + 2 * page)
dtb_offset_last_page m h = omega (arith, dtb_offset_arith m)

-- With less than 2 MiB of memory (no memory node counts as 0 bytes) the subtraction of `dtb_offset` wraps
-- and the offset is 2 MiB below 4 GiB.
pub dtb_offset_wraps : (m : ℕ) → u32 m < page → dtb_offset m ≡ 2 ^ 32 - page
dtb_offset_wraps m h = omega (arith, dtb_offset_arith m)

-- Whatever the size of the memory, the offset is a page of the 32-bit addresses.
pub dtb_offset_page : (m : ℕ) → (dtb_offset m % page ≡ 0) × (dtb_offset m < 2 ^ 32)
dtb_offset_page m = omega (arith, dtb_offset_arith m)

-- The offsets are u32.
pub record IsMeta (m : Meta) : Type 0 where
  pub see_fits : m.see < 2 ^ 32
  pub kernel_fits : m.kernel < 2 ^ 32
  pub dtb_fits : m.dtb < 2 ^ 32

-- The meta data that one stage writes as bytes, with offsets of 32 bits, the next stage reads back, every
-- field of it.
pub of_bytes-as_bytes : (m : Meta) → IsMeta m → of_bytes (as_bytes m) ≡ some m
unfolding of_bytes as_bytes
of_bytes-as_bytes m h =
    ground (arith, word_of_bytes m.see, word_of_bytes m.kernel, word_of_bytes m.dtb)

-- Setting one offset makes its address readable, unless the value is the mark `!0`, and leaves
-- what is read of the two others.
pub read-set :
    (v : ℕ) (m : Meta)
    → v ≢ no_offset
    → (read_see (set_see v m) ≡ some (dram + v))
      × (read_kernel (set_see v m) ≡ read_kernel m)
      × (read_dtb (set_see v m) ≡ read_dtb m)
      × (read_kernel (set_kernel v m) ≡ some (dram + v))
      × (read_see (set_kernel v m) ≡ read_see m)
      × (read_dtb (set_kernel v m) ≡ read_dtb m)
      × (read_dtb (set_dtb v m) ≡ some (dram + v))
      × (read_see (set_dtb v m) ≡ read_see m)
      × (read_kernel (set_dtb v m) ≡ read_kernel m)
unfolding read_see read_kernel read_dtb set_see set_kernel set_dtb
read-set v m h = ground arith
