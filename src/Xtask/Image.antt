-- ===== src/Xtask/Image.antt =====
-- xtask/src/components.rs, the image of the loader in `Components::flash`: 32 KiB with the boot flag of the meta
-- data set and the checksum filled in, which the boot ROM recomputes.
pub mod Checksum
use rustsbi_d.Base.{
  ℕ, zero, suc, ◌+◌, ◌/◌, ◌%◌, ◌^◌, ◌≤◌, ◌<◌, ◌≡◌, refl, sym, ap, ◌∙◌, List, [], ◌∷◌, arith, length,
  get_or, set, length-set, get_or-set_self, get_or-set_ne, u8, u32,
}
use mathlib.Core.Path.{subst}
use rustsbi_d.Common.Payload.{default_head, stamp}
use rustsbi_d.Common.Bytes.{word_of_bytes, le_word, as_u32s}

abbrev pub image_len : ℕ
image_len = 0x8000

-- `[0u8; LEN]`, and `read` into it: as many bytes as there are, up to the length.
unfoldable pub buffer : ℕ → List ℕ → List ℕ
buffer zero bytes = []
buffer (suc n) [] = 0 ∷ buffer n []
buffer (suc n) (b ∷ bytes) = b ∷ buffer n bytes

-- `reduce(|a, b| a.wrapping_add(b))`, with its accumulator.
unfoldable pub wrapping_sum_from : ℕ → List ℕ → ℕ
wrapping_sum_from acc [] = acc
wrapping_sum_from acc (w ∷ ws) = wrapping_sum_from (u32 (acc + w)) ws

-- Only an empty slice has no sum, and the image is never empty.
unfoldable pub wrapping_sum : List ℕ → ℕ
unfolding wrapping_sum_from
wrapping_sum [] = 0
wrapping_sum (w ∷ ws) = wrapping_sum_from w ws

-- The field `checksum` of the `EgonHead` at byte 4, and a write of it.
abbrev pub checksum_at : ℕ
checksum_at = 4 + 8

abbrev pub read_checksum : List ℕ → ℕ
read_checksum l =
    le_word (get_or l checksum_at 0) (get_or l (checksum_at + 1) 0) (get_or l (checksum_at + 2) 0)
      (get_or l (checksum_at + 3) 0)

abbrev pub write_checksum : ℕ → List ℕ → List ℕ
write_checksum c l =
    set
      (set (set (set l checksum_at (u8 c)) (checksum_at + 1) (u8 (c / 2 ^ 8))) (checksum_at + 2)
        (u8 (c / 2 ^ 16)))
      (checksum_at + 3) (u8 (c / 2 ^ 24))

-- `Meta::from_flash` is the first byte of the meta data at 0x68.
abbrev pub flag_at : ℕ
flag_at = 0x68

unfoldable pub checked_image : List ℕ → List ℕ
unfolding buffer wrapping_sum
checked_image bytes =
    let file = set (buffer image_len bytes) flag_at 1 in
    write_checksum (wrapping_sum (as_u32s file)) file

-- What the boot ROM checks: with the stamp in the place of the checksum, the words add up to it.
unfoldable pub sum : List ℕ → ℕ
sum [] = 0
sum (w ∷ ws) = w + sum ws

unfoldable pub IsBootable : List ℕ → Type 0
unfolding sum
IsBootable l = sum (as_u32s (write_checksum stamp l)) % 2 ^ 32 ≡ read_checksum l
