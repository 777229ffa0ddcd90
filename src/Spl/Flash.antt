-- ===== src/Spl/Flash.antt =====
-- spl/src/flash.rs: reading the NAND flash behind the SPI bus. The bus transfer (what goes
-- out, the dummy bytes, the count of bytes that come in) and the chip behind it are the parameter
-- `transfer`; a read loop that would spin on is `none`.
pub mod Chip
pub mod Controller
pub mod Laws
pub mod Over
use rustsbi_d.Base.{
  ◌>>=◌, ℕ, zero, suc, ◌+◌, ◌-◌, ◌*◌, ◌/◌, ◌%◌, ◌^◌, ◌≤◌, ◌<◌, min, max, bit_and, bit_or, ◌≡◌, refl,
  sym, ap, ◌∙◌, fun_ext, ◌≢◌, ◌↔◌, ◌⊎◌, inl, inr, Bool, true, false, not, ◌&&◌, ◌||◌, Option, none,
  some, List, [], ◌∷◌, ◌++◌, map, arith, ltb, leb, ◌==◌, if◌then◌else◌, Bool-cases, Option-cases,
  ltb→lt, lt→ltb, le→ltb_false, ==_iff, length, get_elem?, get_or, set, take, drop, replicate,
  length-append, length-set, get_or-set_self, get_or-set_ne, length-replicate, u8, u32, u64,
  u32_max, u64_max, ◌<<<◌, ◌>>>◌, complement,
}

abbrev pub cmd_get_feature : ℕ
cmd_get_feature = 0x0f

abbrev pub cmd_read_id : ℕ
cmd_read_id = 0x9f

abbrev pub cmd_read_page : ℕ
cmd_read_page = 0x13

abbrev pub cmd_read_cache : ℕ
cmd_read_cache = 0x03

abbrev pub feat_status : ℕ
feat_status = 0xc0

abbrev pub len_page_bits : ℕ
len_page_bits = 11

abbrev pub len_page : ℕ
len_page = 2 ^ len_page_bits

abbrev pub len_page_mask : ℕ
len_page_mask = len_page - 1

-- `u32::to_be_bytes`
abbrev pub be_bytes : ℕ → List ℕ
be_bytes x = u8 (x / 2 ^ 24) ∷ u8 (x / 2 ^ 16) ∷ u8 (x / 2 ^ 8) ∷ u8 x ∷ []

abbrev pub first_or : ℕ → List ℕ → ℕ
first_or d [] = d
first_or d (b ∷ bs) = b

-- The two commands, built from the big-endian bytes of the page number and of the column.
abbrev pub page_command : ℕ → List ℕ
page_command base = set (be_bytes (base >>> len_page_bits)) 0 cmd_read_page

abbrev pub cache_command : ℕ → List ℕ
cache_command base = drop 1 (set (be_bytes (bit_and base len_page_mask)) 1 cmd_read_cache)

module _ {D : Type 0} (transfer : List ℕ → ℕ → ℕ → D → List ℕ × D) where
  -- One byte comes in; `feature` starts at 0.
  unfoldable pub get_feature : ℕ → D → ℕ × D
  get_feature key d =
      let (got, d') = transfer (cmd_get_feature ∷ key ∷ []) 0 1 d in (first_or 0 got, d')

  -- The spin loop, for `polls` rounds at most.
  unfoldable pub wait : ℕ → D → Option D
  wait zero d = none
  wait (suc polls) d =
      let (feature, d') = get_feature feat_status d in
      let again = wait polls d' in if bit_and feature 1 == 1 then again else some d'

  unfoldable pub read_id : ℕ → D → Option (List ℕ × D)
  read_id polls d = do d' ← wait polls d; some (transfer (cmd_read_id ∷ []) 1 3 d')

  -- One round of `copy_into`: load the page of `base` into the chip's cache, then read `count` bytes from
  -- the column of `base` on.
  unfoldable pub read_part : ℕ → ℕ → ℕ → D → Option (List ℕ × D)
  read_part polls base count d = do
    d1 ← wait polls d
    d2 ← wait polls (transfer (page_command base) 0 0 d1).1
    some (transfer (cache_command base) 1 count d2)

  -- The loop, with `size` bytes of the buffer left to fill and `rounds` rounds at most.
  unfoldable pub copy_into : ℕ → ℕ → ℕ → ℕ → D → Option (List ℕ × D)
  copy_into polls rounds base zero d = some ([], d)
  copy_into polls zero base (suc left) d = none
  copy_into polls (suc rounds) base (suc left) d =
      let count = min (suc left) (len_page - bit_and base len_page_mask) in
      do
        part ← read_part polls base count d
        rest ← copy_into polls rounds (u32 (base + count)) (suc left - count) part.1
        some (part.0 ++ rest.0, rest.1)
