-- ===== src/Common/Payload.antt =====
-- common/src/lib.rs: `EgonHead`, the head that the boot ROM reads, and `PayloadMeta`.
use rustsbi_d.Base.{
  ℕ, ◌+◌, ◌^◌, ◌≤◌, ◌<◌, ◌≡◌, ◌≢◌, ◌↔◌, Bool, ◌&&◌, Option, none, some, List, [], ◌∷◌, arith, ltb,
  leb, if◌then◌else◌, replicate,
}
use rustsbi_d.Common.Memory.{dram}

-- `repr(C)`: 8 bytes, then u32 words.
pub record EgonHead : Type 0 where
  pub magic : List ℕ
  pub checksum : ℕ
  pub length : ℕ
  pub head_size : ℕ
  pub fel_script_address : ℕ
  pub fel_uenv_length : ℕ
  pub dt_name_offset : ℕ
  pub dram_size : ℕ
  pub boot_media : ℕ
  pub string_pool : List ℕ

abbrev pub stamp : ℕ
stamp = 0x5F0A_6C39

abbrev pub default_head : EgonHead
default_head = record {
  magic = b'e' ∷ b'G' ∷ b'O' ∷ b'N' ∷ b'.' ∷ b'B' ∷ b'T' ∷ b'0' ∷ [];
  checksum = stamp;
  length = 0x8000;
  head_size = 0;
  fel_script_address = 0;
  fel_uenv_length = 0;
  dt_name_offset = 0;
  dram_size = 0;
  boot_media = 0;
  string_pool = replicate 13 0;
}

pub record PayloadMeta : Type 0 where
  pub see : ℕ
  pub kernel : ℕ
  pub dtb : ℕ
  pub dtb_offset : ℕ

-- `VALID_SIZE.contains`
abbrev valid_size : ℕ → Bool
valid_size n = leb 4 n && ltb n (2 ^ 30)

abbrev len_of : ℕ → ℕ
len_of n = if valid_size n then n else 0

unfoldable pub len_see : PayloadMeta → ℕ
len_see m = len_of m.see

unfoldable pub len_kernel : PayloadMeta → ℕ
len_kernel m = len_of m.kernel

unfoldable pub len_dtb : PayloadMeta → ℕ
len_dtb m = len_of m.dtb

-- The slice as its address and its length.
unfoldable pub read_dtb : PayloadMeta → Option (ℕ × ℕ)
unfolding len_dtb
read_dtb m =
    if ltb 0 (len_dtb m)
    then if ltb 0 m.dtb_offset then some (dram + m.dtb_offset, len_dtb m) else none
    else none

-- The device tree is offered exactly when its size is in the valid range and its offset is not 0,
-- and then as the slice of that size at that offset of DRAM.
pub read_dtb_iff :
    (m : PayloadMeta) (p n : ℕ)
    → (read_dtb m ≡ some (p, n)) ↔ (
        (4 ≤ m.dtb)
        × (m.dtb < 2 ^ 30)
        × (m.dtb_offset ≢ 0)
        × (p ≡ dram + m.dtb_offset)
        × (n ≡ m.dtb))
unfolding read_dtb
read_dtb_iff m p n = ground arith
