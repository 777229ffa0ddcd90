-- ===== src/Common/FlashMeta.antt =====
-- common/src/flash.rs: the table at 2 MiB of the NAND flash that says where each payload lies.
pub mod Laws
use rustsbi_d.Base.{
  ℕ, zero, suc, ◌+◌, ◌-◌, ◌*◌, ◌/◌, ◌%◌, ◌^◌, ◌≤◌, ◌<◌, min, max, bit_and, bit_or, ◌≡◌, refl, sym,
  ap, ◌∙◌, fun_ext, ◌≢◌, ◌↔◌, ◌⊎◌, inl, inr, Bool, true, false, not, ◌&&◌, ◌||◌, Option, none, some,
  List, [], ◌∷◌, ◌++◌, map, arith, ltb, leb, ◌==◌, if◌then◌else◌, Bool-cases, Option-cases, ltb→lt,
  lt→ltb, le→ltb_false, ==_iff, length, get_elem?, get_or, set, take, drop, replicate,
  length-append, length-set, get_or-set_self, get_or-set_ne, length-replicate, u8, u32, u64,
  u32_max, u64_max, ◌<<<◌, ◌>>>◌, complement,
}
use rustsbi_d.Common.Bytes.{le_bytes, as_u32s}

abbrev pub meta_pos : ℕ
meta_pos = 2 * 2 ^ 20

abbrev pub see_pos : ℕ
see_pos = 4 * 2 ^ 20

abbrev pub dtb_pos : ℕ
dtb_pos = 6 * 2 ^ 20

abbrev pub kernel_pos : ℕ
kernel_pos = 8 * 2 ^ 20

pub record MetaEntry : Type 0 where
  pub offset : ℕ
  pub size : ℕ

pub record Meta : Type 0 where
  pub see : MetaEntry
  pub kernel : MetaEntry
  pub dtb : MetaEntry

abbrev pub default_entry : MetaEntry
default_entry = record { offset = u32_max; size = u32_max }

abbrev pub default : Meta
default = record { see = default_entry; kernel = default_entry; dtb = default_entry }

-- The body of the macro `read_payload!`: the test is `(0..!0).contains(&size)`.
abbrev read_payload : MetaEntry → Option (ℕ × ℕ)
read_payload e = if leb 0 e.size && ltb e.size u32_max then some (e.offset, e.size) else none

unfoldable pub read_see : Meta → Option (ℕ × ℕ)
read_see m = read_payload m.see

unfoldable pub read_kernel : Meta → Option (ℕ × ℕ)
read_kernel m = read_payload m.kernel

unfoldable pub read_dtb : Meta → Option (ℕ × ℕ)
read_dtb m = read_payload m.dtb

unfoldable pub set_see : ℕ → ℕ → Meta → Meta
set_see base size m = record m { see = record { offset = base; size = size } }

unfoldable pub set_kernel : ℕ → ℕ → Meta → Meta
set_kernel base size m = record m { kernel = record { offset = base; size = size } }

unfoldable pub set_dtb : ℕ → ℕ → Meta → Meta
set_dtb base size m = record m { dtb = record { offset = base; size = size } }

abbrev entry_bytes : MetaEntry → List ℕ
entry_bytes e = le_bytes e.offset ++ le_bytes e.size

-- The 24 bytes that `as_bytes` writes to the flash and `as_buf` fills from it.
unfoldable pub as_bytes : Meta → List ℕ
as_bytes m = entry_bytes m.see ++ (entry_bytes m.kernel ++ entry_bytes m.dtb)

unfoldable pub of_words : List ℕ → Option Meta
of_words (so ∷ sz ∷ ko ∷ kz ∷ d ∷ dz ∷ []) = some (record {
  see = record { offset = so; size = sz };
  kernel = record { offset = ko; size = kz };
  dtb = record { offset = d; size = dz };
})
of_words _ = none

unfoldable pub of_bytes : List ℕ → Option Meta
unfolding of_words
of_bytes bytes = of_words (as_u32s bytes)
