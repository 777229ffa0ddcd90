-- ===== src/Common/Memory.antt =====
-- common/src/memory.rs: the memory map, where the device tree goes, and the meta data
-- in SRAM that tells each stage where the next one was loaded.
pub mod Laws
use rustsbi_d.Base.{
  ℕ, ◌+◌, ◌-◌, ◌*◌, ◌^◌, min, bit_and, Bool, true, false, Option, none, some, List, [], ◌∷◌, ◌++◌,
  ◌==◌, ltb, if◌then◌else◌, u32, u32_max, complement,
}
use rustsbi_d.Common.Bytes.{le_bytes, le_word}

abbrev pub sram : ℕ
sram = 0x0002_0000

abbrev pub dram : ℕ
dram = 0x4000_0000

abbrev pub kernel_base : ℕ
kernel_base = 0x4020_0000

abbrev pub meta_base : ℕ
meta_base = 0x0002_0068

-- `const PAGE: u32 = 2 << 20`
abbrev pub page : ℕ
page = 2 * 2 ^ 20

-- The subtraction wraps, as in the release profile that every stage is built with.
unfoldable pub dtb_offset : ℕ → ℕ
dtb_offset mem_size =
    bit_and (u32 (min (u32 mem_size) (2 ^ 30) + 2 ^ 32 - page)) (complement 32 (page - 1))

-- `struct Meta`. The padding `_zero` is kept, since `as_bytes` writes it.
pub record Meta : Type 0 where
  pub from_flash : Bool
  pub zeros : ℕ × ℕ × ℕ
  pub see : ℕ
  pub kernel : ℕ
  pub dtb : ℕ

-- `const NONE: u32 = !0`
abbrev pub no_offset : ℕ
no_offset = u32_max

abbrev pub default : Meta
default = record {
  from_flash = false;
  zeros = (0xff, 0xff, 0xff);
  see = no_offset;
  kernel = no_offset;
  dtb = no_offset;
}

-- The body of the macro `read_payload!`; the address is a usize, which the sum cannot overflow.
abbrev read_payload : ℕ → Option ℕ
read_payload offset = if offset == no_offset then none else some (dram + offset)

unfoldable pub read_see : Meta → Option ℕ
read_see m = read_payload m.see

unfoldable pub read_kernel : Meta → Option ℕ
read_kernel m = read_payload m.kernel

unfoldable pub read_dtb : Meta → Option ℕ
read_dtb m = read_payload m.dtb

unfoldable pub set_see : ℕ → Meta → Meta
set_see val m = record m { see = val }

unfoldable pub set_kernel : ℕ → Meta → Meta
set_kernel val m = record m { kernel = val }

unfoldable pub set_dtb : ℕ → Meta → Meta
set_dtb val m = record m { dtb = val }

abbrev bool_byte : Bool → ℕ
bool_byte true = 1
bool_byte false = 0

-- The 16 bytes of the value, as `AsBinary::as_bytes` and a raw read of the head see them.
unfoldable pub as_bytes : Meta → List ℕ
as_bytes m =
    bool_byte m.from_flash
    ∷ m.zeros.0
    ∷ m.zeros.1
    ∷ m.zeros.2
    ∷ (le_bytes m.see ++ (le_bytes m.kernel ++ le_bytes m.dtb))

-- The value that a raw read of 16 bytes finds; a flag byte other than 0 and 1 is no `bool`.
unfoldable pub of_bytes : List ℕ → Option Meta
of_bytes (f ∷ z0 ∷ z1 ∷ z2 ∷ s0 ∷ s1 ∷ s2 ∷ s3 ∷ k0 ∷ k1 ∷ k2 ∷ k3 ∷ d0 ∷ d1 ∷ d2 ∷ d3 ∷ []) =
    let m : Meta = record {
      from_flash = f == 1;
      zeros = (z0, z1, z2);
      see = le_word s0 s1 s2 s3;
      kernel = le_word k0 k1 k2 k3;
      dtb = le_word d0 d1 d2 d3;
    } in
    if ltb f 2 then some m else none
of_bytes _ = none
