-- ===== src/See/Start.antt =====
-- see/src/main.rs, `rust_main`: how the SEE goes on with what it finds in the meta data and the device tree.
-- The clearing of bss and the registration of the extensions with rustsbi are left out.
pub mod Boots
use rustsbi_d.Base.{
  ℕ, zero, suc, ◌+◌, ◌-◌, ◌*◌, ◌/◌, ◌%◌, ◌^◌, ◌≤◌, ◌<◌, min, max, bit_and, bit_or, ◌≡◌, refl, sym,
  ap, ◌∙◌, fun_ext, ◌≢◌, ◌↔◌, ◌⊎◌, inl, inr, Bool, true, false, not, ◌&&◌, ◌||◌, Option, none, some,
  List, [], ◌∷◌, ◌++◌, map, arith, ltb, leb, ◌==◌, if◌then◌else◌, Bool-cases, Option-cases, ltb→lt,
  lt→ltb, le→ltb_false, ==_iff, length, get_elem?, get_or, set, take, drop, replicate,
  length-append, length-set, get_or-set_self, get_or-set_ne, length-replicate, u8, u32, u64,
  u32_max, u64_max, ◌<<<◌, ◌>>>◌, complement, ◌>>=◌,
}
use rustsbi_d.Common.Dtb.{HeaderError, Dtb}
use rustsbi_d.Common.Memory as memory
use rustsbi_d.Common.Memory.{dram}
use rustsbi_d.Hal.Plic.{Plic, allow_supervisor}
use rustsbi_d.See.Board.{BoardInfo, parse_board_info}
use rustsbi_d.See.Pmp.{Pmp, Range, Permission, Region, SetsByte, set_pmp, print_pmps}
use rustsbi_d.See.Pmp.Protect.{set_pmp-off}
use rustsbi_d.See.Pmp.Shows.{print_pmps-some}

pub record Supervisor : Type 0 where
  pub start_addr : ℕ
  pub opaque : ℕ

-- What is printed of the board, with the addresses.
pub record Banner : Type 0 where
  pub model : List ℕ
  pub mem : ℕ × ℕ
  pub dtb : ℕ × ℕ
  pub firmware : ℕ
  pub supervisor : ℕ

-- `idle` is `arrow_walk`; otherwise `execute_supervisor` is called, after the regions were printed.
pub data Next : Type 0 where
  idle : Next
  supervise : Supervisor → Pmp → Plic → List Region → Next

abbrev pub unknown : List ℕ
unknown = b'u' ∷ b'n' ∷ b'k' ∷ b'n' ∷ b'o' ∷ b'w' ∷ b'n' ∷ []

abbrev pub banner : ℕ → ℕ → Option BoardInfo → Banner
banner entry kernel none = record {
  model = unknown;
  mem = (0, 0);
  dtb = (0, 0);
  firmware = entry;
  supervisor = kernel;
}
banner entry kernel (some i) = record {
  model = i.model;
  mem = i.mem;
  dtb = i.dtb;
  firmware = entry;
  supervisor = kernel;
}

-- Without board information the memory counts as 512 MiB and the tree's address as 0.
abbrev pub mem_or : Option BoardInfo → ℕ × ℕ
mem_or none = (dram, dram + 512 * 2 ^ 20)
mem_or (some i) = i.mem

abbrev pub dtb_or : Option BoardInfo → ℕ
dtb_or none = 0
dtb_or (some i) = i.dtb.0

-- `meta.kernel().unwrap_or(0)`
abbrev pub kernel_or : Option ℕ → ℕ
kernel_or none = 0
kernel_or (some kernel) = kernel

module _ (set_cfg : ℕ → Range → Permission → ℕ → ℕ)
    (from_raw : ℕ → (HeaderError → Bool) → Option Dtb) (entry : ℕ) where
  abbrev pub board_info : Option ℕ → Option (Option BoardInfo)
  board_info none = some none
  board_info (some dtb) = parse_board_info from_raw dtb

  abbrev pub protected : ℕ → Option BoardInfo → Pmp → Pmp
  protected kernel info p = set_pmp set_cfg (mem_or info).0 (mem_or info).1 kernel p

  unfoldable pub launch : ℕ → Option BoardInfo → Pmp → Plic → Option Next
  launch kernel info p plic = do
    regions ← print_pmps (protected kernel info p)
    some (
        supervise (record { start_addr = kernel; opaque = dtb_or info }) (protected kernel info p)
          (allow_supervisor plic) regions)

  -- `none` is a panic, of the walk or of `print_pmps`.
  unfoldable pub rust_main : memory.Meta → Pmp → Plic → Option (Banner × Next)
  rust_main meta p plic = do
    info ← board_info (memory.read_dtb meta)
    let kernel = kernel_or (memory.read_kernel meta)
    next ← (if kernel == 0 then some idle else launch kernel info p plic)
    some (banner entry kernel info, next)
