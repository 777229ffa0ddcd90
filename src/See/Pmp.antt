-- ===== src/See/Pmp.antt =====
-- The physical memory protection: `set_pmp` of see/src/main.rs and see/src/hart_csr_utils.rs, which prints it.
-- A printed line is a region; a panic is `none`.
pub mod Protect
pub mod Napot
pub mod Shows
use rustsbi_d.Base.{
  ℕ, zero, suc, ◌+◌, ◌-◌, ◌*◌, ◌/◌, ◌%◌, ◌^◌, ◌≤◌, ◌<◌, min, max, bit_and, bit_or, ◌≡◌, refl, sym,
  ap, ◌∙◌, fun_ext, ◌≢◌, ◌↔◌, ◌⊎◌, inl, inr, Bool, true, false, not, ◌&&◌, ◌||◌, Option, none, some,
  List, [], ◌∷◌, ◌++◌, map, arith, ltb, leb, ◌==◌, if◌then◌else◌, Bool-cases, Option-cases, ltb→lt,
  lt→ltb, le→ltb_false, ==_iff, length, get_elem?, get_or, set, take, drop, replicate,
  length-append, length-set, get_or-set_self, get_or-set_ne, length-replicate, u8, u32, u64,
  u32_max, u64_max, ◌<<<◌, ◌>>>◌, complement, ◌>>=◌,
}
use rustsbi_d.Base.Fields.{with_field}

pub record Pmp : Type 0 where
  pub cfg0 : ℕ
  pub cfg2 : ℕ
  pub addr : ℕ → ℕ

-- riscv::register::{Range, Permission}, with the codes of the architecture.
pub data Range : Type 0 where
  off tor na4 napot : Range

pub data Permission : Type 0 where
  no_access read_write read_write_execute : Permission

abbrev pub range_code : Range → ℕ
range_code off = 0
range_code tor = 1
range_code na4 = 2
range_code napot = 3

abbrev pub permission_code : Permission → ℕ
permission_code no_access = 0
permission_code read_write = 3
permission_code read_write_execute = 7

abbrev pub write_addr : ℕ → ℕ → Pmp → Pmp
write_addr i v p = record p { addr = λ j. if j == i then v else p.addr j }

-- riscv: `pmpcfg0::set_pmp` without the lock writes one byte of the register and keeps the others.
abbrev pub SetsByte : (ℕ → Range → Permission → ℕ → ℕ) → Type 0
SetsByte set_cfg =
    (i : ℕ) (r : Range) (q : Permission) (x : ℕ)
    → set_cfg i r q x ≡ with_field (i * 8) 8 (range_code r * 8 + permission_code q) x

module _ (set_cfg : ℕ → Range → Permission → ℕ → ℕ) where
  abbrev pub set_entry : ℕ → Range → Permission → ℕ → Pmp → Pmp
  set_entry i r q v p = write_addr i v (record p { cfg0 = set_cfg i r q p.cfg0 })

  unfoldable pub set_pmp : ℕ → ℕ → ℕ → Pmp → Pmp
  set_pmp mem_start mem_end kernel p = set_entry 3 tor read_write_execute (mem_end >>> 2) (
      set_entry 2 tor no_access (kernel >>> 2)
        (set_entry 1 tor read_write (mem_start >>> 2) (set_entry 0 off no_access 0 p)))

-- What `dump_pmp` prints.
pub record Region : Type 0 where
  pub index : ℕ
  pub start : ℕ
  pub end : ℕ
  pub x : Bool
  pub w : Bool
  pub r : Bool

abbrev pub dump_pmp : ℕ → ℕ → ℕ → ℕ → Region
dump_pmp i s e cfg = record {
  index = i;
  start = s;
  end = e;
  x = not (bit_and cfg 4 == 0);
  w = not (bit_and cfg 2 == 0);
  r = not (bit_and cfg 1 == 0);
}

-- `usize::trailing_ones`, with one round for each of the 64 bits.
unfoldable pub trailing_ones : ℕ → ℕ → ℕ
trailing_ones zero x = 0
trailing_ones (suc n) x = let rest = trailing_ones n (x / 2) in if x % 2 == 1 then rest + 1 else 0

-- One round of the inner loop for entry `i`; the shift of the length takes its amount modulo 64. At entry 0 the index `i - 1` underflows.
unfoldable pub entry : ℕ → ℕ → Pmp → Option (List Region)
entry i cfg p =
    let mode = bit_and (cfg >>> 3) 3 in
    let a = p.addr i in
    let len = 2 ^ ((trailing_ones 64 a + 2) % 64) in
    let s = u64 (bit_and a (complement 64 (len - 1)) * 4) in
    if mode == 0
    then some []
    else if mode == 1
    then (if i == 0
        then none
        else some (dump_pmp i (u64 (p.addr (i - 1) * 4)) (u64 (a * 4)) cfg ∷ []))
    else if mode == 2
    then some (dump_pmp i (u64 (a * 4)) (u64 ((a + 1) * 4)) cfg ∷ [])
    else some (dump_pmp i s (u64 (s + len)) cfg ∷ [])

-- The inner loop, with the entries left.
unfoldable pub entries : ℕ → ℕ → ℕ → Pmp → Option (List Region)
entries zero i cfg p = some []
entries (suc left) i cfg p = do
  row ← entry i cfg p
  rest ← entries left (i + 1) (cfg >>> 8) p
  some (row ++ rest)

-- The outer loop goes over the registers 0 and 2, with 8 entries each.
unfoldable pub print_pmps : Pmp → Option (List Region)
print_pmps p = do low ← entries 8 0 p.cfg0 p; high ← entries 8 8 p.cfg2 p; some (low ++ high)
