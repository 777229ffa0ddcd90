-- ===== src/Spl/Head.antt =====
-- spl/src/main.rs, `start` and `head_swap`, with the parameters of spl/src/magic.rs: the loader's first 128 bytes change
-- places with those of the DDR code, which runs with its parameters copied into it, and are put back.
-- The memory is a function from an address to a byte; a loaded register is the bytes that it
-- holds. The DDR code is binary data: the parameter `blob`, what it does to the memory. CSRs, fences and
-- the stack are left out.
pub mod Exchange
pub mod Loops
pub mod Laws
use rustsbi_d.Base.{
  ℕ, zero, suc, ◌+◌, ◌-◌, ◌*◌, ◌/◌, ◌%◌, ◌^◌, ◌≤◌, ◌<◌, min, max, bit_and, bit_or, ◌≡◌, refl, sym,
  ap, ◌∙◌, fun_ext, ◌≢◌, ◌↔◌, ◌⊎◌, inl, inr, Bool, true, false, not, ◌&&◌, ◌||◌, Option, none, some,
  List, [], ◌∷◌, ◌++◌, map, arith, ltb, leb, ◌==◌, if◌then◌else◌, Bool-cases, Option-cases, ltb→lt,
  lt→ltb, le→ltb_false, ==_iff, length, get_elem?, get_or, set, take, drop, replicate,
  length-append, length-set, get_or-set_self, get_or-set_ne, length-replicate, u8, u32, u64,
  u32_max, u64_max, ◌<<<◌, ◌>>>◌, complement, ◌>>=◌,
}
use rustsbi_d.Base.Ram.{place, peek}
use rustsbi_d.Common.Memory.{sram}
use rustsbi_d.Common.Bytes.{le_bytes}

-- Where the linker script of spl/build.rs puts the head and the two parts of the DDR code.
abbrev pub head_jump : ℕ
head_jump = sram

abbrev pub magic_tail : ℕ
magic_tail = head_jump + 128

abbrev pub magic_head : ℕ
magic_head = magic_tail + (16584 - 128)

-- The words of `PARAM`, in the order of its fields.
abbrev pub param_words : List ℕ
param_words =
    792
    ∷ 3
    ∷ 0x7b7bfb
    ∷ 0x01
    ∷ 0x000010d2
    ∷ 0x0000
    ∷ 0x1c70
    ∷ 0x042
    ∷ 0x18
    ∷ 0x0
    ∷ 0x004A2195
    ∷ 0x02423190
    ∷ 0x0008B061
    ∷ 0xB4787896
    ∷ 0x0
    ∷ 0x48484848
    ∷ 0x00000048
    ∷ 0x1620121e
    ∷ 0x0
    ∷ 0x0
    ∷ 0x0
    ∷ 0x00870000
    ∷ 0x00000024
    ∷ 0x34050100
    ∷ replicate 8 0

abbrev pub bytes_of : List ℕ → List ℕ
bytes_of [] = []
bytes_of (w ∷ ws) = le_bytes w ++ bytes_of ws

-- `DDR3Param::LEN`
abbrev pub param_len : ℕ
param_len = 24 * 4 + 8 * 4

-- The loop of `head_swap`, with its registers t0, t1 and t2.
unfoldable pub swap_loop : ℕ → ℕ → ℕ → ℕ → (ℕ → ℕ) → Option (ℕ → ℕ)
swap_loop zero t0 t1 t2 mem = none
swap_loop (suc rounds) t0 t1 t2 mem =
    let t3 = peek t0 8 mem in
    let t4 = peek t1 8 mem in
    let rest = swap_loop rounds (t0 + 8) (t1 + 8) t2 (place t1 t3 (place t0 t4 mem)) in
    if leb t2 t0 then some mem else rest

unfoldable pub head_swap : ℕ → (ℕ → ℕ) → Option (ℕ → ℕ)
head_swap rounds mem = swap_loop rounds head_jump magic_head magic_tail mem

-- The loop of `start` that copies the parameters.
unfoldable pub copy_loop : ℕ → ℕ → ℕ → ℕ → (ℕ → ℕ) → Option (ℕ → ℕ)
copy_loop zero t0 t1 t2 mem = none
copy_loop (suc rounds) t0 t1 t2 mem =
    let t3 = peek t1 4 mem in
    let rest = copy_loop rounds (t0 + 4) (t1 + 4) t2 (place t0 t3 mem) in
    if leb t2 t1 then some mem else rest

-- Up to the call of `main`; `param` is the address of `PARAM`.
unfoldable pub start : ((ℕ → ℕ) → ℕ → ℕ) → ℕ → ℕ → (ℕ → ℕ) → Option (ℕ → ℕ)
start blob param rounds mem = do
  m1 ← head_swap rounds mem
  m2 ← copy_loop rounds (head_jump + 0x18) param (param_len + param) m1
  head_swap rounds (blob m2)
