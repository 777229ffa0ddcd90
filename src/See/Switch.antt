-- ===== src/See/Switch.antt =====
-- `m_to_s` and `s_to_m` of see/src/execute.rs, up to the final `mret` and `ret`. The `.rept` loops are
-- expanded by `saves` and `loads`.
pub mod Blocks
pub mod Laws
use rustsbi_d.Base.{
  ℕ, zero, suc, ◌+◌, ◌-◌, ◌*◌, ◌/◌, ◌%◌, ◌^◌, ◌≤◌, ◌<◌, min, max, bit_and, bit_or, ◌≡◌, refl, sym,
  ap, ◌∙◌, fun_ext, ◌≢◌, ◌↔◌, ◌⊎◌, inl, inr, Bool, true, false, not, ◌&&◌, ◌||◌, Option, none, some,
  List, [], ◌∷◌, ◌++◌, map, arith, ltb, leb, ◌==◌, if◌then◌else◌, Bool-cases, Option-cases, ltb→lt,
  lt→ltb, le→ltb_false, ==_iff, length, get_elem?, get_or, set, take, drop, replicate,
  length-append, length-set, get_or-set_self, get_or-set_ne, length-replicate, u8, u32, u64,
  u32_max, u64_max, ◌<<<◌, ◌>>>◌, complement,
}
use rustsbi_d.See.Cpu.{Instr, sd, ld, mv, addi, csrr, csrw, csrrw, mscratch, mstatus, mepc}

abbrev pub sp : ℕ
sp = 2

abbrev pub t0 : ℕ
t0 = 5

abbrev pub t1 : ℕ
t1 = 6

abbrev pub t2 : ℕ
t2 = 7

abbrev pub a0 : ℕ
a0 = 10

-- `.set n, first` and `.rept count` of `sd x\n, \n*8(sp)`.
pub saves : ℕ → ℕ → List Instr
saves zero n = []
saves (suc count) n = sd n (n * 8) sp ∷ saves count (n + 1)

-- The same of `ld x\n, \n*8(sp)`.
pub loads : ℕ → ℕ → List Instr
loads zero n = []
loads (suc count) n = ld n (n * 8) sp ∷ loads count (n + 1)

-- The machine's stack pointer goes to the context, and three CSRs come from it.
abbrev pub csrs_of_context : List Instr
csrs_of_context =
    sd sp 0 a0
    ∷ mv sp a0
    ∷ ld t0 (2 * 8) sp
    ∷ ld t1 (32 * 8) sp
    ∷ ld t2 (33 * 8) sp
    ∷ csrw mscratch t0
    ∷ csrw mstatus t1
    ∷ csrw mepc t2
    ∷ ld 1 (1 * 8) sp
    ∷ []

abbrev pub swap_stacks : List Instr
swap_stacks = csrrw sp mscratch sp ∷ []

-- `addi sp, sp, -32*8`: the immediate as a 64-bit word.
abbrev pub push_frame : Instr
push_frame = addi sp sp (2 ^ 64 - 32 * 8)

unfoldable pub m_to_s : List Instr
m_to_s = push_frame ∷ (saves 31 1 ++ (csrs_of_context ++ (loads 29 3 ++ swap_stacks)))

-- Three CSRs go to the context, and the machine's stack pointer comes from it.
abbrev pub csrs_to_context : List Instr
csrs_to_context =
    csrr t0 mscratch
    ∷ csrr t1 mstatus
    ∷ csrr t2 mepc
    ∷ sd t0 (2 * 8) sp
    ∷ sd t1 (32 * 8) sp
    ∷ sd t2 (33 * 8) sp
    ∷ ld sp 0 sp
    ∷ []

abbrev pub pop_frame : List Instr
pop_frame = addi sp sp (32 * 8) ∷ []

unfoldable pub s_to_m : List Instr
s_to_m =
    csrrw sp mscratch sp
    ∷ sd 1 (1 * 8) sp
    ∷ (saves 29 3 ++ (csrs_to_context ++ (loads 31 1 ++ pop_frame)))
