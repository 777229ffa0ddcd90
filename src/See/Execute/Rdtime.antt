-- ===== src/See/Execute/Rdtime.antt =====
-- `emulate_rdtime`: which instructions it takes, and what it does then.
use rustsbi_d.Base.{
  ◌≢◌, ℕ, ◌+◌, ◌-◌, ◌*◌, ◌/◌, ◌%◌, ◌^◌, ◌≤◌, ◌<◌, bit_and, ◌≡◌, ◌↔◌, true, false, arith, ◌==◌,
  if◌then◌else◌, length, get_or-set_self, get_or-set_ne, u64, ◌>>>◌, complement,
}
use native.Mathlib.Decide.{ℕ_discrete}
use rustsbi_d.Base.{get_or-set_self, get_or-set_ne}
use rustsbi_d.Base.Bits.{bit_and_high, bit_and_mask}
use rustsbi_d.Base.Fields.{clear_field, with_field}
use rustsbi_d.See.Execute.{Context, reg, set_reg, skip, rd_mask, rdtime_code, emulate_rdtime}

-- `rdtime rd` is this word, for each of the 32 registers.
abbrev pub rdtime : ℕ → ℕ
rdtime rd = rdtime_code + rd * 2 ^ 7

masked : (ins : ℕ) → ins < 2 ^ 64 → bit_and ins (complement 64 rd_mask) ≡ with_field 7 5 0 ins
masked ins h = clear_field 7 5 52 ins (omega arith)

rd_field : (ins : ℕ) → bit_and ins rd_mask >>> 7 ≡ ins / 2 ^ 7 % 2 ^ 5
rd_field ins = omega (arith, bit_and_high 7 ins (2 ^ 5 - 1), bit_and_mask 5 (ins / 2 ^ 7))

-- An instruction word of 64 bits is taken for `rdtime` exactly when it is `rdtime rd` for a register.
pub emulate_rdtime_iff :
    (time ins : ℕ) (c : Context)
    → ins < 2 ^ 64
    → ((emulate_rdtime time ins c).1 ≡ true) ↔ ((rd : ℕ) × (rd < 32) × (ins ≡ rdtime rd))
unfolding emulate_rdtime
emulate_rdtime_iff time ins c h = (
  λ e. (ins / 2 ^ 7 % 2 ^ 5, omega arith, ground (arith, masked ins h)),
  λ t. ground (arith, masked ins h, t.1, t.2),
)

pub emulate_rdtime_refused :
    (time ins : ℕ) (c : Context)
    → ins < 2 ^ 64
    → ((rd : ℕ) → rd < 32 → ins ≢ rdtime rd)
    → emulate_rdtime time ins c ≡ (c, false)
unfolding emulate_rdtime
emulate_rdtime_refused time ins c h differs =
    ground (arith, masked ins h, differs (ins / 2 ^ 7 % 2 ^ 5) (omega arith))

emulate_rdtime_lem :
    (time rd : ℕ) (c : Context)
    → rd < 32
    → emulate_rdtime time (rdtime rd) c ≡ (skip (if rd == 0 then c else set_reg rd time c), true)
unfolding emulate_rdtime
emulate_rdtime_lem time rd c lt =
    ground (arith, masked (rdtime rd) (omega arith), rd_field (rdtime rd))

pub reg-set_reg :
    (n k v : ℕ) (c : Context)
    → length c.x ≡ 31
    → 1 ≤ n
    → 1 ≤ k
    → k ≤ 31
    → reg n (set_reg k v c) ≡ (if n == k then v else reg n c)
reg-set_reg n k v c len hn hk hi = elim (ℕ_discrete n k) [
  | yes e ↦ ground (arith, get_or-set_self c.x (k - 1) v 0 (omega arith))
  | no ne ↦ ground (arith, get_or-set_ne c.x (k - 1) (n - 1) v 0 (omega arith))
]

-- `rdtime rd` puts the time into `rd` and nothing into x0, keeps every other register, and goes on
-- behind the instruction.
pub emulate_rdtime_runs :
    (time rd n : ℕ) (c : Context)
    → rd < 32
    → length c.x ≡ 31
    → 1 ≤ n
    → n ≤ 31
    → let c' = (emulate_rdtime time (rdtime rd) c).0 in
      (c'.mepc ≡ u64 (c.mepc + 4))
      × (c'.mstatus ≡ c.mstatus)
      × (reg n c' ≡ (if n == rd then time else reg n c))
unfolding emulate_rdtime
emulate_rdtime_runs time rd n c lt len lo hi = rw (emulate_rdtime_lem time rd c lt) (
  ground arith,
  ground arith,
  elim (ℕ_discrete rd 0) [
    | yes e ↦ ground arith
    | no ne ↦ ground (arith, reg-set_reg n rd time c len lo (omega arith) (omega arith))
  ],
)
