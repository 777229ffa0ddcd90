-- ===== src/See/Execute/Transfer.antt =====
-- `do_transfer_trap` beside the trap entry of the RISC-V privileged architecture.
use rustsbi_d.Base.{
  ℕ, zero, suc, ◌/◌, ◌%◌, ◌^◌, ◌≤◌, max, ◌≡◌, refl, sym, ap, ◌∙◌, inl, inr, true, false, none, some,
  arith, ◌==◌, if◌then◌else◌, Bool-cases,
}
use mathlib.Core.Option
use mathlib.Core.Path.{subst}
use rustsbi_d.Base.{inl, inr, sym, Bool-cases, refl}
use rustsbi_d.Base.Bits.{bit_and_mask}
use rustsbi_d.Base.Fields.{with_field}
use rustsbi_d.See.Riscv.{Riscv, IsRiscv, bits, Spp, user, supervisor, spp_bit}
use rustsbi_d.See.Execute.{Machine, Context, spp_of, deliver, do_transfer_trap}

-- Fields of the saved status word: MPP, SPP, SPIE and SIE.
abbrev pub mpp : ℕ → ℕ
mpp = bits 11 2

abbrev pub spp : ℕ → ℕ
spp = bits 8 1

abbrev pub spie : ℕ → ℕ
spie = bits 5 1

abbrev pub sie : ℕ → ℕ
sie = bits 1 1

-- The supervisor's trap handler gets control: the CSRs that describe the trap, the return to S mode
-- with interrupts off, and the previous privilege `p`.
pub record IsDelivered (r : Riscv) (cause p : ℕ) (c : Context) (m : Machine) (c' : Context)
    (m' : Machine) : Type 0 where
  pub handler : c'.mepc ≡ r.stvec_address m.stvec
  pub epc : m'.sepc ≡ c.mepc
  pub reason : m'.scause ≡ cause
  pub value : m'.stval ≡ m.mtval
  pub regs : c'.x ≡ c.x
  pub status : c'.mstatus ≡ m'.mstatus
  pub returns_to_s : mpp c'.mstatus ≡ 1
  pub previous : spp c'.mstatus ≡ p
  pub masked : sie c'.mstatus ≡ 0
  pub enabled : spie c'.mstatus ≡ max (sie m.mstatus) (spie m.mstatus)

abbrev prepared : Riscv → ℕ → Spp → ℕ
prepared r w p = r.set_spp p (r.set_mpp_supervisor w)

prepared_lem :
    (r : Riscv) (w : ℕ) (p : Spp)
    → IsRiscv r
    → prepared r w p ≡ with_field 8 1 (spp_bit p) (with_field 11 2 1 w)
prepared_lem r w p k = k.spp p _ ∙ ap (with_field 8 1 (spp_bit p)) (k.mpp w)

spp_bit-le : (p : Spp) → spp_bit p ≤ 1
spp_bit-le user = omega arith
spp_bit-le supervisor = omega arith

prepared_fields :
    (b w : ℕ)
    → b ≤ 1
    → let v = with_field 8 1 b (with_field 11 2 1 w) in
      (mpp v ≡ 1) × (spp v ≡ b) × (spie v ≡ spie w) × (sie v ≡ sie w)
prepared_fields b w h = omega arith

masked_fields :
    (v : ℕ)
    → let u = with_field 1 1 0 (with_field 5 1 1 v) in
      (mpp u ≡ mpp v) × (spp u ≡ spp v) × (spie u ≡ 1) × (sie u ≡ 0)
masked_fields v = omega arith

bit_off : (x : ℕ) → ((x % 2 ^ 1) == 1) ≡ false → x % 2 ^ 1 ≡ 0
bit_off x h = ground arith

bit_on : (x : ℕ) → ((x % 2 ^ 1) == 1) ≡ true → x % 2 ^ 1 ≡ 1
bit_on x h = ground arith

final_fields :
    (r : Riscv) (w : ℕ) (p : Spp)
    → IsRiscv r
    → let v = prepared r w p in
      let u = if r.sie v then r.clear_sie (r.set_spie v) else v in
      (mpp u ≡ 1) × (spp u ≡ spp_bit p) × (sie u ≡ 0) × (spie u ≡ max (sie w) (spie w))
final_fields r w p k =
    let v = prepared r w p in
    let before = prepared_fields (spp_bit p) w (spp_bit-le p) in
    let after = masked_fields v in
    let before' : (mpp v ≡ 1) × (spp v ≡ spp_bit p) × (spie v ≡ spie w) × (sie v ≡ sie w) =
      rw (prepared_lem r w p k) before in
    elim (Bool-cases (r.sie v)) [
      | inl on ↦
          let one : sie v ≡ 1 = bit_on (v / 2 ^ 1) (sym (k.sie_read v) ∙ on) in
          rw (on, k.spie_set v, k.sie_clear (with_field 5 1 1 v))
            (
              after.0 ∙ before'.0,
              after.1 ∙ before'.1,
              after.3,
              omega (arith, after.2, before'.2, before'.3, one),
            )
      | inr off ↦
          let zeroed : sie v ≡ 0 = bit_off (v / 2 ^ 1) (sym (k.sie_read v) ∙ off) in
          rw off (before'.0, before'.1, zeroed, omega (arith, before'.2, before'.3, zeroed))
    ]

pub deliver-IsDelivered :
    (r : Riscv) (p : Spp) (cause : ℕ) (c : Context) (m : Machine)
    → IsRiscv r
    → let (c', m') = deliver r p cause c m in IsDelivered r cause (spp_bit p) c m c' m'
unfolding deliver
deliver-IsDelivered r p cause c m k =
    let f = final_fields r m.mstatus p k in
    record {
      handler = refl;
      epc = refl;
      reason = refl;
      value = refl;
      regs = refl;
      status = refl;
      returns_to_s = f.0;
      previous = f.1;
      masked = f.2;
      enabled = f.3;
    }

pub spp_of_le : (n : ℕ) → n ≤ 1 → (p : Spp) × (spp_of n ≡ some p) × (spp_bit p ≡ n)
spp_of_le zero h = (user, refl, refl)
spp_of_le (suc zero) h = (supervisor, refl, refl)
spp_of_le (suc (suc n)) h = absurd (omega arith)

spp_of-none : (n : ℕ) → 2 ≤ n → spp_of n ≡ none
spp_of-none zero h = absurd (omega arith)
spp_of-none (suc zero) h = absurd (omega arith)
spp_of-none (suc (suc n)) h = refl

-- A trap from U mode (0) or S mode (1) is delivered: control goes to `stvec` in S mode with the
-- interrupted pc, the cause, the value and the previous mode recorded, interrupts masked, SPIE set if
-- interrupts were on and otherwise as it was, and no register changed.
pub do_transfer_trap-IsDelivered :
    (r : Riscv) (cause : ℕ) (c : Context) (m : Machine)
    → IsRiscv r
    → mpp c.mstatus ≤ 1
    → (c' : Context) × (m' : Machine) × (do_transfer_trap r cause c m ≡ some (c', m'))
      × IsDelivered r cause (mpp c.mstatus) c m c' m'
unfolding do_transfer_trap
do_transfer_trap-IsDelivered r cause c m k h =
    let (p, e, b) = spp_of_le (mpp c.mstatus) h in
    let (c', m') = deliver r p cause c m in
    (
      c',
      m',
      ap (λ o. Option.map (λ q. deliver r q cause c m) (spp_of o))
            (bit_and_mask 2 (c.mstatus / 2 ^ 11))
          ∙ ap (Option.map (λ q. deliver r q cause c m)) e,
      subst (λ q. IsDelivered r cause q c m c' m') b (deliver-IsDelivered r p cause c m k),
    )

-- A trap from a mode other than U and S is not delivered: `do_transfer_trap` panics.
pub do_transfer_trap_panics :
    (r : Riscv) (cause : ℕ) (c : Context) (m : Machine)
    → 2 ≤ mpp c.mstatus
    → do_transfer_trap r cause c m ≡ none
unfolding do_transfer_trap
do_transfer_trap_panics r cause c m h =
    ap (λ o. Option.map (λ q. deliver r q cause c m) (spp_of o))
      (bit_and_mask 2 (c.mstatus / 2 ^ 11))
    ∙ ap (Option.map (λ q. deliver r q cause c m)) (spp_of-none (mpp c.mstatus) h)
