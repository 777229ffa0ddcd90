-- ===== src/See/Pmp/Shows.antt =====
-- see/src/hart_csr_utils.rs: `print_pmps` does not panic on what `set_pmp` leaves.
use rustsbi_d.Base.{
  ℕ, zero, suc, ◌+◌, ◌-◌, ◌*◌, ◌/◌, ◌%◌, ◌^◌, ◌<◌, bit_and, ◌≡◌, refl, Bool, true, false, some,
  List, [], ◌∷◌, ◌++◌, arith, ◌==◌, if◌then◌else◌, u64, ◌>>>◌, complement,
}
use rustsbi_d.Base.Bits.{bit_and_mask}
use rustsbi_d.See.Pmp.{Pmp, Region, entry, dump_pmp, trailing_ones, entries, print_pmps}
use rustsbi_d.See.Pmp.Protect.{cfg_byte}

chosen :
    {A : Type 0} (b c d : Bool) (x y z w : A)
    → (l : A) × ((if b then some x else if c then some y else if d then some z else some w)
        ≡ some l)
chosen true c d x y z w = (x, refl)
chosen false true d x y z w = (y, refl)
chosen false false true x y z w = (z, refl)
chosen false false false x y z w = (w, refl)

entry-some : (i cfg : ℕ) (p : Pmp) → 0 < i → (l : List Region) × (entry i cfg p ≡ some l)
unfolding entry
entry-some i cfg p pos =
    let mode = bit_and (cfg >>> 3) 3 in
    let a = p.addr i in
    let len = 2 ^ ((trailing_ones 64 a + 2) % 64) in
    let s = u64 (bit_and a (complement 64 (len - 1)) * 4) in
    let z : (i == 0) ≡ false = ground arith in
    rw z (
      chosen (mode == 0) (mode == 1) (mode == 2) []
        (dump_pmp i (u64 (p.addr (i - 1) * 4)) (u64 (a * 4)) cfg ∷ [])
        (dump_pmp i (u64 (a * 4)) (u64 ((a + 1) * 4)) cfg ∷ [])
        (dump_pmp i s (u64 (s + len)) cfg ∷ []))

entries-some :
    (left i cfg : ℕ) (p : Pmp) → 0 < i → (l : List Region) × (entries left i cfg p ≡ some l)
unfolding entries
entries-some zero i cfg p pos = ([], refl)
entries-some (suc left) i cfg p pos =
    let (row, e) = entry-some i cfg p pos in
    let (rest, f) = entries-some left (i + 1) (cfg >>> 8) p (omega arith) in
    (row ++ rest, rw (e, f) refl)

-- An entry 0 that is off is not shown.
entry_off : (cfg : ℕ) (p : Pmp) → cfg / 8 % 4 ≡ 0 → entry 0 cfg p ≡ some []
unfolding entry
entry_off cfg p off = rw (bit_and_mask 2 (cfg >>> 3), off) refl

pub print_pmps-some : (p : Pmp) → cfg_byte p 0 ≡ 0 → (l : List Region) × (print_pmps p ≡ some l)
unfolding print_pmps entries
print_pmps-some p off =
    let (low, e) = entries-some 7 1 (p.cfg0 >>> 8) p (omega arith) in
    let (high, f) = entries-some 8 8 p.cfg2 p (omega arith) in
    (low ++ high, rw (entry_off p.cfg0 p (omega (arith, off))) (rw (e, f) refl))
