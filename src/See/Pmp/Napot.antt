-- ===== src/See/Pmp/Napot.antt =====
-- see/src/hart_csr_utils.rs: what `print_pmps` shows of a NAPOT entry, against what the entry covers.
use rustsbi_d.Base.{
  ℕ, zero, suc, ◌+◌, ◌-◌, ◌*◌, ◌/◌, ◌%◌, ◌^◌, ◌≤◌, ◌<◌, bit_and, ◌≡◌, refl, sym, ap, ◌∙◌, some, [],
  ◌∷◌, arith, ◌==◌, u64, ◌>>>◌, complement,
}
use native.Mathlib.Nat.{pow-succ', div-div-eq-div-mul}
use rustsbi_d.Base.Bits.{bit_and_mask}
use rustsbi_d.See.Pmp.{Pmp, entry, dump_pmp, trailing_ones}
use rustsbi_d.See.Pmp.Protect.{hits}

-- The address register of a NAPOT entry: `k` ones below a zero, and `q` above them.
abbrev pub napot_addr : ℕ → ℕ → ℕ
napot_addr zero q = q * 2
napot_addr (suc k) q = napot_addr k q * 2 + 1

trailing_ones-napot_addr : (n k q : ℕ) → k < n → trailing_ones n (napot_addr k q) ≡ k
unfolding trailing_ones
trailing_ones-napot_addr zero k q h = absurd (omega arith)
trailing_ones-napot_addr (suc n) zero q h = ground arith
trailing_ones-napot_addr (suc n) (suc k) q h =
    let a = napot_addr k q in
    let odd : (a * 2 + 1) % 2 ≡ 1 = omega arith in
    let half : (a * 2 + 1) / 2 ≡ a = omega arith in
    rw (odd, half, trailing_ones-napot_addr n k q (omega arith)) (omega arith)

napot_addr-div : (k q : ℕ) → napot_addr k q / 2 ^ (k + 1) ≡ q
napot_addr-div zero q = omega arith
napot_addr-div (suc k) q =
    let a = napot_addr k q in
    ap (λ e. (a * 2 + 1) / 2 ^ e) {y = suc (k + 1)} (omega arith)
    ∙ ap (λ t. (a * 2 + 1) / t) (pow-succ' 2 (k + 1))
    ∙ sym (div-div-eq-div-mul (a * 2 + 1) 2 (2 ^ (k + 1)))
    ∙ ap (λ t. t / 2 ^ (k + 1)) {y = a} (omega arith)
    ∙ napot_addr-div k q

-- A NAPOT entry with `k` ones, at most 54, below `q` covers the 2^(k+1) words whose number begins with `q`, which are 2^(k+3)
-- bytes; `print_pmps` shows a region of 2^(k+2) bytes for it.
pub entry-hits :
    (i cfg k q : ℕ) (p : Pmp)
    → cfg / 8 % 4 ≡ 3
    → k ≤ 54
    → p.addr i ≡ napot_addr k q
    → (s : ℕ) × (entry i cfg p ≡ some (dump_pmp i s (u64 (s + 2 ^ (k + 2))) cfg ∷ []))
      × ((below word : ℕ) → hits 3 below (p.addr i) word ≡ (word / 2 ^ (k + 1) == q))
unfolding entry
entry-hits i cfg k q p mode few e =
    let a = p.addr i in
    let ones : trailing_ones 64 a ≡ k =
      ap (trailing_ones 64) e ∙ trailing_ones-napot_addr 64 k q (omega arith) in
    let m : bit_and (cfg >>> 3) 3 ≡ 3 = bit_and_mask 2 (cfg >>> 3) ∙ mode in
    let len : 2 ^ ((k + 2) % 64) ≡ 2 ^ (k + 2) =
      ap (λ n. 2 ^ n) {x = (k + 2) % 64} {y = k + 2} (omega arith) in
    let top : a / 2 ^ (k + 1) ≡ q = ap (λ t. t / 2 ^ (k + 1)) e ∙ napot_addr-div k q in
    (
      u64 (bit_and a (complement 64 (2 ^ (k + 2) - 1)) * 4),
      rw (m, ones, len) refl,
      λ below word. rw (ones, top) refl,
    )
