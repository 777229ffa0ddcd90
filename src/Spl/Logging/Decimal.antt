-- ===== src/Spl/Logging/Decimal.antt =====
-- The decimal operator of the log, beside the reading of decimal text.
use rustsbi_d.Base.{
  ℕ, zero, suc, ◌+◌, ◌-◌, ◌*◌, ◌/◌, ◌%◌, ◌^◌, ◌≤◌, ◌<◌, ◌≡◌, refl, sym, ap, ◌∙◌, ◌≢◌, ◌⊎◌, inl, inr,
  some, List, [], ◌∷◌, arith, ◌>>=◌,
}
use native.Mathlib.Nat.{
  div-lt_iff_lt-mul, mod-eq_of_lt, div-add-mod, le-div_iff_mul-le, pow-suc, one-le-pow,
  pow-le-pow_right, mod-lt,
}
use native.Mathlib.Decide.{dec_lt}
use rustsbi_d.Spl.Logging.{scale, emit, show_usize}

-- The number that a text of decimal digits stands for, after `acc`.
abbrev pub parse : ℕ → List ℕ → ℕ
parse acc [] = acc
parse acc (c ∷ cs) = parse (acc * 10 + (c - b'0')) cs

abbrev pub AllDigits : List ℕ → Type 0
AllDigits [] = Unit {0}
AllDigits (c ∷ cs) = (b'0' ≤ c) × (c ≤ b'9') × AllDigits cs

scale_stop : (fuel bits rhs : ℕ) → rhs < bits → scale (suc fuel) bits rhs ≡ some bits
unfolding scale
scale_stop fuel bits rhs h = ground arith

scale_go :
    (fuel bits rhs : ℕ)
    → bits ≤ rhs
    → bits * 10 < 2 ^ 64
    → scale (suc fuel) bits rhs ≡ scale fuel (bits * 10) rhs
unfolding scale
scale_go fuel bits rhs h k = ground (arith, mod-eq_of_lt k)

small_exponent : (j rhs : ℕ) → rhs < 10 ^ 19 → 10 ^ j ≤ rhs → j < 19
small_exponent j rhs h le = elim (dec_lt j 19) [
  | yes p ↦ p
  | no np ↦
      absurd (omega (arith, pow-le-pow_right {n = 10} (omega arith) {i = 19} {j = j} (omega arith)))
]

-- The loop ends at the power of ten just above the number.
scale_lem :
    (fuel j rhs : ℕ)
    → 20 ≤ fuel + j
    → rhs < 10 ^ 19
    → 10 ^ j ≤ rhs * 10
    → (k : ℕ) × (scale fuel (10 ^ j) rhs ≡ some (10 ^ k)) × (rhs < 10 ^ k) × (10 ^ k ≤ rhs * 10)
scale_lem zero j rhs h small low =
    absurd (omega (arith, pow-le-pow_right {n = 10} (omega arith) {i = 20} {j = j} (omega arith)))
scale_lem (suc fuel) j rhs h small low = elim (dec_lt rhs (10 ^ j)) [
  | yes p ↦ (j, scale_stop fuel (10 ^ j) rhs p, p, low)
  | no np ↦
      let le : 10 ^ j ≤ rhs = omega arith in
      let small_j = small_exponent j rhs small le in
      let next : 10 ^ suc j ≡ 10 ^ j * 10 = pow-suc 10 j in
      let top = pow-le-pow_right {n = 10} (omega arith) {i = suc j} {j = 19} small_j in
      let (k, e, a, b) = scale_lem fuel (suc j) rhs (omega arith) small (omega (arith, next)) in
      (
        k,
        scale_go fuel (10 ^ j) rhs le (omega (arith, next, top))
            ∙ ap (λ t. scale fuel t rhs) (sym next)
            ∙ e,
        a,
        b,
      )
]

emit_end : (fuel rhs : ℕ) → emit (suc fuel) 0 rhs ≡ some []
unfolding emit
emit_end fuel rhs = refl

emit_go :
    (fuel bits rhs : ℕ) {cs : List ℕ}
    → 0 < bits
    → rhs / bits < 10
    → emit fuel (bits / 10) (rhs % bits) ≡ some cs
    → emit (suc fuel) bits rhs ≡ some ((rhs / bits + b'0') ∷ cs)
unfolding emit
emit_go fuel bits rhs h d e = ground (arith, e)

-- From a power of ten above a tenth of the number on, the loop prints its digits.
emit_lem :
    (k fuel rhs acc : ℕ)
    → k + 2 ≤ fuel
    → rhs < 10 ^ suc k
    → (cs : List ℕ) × (emit fuel (10 ^ k) rhs ≡ some ((rhs / 10 ^ k + b'0') ∷ cs))
      × (rhs / 10 ^ k < 10)
      × (parse acc ((rhs / 10 ^ k + b'0') ∷ cs) ≡ acc * 10 ^ suc k + rhs)
      × AllDigits cs
emit_lem k zero rhs acc h lt = absurd (omega arith)
emit_lem k (suc zero) rhs acc h lt = absurd (omega arith)
emit_lem zero (suc (suc fuel)) rhs acc h lt = (
  [],
  emit_go (suc fuel) 1 rhs (omega arith) (omega arith) (emit_end fuel (rhs % 1)),
  omega arith,
  omega arith,
  tt,
)
emit_lem (suc k) (suc (suc fuel)) rhs acc h lt =
    let bits = 10 ^ suc k in
    let pos : 0 < bits = one-le-pow (suc k) 10 (omega arith) in
    let next : 10 ^ suc (suc k) ≡ bits * 10 = pow-suc 10 (suc k) in
    let q : rhs / bits < 10 = (div-lt_iff_lt-mul pos).1 (omega (arith, next)) in
    let tenth : bits / 10 ≡ 10 ^ k = omega (arith, pow-suc 10 k) in
    let (cs, e, d, p, all) =
      emit_lem k (suc fuel) (rhs % bits) (acc * 10 + rhs / bits) (omega arith) (mod-lt rhs pos) in
    (
      (rhs % bits / 10 ^ k + b'0') ∷ cs,
      emit_go (suc fuel) bits rhs pos q (ap (λ t. emit (suc fuel) t (rhs % bits)) tenth ∙ e),
      q,
      ap (λ t. parse t ((rhs % bits / 10 ^ k + b'0') ∷ cs))
            {x = acc * 10 + (rhs / bits + b'0' - b'0')} {y = acc * 10 + rhs / bits} (omega arith)
          ∙ p
          ∙ omega (arith, ap (λ (t : ℕ). acc * t) next, div-add-mod rhs bits),
      (omega arith, omega arith, all),
    )

emit_all :
    (k rhs : ℕ)
    → 0 < rhs
    → rhs < 10 ^ 19
    → rhs < 10 ^ k
    → 10 ^ k ≤ rhs * 10
    → (c : ℕ) × (cs : List ℕ) × (emit 21 (10 ^ k / 10) rhs ≡ some (c ∷ cs))
      × (parse 0 (c ∷ cs) ≡ rhs)
      × AllDigits (c ∷ cs)
      × ((rhs ≡ 0) ⊎ (c ≢ b'0'))
emit_all zero rhs pos small above low = absurd (omega arith)
emit_all (suc k) rhs pos small above low =
    let next : 10 ^ suc k ≡ 10 ^ k * 10 = pow-suc 10 k in
    let le : 10 ^ k ≤ rhs = omega (arith, next) in
    let (cs, e, d, p, all) =
      emit_lem k 21 rhs 0 (omega (arith, small_exponent k rhs small le)) above in
    let q : 1 ≤ rhs / 10 ^ k =
      (le-div_iff_mul-le (one-le-pow k 10 (omega arith))).1 (omega arith) in
    (
      rhs / 10 ^ k + b'0',
      cs,
      ap (λ t. emit 21 t rhs) {y = 10 ^ k} (omega (arith, next)) ∙ e,
      p ∙ omega arith,
      (omega arith, omega arith, all),
      inr (omega arith),
    )

show_usize-suc :
    (n : ℕ) → show_usize 21 (suc n) ≡ (scale 21 1 (suc n) >>= λ bits. emit 21 (bits / 10) (suc n))
unfolding show_usize
show_usize-suc n = ground arith

-- A number below 10^19 prints as decimal digits that read back as the number, with no zero in front
-- unless the number is 0; 21 rounds are enough for both loops.
pub show_usize-parse :
    (rhs : ℕ)
    → rhs < 10 ^ 19
    → (c : ℕ) × (cs : List ℕ) × (show_usize 21 rhs ≡ some (c ∷ cs))
      × (parse 0 (c ∷ cs) ≡ rhs)
      × AllDigits (c ∷ cs)
      × ((rhs ≡ 0) ⊎ (c ≢ b'0'))
unfolding show_usize
show_usize-parse zero h = (b'0', [], refl, refl, (omega arith, omega arith, tt), inl refl)
show_usize-parse (suc n) h =
    let rhs = suc n in
    let (k, e, above, low) = scale_lem 21 0 rhs (omega arith) h (omega arith) in
    let (c, cs, printed, read, digits, first) = emit_all k rhs (omega arith) h above low in
    (
      c,
      cs,
      show_usize-suc n ∙ ap (λ o. o >>= λ bits. emit 21 (bits / 10) rhs) e ∙ printed,
      read,
      digits,
      first,
    )
