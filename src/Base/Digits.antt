-- ===== src/Base/Digits.antt =====
-- The bits of a word one by one, and its four-bit digits.
use rustsbi_d.Base.{
  ◌%◌, sym, bit_and, ℕ, zero, suc, ◌+◌, ◌-◌, ◌*◌, ◌/◌, ◌%◌, ◌^◌, ◌≤◌, ◌<◌, min, max, bit_and,
  bit_or, ◌≡◌, refl, sym, ap, ◌∙◌, arith, ◌==◌, if◌then◌else◌, complement,
}
use native.Mathlib.Nat.{pow-suc, pow-succ', one-le-pow, div-div-eq-div-mul}
use rustsbi_d.Base.Bits.{and_low, or_low, bit_and_high, bit_and_mask}
use rustsbi_d.Base.Fields.{set_field}

abbrev pub bit : ℕ → ℕ → ℕ
bit zero x = x % 2
bit (suc i) x = bit i (x / 2)

pub bit-le-one : (i x : ℕ) → bit i x ≤ 1
bit-le-one zero x = omega arith
bit-le-one (suc i) x = bit-le-one i (x / 2)

pub bit-and : (i x y : ℕ) → bit i (bit_and x y) ≡ min (bit i x) (bit i y)
bit-and zero x y = omega (arith, and_low x y)
bit-and (suc i) x y =
    ap (bit i) {y = bit_and (x / 2) (y / 2)} (omega (arith, and_low x y))
    ∙ bit-and i (x / 2) (y / 2)

pub bit-or : (i x y : ℕ) → bit i (bit_or x y) ≡ max (bit i x) (bit i y)
bit-or zero x y = omega (arith, or_low x y)
bit-or (suc i) x y =
    ap (bit i) {y = bit_or (x / 2) (y / 2)} (omega (arith, or_low x y)) ∙ bit-or i (x / 2) (y / 2)

bit-zero : (i : ℕ) → bit i 0 ≡ 0
bit-zero zero = refl
bit-zero (suc i) = bit-zero i

pub bit-pow : (i n : ℕ) → bit i (2 ^ n) ≡ (if i == n then 1 else 0)
bit-pow zero zero = refl
bit-pow zero (suc n) = ground (arith, pow-suc 2 n)
bit-pow (suc i) zero = bit-zero i ∙ ground arith
bit-pow (suc i) (suc n) =
    ap (bit i) {y = 2 ^ n} (omega (arith, pow-suc 2 n)) ∙ bit-pow i n ∙ ground arith

-- The complement at width `w` turns each of the `w` bits over.
pub bit-complement : (w i x : ℕ) → i < w → x < 2 ^ w → bit i (complement w x) ≡ 1 - bit i x
bit-complement zero i x h k = absurd (omega arith)
bit-complement (suc w) zero x h k = omega (arith, pow-suc 2 w)
bit-complement (suc w) (suc i) x h k =
    ap (bit i) {y = complement w (x / 2)} (omega (arith, pow-suc 2 w, one-le-pow w 2))
    ∙ bit-complement w i (x / 2) (omega arith) (omega (arith, pow-suc 2 w))

abbrev pub nibble : ℕ → ℕ → ℕ
nibble zero x = x % 16
nibble (suc i) x = nibble i (x / 16)

abbrev pub with_nibble : ℕ → ℕ → ℕ → ℕ
with_nibble zero m x = x / 16 * 16 + m
with_nibble (suc i) m x = with_nibble i m (x / 16) * 16 + x % 16

pub nibble-with_nibble :
    (i j m x : ℕ) → m < 16 → nibble j (with_nibble i m x) ≡ (if j == i then m else nibble j x)
nibble-with_nibble zero zero m x h = omega arith
nibble-with_nibble zero (suc j) m x h = ap (nibble j) {y = x / 16} (omega arith) ∙ ground arith
nibble-with_nibble (suc i) zero m x h = ground arith
nibble-with_nibble (suc i) (suc j) m x h =
    ap (nibble j) {y = with_nibble i m (x / 16)} (omega arith)
    ∙ nibble-with_nibble i j m (x / 16) h
    ∙ ground arith

-- Clearing and writing the digit at bit `4 * i` of a 32-bit word.
pub write_nibble :
    (i m x : ℕ)
    → i < 8
    → m < 16
    → x < 2 ^ 32
    → bit_or (bit_and x (complement 32 (15 * 2 ^ (4 * i)))) (m * 2 ^ (4 * i)) ≡ with_nibble i m x
write_nibble zero m x h k l = omega (arith, set_field 0 4 28 m x (omega arith) k)
write_nibble (suc zero) m x h k l = omega (arith, set_field 4 4 24 m x (omega arith) k)
write_nibble (suc (suc zero)) m x h k l = omega (arith, set_field 8 4 20 m x (omega arith) k)
write_nibble (suc (suc (suc zero))) m x h k l = omega (arith, set_field 12 4 16 m x (omega arith) k)
write_nibble (suc (suc (suc (suc zero)))) m x h k l =
    omega (arith, set_field 16 4 12 m x (omega arith) k)
write_nibble (suc (suc (suc (suc (suc zero))))) m x h k l =
    omega (arith, set_field 20 4 8 m x (omega arith) k)
write_nibble (suc (suc (suc (suc (suc (suc zero)))))) m x h k l =
    omega (arith, set_field 24 4 4 m x (omega arith) k)
write_nibble (suc (suc (suc (suc (suc (suc (suc zero))))))) m x h k l =
    omega (arith, set_field 28 4 0 m x (omega arith) k)
write_nibble (suc (suc (suc (suc (suc (suc (suc (suc i)))))))) m x h k l = absurd (omega arith)

-- `x & (1 << n)` tells whether bit `n` is set.
bit-div : (n x : ℕ) → bit n x ≡ x / 2 ^ n % 2
bit-div zero x = omega arith
bit-div (suc n) x =
    bit-div n (x / 2)
    ∙ ap (λ t. t % 2) (div-div-eq-div-mul x 2 (2 ^ n) ∙ ap (λ t. x / t) (sym (pow-succ' 2 n)))

pub test_bit : (n x : ℕ) → (bit_and x (1 * 2 ^ n) == 0) ≡ (bit n x == 0)
test_bit n x =
    ground (arith, bit_and_high n x 1, bit_and_mask 1 (x / 2 ^ n), bit-div n x, one-le-pow n 2)
