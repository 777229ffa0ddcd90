-- ===== src/Spl/Logging/Hexadecimal.antt =====
-- The hexadecimal operator of the log, beside the reading of hexadecimal text.
use rustsbi_d.Base.{
  refl, ◌≢◌, ℕ, zero, suc, ◌+◌, ◌-◌, ◌*◌, ◌/◌, ◌%◌, ◌^◌, ◌<◌, bit_and, ◌≡◌, sym, ap, ◌∙◌, List, [],
  ◌∷◌, map, arith, ltb, if◌then◌else◌, u8, ◌>>>◌,
}
use native.Mathlib.Nat.{
  pow-suc, one-le-pow, div-add-mod, mod-lt, mod-eq_of_lt, mul-add-mod_self_left, mul-le-mul_left,
}
use rustsbi_d.Base.Bits.{bit_and_mask}
use rustsbi_d.Spl.Logging.{show_num, skip_zeros, hex_char, hex_digits}

-- The digit that a character stands for, and the number that a text of digits stands for.
abbrev pub hex_value : ℕ → ℕ
hex_value c = if ltb c b'a' then c - b'0' else c + 10 - b'a'

abbrev pub parse : ℕ → List ℕ → ℕ
parse acc [] = acc
parse acc (c ∷ cs) = parse (acc * 16 + hex_value c) cs

-- A digit's character stands for the digit.
hex_value-hex_char : (d : ℕ) → d < 16 → hex_value (hex_char d) ≡ d
hex_value-hex_char d h = ground arith

digit : (n num : ℕ) → u8 (bit_and (num >>> (n * 4)) 0xf) ≡ num / 2 ^ (n * 4) % 16
digit n num = omega (arith, bit_and_mask 4 (num / 2 ^ (n * 4)))

sixteen : (m : ℕ) → 2 ^ (m + 4) ≡ 2 ^ m * 16
sixteen m =
    ap (λ t. 2 ^ t) {y = suc (suc (suc (suc m)))} (omega arith)
    ∙ omega (
      arith,
      pow-suc 2 m,
      pow-suc 2 (suc m),
      pow-suc 2 (suc (suc m)),
      pow-suc 2 (suc (suc (suc m))),
    )

-- The digit above the bits below `q`.
next_digit : (num q : ℕ) → 0 < q → num % (q * 16) ≡ q * (num / q % 16) + num % q
next_digit num q pos =
    let d = num / q in
    let low : q * (d % 16) + num % q < q * 16 =
      omega (arith, mul-le-mul_left {m = suc (d % 16)} {n = 16} q (omega arith), mod-lt num pos) in
    ap (λ t. t % (q * 16)) {y = q * 16 * (d / 16) + (q * (d % 16) + num % q)}
      (sym (div-add-mod num q) ∙ ap (λ t. q * t + num % q) (sym (div-add-mod d 16)) ∙ grind arith)
    ∙ mul-add-mod_self_left (q * 16) (d / 16) (q * (d % 16) + num % q)
    ∙ mod-eq_of_lt low

shuffle : (a d q r : ℕ) → (a * 16 + d) * q + r ≡ a * (q * 16) + (q * d + r)
shuffle a d q r = grind arith

-- All the digits, zeros in front included.
parse-hex_digits :
    (n num acc : ℕ)
    → parse acc (map hex_char (hex_digits n num)) ≡ acc * 2 ^ (n * 4) + num % 2 ^ (n * 4)
parse-hex_digits zero num acc = omega arith
parse-hex_digits (suc n) num acc =
    let q = 2 ^ (n * 4) in
    let pos : 0 < q = one-le-pow (n * 4) 2 (omega arith) in
    let d = num / q % 16 in
    let next : 2 ^ (suc n * 4) ≡ q * 16 =
      ap (λ t. 2 ^ t) {x = suc n * 4} {y = n * 4 + 4} (omega arith) ∙ sixteen (n * 4) in
    let split = next_digit num q pos in
    ap (λ t. parse (acc * 16 + hex_value (hex_char t)) (map hex_char (hex_digits n num)))
      (digit n num)
    ∙ ap (λ t. parse (acc * 16 + t) (map hex_char (hex_digits n num)))
        (hex_value-hex_char d (omega arith))
    ∙ parse-hex_digits n num (acc * 16 + d)
    ∙ shuffle acc d q (num % q)
    ∙ ap (λ t. acc * (q * 16) + t) (sym split)
    ∙ ap (λ t. acc * t + num % t) (sym next)

skip_zeros-suc : (d : ℕ) (ds : List ℕ) → skip_zeros (suc d ∷ ds) ≡ suc d ∷ ds
skip_zeros-suc d ds = ground arith

-- A zero in front leaves the number as it is.
parse-skip_zeros :
    (ds : List ℕ) → parse 0 (map hex_char (skip_zeros ds)) ≡ parse 0 (map hex_char ds)
parse-skip_zeros [] = refl
parse-skip_zeros (zero ∷ ds) = parse-skip_zeros ds
parse-skip_zeros (suc d ∷ ds) = ap (λ l. parse 0 (map hex_char l)) (skip_zeros-suc d ds)

abbrev pub NoZeroFirst : List ℕ → Type 0
NoZeroFirst [] = Unit {0}
NoZeroFirst (c ∷ cs) = c ≢ b'0'

skip_zeros-NoZeroFirst : (ds : List ℕ) → NoZeroFirst (map hex_char (skip_zeros ds))
skip_zeros-NoZeroFirst [] = tt
skip_zeros-NoZeroFirst (zero ∷ ds) = skip_zeros-NoZeroFirst ds
skip_zeros-NoZeroFirst (suc d ∷ ds) = ground arith

show_num-suc : (n : ℕ) → show_num (suc n) ≡ map hex_char (skip_zeros (hex_digits 16 (suc n)))
unfolding show_num
show_num-suc n = ground arith

-- A number of 64 bits other than 0 prints as hexadecimal digits that read back as the number, with no
-- zero in front.
pub show_num-parse :
    (n : ℕ) → suc n < 2 ^ 64 → (parse 0 (show_num (suc n)) ≡ suc n) × NoZeroFirst (show_num (suc n))
show_num-parse n h = rw (show_num-suc n) (
  parse-skip_zeros (hex_digits 16 (suc n))
      ∙ parse-hex_digits 16 (suc n) 0
      ∙ (ap (λ t. 0 + t) {x = suc n % 2 ^ 64} {y = suc n} (mod-eq_of_lt h) ∙ omega arith),
  skip_zeros-NoZeroFirst (hex_digits 16 (suc n)),
)
