-- ===== src/Base/Fields.antt =====
-- A field of `w` bits at bit `s` of a register: cleared by `&`, written by `|`.
use Prim.Native.Nat.{ℕ, ◌+◌, ◌-◌, ◌*◌, ◌/◌, ◌%◌, ◌^◌, ◌<◌, bit_and, bit_or}
use mathlib.Core.Path.{◌≡◌, sym, ap, ap₂, ◌∙◌}
use native.Mathlib.Nat.{one-le-pow, div-add-mod', mod-lt, mod-mod, mod-eq_of_lt, add-zero}
use native.Mathlib.Omega.{arith}
use rustsbi_d.Base.Bits.{
  bit_and_split, bit_or_split, bit_and_high, bit_and_mask, bit_or_sum, bit_or-zero,
}

-- The bits outside the field: `2 ^ (s + w + n) - 1 - ((2 ^ w - 1) << s)`, written by its parts.
abbrev pub outside_mask : ℕ → ℕ → ℕ → ℕ
outside_mask s w n = (2 ^ n - 1) * 2 ^ w * 2 ^ s + (2 ^ s - 1)

-- The register whose field is `m` and whose other bits are those of `x`.
abbrev pub with_field : ℕ → ℕ → ℕ → ℕ → ℕ
with_field s w m x = (x / 2 ^ s / 2 ^ w * 2 ^ w + m) * 2 ^ s + x % 2 ^ s

pub clear_field :
    (s w n x : ℕ) → x / 2 ^ s / 2 ^ w < 2 ^ n → bit_and x (outside_mask s w n) ≡ with_field s w 0 x
clear_field s w n x h =
    ap (λ t. bit_and t (outside_mask s w n)) (sym (div-add-mod' x (2 ^ s)))
    ∙ bit_and_split s (x / 2 ^ s) ((2 ^ n - 1) * 2 ^ w) (x % 2 ^ s) (2 ^ s - 1)
        (mod-lt x (one-le-pow s 2 (omega arith))) (omega (arith, one-le-pow s 2))
    ∙ ap₂ (λ q r. q * 2 ^ s + r) high low
  where
    high : bit_and (x / 2 ^ s) ((2 ^ n - 1) * 2 ^ w) ≡ x / 2 ^ s / 2 ^ w * 2 ^ w + 0
    high =
        bit_and_high w (x / 2 ^ s) (2 ^ n - 1)
        ∙ ap (λ t. t * 2 ^ w) (bit_and_mask n (x / 2 ^ s / 2 ^ w) ∙ mod-eq_of_lt h)
        ∙ sym (add-zero _)

    low : bit_and (x % 2 ^ s) (2 ^ s - 1) ≡ x % 2 ^ s
    low = bit_and_mask s (x % 2 ^ s) ∙ mod-mod x (2 ^ s)

pub write_field :
    (s w m x : ℕ) → m < 2 ^ w → bit_or (with_field s w 0 x) (m * 2 ^ s) ≡ with_field s w m x
write_field s w m x h = ground (
  arith,
  one-le-pow s 2,
  bit_or_split s (x / 2 ^ s / 2 ^ w * 2 ^ w) m (x % 2 ^ s) 0,
  bit_or_sum w (x / 2 ^ s / 2 ^ w) m,
  bit_or-zero (x % 2 ^ s),
)

-- Clear, then write.
pub set_field :
    (s w n m x : ℕ)
    → x / 2 ^ s / 2 ^ w < 2 ^ n
    → m < 2 ^ w
    → bit_or (bit_and x (outside_mask s w n)) (m * 2 ^ s) ≡ with_field s w m x
set_field s w n m x h k =
    ap (λ t. bit_or t (m * 2 ^ s)) (clear_field s w n x h) ∙ write_field s w m x k
