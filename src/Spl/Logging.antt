-- ===== src/Spl/Logging.antt =====
-- spl/src/logging.rs: the `<<` operators of `Out`. What a text, a number or a line end prints is a list of
-- bytes; `put` sends one byte to the UART, and `put_all` the bytes of a list in order.
pub mod Decimal
pub mod Hexadecimal
pub mod Uart
use rustsbi_d.Base.{
  ℕ, zero, suc, ◌+◌, ◌-◌, ◌*◌, ◌/◌, ◌%◌, ◌^◌, ◌≤◌, ◌<◌, min, max, bit_and, bit_or, ◌≡◌, refl, sym,
  ap, ◌∙◌, fun_ext, ◌≢◌, ◌↔◌, ◌⊎◌, inl, inr, Bool, true, false, not, ◌&&◌, ◌||◌, Option, none, some,
  List, [], ◌∷◌, ◌++◌, map, arith, ltb, leb, ◌==◌, if◌then◌else◌, Bool-cases, Option-cases, ltb→lt,
  lt→ltb, le→ltb_false, ==_iff, length, get_elem?, get_or, set, take, drop, replicate,
  length-append, length-set, get_or-set_self, get_or-set_ne, length-replicate, u8, u32, u64,
  u32_max, u64_max, ◌<<<◌, ◌>>>◌, complement, ◌>>=◌,
}

module _ {U : Type 0} (is_full : U → Bool × U) (thr_write : ℕ → U → U) where
  -- `Shl<u8>`: waits for room in the FIFO, for `polls` rounds at most.
  unfoldable pub put : ℕ → ℕ → U → Option U
  put zero ch u = none
  put (suc polls) ch u =
      let (full, u') = is_full u in
      let again = put polls ch u' in if full then again else some (thr_write ch u')

  -- `Shl<&str>`
  unfoldable pub put_all : ℕ → List ℕ → U → Option U
  put_all polls [] u = some u
  put_all polls (c ∷ cs) u = put polls c u >>= put_all polls cs

-- `Shl<Endl>`
abbrev pub endl : List ℕ
endl = 13 ∷ 10 ∷ []

-- `while bits <= rhs { bits *= 10 }`, on 64 bits.
unfoldable pub scale : ℕ → ℕ → ℕ → Option ℕ
scale zero bits rhs = none
scale (suc fuel) bits rhs =
    let again = scale fuel (u64 (bits * 10)) rhs in if leb bits rhs then again else some bits

-- `while bits > 0`
unfoldable pub emit : ℕ → ℕ → ℕ → Option (List ℕ)
emit zero bits rhs = none
emit (suc fuel) bits rhs =
    let rest = emit fuel (bits / 10) (rhs % bits) in
    if ltb 0 bits then (rest >>= λ cs. some (u8 (u8 (rhs / bits) + b'0') ∷ cs)) else some []

-- `Shl<usize>`; `fuel` bounds both loops.
unfoldable pub show_usize : ℕ → ℕ → Option (List ℕ)
show_usize fuel rhs =
    if rhs == 0 then some (b'0' ∷ []) else (scale fuel 1 rhs >>= λ bits. emit fuel (bits / 10) rhs)

pub data Hex : Type 0 where
  raw fmt : ℕ → Hex

abbrev pub hex_char : ℕ → ℕ
hex_char x = x + (if ltb x 10 then b'0' else b'a' - 10)

-- `(0..16).rev().map(…)`: the digits from number `n - 1` down to 0.
abbrev pub hex_digits : ℕ → ℕ → List ℕ
hex_digits zero num = []
hex_digits (suc n) num = u8 (bit_and (num >>> (n * 4)) 0xf) ∷ hex_digits n num

abbrev pub skip_zeros : List ℕ → List ℕ
skip_zeros [] = []
skip_zeros (x ∷ xs) = let rest = skip_zeros xs in if x == 0 then rest else x ∷ xs

unfoldable pub show_num : ℕ → List ℕ
show_num num = if num == 0 then b'0' ∷ [] else map hex_char (skip_zeros (hex_digits 16 num))

-- `Shl<Hex>`
unfoldable pub show_hex : Hex → List ℕ
unfolding show_num
show_hex (raw n) = show_num n
show_hex (fmt n) = b'0' ∷ b'x' ∷ show_num n
