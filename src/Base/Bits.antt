-- ===== src/Base/Bits.antt =====
-- `&` and `|` at variables: both act field by field, a mask keeps a field, and `|` of disjoint
-- fields is a sum.
use Prim.Native.Nat.{
  ℕ, zero, suc, ◌+◌, ◌-◌, ◌*◌, ◌/◌, ◌%◌, ◌^◌, ◌≤◌, ◌<◌, min, max, digits, bit_and, bit_or,
  bit_and-bitwise, bit_or-bitwise,
}
use mathlib.Core.Path.{◌≡◌, refl, ap}
use native.Mathlib.Nat.{pow-suc, one-le-pow}
use native.Mathlib.Omega.{arith}

-- The number of rounds given to `digits` does not matter once it covers the first operand.
enough :
    (z : ℕ → ℕ) (f : ℕ → ℕ → ℕ) (k l x y : ℕ) → x ≤ k → x ≤ l → digits z f k x y ≡ digits z f l x y
enough z f zero zero x y hk hl = refl
enough z f zero (suc l) zero y hk hl = refl
enough z f (suc k) zero zero y hk hl = refl
enough z f (suc k) (suc l) zero y hk hl = refl
enough z f zero l (suc x) y hk hl = absurd (omega arith)
enough z f (suc k) zero (suc x) y hk hl = absurd (omega arith)
enough z f (suc k) (suc l) (suc x) y hk hl =
    rw (enough z f k l (suc x / 2) (y / 2) (omega arith) (omega arith))

zero-and : (b : ℕ) → bit_and 0 b ≡ 0
zero-and b = bit_and-bitwise 0 b

zero-or : (b : ℕ) → bit_or 0 b ≡ b
zero-or b = bit_or-bitwise 0 b

pub and_low : (a b : ℕ) → bit_and a b ≡ bit_and (a / 2) (b / 2) * 2 + min (a % 2) (b % 2)
and_low zero b = omega (arith, zero-and b, zero-and (b / 2))
and_low (suc a) b = omega (
  arith,
  bit_and-bitwise (suc a) b,
  bit_and-bitwise (suc a / 2) (b / 2),
  enough (λ y. zero) min a (suc a / 2) (suc a / 2) (b / 2) (omega arith) (omega arith),
)

pub or_low : (a b : ℕ) → bit_or a b ≡ bit_or (a / 2) (b / 2) * 2 + max (a % 2) (b % 2)
or_low zero b = omega (arith, zero-or b, zero-or (b / 2))
or_low (suc a) b = omega (
  arith,
  bit_or-bitwise (suc a) b,
  bit_or-bitwise (suc a / 2) (b / 2),
  enough (λ y. y) max a (suc a / 2) (suc a / 2) (b / 2) (omega arith) (omega arith),
)

and-zero_upto : (k a : ℕ) → a ≤ k → bit_and a 0 ≡ 0
and-zero_upto k zero h = zero-and 0
and-zero_upto zero (suc a) h = absurd (omega arith)
and-zero_upto (suc k) (suc a) h =
    omega (arith, and_low (suc a) 0, and-zero_upto k (suc a / 2) (omega arith))

or-zero_upto : (k a : ℕ) → a ≤ k → bit_or a 0 ≡ a
or-zero_upto k zero h = zero-or 0
or-zero_upto zero (suc a) h = absurd (omega arith)
or-zero_upto (suc k) (suc a) h =
    omega (arith, or_low (suc a) 0, or-zero_upto k (suc a / 2) (omega arith))

pub bit_and-zero : (a : ℕ) → bit_and a 0 ≡ 0
bit_and-zero a = and-zero_upto a a (omega arith)

pub bit_or-zero : (a : ℕ) → bit_or a 0 ≡ a
bit_or-zero a = or-zero_upto a a (omega arith)

pub zero-bit_and : (b : ℕ) → bit_and 0 b ≡ 0
zero-bit_and b = zero-and b

pub zero-bit_or : (b : ℕ) → bit_or 0 b ≡ b
zero-bit_or b = zero-or b

times_pow-suc : (a k : ℕ) → a * 2 ^ suc k ≡ a * 2 ^ k * 2
times_pow-suc a k = omega (arith, ap (λ (t : ℕ). a * t) (pow-suc 2 k))

-- `&` of two numbers, each split at bit `k`, acts on the high parts and the low parts apart.
pub bit_and_split :
    (k a b r t : ℕ)
    → r < 2 ^ k
    → t < 2 ^ k
    → bit_and (a * 2 ^ k + r) (b * 2 ^ k + t) ≡ bit_and a b * 2 ^ k + bit_and r t
bit_and_split zero a b r t hr ht = ground (arith, zero-and 0)
bit_and_split (suc k) a b r t hr ht = ground (
  arith,
  and_low (a * 2 ^ suc k + r) (b * 2 ^ suc k + t),
  and_low r t,
  pow-suc 2 k,
  times_pow-suc a k,
  times_pow-suc b k,
  times_pow-suc (bit_and a b) k,
  bit_and_split k a b (r / 2) (t / 2) (omega (arith, pow-suc 2 k)) (omega (arith, pow-suc 2 k)),
)

-- `|` likewise.
pub bit_or_split :
    (k a b r t : ℕ)
    → r < 2 ^ k
    → t < 2 ^ k
    → bit_or (a * 2 ^ k + r) (b * 2 ^ k + t) ≡ bit_or a b * 2 ^ k + bit_or r t
bit_or_split zero a b r t hr ht = ground (arith, zero-or 0)
bit_or_split (suc k) a b r t hr ht = ground (
  arith,
  or_low (a * 2 ^ suc k + r) (b * 2 ^ suc k + t),
  or_low r t,
  pow-suc 2 k,
  times_pow-suc a k,
  times_pow-suc b k,
  times_pow-suc (bit_or a b) k,
  bit_or_split k a b (r / 2) (t / 2) (omega (arith, pow-suc 2 k)) (omega (arith, pow-suc 2 k)),
)

-- A mask of `k` ones keeps a number below `2 ^ k`.
ones_keep : (k r : ℕ) → r < 2 ^ k → bit_and r (2 ^ k - 1) ≡ r
ones_keep zero zero h = zero-and 0
ones_keep zero (suc r) h = absurd (omega arith)
ones_keep (suc k) r h = ground (
  arith,
  and_low r (2 ^ suc k - 1),
  pow-suc 2 k,
  one-le-pow k 2,
  ones_keep k (r / 2) (omega (arith, pow-suc 2 k)),
)

-- `x & (2 ^ k - 1)` is the remainder.
pub bit_and_mask : (k x : ℕ) → bit_and x (2 ^ k - 1) ≡ x % 2 ^ k
bit_and_mask k x = ground (
  arith,
  one-le-pow k 2,
  bit_and_split k (x / 2 ^ k) 0 (x % 2 ^ k) (2 ^ k - 1),
  bit_and-zero (x / 2 ^ k),
  ones_keep k (x % 2 ^ k),
)

-- `(q << k) | r` is a sum where `r` fits below bit `k`.
pub bit_or_sum : (k q r : ℕ) → r < 2 ^ k → bit_or (q * 2 ^ k) r ≡ q * 2 ^ k + r
bit_or_sum k q r h =
    ground (arith, one-le-pow k 2, bit_or_split k q 0 0 r, bit_or-zero q, zero-or r)

-- `x & (m << k)` clears the low `k` bits and masks the rest.
pub bit_and_high : (k x m : ℕ) → bit_and x (m * 2 ^ k) ≡ bit_and (x / 2 ^ k) m * 2 ^ k
bit_and_high k x m =
    ground
      (arith, one-le-pow k 2, bit_and_split k (x / 2 ^ k) m (x % 2 ^ k) 0, bit_and-zero (x % 2 ^ k))
