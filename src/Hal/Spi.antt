-- ===== src/Hal/Spi.antt =====
-- hal/src/spi.rs: the clock dividers that `Spi::new` picks.
pub mod Divider
pub mod New
use mathlib.Core.Option
use rustsbi_d.Base.{
  ℕ, zero, suc, ◌+◌, ◌-◌, ◌*◌, ◌/◌, ◌%◌, ◌^◌, ◌≤◌, ◌<◌, min, max, bit_and, bit_or, ◌≡◌, refl, sym,
  ap, ◌∙◌, fun_ext, ◌≢◌, ◌↔◌, ◌⊎◌, inl, inr, Bool, true, false, not, ◌&&◌, ◌||◌, Option, none, some,
  List, [], ◌∷◌, ◌++◌, map, arith, ltb, leb, ◌==◌, if◌then◌else◌, Bool-cases, Option-cases, ltb→lt,
  lt→ltb, le→ltb_false, ==_iff, length, get_elem?, get_or, set, take, drop, replicate,
  length-append, length-set, get_or-set_self, get_or-set_ne, length-replicate, u8, u32, u64,
  u32_max, u64_max, ◌<<<◌, ◌>>>◌, complement, ◌>>=◌,
}

abbrev pub abs_diff : ℕ → ℕ → ℕ
abs_diff a b = if ltb a b then b - a else a - b

pub data Factor : Type 0 where
  n1 n2 n4 n8 : Factor

-- The variables `err`, `best_n` and `best_m` of the search.
pub record Best : Type 0 where
  pub err : ℕ
  pub n : ℕ
  pub m : ℕ

module _ (psi freq : ℕ) where
  abbrev pub actual : ℕ → ℕ → ℕ
  actual n m = psi / n / m

  -- The body of the inner loop.
  abbrev pub try : ℕ → ℕ → Best → Best
  try m n b =
      let d = abs_diff (actual n m) freq in
      if ltb d b.err then record { err = d; n = n; m = m } else b

  -- `for n in [1, 2, 4, 8]`
  unfoldable pub try_all : ℕ → Best → Best
  try_all m b = try m 8 (try m 4 (try m 2 (try m 1 b)))

  -- `for m in 1u8..=16`, with the rounds left and the current `m`.
  unfoldable pub search_from : ℕ → ℕ → Best → Best
  search_from zero m b = b
  search_from (suc rounds) m b = search_from rounds (m + 1) (try_all m b)

  unfoldable pub best : Best
  unfolding search_from try_all
  best = search_from 16 1 (record { err = psi; n = 0; m = 0 })

abbrev pub factor_of : ℕ → Option Factor
factor_of n =
    if n == 1
    then some n1
    else if n == 2
    then some n2
    else if n == 4
    then some n4
    else if n == 8
    then some n8
    else none

-- The factors that go to the clock register; `none` is the `unreachable!`.
unfoldable pub dividers : ℕ → ℕ → Option (Factor × ℕ)
dividers psi freq = let b = best psi freq in Option.map (λ f. (f, b.m - 1)) (factor_of b.n)
