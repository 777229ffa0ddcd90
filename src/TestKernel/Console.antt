-- ===== src/TestKernel/Console.antt =====
-- test-kernel/src/console.rs: the UART behind `print!`, and the lines of the log. The name that the crate log
-- gives a level is the parameter `show`.
pub mod Terminal
pub mod Drivers
use rustsbi_d.Base.{
  ℕ, zero, suc, ◌+◌, ◌-◌, ◌*◌, ◌/◌, ◌%◌, ◌^◌, ◌≤◌, ◌<◌, min, max, bit_and, bit_or, ◌≡◌, refl, sym,
  ap, ◌∙◌, fun_ext, ◌≢◌, ◌↔◌, ◌⊎◌, inl, inr, Bool, true, false, not, ◌&&◌, ◌||◌, Option, none, some,
  List, [], ◌∷◌, ◌++◌, map, arith, ltb, leb, ◌==◌, if◌then◌else◌, Bool-cases, Option-cases, ltb→lt,
  lt→ltb, le→ltb_false, ==_iff, length, get_elem?, get_or, set, take, drop, replicate,
  length-append, length-set, get_or-set_self, get_or-set_ne, length-replicate, u8, u32, u64,
  u32_max, u64_max, ◌<<<◌, ◌>>>◌, complement, ◌>>=◌,
}
use rustsbi_d.Hal.Spin.{spin}

module _ {U : Type 0} (is_full : U → Bool × U) (thr_write : ℕ → U → U) where
  unfoldable pub write_str : ℕ → List ℕ → U → Option U
  write_str polls [] u = some u
  write_str polls (ch ∷ s) u = do u1 ← spin is_full polls u; write_str polls s (thr_write ch u1)

-- `log::Level`
pub data Level : Type 0 where
  error warn info debug trace : Level

abbrev pub color_code : Level → List ℕ
color_code error = b'3' ∷ b'1' ∷ []
color_code warn = b'9' ∷ b'3' ∷ []
color_code info = b'3' ∷ b'4' ∷ []
color_code debug = b'3' ∷ b'2' ∷ []
color_code trace = b'9' ∷ b'0' ∷ []

abbrev pub escape : ℕ
escape = 0x1b

-- `{:>5}`
abbrev pub right_5 : List ℕ → List ℕ
right_5 s = replicate (5 - length s) b' ' ++ s

abbrev pub tag : List ℕ → List ℕ → List ℕ
tag name args = b'[' ∷ (right_5 name ++ (b']' ∷ b' ' ∷ args))

-- The line that `log` prints, with the line end of `println!`.
unfoldable pub log : (Level → List ℕ) → Level → List ℕ → List ℕ
log show level args =
    escape
    ∷ b'['
    ∷ (color_code level
        ++ (b'm' ∷ (tag (show level) args ++ (escape ∷ b'[' ∷ b'0' ∷ b'm' ∷ 10 ∷ []))))
