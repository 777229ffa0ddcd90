-- ===== src/Common/Arrow.antt =====
-- common/src/arrow.rs: the arrow that walks in the idle loops. The callback `print` is
-- the list of bytes that it was given, in order.
pub mod Screen
pub mod Laws
pub mod Walk
use rustsbi_d.Base.{
  ℕ, zero, suc, ◌+◌, ◌-◌, ◌*◌, ◌/◌, ◌%◌, ◌^◌, ◌≤◌, ◌<◌, min, max, bit_and, bit_or, ◌≡◌, refl, sym,
  ap, ◌∙◌, fun_ext, ◌≢◌, ◌↔◌, ◌⊎◌, inl, inr, Bool, true, false, not, ◌&&◌, ◌||◌, Option, none, some,
  List, [], ◌∷◌, ◌++◌, map, arith, ltb, leb, ◌==◌, if◌then◌else◌, Bool-cases, Option-cases, ltb→lt,
  lt→ltb, le→ltb_false, ==_iff, length, get_elem?, get_or, set, take, drop, replicate,
  length-append, length-set, get_or-set_self, get_or-set_ne, length-replicate, u8, u32, u64,
  u32_max, u64_max, ◌<<<◌, ◌>>>◌, complement,
}

pub record Arrow : Type 0 where
  pub len : ℕ
  pub pos : ℕ
  pub dir : Bool

abbrev pub bs : ℕ
bs = 8

abbrev pub space : ℕ
space = b' '

abbrev pub bar : ℕ
bar = b'|'

-- The state and what was printed. `len` is at least 4 at each call, so that no subtraction wraps.
unfoldable pub init : ℕ → Arrow × List ℕ
init len = (
  record { len = len - 4; pos = 0; dir = true },
  bar ∷ (replicate (len - 3 - 1) space ++ (b'<' ∷ b'<' ∷ bar ∷ [])),
)

abbrev pub head : Bool → ℕ
head true = b'>'
head false = b'<'

-- The step of the state and the bytes of its `print`: a turn, a step right or a step left.
unfoldable pub move : Arrow → Arrow × List ℕ
move a =
    if a.pos == (if a.dir then a.len else 0)
    then (record a { dir = not a.dir }, bs ∷ bs ∷ [])
    else if a.dir
    then (record a { pos = a.pos + 1 }, bs ∷ bs ∷ space ∷ [])
    else (record a { pos = a.pos - 1 }, bs ∷ space ∷ bs ∷ bs ∷ bs ∷ [])

unfoldable pub next : Arrow → Arrow × List ℕ
unfolding move
next a =
    let (b, moved) = move a in
    (
      b,
      replicate (a.len - a.pos + 1) bs
          ++ (moved ++ (head b.dir ∷ head b.dir ∷ (replicate (b.len - b.pos) space ++ (bar ∷ [])))),
    )
