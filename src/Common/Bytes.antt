-- ===== src/Common/Bytes.antt =====
-- common/src/lib.rs, `AsBinary`: a `repr(C)` value seen as bytes. Every field that crosses
-- a stage is a little-endian u32; `le_bytes` writes one and `le_word` reads one.
use rustsbi_d.Base.{ℕ, ◌+◌, ◌*◌, ◌/◌, ◌^◌, ◌<◌, ◌≡◌, List, [], ◌∷◌, arith, u8}

abbrev pub le_bytes : ℕ → List ℕ
le_bytes x = u8 x ∷ u8 (x / 2 ^ 8) ∷ u8 (x / 2 ^ 16) ∷ u8 (x / 2 ^ 24) ∷ []

abbrev pub le_word : ℕ → ℕ → ℕ → ℕ → ℕ
le_word a b c d = a + b * 2 ^ 8 + c * 2 ^ 16 + d * 2 ^ 24

-- A slice of bytes read as u32 words, as `slice::from_raw_parts` with a cast does; bytes past
-- the last whole word are not read.
unfoldable pub as_u32s : List ℕ → List ℕ
as_u32s (a ∷ b ∷ c ∷ d ∷ rest) = le_word a b c d ∷ as_u32s rest
as_u32s _ = []

pub word_of_bytes :
    (x : ℕ) → x < 2 ^ 32 → le_word (u8 x) (u8 (x / 2 ^ 8)) (u8 (x / 2 ^ 16)) (u8 (x / 2 ^ 24)) ≡ x
word_of_bytes x h = omega arith
