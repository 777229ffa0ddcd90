-- ===== src/Base/Ram.antt =====
-- Memory as a function from an address to a byte, written and read in runs of bytes.
use Prim.Native.Nat.{ℕ, zero, suc, ◌+◌, ◌-◌, ◌≤◌, ◌<◌}
use mathlib.Core.Path.{◌≡◌, refl, ap, ap₂, ◌∙◌}
use mathlib.Core.Logic.{◌⊎◌, inl, inr}
use mathlib.Core.Bool.{◌&&◌}
use mathlib.Core.List.{List, [], ◌∷◌}
use native.Mathlib.Omega.{arith}
use rustsbi_d.Base.Tests.{ltb, leb, if◌then◌else◌, le→leb, lt→ltb}
use rustsbi_d.Base.Lists.{length, get_or}

-- The memory with `bytes` written from `base` on, and the `len` bytes from `base` on.
abbrev pub place : ℕ → List ℕ → (ℕ → ℕ) → ℕ → ℕ
place base bytes mem a =
    if leb base a && ltb a (base + length bytes) then get_or bytes (a - base) 0 else mem a

abbrev pub peek : ℕ → ℕ → (ℕ → ℕ) → List ℕ
peek base zero mem = []
peek base (suc len) mem = mem base ∷ peek (base + 1) len mem

place_in :
    (base i : ℕ) (bytes : List ℕ) (mem : ℕ → ℕ)
    → i < length bytes
    → place base bytes mem (base + i) ≡ get_or bytes i 0
place_in base i bytes mem h = rw (le→leb base (base + i) (omega arith)) (
    rw (lt→ltb (base + i) (base + length bytes) (omega arith))
      (ap (λ k. get_or bytes k 0) (omega arith)))

pub place_out :
    (base a : ℕ) (bytes : List ℕ) (mem : ℕ → ℕ)
    → (a < base) ⊎ (base + length bytes ≤ a)
    → place base bytes mem a ≡ mem a
place_out base a bytes mem h = ground arith

pub peek_eq :
    (base : ℕ) (bytes : List ℕ) (mem : ℕ → ℕ)
    → ((i : ℕ) → i < length bytes → mem (base + i) ≡ get_or bytes i 0)
    → peek base (length bytes) mem ≡ bytes
peek_eq base [] mem h = refl
peek_eq base (b ∷ bytes) mem h =
    ap₂ ◌∷◌ (ap mem {x = base} {y = base + 0} (omega arith) ∙ h 0 (omega arith)) (
      peek_eq (base + 1) bytes mem (λ i lt.
        ap mem {x = base + 1 + i} {y = base + suc i} (omega arith) ∙ h (suc i) (omega arith)))

pub peek_same :
    (base n : ℕ) (m1 m2 : ℕ → ℕ)
    → ((a : ℕ) → base ≤ a → a < base + n → m1 a ≡ m2 a)
    → peek base n m1 ≡ peek base n m2
peek_same base zero m1 m2 h = refl
peek_same base (suc n) m1 m2 h =
    ap₂ ◌∷◌ (h base (omega arith) (omega arith))
      (peek_same (base + 1) n m1 m2 (λ a lo hi. h a (omega arith) (omega arith)))

-- What was written is what is read there, and nothing else changes.
pub peek-place :
    (base : ℕ) (bytes : List ℕ) (mem : ℕ → ℕ)
    → peek base (length bytes) (place base bytes mem) ≡ bytes
peek-place base bytes mem =
    peek_eq base bytes (place base bytes mem) (λ i lt. place_in base i bytes mem lt)

pub peek-place_other :
    (base : ℕ) (bytes : List ℕ) (mem : ℕ → ℕ) (a n : ℕ)
    → (a + n ≤ base) ⊎ (base + length bytes ≤ a)
    → peek a n (place base bytes mem) ≡ peek a n mem
peek-place_other base bytes mem a n (inl h) =
    peek_same a n (place base bytes mem) mem
      (λ k lo hi. place_out base k bytes mem (inl (omega arith)))
peek-place_other base bytes mem a n (inr h) =
    peek_same a n (place base bytes mem) mem
      (λ k lo hi. place_out base k bytes mem (inr (omega arith)))

pub length-peek : (base n : ℕ) (mem : ℕ → ℕ) → length (peek base n mem) ≡ n
length-peek base zero mem = refl
length-peek base (suc n) mem = ap suc (length-peek (base + 1) n mem)
