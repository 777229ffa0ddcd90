-- ===== src/Xtask/Spinand/Layout.antt =====
-- The flash as the tool writes it: what it relies on of xfel's `spinand write`, and the regions that the
-- addresses of common/src/flash.rs leave to each part.
use rustsbi_d.Base.{
  ℕ, ◌+◌, ◌-◌, ◌*◌, ◌/◌, ◌%◌, ◌^◌, ◌≤◌, ◌<◌, ◌≡◌, refl, ◌∙◌, ◌⊎◌, inl, inr, Option, none, some,
  List, [], ◌∷◌, arith, length,
}
use rustsbi_d.Base.Ram.{peek, peek_same}
use rustsbi_d.Xtask.World.{Host}

-- The addresses of the parts are 2 MiB apart, which whole erase blocks make up.
abbrev pub unit : ℕ
unit = 2 * 2 ^ 20

-- A write is read back, and nothing changes outside the units that it touches.
pub record IsProgram (program : ℕ → List ℕ → (ℕ → ℕ) → ℕ → ℕ) : Type 0 where
  pub written :
      (pos : ℕ) (bytes : List ℕ) (f : ℕ → ℕ) → peek pos (length bytes) (program pos bytes f) ≡ bytes
  pub kept :
      (pos : ℕ) (bytes : List ℕ) (f : ℕ → ℕ) (a : ℕ)
      → (a < pos / unit * unit) ⊎ ((pos + length bytes + (unit - 1)) / unit * unit ≤ a)
      → program pos bytes f a ≡ f a

abbrev pub Agree : ℕ → ℕ → (ℕ → ℕ) → (ℕ → ℕ) → Type 0
Agree lo hi f g = (a : ℕ) → lo ≤ a → a < hi → g a ≡ f a

-- The part from `lo` to `hi` between two states of the flash: it holds the payload, or is as it was without one.
unfoldable pub Part : ℕ → ℕ → Option (List ℕ) → (ℕ → ℕ) → (ℕ → ℕ) → Type 0
Part lo hi none f g = Agree lo hi f g
Part lo hi (some bytes) f g = peek lo (length bytes) g ≡ bytes

abbrev pub len_of : Option (List ℕ) → ℕ
len_of none = 0
len_of (some bytes) = length bytes

abbrev pub Fits : ℕ → Option (List ℕ) → Type 0
Fits size b = len_of b ≤ size

module _ (h : Host) where
  -- The flash after a payload, if any, was written to its address.
  abbrev pub stored : ℕ → Option (List ℕ) → (ℕ → ℕ) → ℕ → ℕ
  stored pos none f = f
  stored pos (some bytes) f = h.program pos bytes f

  module _ (xfel : IsProgram h.program) where
    -- A payload leaves every region outside its own units as it was.
    pub stored-Agree :
        (pos size : ℕ) (b : Option (List ℕ)) (f : ℕ → ℕ) (lo hi : ℕ)
        → pos % unit ≡ 0
        → size % unit ≡ 0
        → Fits size b
        → (hi ≤ pos) ⊎ (pos + size ≤ lo)
        → Agree lo hi f (stored pos b f)
    stored-Agree pos size none f lo hi p s fits apart a la ha = refl
    stored-Agree pos size (some bytes) f lo hi p s fits (inl below) a la ha =
        xfel.kept pos bytes f a (inl (omega arith))
    stored-Agree pos size (some bytes) f lo hi p s fits (inr above) a la ha =
        xfel.kept pos bytes f a (inr (omega arith))

    pub stored-Part : (lo hi : ℕ) (b : Option (List ℕ)) (f : ℕ → ℕ) → Part lo hi b f (stored lo b f)
    unfolding Part
    stored-Part lo hi none f = λ a la ha. refl
    stored-Part lo hi (some bytes) f = xfel.written lo bytes f

-- A part does not notice what is written elsewhere, before it or after it.
pub Part-after :
    (lo hi : ℕ) (b : Option (List ℕ)) (f g k : ℕ → ℕ)
    → Fits (hi - lo) b
    → Part lo hi b f g
    → Agree lo hi g k
    → Part lo hi b f k
unfolding Part
Part-after lo hi none f g k fits part same = λ a la ha. same a la ha ∙ part a la ha
Part-after lo hi (some []) f g k fits part same = refl
Part-after lo hi (some (x ∷ xs)) f g k fits part same =
    peek_same lo (length (x ∷ xs)) k g (λ a la ha. same a la (omega arith)) ∙ part

pub Part-before :
    (lo hi : ℕ) (b : Option (List ℕ)) (e f g : ℕ → ℕ)
    → Agree lo hi e f
    → Part lo hi b f g
    → Part lo hi b e g
unfolding Part
Part-before lo hi none e f g same part = λ a la ha. part a la ha ∙ same a la ha
Part-before lo hi (some bytes) e f g same part = part
