-- ===== src/Base/Both.antt =====
-- Two runs that may fail, held against each other: both fail, or both end in related results.
use mathlib.Core.Path.{◌≡◌, refl}
use mathlib.Core.Option.{Option, none, some}
use rustsbi_d.Base.Tests.{◌>>=◌}

pub data Both {A B : Type 0} (R : A → B → Type 0) : Option A → Option B → Type 0 where
  neither : Both R none none
  both : (a : A) (b : B) → R a b → Both R (some a) (some b)

pub Both-bind :
    {A B A' B' : Type 0} (R : A → B → Type 0) (R' : A' → B' → Type 0) (f : A → Option A')
    (g : B → Option B') (o : Option A) (p : Option B)
    → Both R o p
    → ((a : A) (b : B) → R a b → Both R' (f a) (g b))
    → Both R' (o >>= f) (p >>= g)
Both-bind R R' f g _ _ neither next = neither
Both-bind R R' f g _ _ (both a b r) next = next a b r

pub Both-some :
    {A B : Type 0} (R : A → B → Type 0) (o : Option A) (b : B)
    → Both R o (some b)
    → (a : A) × (o ≡ some a) × R a b
Both-some R _ _ (both a b r) = (a, refl, r)
