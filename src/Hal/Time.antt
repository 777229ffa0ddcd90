-- ===== src/Hal/Time.antt =====
-- hal/src/time.rs: the units.
use Prim.Native.Nat.{ℕ}

pub record Bps : Type 0 where
  pub bits_per_second : ℕ

pub record Hz : Type 0 where
  pub hertz : ℕ

abbrev pub bps : ℕ → Bps
bps x = record { bits_per_second = x }

abbrev pub hz : ℕ → Hz
hz x = record { hertz = x }
