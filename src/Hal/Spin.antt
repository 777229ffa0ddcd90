-- ===== src/Hal/Spin.antt =====
-- hal/src/spi.rs: the loops that spin while a register read says so.
use rustsbi_d.Base.{
  ℕ, zero, suc, ◌<◌, ◌≡◌, refl, inl, inr, Bool, true, false, Option, none, some, arith,
  if◌then◌else◌, Bool-cases,
}

module _ {D : Type 0} where
  -- `while again { spin_loop() }`, with `polls` rounds at most.
  unfoldable pub spin : (D → Bool × D) → ℕ → D → Option D
  spin again zero d = none
  spin again (suc polls) d =
      let (b, d') = again d in let rest = spin again polls d' in if b then rest else some d'

  -- A loop whose test keeps `P`, and brings `delay` down whenever it asks for another round, ends after the
  -- first test that does not.
  pub spin-ends :
      (again : D → Bool × D) (P Q : D → Type 0) (delay : D → ℕ)
      → ((d : D) → P d → (again d).0 ≡ true → P (again d).1 × (delay (again d).1 < delay d))
      → ((d : D) → P d → (again d).0 ≡ false → Q (again d).1)
      → (polls : ℕ) (d : D) → P d
      → delay d < polls
      → (d' : D) × (spin again polls d ≡ some d') × Q d'
  unfolding spin
  spin-ends again P Q delay more last zero d held h = absurd (omega arith)
  spin-ends again P Q delay more last (suc polls) d held h = elim (Bool-cases (again d).0) [
    | inl e ↦
        let (held', less) = more d held e in
        let (d', ends, q) =
          spin-ends again P Q delay more last polls (again d).1 held' (omega (arith, less, h)) in
        (d', rw e ends, q)
    | inr e ↦ ((again d).1, rw e refl, last d held e)
  ]
