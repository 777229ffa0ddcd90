-- ===== src/TestKernel/Console/Drivers.antt =====
-- The three drivers of the UART are one: the loader's, the SEE's and the test kernel's.
use rustsbi_d.Base.{
  ℕ, zero, suc, ◌≡◌, refl, inl, inr, Bool, Option, some, List, [], ◌∷◌, Bool-cases, Option-cases,
  ◌>>=◌,
}
use rustsbi_d.Hal.Spin.{spin}
use rustsbi_d.See.Extensions.{putchar}
use rustsbi_d.Spl.Logging.{put, put_all}
use rustsbi_d.TestKernel.Console.{write_str}

module _ {U : Type 0} (is_full : U → Bool × U) (thr_write : ℕ → U → U) where
  put-spin :
      (polls ch : ℕ) (u : U)
      → put is_full thr_write polls ch u ≡ (spin is_full polls u >>= λ u1. some (thr_write ch u1))
  unfolding put spin
  put-spin zero ch u = refl
  put-spin (suc polls) ch u = elim (Bool-cases (is_full u).0) [
    | inl e ↦ rw e (put-spin polls ch (is_full u).1)
    | inr e ↦ rw e refl
  ]

  putchar-put :
      (polls ch : ℕ) (u : U)
      → putchar is_full thr_write polls ch u ≡ put is_full thr_write polls ch u
  unfolding put putchar
  putchar-put zero ch u = refl
  putchar-put (suc polls) ch u = elim (Bool-cases (is_full u).0) [
    | inl e ↦ rw e (putchar-put polls ch (is_full u).1)
    | inr e ↦ rw e refl
  ]

  -- The console of the SEE, one call for each byte.
  unfoldable pub putchars : ℕ → List ℕ → U → Option U
  putchars polls [] u = some u
  putchars polls (ch ∷ s) u = putchar is_full thr_write polls ch u >>= putchars polls s

-- For any UART and any text, `write_str` of the test kernel, the operator of the loader's `Out` and one call of the
-- SEE's `putchar` for each byte do the same: the same state after the same polls, or all three spin on.
pub write_str-put_all :
    {U : Type 0} (is_full : U → Bool × U) (thr_write : ℕ → U → U) (polls : ℕ) (s : List ℕ) (u : U)
    → (write_str is_full thr_write polls s u ≡ put_all is_full thr_write polls s u)
      × (putchars is_full thr_write polls s u ≡ put_all is_full thr_write polls s u)
unfolding write_str put_all putchars
write_str-put_all is_full thr_write polls [] u = (refl, refl)
write_str-put_all is_full thr_write polls (ch ∷ s) u =
    let one = put-spin is_full thr_write polls ch u in
    let two = putchar-put is_full thr_write polls ch u in
    elim (Option-cases (spin is_full polls u)) [
      | inl e ↦ rw (two, one, e) (refl, refl)
      | inr (u1, e) ↦
          rw (two, one, e) (write_str-put_all is_full thr_write polls s (thr_write ch u1))
    ]
