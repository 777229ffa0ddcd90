-- ===== src/Hal/Spi/Divider.antt =====
-- The search for the dividers of `Spi::new`, beside all pairs that the clock register can hold.
use native.Mathlib.Nat.{div-le_self}
use native.Mathlib.Decide.{ℕ_discrete}
use mathlib.Core.Path.{subst}
use rustsbi_d.Base.{
  ◌/◌, ◌-◌, sym, none, some, ◌*◌, ◌+◌, suc, zero, ap, ◌∙◌, min, ℕ, ◌≤◌, ◌<◌, min, ◌≡◌, refl, ◌⊎◌,
  inl, inr, arith, ltb, Bool-cases,
}
use mathlib.Core.Option
use rustsbi_d.Hal.Spi.{
  n1, n2, n4, n8, Factor, factor_of, dividers, search_from, try_all, best, Factor, Best, abs_diff,
  actual, try,
}

abbrev pub IsFactor : ℕ → Type 0
IsFactor n = (n ≡ 1) ⊎ (n ≡ 2) ⊎ (n ≡ 4) ⊎ (n ≡ 8)

module _ (psi freq : ℕ) where
  abbrev miss : ℕ → ℕ → ℕ
  miss n m = abs_diff (actual psi freq n m) freq

  -- Nothing found yet, or a pair with its miss.
  record Inv (top : ℕ) (b : Best) : Type 0 where
    found :
        ((b.n ≡ 0) × (b.err ≡ psi))
        ⊎ (IsFactor b.n × (1 ≤ b.m) × (b.m < top) × (b.err ≡ miss b.n b.m) × (b.err < psi))
    bound : b.err ≤ psi
    least : (n m : ℕ) → IsFactor n → 1 ≤ m → m < top → b.err ≤ miss n m

  try_err : (m n : ℕ) (b : Best) → (try psi freq m n b).err ≡ min b.err (miss n m)
  try_err m n b = ground arith

  try_found :
      (top m n : ℕ) (b : Best)
      → IsFactor n
      → 1 ≤ m
      → m < top
      → b.err ≤ psi
      → ((b.n ≡ 0) × (b.err ≡ psi))
        ⊎ (IsFactor b.n × (1 ≤ b.m) × (b.m < top) × (b.err ≡ miss b.n b.m) × (b.err < psi))
      → let b' = try psi freq m n b in
        ((b'.n ≡ 0) × (b'.err ≡ psi))
        ⊎ (IsFactor b'.n × (1 ≤ b'.m) × (b'.m < top) × (b'.err ≡ miss b'.n b'.m) × (b'.err < psi))
  try_found top m n b f lo hi bound h = elim (Bool-cases (ltb (miss n m) b.err)) [
    | inl better ↦ rw better (inr (f, lo, hi, refl, ground arith))
    | inr worse ↦ rw worse h
  ]

  abbrev Found : ℕ → Best → Type 0
  Found top b =
      ((b.n ≡ 0) × (b.err ≡ psi))
      ⊎ (IsFactor b.n × (1 ≤ b.m) × (b.m < top) × (b.err ≡ miss b.n b.m) × (b.err < psi))

  Found-mono : (top : ℕ) (b : Best) → Found top b → Found (top + 1) b
  Found-mono top b (inl h) = inl h
  Found-mono top b (inr (f, lo, hi, e, l)) = inr (f, lo, omega arith, e, l)

  try_all_err :
      (m : ℕ) (b : Best)
      → (try_all psi freq m b).err
        ≡ min (min (min (min b.err (miss 1 m)) (miss 2 m)) (miss 4 m)) (miss 8 m)
  unfolding try_all
  try_all_err m b =
      let b1 = try psi freq m 1 b in
      let b2 = try psi freq m 2 b1 in
      let b4 = try psi freq m 4 b2 in
      try_err m 8 b4
      ∙ ap (λ e. min e (miss 8 m))
          (try_err m 4 b2
            ∙ ap (λ e. min e (miss 4 m))
                (try_err m 2 b1 ∙ ap (λ e. min e (miss 2 m)) (try_err m 1 b)))

  try_all-Found :
      (m : ℕ) (b : Best) → 1 ≤ m → b.err ≤ psi → Found m b → Found (m + 1) (try_all psi freq m b)
  unfolding try_all
  try_all-Found m b lo bound h =
      let b1 = try psi freq m 1 b in
      let b2 = try psi freq m 2 b1 in
      let b4 = try psi freq m 4 b2 in
      let e1 = try_err m 1 b in
      let e2 = try_err m 2 b1 in
      let e4 = try_err m 4 b2 in
      try_found (m + 1) m 8 b4 (inr (inr (inr refl))) lo (omega arith) (omega (arith, e1, e2, e4)) (
        try_found (m + 1) m 4 b2 (inr (inr (inl refl))) lo (omega arith) (omega (arith, e1, e2)) (
          try_found (m + 1) m 2 b1 (inr (inl refl)) lo (omega arith) (omega (arith, e1))
            (try_found (m + 1) m 1 b (inl refl) lo (omega arith) bound (Found-mono m b h))))

  try_all-Inv : (m : ℕ) (b : Best) → 1 ≤ m → Inv m b → Inv (m + 1) (try_all psi freq m b)
  try_all-Inv m b lo v = record {
    found = try_all-Found m b lo v.bound v.found;
    bound = omega (arith, try_all_err m b, v.bound);
    least = λ n k f klo khi. elim (ℕ_discrete k m) [
      | yes e ↦ rw e (least_here n f)
      | no ne ↦ omega (arith, try_all_err m b, v.least n k f klo (omega arith))
    ];
  }
    where
      least_here : (n : ℕ) → IsFactor n → (try_all psi freq m b).err ≤ miss n m
      least_here n (inl e) = rw e (omega (arith, try_all_err m b))
      least_here n (inr (inl e)) = rw e (omega (arith, try_all_err m b))
      least_here n (inr (inr (inl e))) = rw e (omega (arith, try_all_err m b))
      least_here n (inr (inr (inr e))) = rw e (omega (arith, try_all_err m b))

  search_from-Inv :
      (rounds m : ℕ) (b : Best)
      → 1 ≤ m
      → Inv m b
      → Inv (m + rounds) (search_from psi freq rounds m b)
  unfolding search_from
  search_from-Inv zero m b lo v = subst (λ t. Inv t b) {x = m} (omega arith) v
  search_from-Inv (suc rounds) m b lo v =
      subst (λ t. Inv t (search_from psi freq rounds (m + 1) (try_all psi freq m b)))
        {x = m + 1 + rounds} (omega arith)
        (search_from-Inv rounds (m + 1) (try_all psi freq m b) (omega arith) (try_all-Inv m b lo v))

  best-Inv : Inv 17 (best psi freq)
  unfolding best
  best-Inv =
      search_from-Inv 16 1 (record { err = psi; n = 0; m = 0 }) (omega arith)
        (record {
          found = inl (refl, refl);
          bound = omega arith;
          least = λ n m f lo hi. absurd (omega arith);
        })

abbrev pub number : Factor → ℕ
number n1 = 1
number n2 = 2
number n4 = 4
number n8 = 8

factor_of_lem : (n : ℕ) → IsFactor n → (f : Factor) × (factor_of n ≡ some f) × (number f ≡ n)
factor_of_lem n (inl e) = (n1, rw e, sym e)
factor_of_lem n (inr (inl e)) = (n2, rw e, sym e)
factor_of_lem n (inr (inr (inl e))) = (n4, rw e, sym e)
factor_of_lem n (inr (inr (inr e))) = (n8, rw e, sym e)

best_found :
    (psi freq : ℕ)
    → 0 < psi
    → freq < 2 * psi
    → let b = best psi freq in
      IsFactor b.n
      × (1 ≤ b.m)
      × (b.m < 17)
      × (b.err ≡ abs_diff (actual psi freq b.n b.m) freq)
      × (b.err < psi)
best_found psi freq pos near =
    let v = best-Inv psi freq in
    let one = v.least 1 1 (inl refl) (omega arith) (omega arith) in
    let two = v.least 2 1 (inr (inl refl)) (omega arith) (omega arith) in
    elim v.found [ inl (_, e) ↦ absurd (ground (arith, e, one, two)) | inr h ↦ h ]

-- For a wanted frequency below twice the source the search ends with a pair of dividers that the
-- clock register can hold, and no pair (n, m) of the 64 comes closer to the wanted frequency.
pub dividers_optimal :
    (psi freq n m : ℕ)
    → 0 < psi
    → freq < 2 * psi
    → IsFactor n
    → 1 ≤ m
    → m < 17
    → (f : Factor) × (k : ℕ) × (dividers psi freq ≡ some (f, k))
      × (k < 16)
      × (abs_diff (actual psi freq (number f) (k + 1)) freq ≤ abs_diff (actual psi freq n m) freq)
unfolding dividers
dividers_optimal psi freq n m pos near g mlo mhi =
    let b = best psi freq in
    let (isf, lo, hi, e, _) = best_found psi freq pos near in
    let (f, found, num) = factor_of_lem b.n isf in
    (
      f,
      b.m - 1,
      ap (Option.map (λ f. (f, b.m - 1))) found,
      omega arith,
      rw (num, (let eq : b.m - 1 + 1 ≡ b.m = omega arith in eq))
          (rw (← e) ((best-Inv psi freq).least n m g mlo mhi)),
    )

far_miss : (psi freq n m : ℕ) → 2 * psi ≤ freq → ¬ (abs_diff (actual psi freq n m) freq < psi)
far_miss psi freq n m far l = ground (arith, div-le_self psi n, div-le_self (psi / n) m)

-- For a wanted frequency of twice the source or more no pair is taken, and `Spi::new` hits its `unreachable!`.
pub dividers_unreachable : (psi freq : ℕ) → 2 * psi ≤ freq → dividers psi freq ≡ none
unfolding dividers
dividers_unreachable psi freq far =
    let b = best psi freq in
    let none_found : b.n ≡ 0 = elim (best-Inv psi freq).found [
      | inl (z, _) ↦ z
      | inr (_, _, _, e, l) ↦ absurd (far_miss psi freq b.n b.m far (rw (← e) l))
    ] in
    ap (λ n. Option.map (λ f. (f, b.m - 1)) (factor_of n)) none_found
