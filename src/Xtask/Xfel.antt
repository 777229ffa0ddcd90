-- ===== src/Xtask/Xfel.antt =====
-- xtask/src/xfel.rs, `detect_xfel`: whether the tool xfel is there, and its version.
use rustsbi_d.Base.{
  ℕ, ◌≡◌, refl, ap, ◌≢◌, inl, inr, Bool, true, false, not, List, [], ◌∷◌, ◌++◌, arith, ◌==◌,
  if◌then◌else◌, Bool-cases, ==_iff, drop,
}

-- What running `xfel` gives (of the standard library): whether it succeeded and what it printed, or an error.
pub data Ran : Type 0 where
  output : Bool → List ℕ → Ran
  not_found other_error : Ran

-- `detected` logs the version and goes on with the path `xfel`; `exits` ends with status 1; `todo` and `panics` are panics.
pub data Detected : Type 0 where
  detected : List ℕ → Detected
  exits todo panics : Detected

abbrev pub skip_while : (ℕ → Bool) → List ℕ → List ℕ
skip_while p [] = []
skip_while p (c ∷ cs) = let rest = skip_while p cs in if p c then rest else c ∷ cs

abbrev pub take_while : (ℕ → Bool) → List ℕ → List ℕ
take_while p [] = []
take_while p (c ∷ cs) = let rest = take_while p cs in if p c then c ∷ rest else []

-- `skip_while(…).skip(1).take_while(…)`
unfoldable pub version_in : List ℕ → List ℕ
version_in stdout =
    take_while (λ c. not (c == b')')) (drop 1 (skip_while (λ c. not (c == b'(')) stdout))

-- `is_utf8` is the `unwrap` of `str::from_utf8`.
unfoldable pub detect_xfel : (List ℕ → Bool) → Ran → Detected
detect_xfel is_utf8 (output true stdout) =
    if is_utf8 (version_in stdout) then detected (version_in stdout) else panics
detect_xfel is_utf8 (output false stdout) = todo
detect_xfel is_utf8 not_found = exits
detect_xfel is_utf8 other_error = panics

-- No byte of the list is `c`.
abbrev pub Without : ℕ → List ℕ → Type 0
Without c [] = Unit {0}
Without c (x ∷ xs) = (x ≢ c) × Without c xs

skip_to :
    (c : ℕ) (xs rest : List ℕ)
    → Without c xs
    → skip_while (λ x. not (x == c)) (xs ++ (c ∷ rest)) ≡ c ∷ rest
skip_to c [] rest h = ground arith
skip_to c (x ∷ xs) rest (away, h) = elim (Bool-cases (x == c)) [
  | inl e ↦ absurd (away ((==_iff x c).0 e))
  | inr e ↦ rw e (skip_to c xs rest h)
]

take_to :
    (c : ℕ) (xs rest : List ℕ)
    → Without c xs
    → take_while (λ x. not (x == c)) (xs ++ (c ∷ rest)) ≡ xs
take_to c [] rest h = ground arith
take_to c (x ∷ xs) rest (away, h) = elim (Bool-cases (x == c)) [
  | inl e ↦ absurd (away ((==_iff x c).0 e))
  | inr e ↦ rw e (ap (λ l. x ∷ l) (take_to c xs rest h))
]

-- From a run of the tool that succeeded and printed a version in the first parentheses, valid as text, `detect_xfel` finds
-- exactly that version, whatever stands before and behind it.
pub detect_xfel-version_in :
    (is_utf8 : List ℕ → Bool) (before version behind : List ℕ)
    → Without b'(' before
    → Without b')' version
    → is_utf8 version ≡ true
    → detect_xfel is_utf8 (output true (before ++ (b'(' ∷ (version ++ (b')' ∷ behind)))))
      ≡ detected version
unfolding detect_xfel version_in
detect_xfel-version_in is_utf8 before version behind h k valid =
    rw (skip_to b'(' before (version ++ (b')' ∷ behind)) h)
      (rw (take_to b')' version behind k) (rw valid refl))
