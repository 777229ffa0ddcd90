-- ===== src/Common/Arrow/Screen.antt =====
-- A terminal line: a column per cell and the cursor. A backspace moves the cursor left and
-- erases nothing; any other byte is put at the cursor.
use rustsbi_d.Base.{
  ℕ, zero, suc, ◌+◌, ◌-◌, ◌≡◌, refl, ap, ◌∙◌, ◌&&◌, List, [], ◌∷◌, ◌++◌, arith, ltb, leb, ◌==◌,
  if◌then◌else◌, replicate,
}
use rustsbi_d.Common.Arrow.{bs, space}

pub record Line : Type 0 where
  pub cell : ℕ → ℕ
  pub cursor : ℕ

unfoldable pub put : ℕ → Line → Line
put c l =
    if c == bs
    then record l { cursor = l.cursor - 1 }
    else record { cell = λ j. if j == l.cursor then c else l.cell j; cursor = l.cursor + 1 }

unfoldable pub show : List ℕ → Line → Line
show [] l = l
show (c ∷ cs) l = show cs (put c l)

pub show-append : (xs ys : List ℕ) (l : Line) → show (xs ++ ys) l ≡ show ys (show xs l)
unfolding show
show-append [] ys l = refl
show-append (x ∷ xs) ys l = show-append xs ys (put x l)

pub show_back : (n : ℕ) (l : Line) → show (replicate n bs) l ≡ record l { cursor = l.cursor - n }
unfolding show put
show_back zero l = ground arith
show_back (suc n) l = show_back n (put bs l) ∙ ap (λ k. record l { cursor = k }) (omega arith)

-- A run of spaces blanks the cells from the cursor on and touches no other.
pub show_spaces :
    (n : ℕ) (l : Line)
    → ((show (replicate n space) l).cursor ≡ l.cursor + n)
      × ((j : ℕ)
          → (show (replicate n space) l).cell j
            ≡ (if leb l.cursor j && ltb j (l.cursor + n) then space else l.cell j))
unfolding show put
show_spaces zero l = (omega arith, λ j. ground arith)
show_spaces (suc n) l =
    let rest = show_spaces n (put space l) in (omega (arith, rest.0), λ j. ground (arith, rest.1 j))
