-- ===== src/Common/Arrow/Laws.antt =====
-- The line that the arrow leaves on the terminal after each step.
use rustsbi_d.Base.{
  ℕ, zero, suc, ◌+◌, ◌-◌, ◌≤◌, ◌<◌, ◌≡◌, refl, ap, ◌∙◌, ◌&&◌, List, [], ◌∷◌, ◌++◌, arith, ltb, leb,
  ◌==◌, if◌then◌else◌, replicate,
}
use rustsbi_d.Common.Arrow.{Arrow, bs, space, bar, init, head, move, next}
use rustsbi_d.Common.Arrow.Screen.{Line, put, show, show-append, show_back, show_spaces}

-- A bar, the arrow at `pos` among spaces, and a bar.
abbrev pub frame : Arrow → ℕ → ℕ
frame a j =
    if j == 0
    then bar
    else if leb j a.pos
    then space
    else if leb j (a.pos + 2)
    then head a.dir
    else if leb j (a.len + 2)
    then space
    else bar

pub record Shows (a : Arrow) (l : Line) : Type 0 where
  pub at_end : l.cursor ≡ a.len + 4
  pub inside : a.pos ≤ a.len
  pub cells : (j : ℕ) → j < a.len + 4 → l.cell j ≡ frame a j

-- What a step relies on: the bar and the spaces left of the arrow, and the cursor at the end.
pub record Ready (a : Arrow) (l : Line) : Type 0 where
  pub at_end : l.cursor ≡ a.len + 4
  pub inside : a.pos ≤ a.len
  pub cells : (j : ℕ) → j ≤ a.pos → l.cell j ≡ (if j == 0 then bar else space)

-- The cursor stands where the arrow is to be drawn.
record At (a : Arrow) (l : Line) : Type 0 where
  here : l.cursor ≡ a.pos + 1
  inside : a.pos ≤ a.len
  cells : (j : ℕ) → j ≤ a.pos → l.cell j ≡ (if j == 0 then bar else space)

Shows-Ready : (a : Arrow) (l : Line) → Shows a l → Ready a l
Shows-Ready a l s = record {
  at_end = s.at_end;
  inside = s.inside;
  cells = λ j h. ground (arith, s.inside, s.cells j);
}

-- The end of a step: two arrow heads, the spaces right of them and the bar.
abbrev redraw : Arrow → List ℕ
redraw b = head b.dir ∷ head b.dir ∷ (replicate (b.len - b.pos) space ++ (bar ∷ []))

heads : Arrow → Line → Line
heads b l = put (head b.dir) (put (head b.dir) l)

heads_lem :
    (b : Arrow) (l : Line)
    → ((heads b l).cursor ≡ l.cursor + 2)
      × ((j : ℕ)
          → (heads b l).cell j
            ≡ (if leb l.cursor j && ltb j (l.cursor + 2) then head b.dir else l.cell j))
unfolding heads put
heads_lem b l = (ground arith, λ j. ground arith)

put_bar_lem :
    (m : Line)
    → ((put bar m).cursor ≡ m.cursor + 1)
      × ((j : ℕ) → (put bar m).cell j ≡ (if j == m.cursor then bar else m.cell j))
unfolding put
put_bar_lem m = (refl, λ j. refl)

show-redraw :
    (b : Arrow) (l : Line)
    → show (redraw b) l ≡ put bar (show (replicate (b.len - b.pos) space) (heads b l))
unfolding show heads
show-redraw b l = show-append (replicate (b.len - b.pos) space) (bar ∷ []) (heads b l)

redraw-Shows : (b : Arrow) (l : Line) → At b l → Shows b (show (redraw b) l)
redraw-Shows b l a =
    let drawn = heads_lem b l in
    let spaces = show_spaces (b.len - b.pos) (heads b l) in
    let barred = put_bar_lem (show (replicate (b.len - b.pos) space) (heads b l)) in
    rw (show-redraw b l) (record {
      at_end = omega (arith, a.here, a.inside, drawn.0, spaces.0, barred.0);
      inside = a.inside;
      cells = λ j h. ground (
        arith,
        a.here,
        a.inside,
        a.cells j,
        drawn.0,
        drawn.1 j,
        spaces.0,
        spaces.1 j,
        barred.1 j,
      );
    })

-- The line after the cursor went back, and its cells under the step's own bytes.
move-At :
    (a : Arrow) (l : Line)
    → l.cursor ≡ a.pos + 3
    → a.pos ≤ a.len
    → ((j : ℕ) → j ≤ a.pos → l.cell j ≡ (if j == 0 then bar else space))
    → At (move a).0 (show (move a).1 l)
unfolding move show put
move-At a l c h f = record {
  here = ground arith;
  inside = ground arith;
  cells = λ j k. ground (arith, f j);
}

move-len : (a : Arrow) → (move a).0.len ≡ a.len
unfolding move
move-len a = ground arith

-- From a line with the bar and the spaces left of the arrow and the cursor at the end, a step
-- leaves exactly the bar, the arrow at its new place among spaces, and the bar, with the cursor
-- behind it.
pub next-Shows : (a : Arrow) (l : Line) → Ready a l → Shows (next a).0 (show (next a).1 l)
unfolding next
next-Shows a l r =
    let back : Line = record l { cursor = l.cursor - (a.len - a.pos + 1) } in
    let e : show (next a).1 l ≡ show (redraw (move a).0) (show (move a).1 back) =
      show-append (replicate (a.len - a.pos + 1) bs) _ l
      ∙ ap (show _) (show_back (a.len - a.pos + 1) l)
      ∙ show-append (move a).1 _ back in
    rw e (
      redraw-Shows (move a).0 (show (move a).1 back)
        (move-At a back (omega (arith, r.at_end, r.inside)) r.inside r.cells))

abbrev pub blank : Line
blank = record { cell = λ _. space; cursor = 0 }

-- The states after `n` steps, and the line on the terminal.
abbrev pub walk : ℕ → Arrow → Line → Arrow × Line
walk zero a l = (a, l)
walk (suc n) a l = let (b, out) = next a in walk n b (show out l)

walk-Shows : (n : ℕ) (a : Arrow) (l : Line) → Shows a l → let (b, m) = walk n a l in Shows b m
walk-Shows zero a l s = s
walk-Shows (suc n) a l s = walk-Shows n _ _ (next-Shows a l (Shows-Ready a l s))

init-Ready : (len : ℕ) → 4 ≤ len → Ready (init len).0 (show (init len).1 blank)
unfolding init show put
init-Ready len h =
    let barred = put_bar_lem blank in
    let spaces = show_spaces (len - 3 - 1) (put bar blank) in
    rw (show-append (replicate (len - 3 - 1) space) (b'<' ∷ b'<' ∷ bar ∷ []) (put bar blank))
      (record {
        at_end = omega (arith, spaces.0, barred.0);
        inside = omega arith;
        cells = λ j k. ground (arith, spaces.0, spaces.1 j, barred.0, barred.1 j);
      })

-- Started with a length of at least 4 on an empty line, the arrow shows, after one step or any
-- number more, the bar, itself at its place within the length, spaces and the bar, and the cursor
-- is behind the bar.
pub walk-init-Shows :
    (len n : ℕ)
    → 4 ≤ len
    → let (b, l) = walk (suc n) (init len).0 (show (init len).1 blank) in Shows b l
walk-init-Shows len n h = walk-Shows n _ _ (next-Shows _ _ (init-Ready len h))
