-- ===== src/Common/Arrow/Walk.antt =====
-- The walk without its printing.
use rustsbi_d.Base.{ℕ, zero, suc, ◌+◌, ◌-◌, ◌≤◌, ◌≡◌, refl, ap, ◌∙◌, Bool, true, false, arith}
use native.Mathlib.Nat.{zero-add, suc-add}
use rustsbi_d.Common.Arrow.{Arrow, init, move, next}

abbrev pub steps : ℕ → Arrow → Arrow
steps zero a = a
steps (suc n) a = steps n (next a).0

next-move : (a : Arrow) → (next a).0 ≡ (move a).0
unfolding next
next-move a = refl

abbrev at : ℕ → ℕ → Bool → Arrow
at len pos dir = record { len = len; pos = pos; dir = dir }

right : (k len pos : ℕ) → pos + k ≤ len → steps k (at len pos true) ≡ at len (pos + k) true
unfolding next move
right zero len pos h = ground arith
right (suc k) len pos h = ground (arith, right k len (pos + 1))

left : (k len pos : ℕ) → k ≤ pos → steps k (at len pos false) ≡ at len (pos - k) false
unfolding next move
left zero len pos h = ground arith
left (suc k) len pos h = ground (arith, left k len (pos - 1))

steps-add : (m n : ℕ) (a : Arrow) → steps (m + n) a ≡ steps n (steps m a)
steps-add zero n a = rw zero-add
steps-add (suc m) n a = rw suc-add (steps-add m n (next a).0)

turn_right : (len : ℕ) → steps 1 (at len len true) ≡ at len len false
unfolding next move
turn_right len = ground arith

turn_left : (len : ℕ) → steps 1 (at len 0 false) ≡ at len 0 true
unfolding next move
turn_left len = ground arith

-- Right to the end, a turn, left to the start and a turn: the walk repeats, whatever the length.
pub steps_period : (len : ℕ) → steps (len - 4 + 1 + (len - 4) + 1) (init len).0 ≡ (init len).0
unfolding init
steps_period len =
    let n = len - 4 in
    steps-add (n + 1 + n) 1 _
    ∙ ap (steps 1) (
        steps-add (n + 1) n _
        ∙ ap (steps n) (
            steps-add n 1 _
            ∙ ap (steps 1) (right n n 0 (omega arith) ∙ ap (λ p. at n p true) (omega arith))
            ∙ turn_right n)
        ∙ left n n n (omega arith)
        ∙ ap (λ p. at n p false) (omega arith))
    ∙ turn_left n
