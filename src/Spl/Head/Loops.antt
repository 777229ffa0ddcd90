-- ===== src/Spl/Head/Loops.antt =====
-- The loops of `start` and `head_swap` end, each with the whole change of the memory.
use rustsbi_d.Base.{
  le→leb, ℕ, zero, suc, ◌+◌, ◌*◌, ◌≤◌, ◌<◌, ◌≡◌, sym, ap, ◌∙◌, fun_ext, ◌⊎◌, inl, inr, false, some,
  arith, leb,
}
use rustsbi_d.Base.Ram.{place, peek}
use rustsbi_d.Spl.Head.{swap_loop, copy_loop}
use rustsbi_d.Spl.Head.Exchange.{
  exchange, copied, lt_or_ge, exchange_out, copied_out, round, exchange-round, copied-round,
}

lt→leb_false : (a b : ℕ) → b < a → leb a b ≡ false
lt→leb_false a b h = ground arith

-- With more rounds than words the loops end, and have done the whole.
pub swap_loop_lem :
    (words rounds p q t2 : ℕ) (mem : ℕ → ℕ)
    → words < rounds
    → t2 ≡ p + 8 * words
    → t2 ≤ q
    → swap_loop rounds p q t2 mem ≡ some (exchange p q (8 * words) mem)
unfolding swap_loop
swap_loop_lem words zero p q t2 mem more e le = absurd (omega arith)
swap_loop_lem zero (suc rounds) p q t2 mem more e le =
    rw (le→leb t2 p (omega arith))
      (ap some (fun_ext (λ a. sym (exchange_out p q 0 mem a (omega_split a p) (omega_split a q)))))
  where
    omega_split : (a p : ℕ) → (a < p) ⊎ (p + 0 ≤ a)
    omega_split a p = elim (lt_or_ge a p) [ inl l ↦ inl l | inr g ↦ inr (omega arith) ]
swap_loop_lem (suc words) (suc rounds) p q t2 mem more e le = rw (lt→leb_false t2 p (omega arith)) (
    swap_loop_lem words rounds (p + 8) (q + 8) t2 (round p q mem) (omega arith) (omega arith)
      (omega arith)
    ∙ ap some (fun_ext (exchange-round p q (8 * words) mem (omega arith)))
    ∙ ap (λ n. some (exchange p q n mem)) (omega arith))

pub copy_loop_lem :
    (words rounds p q t2 : ℕ) (mem : ℕ → ℕ)
    → words < rounds
    → t2 ≡ q + 4 * words
    → p + 4 * words ≤ q
    → copy_loop rounds p q t2 mem ≡ some (copied p q (4 * words) mem)
unfolding copy_loop
copy_loop_lem words zero p q t2 mem more e le = absurd (omega arith)
copy_loop_lem zero (suc rounds) p q t2 mem more e le = rw (le→leb t2 q (omega arith)) (
    ap some (
      fun_ext (λ a. sym (
        copied_out p q 0 mem a
          (elim (lt_or_ge a p) [ inl l ↦ inl l | inr g ↦ inr (omega arith) ])))))
copy_loop_lem (suc words) (suc rounds) p q t2 mem more e le = rw (lt→leb_false t2 q (omega arith)) (
    copy_loop_lem words rounds (p + 4) (q + 4) t2 (place p (peek q 4 mem) mem) (omega arith)
      (omega arith) (omega arith)
    ∙ ap some (fun_ext (copied-round p q (4 * words) mem (omega arith)))
    ∙ ap (λ n. some (copied p q n mem)) (omega arith))
