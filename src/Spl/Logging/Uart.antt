-- ===== src/Spl/Logging/Uart.antt =====
-- Sending bytes over the UART, with its FIFO as a queue that drains while the loop polls.
use rustsbi_d.Base.{
  ◌>>=◌, sym, ℕ, zero, suc, ◌-◌, ◌≤◌, ◌<◌, ◌≡◌, refl, ap, ◌∙◌, Bool, some, List, [], ◌∷◌, ◌++◌,
  arith, ltb, if◌then◌else◌, lt→ltb, le→ltb_false,
}
use mathlib.Core.List.{append-nil, append_assoc}
use native.Mathlib.Decide.{dec_lt}
use rustsbi_d.Spl.Logging.{put_all, put}

module _ {U : Type 0} (is_full : U → Bool × U) (thr_write : ℕ → U → U) where
  -- `sent` is what the UART took so far, and `delay u` how many polls it will answer "full" before a
  -- slot is free, at most `latency`. Only then does it take a byte: nothing is known of a write to a full FIFO.
  pub record IsUart (sent : U → List ℕ) (delay : U → ℕ) (latency : ℕ) : Type 0 where
    pub prompt : (u : U) → delay u ≤ latency
    pub poll :
        (u : U)
        → let (full, u') = is_full u in
          (full ≡ ltb 0 (delay u)) × (delay u' ≡ delay u - 1) × (sent u' ≡ sent u)
    pub write : (ch : ℕ) (u : U) → delay u ≡ 0 → sent (thr_write ch u) ≡ sent u ++ (ch ∷ [])

  module _ (sent : U → List ℕ) (delay : U → ℕ) (latency : ℕ)
      (uart : IsUart sent delay latency) where
    polled : U → U
    polled u = (is_full u).1

    put-go :
        (polls ch : ℕ) (u : U)
        → put is_full thr_write (suc polls) ch u ≡ (
            if ltb 0 (delay u)
            then put is_full thr_write polls ch (polled u)
            else some (thr_write ch (polled u)))
    unfolding put polled
    put-go polls ch u = rw ((uart.poll u).0) refl

    put_lem :
        (polls ch : ℕ) (u : U)
        → delay u < polls
        → (u' : U) × (put is_full thr_write polls ch u ≡ some u') × (sent u' ≡ sent u ++ (ch ∷ []))
    unfolding polled
    put_lem zero ch u h = absurd (omega arith)
    put_lem (suc polls) ch u h =
        let (answer, left, same) = uart.poll u in
        elim (dec_lt 0 (delay u)) [
          | yes p ↦
              let (u', e, s) = put_lem polls ch (polled u) (omega (arith, left)) in
              (
                u',
                put-go polls ch u ∙ (rw (lt→ltb 0 (delay u) p) e),
                s ∙ ap (λ l. l ++ (ch ∷ [])) same,
              )
          | no np ↦ (
            thr_write ch (polled u),
            put-go polls ch u ∙ (rw (le→ltb_false 0 (delay u) (omega arith)) refl),
            uart.write ch (polled u) (omega (arith, left)) ∙ ap (λ l. l ++ (ch ∷ [])) same,
          )
        ]

    put_all_lem :
        (polls : ℕ) (cs : List ℕ) (u : U)
        → latency < polls
        → (u' : U) × (put_all is_full thr_write polls cs u ≡ some u') × (sent u' ≡ sent u ++ cs)
    unfolding put_all
    put_all_lem polls [] u h = (u, refl, sym (append-nil (sent u)))
    put_all_lem polls (c ∷ cs) u h =
        let (u1, e1, s1) = put_lem polls c u (omega (arith, uart.prompt u)) in
        let (u2, e2, s2) = put_all_lem polls cs u1 h in
        (
          u2,
          ap (λ o. o >>= put_all is_full thr_write polls cs) e1 ∙ e2,
          s2 ∙ ap (λ l. l ++ cs) s1 ∙ append_assoc (sent u) (c ∷ []) cs,
        )

-- With a UART that frees a slot within fewer polls than each loop is given, sending a text ends, and the
-- UART took exactly the text's bytes, in order, behind what it took before; a byte that is written while the
-- FIFO is full need not be taken.
pub put_all-sent :
    {U : Type 0} (is_full : U → Bool × U) (thr_write : ℕ → U → U) (sent : U → List ℕ)
    (delay : U → ℕ) (latency polls : ℕ) (cs : List ℕ) (u : U)
    → IsUart is_full thr_write sent delay latency
    → latency < polls
    → (u' : U) × (put_all is_full thr_write polls cs u ≡ some u') × (sent u' ≡ sent u ++ cs)
put_all-sent is_full thr_write sent delay latency polls cs u uart enough =
    put_all_lem is_full thr_write sent delay latency uart polls cs u enough
