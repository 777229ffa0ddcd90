-- ===== src/Spl/Head/Exchange.antt =====
-- What the loops of `start` and `head_swap` do to the memory, and one round of each.
use rustsbi_d.Base.{
  le→leb, ℕ, zero, suc, ◌+◌, ◌-◌, ◌≤◌, ◌<◌, ◌≡◌, refl, sym, ap, ◌∙◌, ◌⊎◌, inl, inr, ◌&&◌, arith,
  ltb, leb, if◌then◌else◌, Bool-cases, ltb→lt, lt→ltb, get_or,
}
use rustsbi_d.Base.Ram.{place, peek, length-peek, place_out}
use rustsbi_d.Base.Ram.{place, peek, length-peek, place_out}

-- The `n` bytes at `p` and those at `q`, each in the other's place.
abbrev pub exchange : ℕ → ℕ → ℕ → (ℕ → ℕ) → ℕ → ℕ
exchange p q n mem a =
    if leb p a && ltb a (p + n)
    then mem (q + (a - p))
    else if leb q a && ltb a (q + n)
    then mem (p + (a - q))
    else mem a

-- The `n` bytes at `q` copied to `p`.
abbrev pub copied : ℕ → ℕ → ℕ → (ℕ → ℕ) → ℕ → ℕ
copied p q n mem a = if leb p a && ltb a (p + n) then mem (q + (a - p)) else mem a

pub lt_or_ge : (a b : ℕ) → (a < b) ⊎ (b ≤ a)
lt_or_ge a b = elim (Bool-cases (ltb a b)) [
  | inl e ↦ inl (ltb→lt a b e)
  | inr e ↦ inr (ground arith)
]

pub exchange_first :
    (p q n : ℕ) (mem : ℕ → ℕ) (a : ℕ) → p ≤ a → a < p + n → exchange p q n mem a ≡ mem (q + (a - p))
exchange_first p q n mem a lo hi = rw (le→leb p a lo, lt→ltb a (p + n) hi) refl

pub exchange_second :
    (p q n : ℕ) (mem : ℕ → ℕ) (a : ℕ)
    → p + n ≤ a
    → q ≤ a
    → a < q + n
    → exchange p q n mem a ≡ mem (p + (a - q))
exchange_second p q n mem a apart lo hi = ground arith

pub exchange_out :
    (p q n : ℕ) (mem : ℕ → ℕ) (a : ℕ)
    → (a < p) ⊎ (p + n ≤ a)
    → (a < q) ⊎ (q + n ≤ a)
    → exchange p q n mem a ≡ mem a
exchange_out p q n mem a h k = ground arith

get_or-peek : (q n i : ℕ) (mem : ℕ → ℕ) → i < n → get_or (peek q n mem) i 0 ≡ mem (q + i)
get_or-peek q zero i mem h = absurd (omega arith)
get_or-peek q (suc n) zero mem h = ap mem {x = q} {y = q + 0} (omega arith)
get_or-peek q (suc n) (suc i) mem h =
    get_or-peek (q + 1) n i mem (omega arith) ∙ ap mem {x = q + 1 + i} {y = q + suc i} (omega arith)

-- Bytes that were read at `q` and are written at `p`.
place-peek :
    (p q n : ℕ) (from to : ℕ → ℕ) (a : ℕ)
    → p ≤ a
    → a < p + n
    → place p (peek q n from) to a ≡ from (q + (a - p))
place-peek p q n from to a lo hi =
    rw (length-peek q n from, le→leb p a lo, lt→ltb a (p + n) hi)
      (get_or-peek q n (a - p) from (omega arith))

place-peek_out :
    (p q n : ℕ) (from to : ℕ → ℕ) (a : ℕ)
    → (a < p) ⊎ (p + n ≤ a)
    → place p (peek q n from) to a ≡ to a
place-peek_out p q n from to a (inl h) = place_out p a (peek q n from) to (inl h)
place-peek_out p q n from to a (inr h) =
    place_out p a (peek q n from) to (inr (omega (arith, length-peek q n from)))

pub copied_in :
    (p q n : ℕ) (mem : ℕ → ℕ) (a : ℕ) → p ≤ a → a < p + n → copied p q n mem a ≡ mem (q + (a - p))
copied_in p q n mem a lo hi = ground arith

pub copied_out :
    (p q n : ℕ) (mem : ℕ → ℕ) (a : ℕ) → (a < p) ⊎ (p + n ≤ a) → copied p q n mem a ≡ mem a
copied_out p q n mem a h = ground arith

-- One round of `head_swap`.
abbrev pub round : ℕ → ℕ → (ℕ → ℕ) → ℕ → ℕ
round p q mem = place q (peek p 8 mem) (place p (peek q 8 mem) mem)

module _ (p q n : ℕ) (mem : ℕ → ℕ) (apart : p + (8 + n) ≤ q) where
  round_first : (a : ℕ) → p ≤ a → a < p + 8 → round p q mem a ≡ mem (q + (a - p))
  round_first a lo hi =
      place-peek_out q p 8 mem (place p (peek q 8 mem) mem) a (inl (omega arith))
      ∙ place-peek p q 8 mem mem a lo hi

  round_second : (a : ℕ) → q ≤ a → a < q + 8 → round p q mem a ≡ mem (p + (a - q))
  round_second a lo hi = place-peek q p 8 mem (place p (peek q 8 mem) mem) a lo hi

  round_out : (a : ℕ) → (a < p) ⊎ (p + 8 ≤ a) → (a < q) ⊎ (q + 8 ≤ a) → round p q mem a ≡ mem a
  round_out a h k =
      place-peek_out q p 8 mem (place p (peek q 8 mem) mem) a k ∙ place-peek_out p q 8 mem mem a h

  -- A round and the rest of the exchange are the exchange.
  pub exchange-round :
      (a : ℕ) → exchange (p + 8) (q + 8) n (round p q mem) a ≡ exchange p q (8 + n) mem a
  exchange-round a = elim (lt_or_ge a p) [
    | inl l ↦
        exchange_out (p + 8) (q + 8) n (round p q mem) a (inl (omega arith)) (inl (omega arith))
        ∙ round_out a (inl l) (inl (omega arith))
        ∙ sym (exchange_out p q (8 + n) mem a (inl l) (inl (omega arith)))
    | inr g1 ↦ elim (lt_or_ge a (p + 8)) [
      | inl l ↦
          exchange_out (p + 8) (q + 8) n (round p q mem) a (inl l) (inl (omega arith))
          ∙ round_first a g1 l
          ∙ sym (exchange_first p q (8 + n) mem a g1 (omega arith))
      | inr g2 ↦ elim (lt_or_ge a (p + (8 + n))) [
        | inl l ↦
            exchange_first (p + 8) (q + 8) n (round p q mem) a g2 (omega arith)
            ∙ round_out (q + 8 + (a - (p + 8))) (inr (omega arith)) (inr (omega arith))
            ∙ ap mem (omega arith)
            ∙ sym (exchange_first p q (8 + n) mem a g1 l)
        | inr g3 ↦ above a g3
      ]
    ]
  ]
    where
      above :
          (a : ℕ)
          → p + (8 + n) ≤ a
          → exchange (p + 8) (q + 8) n (round p q mem) a ≡ exchange p q (8 + n) mem a
      above a g = elim (lt_or_ge a q) [
        | inl l ↦
            exchange_out (p + 8) (q + 8) n (round p q mem) a (inr (omega arith)) (inl (omega arith))
            ∙ round_out a (inr (omega arith)) (inl l)
            ∙ sym (exchange_out p q (8 + n) mem a (inr g) (inl l))
        | inr g1 ↦ elim (lt_or_ge a (q + 8)) [
          | inl l ↦
              exchange_out (p + 8) (q + 8) n (round p q mem) a (inr (omega arith)) (inl l)
              ∙ round_second a g1 l
              ∙ sym (exchange_second p q (8 + n) mem a g g1 (omega arith))
          | inr g2 ↦ elim (lt_or_ge a (q + (8 + n))) [
            | inl l ↦
                exchange_second (p + 8) (q + 8) n (round p q mem) a (omega arith) g2 (omega arith)
                ∙ round_out (p + 8 + (a - (q + 8))) (inr (omega arith)) (inl (omega arith))
                ∙ ap mem (omega arith)
                ∙ sym (exchange_second p q (8 + n) mem a g g1 l)
            | inr g3 ↦
                exchange_out (p + 8) (q + 8) n (round p q mem) a (inr (omega arith))
                  (inr (omega arith))
                ∙ round_out a (inr (omega arith)) (inr g2)
                ∙ sym (exchange_out p q (8 + n) mem a (inr g) (inr g3))
          ]
        ]
      ]

-- One round of the copy.
pub copied-round :
    (p q n : ℕ) (mem : ℕ → ℕ)
    → p + (4 + n) ≤ q
    → (a : ℕ) → copied (p + 4) (q + 4) n (place p (peek q 4 mem) mem) a ≡ copied p q (4 + n) mem a
copied-round p q n mem apart a = elim (lt_or_ge a p) [
  | inl l ↦
      copied_out (p + 4) (q + 4) n (place p (peek q 4 mem) mem) a (inl (omega arith))
      ∙ place-peek_out p q 4 mem mem a (inl l)
      ∙ sym (copied_out p q (4 + n) mem a (inl l))
  | inr g1 ↦ elim (lt_or_ge a (p + 4)) [
    | inl l ↦
        copied_out (p + 4) (q + 4) n (place p (peek q 4 mem) mem) a (inl l)
        ∙ place-peek p q 4 mem mem a g1 l
        ∙ sym (copied_in p q (4 + n) mem a g1 (omega arith))
    | inr g2 ↦ elim (lt_or_ge a (p + (4 + n))) [
      | inl l ↦
          copied_in (p + 4) (q + 4) n (place p (peek q 4 mem) mem) a g2 (omega arith)
          ∙ place-peek_out p q 4 mem mem (q + 4 + (a - (p + 4))) (inr (omega arith))
          ∙ ap mem (omega arith)
          ∙ sym (copied_in p q (4 + n) mem a g1 l)
      | inr g3 ↦
          copied_out (p + 4) (q + 4) n (place p (peek q 4 mem) mem) a (inr (omega arith))
          ∙ place-peek_out p q 4 mem mem a (inr g2)
          ∙ sym (copied_out p q (4 + n) mem a (inr g3))
    ]
  ]
]
