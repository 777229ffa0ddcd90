-- ===== src/Spl/Head/Laws.antt =====
-- `start` as a whole: what the DDR code finds, and what is left when `main` is called.
use mathlib.Core.Path.{ap₂}
use rustsbi_d.Base.{
  ℕ, zero, suc, ◌+◌, ◌-◌, ◌≤◌, ◌<◌, ◌≡◌, refl, ap, ◌∙◌, ◌⊎◌, inl, inr, some, ◌∷◌, arith,
}
use rustsbi_d.Base.Ram.{peek}
use rustsbi_d.Spl.Head.{
  head_jump, magic_tail, magic_head, param_words, bytes_of, param_len, head_swap, start,
}
use rustsbi_d.Spl.Head.Loops.{swap_loop_lem, copy_loop_lem}
use rustsbi_d.Spl.Head.Exchange.{
  exchange, copied, exchange_first, exchange_second, exchange_out, copied_in, copied_out,
}

peek_shift :
    (p q n : ℕ) (f g : ℕ → ℕ) → ((i : ℕ) → i < n → f (p + i) ≡ g (q + i)) → peek p n f ≡ peek q n g
peek_shift p q zero f g h = refl
peek_shift p q (suc n) f g h =
    ap₂ ◌∷◌
      (ap f {x = p} {y = p + 0} (omega arith)
        ∙ h 0 (omega arith)
        ∙ ap g {x = q + 0} {y = q} (omega arith))
      (peek_shift (p + 1) (q + 1) n f g (λ i lt.
        ap f {x = p + 1 + i} {y = p + suc i} (omega arith)
        ∙ h (suc i) (omega arith)
        ∙ ap g {x = q + suc i} {y = q + 1 + i} (omega arith)))

-- `head_swap` ends after 16 rounds.
head_swap_lem :
    (rounds : ℕ) (mem : ℕ → ℕ)
    → 16 < rounds
    → head_swap rounds mem ≡ some (exchange head_jump magic_head 128 mem)
unfolding head_swap
head_swap_lem rounds mem more =
    swap_loop_lem 16 rounds head_jump magic_head magic_tail mem more (omega arith) (omega arith)

-- The memory `before` the DDR code runs, from `mem` at the start, and the memory `after` the second swap.
pub record Started (blob : (ℕ → ℕ) → ℕ → ℕ) (param : ℕ) (mem before after : ℕ → ℕ) : Type 0 where
  pub code : peek head_jump 0x18 before ≡ peek magic_head 0x18 mem
  pub parameters : peek (head_jump + 0x18) param_len before ≡ bytes_of param_words
  pub rest : (a : ℕ) → head_jump + 0x18 + param_len ≤ a → a < magic_head → before a ≡ mem a
  pub head_back : peek head_jump 128 after ≡ peek head_jump 128 mem
  pub kept :
      (a : ℕ)
      → (a < head_jump) ⊎ (magic_tail ≤ a)
      → (a < magic_head) ⊎ (magic_head + 128 ≤ a)
      → after a ≡ blob before a

abbrev prepared : ℕ → (ℕ → ℕ) → ℕ → ℕ
prepared param mem = copied (head_jump + 0x18) param 128 (exchange head_jump magic_head 128 mem)

-- With the parameters behind the DDR code, and DDR code that leaves alone the place where the loader's first 128
-- bytes are kept meanwhile: both loops end within 33 rounds, `main` is reached, the DDR code has found its
-- first 24 bytes, the parameters of `PARAM`, and the rest of its code in one run, and the first 128 bytes of
-- the loader, with the meta data in them, are back, whatever the DDR code did to them; all else is as the DDR code left it.
pub start-Started :
    (blob : (ℕ → ℕ) → ℕ → ℕ) (param rounds : ℕ) (mem : ℕ → ℕ)
    → 32 < rounds
    → magic_head + 128 ≤ param
    → peek param param_len mem ≡ bytes_of param_words
    → ((m : ℕ → ℕ) (a : ℕ) → magic_head ≤ a → a < magic_head + 128 → blob m a ≡ m a)
    → (before : ℕ → ℕ) × (after : ℕ → ℕ) × (start blob param rounds mem ≡ some after)
      × Started blob param mem before after
unfolding start
start-Started blob param rounds mem more behind has_param keeps =
    let swapped = exchange head_jump magic_head 128 mem in
    let before = prepared param mem in
    let after = exchange head_jump magic_head 128 (blob before) in
    let e1 = head_swap_lem rounds mem (omega arith) in
    let e2 =
      copy_loop_lem 32 rounds (head_jump + 0x18) param (param_len + param) swapped more
        (omega arith) (omega arith) in
    let e3 = head_swap_lem rounds (blob before) (omega arith) in
    (
      before,
      after,
      rw (e1, e2, e3) refl,
      record {
        code = peek_shift head_jump magic_head 0x18 before mem (λ i lt.
            copied_out (head_jump + 0x18) param 128 swapped (head_jump + i) (inl (omega arith))
            ∙ exchange_first head_jump magic_head 128 mem (head_jump + i) (omega arith)
                (omega arith)
            ∙ ap mem (omega arith));
        parameters =
            peek_shift (head_jump + 0x18) param 128 before mem (λ i lt.
              copied_in (head_jump + 0x18) param 128 swapped (head_jump + 0x18 + i) (omega arith)
                (omega arith)
              ∙ exchange_out head_jump magic_head 128 mem
                  (param + (head_jump + 0x18 + i - (head_jump + 0x18))) (inr (omega arith))
                  (inr (omega arith))
              ∙ ap mem (omega arith))
            ∙ has_param;
        rest = λ a lo hi.
            copied_out (head_jump + 0x18) param 128 swapped a (inr (omega arith))
            ∙ exchange_out head_jump magic_head 128 mem a (inr (omega arith)) (inl hi);
        head_back = peek_shift head_jump head_jump 128 after mem (λ i lt.
            exchange_first head_jump magic_head 128 (blob before) (head_jump + i) (omega arith)
              (omega arith)
            ∙ keeps before (magic_head + (head_jump + i - head_jump)) (omega arith) (omega arith)
            ∙ copied_out (head_jump + 0x18) param 128 swapped
                (magic_head + (head_jump + i - head_jump)) (inr (omega arith))
            ∙ exchange_second head_jump magic_head 128 mem
                (magic_head + (head_jump + i - head_jump)) (omega arith) (omega arith) (omega arith)
            ∙ ap mem (omega arith));
        kept = λ a h k. exchange_out head_jump magic_head 128 (blob before) a h k;
      },
    )
