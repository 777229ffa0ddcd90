-- ===== src/Examples/Head.antt =====
-- An example for the start of the loader: DDR code that overwrites the whole head, parameters included.
use rustsbi_d.Base.{ℕ, ◌%◌, ◌≡◌, refl, some, arith, ltb, if◌then◌else◌, le→ltb_false}
use rustsbi_d.Base.Ram.{place, peek-place}
use rustsbi_d.Spl.Head.{param_words, bytes_of, start}
use rustsbi_d.Spl.Head.Laws.{Started, start-Started}

abbrev blob : (ℕ → ℕ) → ℕ → ℕ
blob m a = if ltb a 0x20080 then 0 else m a

abbrev memory : ℕ → ℕ
memory = place 0x28000 (bytes_of param_words) (λ a. a % 256)

start-Started_example :
    (before : ℕ → ℕ) × (after : ℕ → ℕ) × (start blob 0x28000 33 memory ≡ some after)
    × Started blob 0x28000 memory before after
start-Started_example =
    start-Started blob 0x28000 33 memory (omega arith) (omega arith)
      (peek-place 0x28000 (bytes_of param_words) (λ a. a % 256))
      (λ m a lo hi. rw (le→ltb_false a 0x20080 (omega arith)) refl)
