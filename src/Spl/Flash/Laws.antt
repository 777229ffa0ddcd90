-- ===== src/Spl/Flash/Laws.antt =====
-- `copy_into`: its polls, its rounds, and the bytes of the flash.
use rustsbi_d.Base.{
  ◌>>=◌, ℕ, zero, suc, ◌+◌, ◌-◌, ◌*◌, ◌/◌, ◌%◌, ◌^◌, ◌≤◌, ◌<◌, min, bit_and, ◌≡◌, refl, sym, ap,
  ◌∙◌, some, List, [], ◌∷◌, ◌++◌, arith, u32,
}
use native.Mathlib.Decide.{dec_lt}
use native.Mathlib.Nat.{suc-add}
use mathlib.Core.Path.{ap₂}
use rustsbi_d.Base.{suc, min}
use rustsbi_d.Base.Bits.{bit_and_mask}
use rustsbi_d.Spl.Flash.{
  page_command, cache_command, read_part, copy_into, wait, get_feature, cmd_get_feature,
  feat_status, len_page, len_page_mask, get_feature, wait, read_part, copy_into,
}
use rustsbi_d.Spl.Flash.Chip.{image, flash, IsNand}

image-append : (f : ℕ → ℕ) (a m n : ℕ) → image f a (m + n) ≡ image f a m ++ image f (a + m) n
image-append f a zero n = ground arith
image-append f a (suc m) n =
    ap (λ k. image f a k) (suc-add m n)
    ∙ ap (λ l. f a ∷ l)
        (image-append f (a + 1) m n ∙ ap (λ k. image f (a + 1) m ++ image f k n) (omega arith))

-- An address that wraps at the end of the 32 bits has nothing left to read behind it.
image_wrap : (f : ℕ → ℕ) (a n : ℕ) → a + n ≤ 2 ^ 32 → image f (u32 a) n ≡ image f a n
image_wrap f a zero h = refl
image_wrap f a (suc n) h = ap (λ k. image f k (suc n)) (omega arith)

image-page :
    (page : ℕ → ℕ → ℕ) (p c n : ℕ)
    → c + n ≤ len_page
    → image (page p) c n ≡ image (flash page) (p * len_page + c) n
image-page page p c zero h = refl
image-page page p c (suc n) h =
    ap₂ ◌∷◌ (ap₂ page (omega arith) (omega arith))
      (image-page page p (c + 1) n (omega arith) ∙ ap (λ k. image (flash page) k n) (omega arith))

module _ {D : Type 0} (transfer : List ℕ → ℕ → ℕ → D → List ℕ × D) (page : ℕ → ℕ → ℕ)
    (busy loaded : D → ℕ) (latency : ℕ) (chip : IsNand transfer page busy loaded latency) where
  -- The chip after one poll.
  abbrev polled : D → D
  polled d = (transfer (cmd_get_feature ∷ feat_status ∷ []) 0 1 d).1

  status_bit : (d : D) → (get_feature transfer feat_status d).0 % 2 ≡ min 1 (busy d)
  unfolding get_feature
  status_bit d = (chip.status d).0

  wait-busy :
      (polls : ℕ) (d : D)
      → 0 < busy d
      → wait transfer (suc polls) d ≡ wait transfer polls (polled d)
  unfolding wait get_feature
  wait-busy polls d h =
      ground (arith, status_bit d, bit_and_mask 1 (get_feature transfer feat_status d).0)

  wait_idle : (polls : ℕ) (d : D) → busy d ≡ 0 → wait transfer (suc polls) d ≡ some (polled d)
  unfolding wait get_feature
  wait_idle polls d h =
      ground (arith, status_bit d, bit_and_mask 1 (get_feature transfer feat_status d).0)

  -- With more polls than the chip is busy for, the wait ends with the chip ready.
  pub wait_ready :
      (polls : ℕ) (d : D)
      → busy d < polls
      → (d' : D) × (wait transfer polls d ≡ some d') × (busy d' ≡ 0) × (loaded d' ≡ loaded d)
  wait_ready zero d h = absurd (omega arith)
  wait_ready (suc polls) d h =
      let s = chip.status d in
      elim (dec_lt 0 (busy d)) [
        | yes p ↦
            let (d', e, ready, same) = wait_ready polls (polled d) (omega (arith, s.1)) in
            (d', wait-busy polls d p ∙ e, ready, same ∙ s.2)
        | no np ↦ (polled d, wait_idle polls d (omega arith), omega (arith, s.1), s.2)
      ]

  page_loaded :
      (base : ℕ) (d : D)
      → busy d ≡ 0
      → base < 2 ^ 32
      → loaded (transfer (page_command base) 0 0 d).1 ≡ base / len_page
  page_loaded base d ready fits =
      chip.page_read d _ _ _ ready (omega arith) (omega arith) (omega arith) ∙ omega arith

  part_image :
      (base count : ℕ) (d : D)
      → busy d ≡ 0
      → loaded d ≡ base / len_page
      → base % len_page + count ≤ len_page
      → (transfer (cache_command base) 1 count d).0 ≡ image (flash page) base count
  part_image base count d ready here inside =
      let ca : bit_and base len_page_mask ≡ base % len_page = bit_and_mask 11 base in
      chip.cache_read d _ _ count ready (omega arith) (omega arith) (omega (arith, ca))
      ∙ ap₂ (λ p c. image (page p) c count) here (omega (arith, ca))
      ∙ image-page page (base / len_page) (base % len_page) count inside
      ∙ ap (λ k. image (flash page) k count) (omega arith)

  -- One round reads `count` bytes from `base` on, which must lie in one page.
  read_part_lem :
      (polls base count : ℕ) (d : D)
      → latency < polls
      → base < 2 ^ 32
      → base % len_page + count ≤ len_page
      → (d' : D) × (read_part transfer polls base count d
          ≡ some (image (flash page) base count, d'))
  unfolding read_part
  read_part_lem polls base count d enough fits inside =
      let (d1, e1, ready1, _) = wait_ready polls d (omega (arith, chip.prompt d)) in
      let d2 = (transfer (page_command base) 0 0 d1).1 in
      let (d3, e3, ready3, same3) = wait_ready polls d2 (omega (arith, chip.prompt d2)) in
      (
        (transfer (cache_command base) 1 count d3).1,
        ap
              (λ o. o >>= λ d. wait transfer polls (transfer (page_command base) 0 0 d).1 >>= λ d'.
                some (transfer (cache_command base) 1 count d'))
              e1
            ∙ ap (λ o. o >>= λ d'. some (transfer (cache_command base) 1 count d')) e3
            ∙ ap (λ l. some (l, (transfer (cache_command base) 1 count d3).1))
                (part_image base count d3 ready3 (same3 ∙ page_loaded base d1 ready1 fits) inside),
      )

  copy_into_lem :
      (polls rounds base size : ℕ) (d : D)
      → latency < polls
      → size ≤ rounds
      → base + size ≤ 2 ^ 32
      → (d' : D) × (copy_into transfer polls rounds base size d
          ≡ some (image (flash page) base size, d'))
  unfolding copy_into
  copy_into_lem polls rounds base zero d enough r fits = (d, refl)
  copy_into_lem polls zero base (suc left) d enough r fits = absurd (omega arith)
  copy_into_lem polls (suc rounds) base (suc left) d enough r fits =
      let count = min (suc left) (len_page - bit_and base len_page_mask) in
      let ca : bit_and base len_page_mask ≡ base % len_page = bit_and_mask 11 base in
      let (d1, e1) = read_part_lem polls base count d enough (omega arith) (omega (arith, ca)) in
      let (d2, e2) =
        copy_into_lem polls rounds (u32 (base + count)) (suc left - count) d1 enough
          (omega (arith, ca)) (omega (arith, ca)) in
      let goal : (read_part transfer polls base count d >>= λ part.
      copy_into transfer polls rounds (u32 (base + count)) (suc left - count) part.1 >>= λ rest.
      some (part.0 ++ rest.0, rest.1))
          ≡ some (
            image (flash page) base count
                ++ image (flash page) (u32 (base + count)) (suc left - count),
            d2,
          ) =
        ap
          (λ o. o >>= λ part.
            copy_into transfer polls rounds (u32 (base + count)) (suc left - count) part.1
            >>= λ rest. some (part.0 ++ rest.0, rest.1))
          e1
        ∙ ap (λ o. o >>= λ rest. some (image (flash page) base count ++ rest.0, rest.1)) e2 in
      (
        d2,
        goal
            ∙ ap (λ l. some (l, d2))
                (ap (λ l. image (flash page) base count ++ l)
                    (image_wrap (flash page) (base + count) (suc left - count) (omega arith))
                  ∙ sym (image-append (flash page) base count (suc left - count))
                  ∙ ap (image (flash page) base) {y = suc left} (omega arith)),
      )

-- With a chip that becomes ready within fewer polls than the loop is given, and a range below
-- 4 GiB, `copy_into` ends, and it filled the buffer with exactly the bytes of the flash from
-- `base` on, over however many pages.
pub copy_into-image :
    {D : Type 0} (transfer : List ℕ → ℕ → ℕ → D → List ℕ × D) (page : ℕ → ℕ → ℕ)
    (busy loaded : D → ℕ) (latency polls base size : ℕ) (d : D)
    → IsNand transfer page busy loaded latency
    → latency < polls
    → base + size ≤ 2 ^ 32
    → (d' : D) × (copy_into transfer polls size base size d
        ≡ some (image (flash page) base size, d'))
copy_into-image transfer page busy loaded latency polls base size d chip enough fits =
    copy_into_lem transfer page busy loaded latency chip polls size base size d enough (omega arith)
      fits
