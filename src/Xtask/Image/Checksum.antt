-- ===== src/Xtask/Image/Checksum.antt =====
-- The checksum of the image of the loader, and why the boot ROM accepts it.
use rustsbi_d.Base.{
  ℕ, zero, suc, ◌+◌, ◌/◌, ◌%◌, ◌^◌, ◌≤◌, ◌<◌, ◌≡◌, refl, sym, ap, ◌∙◌, List, [], ◌∷◌, arith, length,
  get_or, set, length-set, get_or-set_self, get_or-set_ne, u8, u32,
}
use mathlib.Core.Path.{subst}
use rustsbi_d.Common.Payload.{stamp, default_head}
use rustsbi_d.Common.Bytes.{word_of_bytes, le_word, as_u32s}
use rustsbi_d.Xtask.Image.{
  image_len, buffer, wrapping_sum_from, wrapping_sum, read_checksum, write_checksum, flag_at,
  checked_image, sum, IsBootable,
}

wrapping_sum_from_lem :
    (acc : ℕ) (ws : List ℕ) → acc < 2 ^ 32 → wrapping_sum_from acc ws ≡ (acc + sum ws) % 2 ^ 32
unfolding wrapping_sum_from sum
wrapping_sum_from_lem acc [] h = omega arith
wrapping_sum_from_lem acc (w ∷ ws) h =
    wrapping_sum_from_lem (u32 (acc + w)) ws (omega arith) ∙ omega arith

wrapping_sum_lem : (v w : ℕ) (ws : List ℕ) → wrapping_sum (v ∷ w ∷ ws) ≡ sum (v ∷ w ∷ ws) % 2 ^ 32
unfolding wrapping_sum wrapping_sum_from sum
wrapping_sum_lem v w ws = wrapping_sum_from_lem (u32 (v + w)) ws (omega arith) ∙ omega arith

split4 :
    (l : List ℕ)
    → 4 ≤ length l
    → (a : ℕ) × (b : ℕ) × (c : ℕ) × (d : ℕ) × (r : List ℕ) × (l ≡ a ∷ b ∷ c ∷ d ∷ r)
split4 [] h = absurd (omega arith)
split4 (a ∷ []) h = absurd (omega arith)
split4 (a ∷ b ∷ []) h = absurd (omega arith)
split4 (a ∷ b ∷ c ∷ []) h = absurd (omega arith)
split4 (a ∷ b ∷ c ∷ d ∷ r) h = (a, b, c, d, r, refl)

length-buffer : (n : ℕ) (bytes : List ℕ) → length (buffer n bytes) ≡ n
unfolding buffer
length-buffer zero bytes = refl
length-buffer (suc n) [] = ap suc (length-buffer n [])
length-buffer (suc n) (b ∷ bytes) = ap suc (length-buffer n bytes)

get_or-buffer : (n i : ℕ) (bytes : List ℕ) → i < n → get_or (buffer n bytes) i 0 ≡ get_or bytes i 0
unfolding buffer
get_or-buffer zero i bytes h = absurd (omega arith)
get_or-buffer (suc n) zero [] h = refl
get_or-buffer (suc n) (suc i) [] h = get_or-buffer n i [] (omega arith)
get_or-buffer (suc n) zero (b ∷ bytes) h = refl
get_or-buffer (suc n) (suc i) (b ∷ bytes) h = get_or-buffer n i bytes (omega arith)

filled_at :
    (b0 b1 b2 b3 b4 b5 b6 b7 b8 b9 b10 b11 b12 b13 b14 b15 : ℕ) (rest : List ℕ)
    → le_word b12 b13 b14 b15 ≡ stamp
    → let l =
        b0 ∷ b1 ∷ b2 ∷ b3 ∷ b4 ∷ b5 ∷ b6 ∷ b7 ∷ b8 ∷ b9 ∷ b10 ∷ b11 ∷ b12 ∷ b13 ∷ b14 ∷ b15
        ∷ rest in
      IsBootable (write_checksum (wrapping_sum (as_u32s l)) l)
unfolding IsBootable as_u32s
filled_at b0 b1 b2 b3 b4 b5 b6 b7 b8 b9 b10 b11 b12 b13 b14 b15 rest stamped =
    let l =
      b0 ∷ b1 ∷ b2 ∷ b3 ∷ b4 ∷ b5 ∷ b6 ∷ b7 ∷ b8 ∷ b9 ∷ b10 ∷ b11 ∷ b12 ∷ b13 ∷ b14 ∷ b15 ∷ rest in
    let w0 = le_word b0 b1 b2 b3 in
    let w1 = le_word b4 b5 b6 b7 in
    let ws = le_word b8 b9 b10 b11 ∷ le_word b12 b13 b14 b15 ∷ as_u32s rest in
    let c = wrapping_sum (as_u32s l) in
    let total : c ≡ sum (w0 ∷ w1 ∷ ws) % 2 ^ 32 = wrapping_sum_lem w0 w1 ws in
    ap (λ t. (w0 + (w1 + (le_word b8 b9 b10 b11 + (t + sum (as_u32s rest))))) % 2 ^ 32) {x = stamp}
      (sym stamped)
    ∙ sym total
    ∙ sym (word_of_bytes c (omega (arith, total)))

-- The checksum of a file that has the stamp in its place.
filled :
    (l : List ℕ)
    → 16 ≤ length l
    → read_checksum l ≡ stamp
    → IsBootable (write_checksum (wrapping_sum (as_u32s l)) l)
filled l long stamped =
    let (b0, b1, b2, b3, r0, e0) = split4 l (omega arith) in
    let (b4, b5, b6, b7, r1, e1) = split4 r0 (omega (arith, ap length e0)) in
    let (b8, b9, b10, b11, r2, e2) = split4 r1 (omega (arith, ap length e0, ap length e1)) in
    let (b12, b13, b14, b15, r3, e3) =
      split4 r2 (omega (arith, ap length e0, ap length e1, ap length e2)) in
    let e : l
        ≡ b0 ∷ b1 ∷ b2 ∷ b3 ∷ b4 ∷ b5 ∷ b6 ∷ b7 ∷ b8 ∷ b9 ∷ b10 ∷ b11 ∷ b12 ∷ b13 ∷ b14 ∷ b15 ∷ r3 =
      e0
      ∙ ap (λ r. b0 ∷ b1 ∷ b2 ∷ b3 ∷ r)
          (e1 ∙ ap (λ r. b4 ∷ b5 ∷ b6 ∷ b7 ∷ r) (e2 ∙ ap (λ r. b8 ∷ b9 ∷ b10 ∷ b11 ∷ r) e3)) in
    let s : le_word b12 b13 b14 b15 ≡ stamp = sym (ap read_checksum e) ∙ stamped in
    subst (λ t. IsBootable (write_checksum (wrapping_sum (as_u32s t)) t)) (sym e)
      (filled_at b0 b1 b2 b3 b4 b5 b6 b7 b8 b9 b10 b11 b12 b13 b14 b15 r3 s)

length-write_checksum : (c : ℕ) (l : List ℕ) → length (write_checksum c l) ≡ length l
length-write_checksum c l =
    let l1 = set l 12 (u8 c) in
    let l2 = set l1 13 (u8 (c / 2 ^ 8)) in
    let l3 = set l2 14 (u8 (c / 2 ^ 16)) in
    length-set l3 15 (u8 (c / 2 ^ 24))
    ∙ length-set l2 14 (u8 (c / 2 ^ 16))
    ∙ length-set l1 13 (u8 (c / 2 ^ 8))
    ∙ length-set l 12 (u8 c)

-- Past the checksum nothing changes.
get_or-write_checksum :
    (c : ℕ) (l : List ℕ) (i : ℕ) → 16 ≤ i → get_or (write_checksum c l) i 0 ≡ get_or l i 0
get_or-write_checksum c l i h =
    let l1 = set l 12 (u8 c) in
    let l2 = set l1 13 (u8 (c / 2 ^ 8)) in
    let l3 = set l2 14 (u8 (c / 2 ^ 16)) in
    get_or-set_ne l3 15 i (u8 (c / 2 ^ 24)) 0 (λ e. absurd (omega (arith, e)))
    ∙ get_or-set_ne l2 14 i (u8 (c / 2 ^ 16)) 0 (λ e. absurd (omega (arith, e)))
    ∙ get_or-set_ne l1 13 i (u8 (c / 2 ^ 8)) 0 (λ e. absurd (omega (arith, e)))
    ∙ get_or-set_ne l 12 i (u8 c) 0 (λ e. absurd (omega (arith, e)))

read_checksum_same :
    (a b : List ℕ)
    → ((i : ℕ) → i < flag_at → get_or a i 0 ≡ get_or b i 0)
    → read_checksum a ≡ read_checksum b
read_checksum_same a b h =
    ap (λ t. le_word t (get_or a 13 0) (get_or a 14 0) (get_or a 15 0)) (h 12 (omega arith))
    ∙ ap (λ t. le_word (get_or b 12 0) t (get_or a 14 0) (get_or a 15 0)) (h 13 (omega arith))
    ∙ ap (λ t. le_word (get_or b 12 0) (get_or b 13 0) t (get_or a 15 0)) (h 14 (omega arith))
    ∙ ap (λ t. le_word (get_or b 12 0) (get_or b 13 0) (get_or b 14 0) t) (h 15 (omega arith))

checked_lem :
    (raw bytes : List ℕ)
    → length raw ≡ image_len
    → ((i : ℕ) → i < flag_at → get_or raw i 0 ≡ get_or bytes i 0)
    → read_checksum bytes ≡ stamp
    → let file = set raw flag_at 1 in
      let image = write_checksum (wrapping_sum (as_u32s file)) file in
      (length image ≡ image_len) × (get_or image flag_at 0 ≡ 1) × IsBootable image
checked_lem raw bytes n same stamped =
    let file = set raw flag_at 1 in
    let m = length-set raw flag_at 1 ∙ n in
    let c = wrapping_sum (as_u32s file) in
    let word : read_checksum file ≡ stamp =
      read_checksum_same file bytes
        (λ i lt. get_or-set_ne raw flag_at i 1 0 (λ e. absurd (omega (arith, e))) ∙ same i lt)
      ∙ stamped in
    (
      length-write_checksum c file ∙ m,
      get_or-write_checksum c file flag_at (omega arith)
          ∙ get_or-set_self raw flag_at 1 0 (omega (arith, n)),
      filled file (omega (arith, m)) word,
    )

pub length-checked_image : (bytes : List ℕ) → length (checked_image bytes) ≡ image_len
unfolding checked_image
length-checked_image bytes =
    let raw = buffer image_len bytes in
    length-write_checksum (wrapping_sum (as_u32s (set raw flag_at 1))) (set raw flag_at 1)
    ∙ length-set raw flag_at 1
    ∙ length-buffer image_len bytes

-- The image that `flash` writes, for a file that has the stamp where the checksum goes: it has the length that the head
-- states, the boot flag of the meta data is set, and the checksum is the one that the boot ROM computes.
pub checked_image-IsBootable :
    (bytes : List ℕ)
    → read_checksum bytes ≡ stamp
    → (length (checked_image bytes) ≡ default_head.length)
      × (get_or (checked_image bytes) flag_at 0 ≡ 1)
      × IsBootable (checked_image bytes)
unfolding checked_image
checked_image-IsBootable bytes stamped =
    checked_lem (buffer image_len bytes) bytes (length-buffer image_len bytes)
      (λ i lt. get_or-buffer image_len i bytes (omega arith)) stamped
