-- ===== src/Xtask/Make/Stamp.antt =====
-- `Components::make` lets no loader through whose stamp is wrong.
use rustsbi_d.Base.{
  ℕ, zero, suc, ◌+◌, ◌-◌, ◌≤◌, ◌<◌, min, ◌≡◌, refl, ap, ◌∙◌, ◌≢◌, ◌⊎◌, inl, inr, true, false, some,
  List, [], ◌∷◌, arith, ltb, ◌==◌, if◌then◌else◌, Bool-cases, lt→ltb, le→ltb_false, length, get_or,
  take, drop,
}
use rustsbi_d.Common.Payload.{stamp}
use rustsbi_d.Xtask.Result.{◌>>=◌, io_error, unexpected_eof, invalid_stamp, err, Result, ok}
use rustsbi_d.Xtask.World.{files-write_file, bin, spl, write_file, World, Target, Host}
use rustsbi_d.Xtask.Image.{read_checksum}
use rustsbi_d.Xtask.Make.{
  make_kernel, make_see, make_dtb, make, default_target, Components, make_spl, head_len,
}
use rustsbi_d.Common.Bytes.{le_word}

get_or-drop : (n : ℕ) (xs : List ℕ) (i : ℕ) → get_or (drop n xs) i 0 ≡ get_or xs (n + i) 0
get_or-drop zero xs i = ap (λ k. get_or xs k 0) {x = i} {y = 0 + i} (omega arith)
get_or-drop (suc n) [] i = refl
get_or-drop (suc n) (x ∷ xs) i =
    get_or-drop n xs i
    ∙ ap (λ k. get_or (x ∷ xs) k 0) {x = suc (n + i)} {y = suc n + i} (omega arith)

get_or-take : (n : ℕ) (xs : List ℕ) (i : ℕ) → i < n → get_or (take n xs) i 0 ≡ get_or xs i 0
get_or-take zero xs i h = absurd (omega arith)
get_or-take (suc n) [] i h = refl
get_or-take (suc n) (x ∷ xs) zero h = refl
get_or-take (suc n) (x ∷ xs) (suc i) h = get_or-take n xs i (omega arith)

length-take-drop : (m n : ℕ) (xs : List ℕ) → length (take n (drop m xs)) ≡ min n (length xs - m)
length-take-drop zero zero xs = omega arith
length-take-drop zero (suc n) [] = omega arith
length-take-drop zero (suc n) (x ∷ xs) = omega (arith, length-take-drop zero n xs)
length-take-drop (suc m) zero [] = omega arith
length-take-drop (suc m) (suc n) [] = omega arith
length-take-drop (suc m) n (x ∷ xs) = length-take-drop m n xs ∙ omega arith

head_at :
    (bytes : List ℕ) (i : ℕ)
    → i < head_len
    → get_or (take head_len (drop 4 bytes)) i 0 ≡ get_or bytes (4 + i) 0
head_at bytes i h = get_or-take head_len (drop 4 bytes) i h ∙ get_or-drop 4 bytes i

head_checksum_lem :
    (bytes : List ℕ)
    → let head = take head_len (drop 4 bytes) in
      le_word (get_or head 8 0) (get_or head 9 0) (get_or head 10 0) (get_or head 11 0)
      ≡ read_checksum bytes
head_checksum_lem bytes = ground (
  arith,
  head_at bytes 8 (omega arith),
  head_at bytes 9 (omega arith),
  head_at bytes 10 (omega arith),
  head_at bytes 11 (omega arith),
)

short_lem : (n : ℕ) → ltb (min head_len (n - 4)) head_len ≡ ltb n (4 + head_len)
short_lem n = ground arith

read_head_short :
    (bytes : List ℕ)
    → ltb (length (take head_len (drop 4 bytes))) head_len ≡ ltb (length bytes) (4 + head_len)
read_head_short bytes =
    ap (λ k. ltb k head_len) (length-take-drop 4 head_len bytes) ∙ short_lem (length bytes)

-- The three ends of the loader's part, by its binary.
make_spl_lem :
    (h : Host) (s : Target × World)
    → let bytes = h.build spl in
      make_spl h true s ≡ (
        if ltb (length bytes) (4 + head_len)
        then err (io_error unexpected_eof)
        else if read_checksum bytes == stamp
        then ok (record s.0 { spl = some (bin spl) }, write_file (bin spl) (h.build spl) s.1)
        else err invalid_stamp)
unfolding make_spl
make_spl_lem h (t, w) = rw (files-write_file (bin spl) (h.build spl) w) (
    rw (read_head_short (h.build spl))
      (elim (Bool-cases (ltb (length (h.build spl)) (4 + head_len))) [
        | inl e ↦ rw e refl
        | inr e ↦ rw (e, head_checksum_lem (h.build spl)) refl
      ]))

ne→==_false : (a b : ℕ) → a ≢ b → (a == b) ≡ false
ne→==_false a b h = ground arith

lt_or_ge : (a b : ℕ) → (a < b) ⊎ (b ≤ a)
lt_or_ge a b = ground arith

make_lem :
    (h : Host) (c : Components) (w : World) (r : Result (Target × World))
    → c.spl ≡ true
    → make_spl h true (default_target, w) ≡ r
    → make h c w ≡ (
        r >>= λ s1.
        make_see h c.see s1 >>= λ s2. make_kernel h c.kernel s2 >>= λ s3. make_dtb h c.dt s3)
unfolding make
make_lem h c w r wanted e = rw (wanted, e) refl

-- When the loader is wanted and its binary is too short for its head, or its head does not have the stamp, `make` fails,
-- with the error of the first of the two.
pub make_refuses :
    (h : Host) (c : Components) (w : World)
    → c.spl ≡ true
    → (length (h.build spl) < 4 + head_len) ⊎ (read_checksum (h.build spl) ≢ stamp)
    → make h c w
      ≡ err (
          if ltb (length (h.build spl)) (4 + head_len)
          then io_error unexpected_eof
          else invalid_stamp)
make_refuses h c w wanted wrong =
    let bytes = h.build spl in
    let first = make_spl_lem h (default_target, w) in
    elim (lt_or_ge (length bytes) (4 + head_len)) [
      | inl lt ↦
          let b = lt→ltb (length bytes) (4 + head_len) lt in
          make_lem h c w (err (io_error unexpected_eof)) wanted (first ∙ rw b refl) ∙ rw b refl
      | inr le ↦
          let b = le→ltb_false (length bytes) (4 + head_len) le in
          let ne : read_checksum bytes ≢ stamp =
            λ e. elim wrong [ inl lt ↦ absurd (omega arith) | inr n ↦ n e ] in
          make_lem h c w (err invalid_stamp) wanted
            (first ∙ rw b (rw (ne→==_false (read_checksum bytes) stamp ne) refl))
          ∙ rw b refl
    ]
