-- ===== src/Xtask/Spinand/Table.antt =====
-- The table that `Components::flash` writes fits the 32-bit words of the flash.
use rustsbi_d.Base.{
  ℕ, ◌+◌, ◌^◌, ◌<◌, ◌≡◌, refl, ap, Bool, true, false, Option, none, some, List, arith, length,
}
use rustsbi_d.Common.FlashMeta.{meta_pos, see_pos, kernel_pos, dtb_pos}
use rustsbi_d.Common.FlashMeta.Laws.{IsMeta, flash_of_bytes-as_bytes}
use rustsbi_d.Common.Bytes.{as_u32s, le_word}
use rustsbi_d.Xtask.Spinand.{meta_len}
use rustsbi_d.Xtask.Spinand.Run.{table_of, start_table, update, new_table}
use mathlib.Core.Path.{subst}
use rustsbi_d.Common.FlashMeta as flash_meta

word_fits :
    (f : ℕ → ℕ) (p q r s : ℕ) → ((a : ℕ) → f a < 2 ^ 8) → le_word (f p) (f q) (f r) (f s) < 2 ^ 32
word_fits f p q r s small = omega (arith, small p, small q, small r, small s)

table_of-IsMeta :
    (f : ℕ → ℕ) (m : flash_meta.Meta) → ((a : ℕ) → f a < 2 ^ 8) → table_of f ≡ some m → IsMeta m
unfolding flash_meta.of_bytes flash_meta.of_words as_u32s
table_of-IsMeta f m small e =
    let word : ℕ → ℕ = λ k.
      le_word (f (meta_pos + k)) (f (meta_pos + k + 1)) (f (meta_pos + k + 2))
        (f (meta_pos + k + 3)) in
    let fits : (k : ℕ) → word k < 2 ^ 32 = λ k.
      word_fits f (meta_pos + k) (meta_pos + k + 1) (meta_pos + k + 2) (meta_pos + k + 3) small in
    let from : Option flash_meta.Meta → flash_meta.Meta = λ o. elim o [ none ↦ m | some n ↦ n ] in
    subst IsMeta (ap from e) (record {
      see_fits = (fits 0, fits 4);
      kernel_fits = (fits 8, fits 12);
      dtb_fits = (fits 16, fits 20);
    })

start_table-IsMeta :
    (reset : Bool) (f : ℕ → ℕ) (m : flash_meta.Meta)
    → ((a : ℕ) → f a < 2 ^ 8)
    → start_table reset f ≡ some m
    → IsMeta m
start_table-IsMeta false f m small e = table_of-IsMeta f m small e
start_table-IsMeta true f m small e =
    let from : Option flash_meta.Meta → flash_meta.Meta = λ o. elim o [ none ↦ m | some n ↦ n ] in
    subst IsMeta (ap from e) (record {
      see_fits = (omega arith, omega arith);
      kernel_fits = (omega arith, omega arith);
      dtb_fits = (omega arith, omega arith);
    })

set_see-IsMeta :
    (b : Option (List ℕ)) (m : flash_meta.Meta)
    → IsMeta m
    → IsMeta (update see_pos flash_meta.set_see b m)
unfolding flash_meta.set_see
set_see-IsMeta none m h = h
set_see-IsMeta (some bytes) m h = record {
  see_fits = (omega arith, omega arith);
  kernel_fits = h.kernel_fits;
  dtb_fits = h.dtb_fits;
}

set_kernel-IsMeta :
    (b : Option (List ℕ)) (m : flash_meta.Meta)
    → IsMeta m
    → IsMeta (update kernel_pos flash_meta.set_kernel b m)
unfolding flash_meta.set_kernel
set_kernel-IsMeta none m h = h
set_kernel-IsMeta (some bytes) m h = record {
  kernel_fits = (omega arith, omega arith);
  see_fits = h.see_fits;
  dtb_fits = h.dtb_fits;
}

set_dtb-IsMeta :
    (b : Option (List ℕ)) (m : flash_meta.Meta)
    → IsMeta m
    → IsMeta (update dtb_pos flash_meta.set_dtb b m)
unfolding flash_meta.set_dtb
set_dtb-IsMeta none m h = h
set_dtb-IsMeta (some bytes) m h = record {
  dtb_fits = (omega arith, omega arith);
  see_fits = h.see_fits;
  kernel_fits = h.kernel_fits;
}

new_table-IsMeta :
    (see kernel dtb : Option (List ℕ)) (m : flash_meta.Meta)
    → IsMeta m
    → IsMeta (new_table see kernel dtb m)
new_table-IsMeta see kernel dtb m h =
    let m1 = update see_pos flash_meta.set_see see m in
    set_dtb-IsMeta dtb (update kernel_pos flash_meta.set_kernel kernel m1)
      (set_kernel-IsMeta kernel m1 (set_see-IsMeta see m h))

-- The bytes that are written read back as the table.
pub new_table_fits :
    (reset : Bool) (f : ℕ → ℕ) (m : flash_meta.Meta) (see kernel dtb : Option (List ℕ))
    → ((a : ℕ) → f a < 2 ^ 8)
    → start_table reset f ≡ some m
    → flash_meta.of_bytes (flash_meta.as_bytes (new_table see kernel dtb m))
      ≡ some (new_table see kernel dtb m)
new_table_fits reset f m see kernel dtb small e =
    flash_of_bytes-as_bytes (new_table see kernel dtb m)
      (new_table-IsMeta see kernel dtb m (start_table-IsMeta reset f m small e))

pub length-as_bytes : (m : flash_meta.Meta) → length (flash_meta.as_bytes m) ≡ meta_len
unfolding flash_meta.as_bytes
length-as_bytes m = refl
