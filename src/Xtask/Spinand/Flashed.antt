-- ===== src/Xtask/Spinand/Flashed.antt =====
-- `Components::flash`: where everything lies on the flash when it is done.
use rustsbi_d.Base.{
  ℕ, ◌-◌, ◌^◌, ◌≤◌, ◌≡◌, refl, sym, ap, ◌∙◌, ◌⊎◌, inl, inr, Option, some, List, arith, length,
}
use rustsbi_d.Common.FlashMeta.{meta_pos, see_pos, kernel_pos, dtb_pos}
use rustsbi_d.Base.Ram.{peek}
use rustsbi_d.Xtask.Spinand.Layout.{
  unit, IsProgram, Agree, Part, Fits, stored, stored-Agree, stored-Part, Part-after, Part-before,
}
use rustsbi_d.Xtask.Spinand.Run.{table_of}
use rustsbi_d.Xtask.Spinand.{meta_len}
use rustsbi_d.Xtask.World.{Host}
use rustsbi_d.Common.FlashMeta as flash_meta

-- The flash `g` after the tool ran on `f`: the loader's image, the table, and each payload in its place; what was not given is as it was.
pub record Flashed (f g : ℕ → ℕ) (image see kernel dtb : Option (List ℕ)) (table : flash_meta.Meta)
    : Type 0 where
  pub image_part : Part 0 meta_pos image f g
  pub table_part : table_of g ≡ some table
  pub see_part : Part see_pos dtb_pos see f g
  pub dtb_part : Part dtb_pos kernel_pos dtb f g
  pub kernel_part : Part kernel_pos (2 ^ 32) kernel f g

module _ (h : Host) (xfel : IsProgram h.program) (f : ℕ → ℕ)
    (image see kernel dtb : Option (List ℕ)) (entries : List ℕ) (image_fits : Fits unit image)
    (see_fits : Fits unit see) (dtb_fits : Fits unit dtb)
    (kernel_fits : Fits (2 ^ 32 - kernel_pos) kernel) (entries_fit : length entries ≤ unit) where
  abbrev f1 : ℕ → ℕ
  f1 = stored h 0 image f

  abbrev f2 : ℕ → ℕ
  f2 = stored h see_pos see f1

  abbrev f3 : ℕ → ℕ
  f3 = stored h kernel_pos kernel f2

  abbrev f4 : ℕ → ℕ
  f4 = stored h dtb_pos dtb f3

  abbrev f5 : ℕ → ℕ
  f5 = h.program meta_pos entries f4

  step1 : (lo hi : ℕ) → unit ≤ lo → Agree lo hi f f1
  step1 lo hi apart =
      stored-Agree h xfel 0 unit image f lo hi refl refl image_fits (inr (omega arith))

  step2 : (lo hi : ℕ) → (hi ≤ see_pos) ⊎ (dtb_pos ≤ lo) → Agree lo hi f1 f2
  step2 lo hi apart = stored-Agree h xfel see_pos unit see f1 lo hi refl refl see_fits apart

  step3 : (lo hi : ℕ) → (hi ≤ kernel_pos) ⊎ (2 ^ 32 ≤ lo) → Agree lo hi f2 f3
  step3 lo hi apart =
      stored-Agree h xfel kernel_pos (2 ^ 32 - kernel_pos) kernel f2 lo hi refl refl kernel_fits
        apart

  step4 : (lo hi : ℕ) → (hi ≤ dtb_pos) ⊎ (kernel_pos ≤ lo) → Agree lo hi f3 f4
  step4 lo hi apart = stored-Agree h xfel dtb_pos unit dtb f3 lo hi refl refl dtb_fits apart

  step5 : (lo hi : ℕ) → (hi ≤ meta_pos) ⊎ (see_pos ≤ lo) → Agree lo hi f4 f5
  step5 lo hi apart =
      stored-Agree h xfel meta_pos unit (some entries) f4 lo hi refl refl entries_fit apart

  join : (lo hi : ℕ) (a b c : ℕ → ℕ) → Agree lo hi a b → Agree lo hi b c → Agree lo hi a c
  join lo hi a b c ab bc = λ x lx hx. bc x lx hx ∙ ab x lx hx

  pub image_lem : Part 0 meta_pos image f f5
  image_lem =
      let later = join 0 meta_pos f1 f2 f5 (step2 0 meta_pos (inl (omega arith))) (
        join 0 meta_pos f2 f3 f5 (step3 0 meta_pos (inl (omega arith))) (
          join 0 meta_pos f3 f4 f5 (step4 0 meta_pos (inl (omega arith)))
            (step5 0 meta_pos (inl (omega arith))))) in
      Part-after 0 meta_pos image f f1 f5 image_fits (stored-Part h xfel 0 meta_pos image f) later

  pub see_lem : Part see_pos dtb_pos see f f5
  see_lem =
      let later = join see_pos dtb_pos f2 f3 f5 (step3 see_pos dtb_pos (inl (omega arith))) (
        join see_pos dtb_pos f3 f4 f5 (step4 see_pos dtb_pos (inl (omega arith)))
          (step5 see_pos dtb_pos (inr (omega arith)))) in
      Part-before see_pos dtb_pos see f f1 f5 (step1 see_pos dtb_pos (omega arith)) (
        Part-after see_pos dtb_pos see f1 f2 f5 see_fits (stored-Part h xfel see_pos dtb_pos see f1)
          later)

  pub kernel_lem : Part kernel_pos (2 ^ 32) kernel f f5
  kernel_lem =
      let e = 2 ^ 32 in
      let later =
        join kernel_pos e f3 f4 f5 (step4 kernel_pos e (inr (omega arith)))
          (step5 kernel_pos e (inr (omega arith))) in
      let earlier =
        join kernel_pos e f f1 f2 (step1 kernel_pos e (omega arith))
          (step2 kernel_pos e (inr (omega arith))) in
      Part-before kernel_pos e kernel f f2 f5 earlier (
        Part-after kernel_pos e kernel f2 f3 f5 kernel_fits
          (stored-Part h xfel kernel_pos e kernel f2) later)

  pub dtb_lem : Part dtb_pos kernel_pos dtb f f5
  dtb_lem =
      let earlier = join dtb_pos kernel_pos f f1 f3 (step1 dtb_pos kernel_pos (omega arith)) (
        join dtb_pos kernel_pos f1 f2 f3 (step2 dtb_pos kernel_pos (inr (omega arith)))
          (step3 dtb_pos kernel_pos (inl (omega arith)))) in
      Part-before dtb_pos kernel_pos dtb f f3 f5 earlier (
        Part-after dtb_pos kernel_pos dtb f3 f4 f5 dtb_fits
          (stored-Part h xfel dtb_pos kernel_pos dtb f3)
          (step5 dtb_pos kernel_pos (inr (omega arith))))

  -- The table reads back, and is no part of the regions of the payloads.
  table_lem :
      (table : flash_meta.Meta)
      → flash_meta.of_bytes entries ≡ some table
      → length entries ≡ meta_len
      → table_of f5 ≡ some table
  table_lem table e n =
      ap (λ k. flash_meta.of_bytes (peek meta_pos k f5)) (sym n)
      ∙ ap flash_meta.of_bytes (xfel.written meta_pos entries f4)
      ∙ e

  pub Flashed_lem :
      (table : flash_meta.Meta)
      → flash_meta.of_bytes entries ≡ some table
      → length entries ≡ meta_len
      → Flashed f f5 image see kernel dtb table
  Flashed_lem table e n = record {
    image_part = image_lem;
    table_part = table_lem table e n;
    see_part = see_lem;
    dtb_part = dtb_lem;
    kernel_part = kernel_lem;
  }
