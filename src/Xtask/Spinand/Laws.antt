-- ===== src/Xtask/Spinand/Laws.antt =====
-- `Components::flash` as a whole: it succeeds, and leaves the flash as the loader expects it.
use rustsbi_d.Base.{
  ℕ, ◌-◌, ◌^◌, ◌<◌, ◌≡◌, refl, sym, ap, ◌∙◌, inr, Bool, true, false, ◌&&◌, Option, none, some, List,
  arith,
}
use rustsbi_d.Base.Ram.{peek_same}
use rustsbi_d.Common.FlashMeta.{meta_pos, see_pos, kernel_pos, dtb_pos}
use rustsbi_d.Xtask.Result.{ok}
use rustsbi_d.Xtask.World.{Target, Host, World, Holds}
use rustsbi_d.Xtask.Image.{checked_image}
use rustsbi_d.Xtask.Image.Checksum.{length-checked_image}
use rustsbi_d.Xtask.Make.{Components, make}
use rustsbi_d.Xtask.Spinand.{FlashArgs, flash, meta_len}
use rustsbi_d.Xtask.Spinand.Layout.{unit, IsProgram, Agree, Fits, stored, stored-Agree}
use rustsbi_d.Xtask.Spinand.Run.{with_payloads, start_table, spl_world, new_table, flash_run}
use rustsbi_d.Xtask.Spinand.Table.{new_table_fits, length-as_bytes}
use rustsbi_d.Xtask.Spinand.Flashed.{Flashed, Flashed_lem}
use mathlib.Core.Path.{subst}
use rustsbi_d.Common.FlashMeta as flash_meta

abbrev pub image_of : Option (List ℕ) → Option (List ℕ)
image_of none = none
image_of (some bytes) = some (checked_image bytes)

image_of-Fits : (spl : Option (List ℕ)) → Fits unit (image_of spl)
image_of-Fits none = omega arith
image_of-Fits (some bytes) = omega (arith, length-checked_image bytes)

spl_world_flash :
    (h : Host) (spl : Option (List ℕ)) (w : World)
    → (spl_world h spl w).flash ≡ stored h 0 (image_of spl) w.flash
spl_world_flash h none w = refl
spl_world_flash h (some bytes) w = refl

-- The loader's image does not touch the table.
start_table_same :
    (reset : Bool) (f g : ℕ → ℕ)
    → Agree meta_pos see_pos f g
    → start_table reset g ≡ start_table reset f
start_table_same true f g same = refl
start_table_same false f g same =
    ap flash_meta.of_bytes (peek_same meta_pos meta_len g f (λ a la ha. same a la (omega arith)))

-- When the files of `make`'s target are there, none of them an output of the tool, the SEE and the device
-- tree have at most 2 MiB each, the kernel ends below 4 GiB, the flash holds bytes, and the reset of the board fails as
-- it must: `flash` succeeds, and afterwards the flash holds the checked image of the loader at 0, the
-- table it started from with the new entries at 2 MiB, and each payload in its place; the region of what
-- was not given is as it was.
pub flash-Flashed :
    (h : Host) (c : Components) (args : FlashArgs) (w w1 : World) (t : Target)
    (spl see kernel dtb : Option (List ℕ))
    → IsProgram h.program
    → make h c w ≡ ok (t, w1)
    → Holds w1.files t.spl spl
    → Holds w1.files t.see see
    → Holds w1.files t.kernel kernel
    → Holds w1.files t.dtb dtb
    → (args.boot && h.reset) ≡ false
    → ((a : ℕ) → w1.flash a < 2 ^ 8)
    → Fits unit see
    → Fits unit dtb
    → Fits (2 ^ 32 - kernel_pos) kernel
    → (m : flash_meta.Meta) × (w2 : World) × (start_table args.reset w1.flash ≡ some m)
      × (flash h c args w ≡ ok w2)
      × Flashed w1.flash w2.flash (image_of spl) see kernel dtb (new_table see kernel dtb m)
flash-Flashed h c args w w1 t spl see kernel dtb xfel made has_spl has_see has_kernel has_dtb fails
      small see_fits dtb_fits kernel_fits =
    let f = w1.flash in
    let image = image_of spl in
    let (m, w2, e, run, final) =
      flash_run h c args w w1 t spl see kernel dtb made has_spl has_see has_kernel has_dtb fails in
    let start = ap (start_table args.reset) (sym (spl_world_flash h spl w1)) in
    let table = new_table see kernel dtb m in
    let from : start_table args.reset f ≡ some m =
      sym (
        start_table_same args.reset f (stored h 0 image f) (
          stored-Agree h xfel 0 unit image f meta_pos see_pos refl refl (image_of-Fits spl)
            (inr (omega arith))))
      ∙ start
      ∙ e in
    let bytes = flash_meta.as_bytes table in
    let flashed =
      Flashed_lem h xfel f image see kernel dtb bytes (image_of-Fits spl) see_fits dtb_fits
        kernel_fits (omega (arith, length-as_bytes table)) table
        (new_table_fits args.reset f m see kernel dtb small from) (length-as_bytes table) in
    (
      m,
      w2,
      from,
      run,
      subst (λ g. Flashed f g image see kernel dtb table)
          (sym (
            final
            ∙ ap (λ g. h.program meta_pos bytes (with_payloads h see kernel dtb g))
                (spl_world_flash h spl w1)))
          flashed,
    )
