-- ===== src/Xtask/Spinand/Run.antt =====
-- What each part of `Components::flash` does when the files of the payloads are there.
use rustsbi_d.Base.{
  ℕ, ◌+◌, ◌≡◌, refl, ap, ◌∙◌, Bool, true, false, ◌&&◌, Option, none, some, List, length, u32,
}
use rustsbi_d.Base.Ram.{peek}
use rustsbi_d.Common.FlashMeta.{see_pos, kernel_pos, dtb_pos, meta_pos}
use rustsbi_d.Common.Bytes.{as_u32s, le_word}
use rustsbi_d.Xtask.Result.{io_error, unexpected_eof, ok, ◌>>=◌, or_err}
use rustsbi_d.Xtask.World.{
  Target, FilePath, checked, meta_flash, Host, World, write_file, spinand_read, spinand_write,
  Holds, absent, present, Holds-write_file,
}
use rustsbi_d.Xtask.Image.{checked_image}
use rustsbi_d.Xtask.Make.{make, Components}
use rustsbi_d.Xtask.Spinand.{
  FlashArgs, restart, flash, meta_len, flash_spl, open_meta, put, close_meta,
}
use rustsbi_d.Xtask.Spinand.Layout.{stored}
use rustsbi_d.Common.FlashMeta as flash_meta

-- A table with the entry of a payload set to its address and its length, if there is one.
abbrev pub update :
    ℕ
    → (ℕ → ℕ → flash_meta.Meta → flash_meta.Meta)
    → Option (List ℕ)
    → flash_meta.Meta
    → flash_meta.Meta
update pos set_entry none m = m
update pos set_entry (some bytes) m = set_entry pos (u32 (length bytes)) m

abbrev pub new_table :
    Option (List ℕ) → Option (List ℕ) → Option (List ℕ) → flash_meta.Meta → flash_meta.Meta
new_table see kernel dtb m =
    update dtb_pos flash_meta.set_dtb dtb
      (update kernel_pos flash_meta.set_kernel kernel (update see_pos flash_meta.set_see see m))

-- The table that a flash holds.
abbrev pub table_of : (ℕ → ℕ) → Option flash_meta.Meta
table_of f = flash_meta.of_bytes (peek meta_pos meta_len f)

abbrev pub start_table : Bool → (ℕ → ℕ) → Option flash_meta.Meta
start_table true f = some flash_meta.default
start_table false f = table_of f

-- Every 24 bytes are a table.
pub table_of_total : (f : ℕ → ℕ) → (m : flash_meta.Meta) × (table_of f ≡ some m)
unfolding flash_meta.of_bytes flash_meta.of_words as_u32s
table_of_total f =
    let word : ℕ → ℕ = λ k.
      le_word (f (meta_pos + k)) (f (meta_pos + k + 1)) (f (meta_pos + k + 2))
        (f (meta_pos + k + 3)) in
    (
      record {
        see = record { offset = word 0; size = word 4 };
        kernel = record { offset = word 8; size = word 12 };
        dtb = record { offset = word 16; size = word 20 };
      },
      refl,
    )

module _ (h : Host) where
  abbrev pub spl_world : Option (List ℕ) → World → World
  spl_world none w = w
  spl_world (some bytes) w = record (write_file checked (checked_image bytes) w) {
    flash = h.program 0 (checked_image bytes) w.flash;
  }

  pub flash_spl_lem :
      (t : Option FilePath) (b : Option (List ℕ)) (w : World)
      → Holds w.files t b
      → flash_spl h t w ≡ ok (spl_world b w)
  unfolding flash_spl spinand_write write_file
  flash_spl_lem none none w absent = refl
  flash_spl_lem (some p) (some bytes) w (present hp e) = rw e refl
  flash_spl_lem none (some bytes) w x = elim x [ ]
  flash_spl_lem (some p) none w x = elim x [ ]

  pub Holds-spl_world :
      (t : Option FilePath) (b c : Option (List ℕ)) (w : World)
      → Holds w.files t b
      → Holds (spl_world c w).files t b
  Holds-spl_world t b none w holds = holds
  Holds-spl_world t b (some bytes) w holds =
      Holds-write_file checked (checked_image bytes) w t b refl holds

  pub put_lem :
      (pos : ℕ) (set_entry : ℕ → ℕ → flash_meta.Meta → flash_meta.Meta) (t : Option FilePath)
      (b : Option (List ℕ)) (m : flash_meta.Meta) (w : World)
      → Holds w.files t b
      → put h pos set_entry t (m, w)
        ≡ ok (update pos set_entry b m, record w { flash = stored h pos b w.flash })
  unfolding put spinand_write
  put_lem pos set_entry none none m w absent = refl
  put_lem pos set_entry (some p) (some bytes) m w (present hp e) = rw e refl
  put_lem pos set_entry none (some bytes) m w x = elim x [ ]
  put_lem pos set_entry (some p) none m w x = elim x [ ]

  -- The world after the table was read into a file, or not.
  abbrev pub open_world : Bool → World → World
  open_world true w = w
  open_world false w = spinand_read meta_pos meta_len meta_flash w

  pub open_meta_lem :
      (reset : Bool) (w : World)
      → (m : flash_meta.Meta) × (start_table reset w.flash ≡ some m)
        × (open_meta h reset w ≡ ok (m, open_world reset w))
  unfolding open_meta spinand_read write_file
  open_meta_lem true w = (flash_meta.default, refl, refl)
  open_meta_lem false w =
      let (m, e) = table_of_total w.flash in
      (
        m,
        e,
        ap
            (λ (o : Option flash_meta.Meta).
              or_err (io_error unexpected_eof) o >>= λ table. ok (table, open_world false w))
            e,
      )

  pub close_meta_lem :
      (m : flash_meta.Meta) (w : World)
      → (w' : World) × (close_meta h (m, w) ≡ ok w')
        × (w'.flash ≡ h.program meta_pos (flash_meta.as_bytes m) w.flash)
  unfolding close_meta spinand_write write_file
  close_meta_lem m w = (
    record (write_file meta_flash (flash_meta.as_bytes m) w) {
      flash = h.program meta_pos (flash_meta.as_bytes m) w.flash;
    },
    refl,
    refl,
  )

  -- The flash with the payloads written in the order of the code, before the table is.
  abbrev pub with_payloads : Option (List ℕ) → Option (List ℕ) → Option (List ℕ) → (ℕ → ℕ) → ℕ → ℕ
  with_payloads see kernel dtb f =
      stored h dtb_pos dtb (stored h kernel_pos kernel (stored h see_pos see f))

  pub Holds-open_world :
      (t : Option FilePath) (b : Option (List ℕ)) (reset : Bool) (w : World)
      → Holds w.files t b
      → Holds (open_world reset w).files t b
  unfolding spinand_read
  Holds-open_world t b true w holds = holds
  Holds-open_world t b false w holds =
      Holds-write_file meta_flash (peek meta_pos meta_len w.flash) w t b refl holds

  open_world_flash : (reset : Bool) (w : World) → (open_world reset w).flash ≡ w.flash
  unfolding spinand_read write_file
  open_world_flash true w = refl
  open_world_flash false w = refl

  -- The whole of `flash`, when the reset of the board fails as it must.
  pub flash_run :
      (c : Components) (args : FlashArgs) (w w1 : World) (t : Target)
      (spl see kernel dtb : Option (List ℕ))
      → make h c w ≡ ok (t, w1)
      → Holds w1.files t.spl spl
      → Holds w1.files t.see see
      → Holds w1.files t.kernel kernel
      → Holds w1.files t.dtb dtb
      → (args.boot && h.reset) ≡ false
      → let f = (spl_world spl w1).flash in
        (m : flash_meta.Meta) × (w2 : World) × (start_table args.reset f ≡ some m)
        × (flash h c args w ≡ ok w2)
        × (w2.flash
            ≡ h.program meta_pos
                (flash_meta.as_bytes (new_table see kernel dtb m))
                (with_payloads see kernel dtb f))
  unfolding flash restart
  flash_run c args w w1 t spl see kernel dtb made has_spl has_see has_kernel has_dtb fails =
      let keep : (p : Option FilePath) (b : Option (List ℕ))
          → Holds w1.files p b
          → Holds (open_world args.reset (spl_world spl w1)).files p b =
        λ p b holds.
          Holds-open_world p b args.reset (spl_world spl w1) (Holds-spl_world p b spl w1 holds) in
      let (m, e, opened) = open_meta_lem args.reset (spl_world spl w1) in
      let v0 = open_world args.reset (spl_world spl w1) in
      let m1 = update see_pos flash_meta.set_see see m in
      let m2 = update kernel_pos flash_meta.set_kernel kernel m1 in
      let m3 = update dtb_pos flash_meta.set_dtb dtb m2 in
      let v1 : World = record v0 { flash = stored h see_pos see v0.flash } in
      let v2 : World = record v0 { flash = stored h kernel_pos kernel v1.flash } in
      let v3 : World = record v0 { flash = stored h dtb_pos dtb v2.flash } in
      let p1 = put_lem see_pos flash_meta.set_see t.see see m v0 (keep t.see see has_see) in
      let p2 =
        put_lem kernel_pos flash_meta.set_kernel t.kernel kernel m1 v1
          (keep t.kernel kernel has_kernel) in
      let p3 = put_lem dtb_pos flash_meta.set_dtb t.dtb dtb m2 v2 (keep t.dtb dtb has_dtb) in
      let (w2, closed, written) = close_meta_lem m3 v3 in
      (
        m,
        w2,
        e,
        rw (made, flash_spl_lem t.spl spl w1 has_spl, opened, p1, p2, p3, closed, fails) refl,
        written
            ∙ ap (λ f. h.program meta_pos (flash_meta.as_bytes m3) (with_payloads see kernel dtb f))
                (open_world_flash args.reset (spl_world spl w1)),
      )
