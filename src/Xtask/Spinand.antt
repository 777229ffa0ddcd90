-- ===== src/Xtask/Spinand.antt =====
-- xtask/src/components.rs, `Components::flash`: the payloads, the loader's checked image and the table of the flash,
-- each written from a file. The addresses are those of common/src/flash.rs.
pub mod Layout
pub mod Run
pub mod Table
pub mod Flashed
pub mod Laws
pub mod Boots
pub mod Chain
use rustsbi_d.Base.{
  ℕ, Bool, true, false, ◌&&◌, Option, none, some, if◌then◌else◌, length, take, u32,
}
use rustsbi_d.Common.FlashMeta.{meta_pos, see_pos, kernel_pos, dtb_pos}
use rustsbi_d.Xtask.Result.{
  io_error, not_found, unexpected_eof, Result, ok, panicked, ◌>>=◌, unwrap, or_err,
}
use rustsbi_d.Xtask.World.{
  FilePath, checked, meta_flash, Host, World, write_file, spinand_read, spinand_write,
}
use rustsbi_d.Xtask.Image.{checked_image}
use rustsbi_d.Xtask.Make.{Components, make}
use rustsbi_d.Common.FlashMeta as flash_meta

-- `FlashArgs`
pub record FlashArgs : Type 0 where
  pub reset : Bool
  pub boot : Bool

-- `Meta::SIZE` of the flash's table.
abbrev pub meta_len : ℕ
meta_len = 24

module _ (h : Host) where
  unfoldable pub flash_spl : Option FilePath → World → Result World
  flash_spl none w = ok w
  flash_spl (some file) w = do
    bytes ← unwrap (w.files file)
    spinand_write h 0 checked (write_file checked (checked_image bytes) w)

  -- The table to start from: the default, or the one on the flash.
  unfoldable pub open_meta : Bool → World → Result (flash_meta.Meta × World)
  open_meta true w = ok (flash_meta.default, w)
  open_meta false w = do
    let w1 = spinand_read meta_pos meta_len meta_flash w
    bytes ← or_err (io_error not_found) (w1.files meta_flash)
    table ← or_err (io_error unexpected_eof) (flash_meta.of_bytes (take meta_len bytes))
    ok (table, w1)

  -- One of the three blocks `if let Some(..) = target..`, with the setter and the address of its payload.
  unfoldable pub put :
      ℕ
      → (ℕ → ℕ → flash_meta.Meta → flash_meta.Meta)
      → Option FilePath
      → flash_meta.Meta × World
      → Result (flash_meta.Meta × World)
  put pos set_entry none s = ok s
  put pos set_entry (some file) (table, w) = do
    bytes ← unwrap (w.files file)
    w1 ← spinand_write h pos file w
    ok (set_entry pos (u32 (length bytes)) table, w1)

  unfoldable pub close_meta : flash_meta.Meta × World → Result World
  close_meta (table, w) =
      spinand_write h meta_pos meta_flash (write_file meta_flash (flash_meta.as_bytes table) w)

  -- The reset of the board at the end must report a failure.
  unfoldable pub restart : Bool → World → Result World
  restart boot w = if boot && h.reset then panicked else ok w

  unfoldable pub flash : Components → FlashArgs → World → Result World
  flash c args w = do
    made ← make h c w
    w1 ← flash_spl made.0.spl made.1
    s ← open_meta args.reset w1
    s1 ← put see_pos flash_meta.set_see made.0.see s
    s2 ← put kernel_pos flash_meta.set_kernel made.0.kernel s1
    s3 ← put dtb_pos flash_meta.set_dtb made.0.dtb s2
    w2 ← close_meta s3
    restart args.boot w2
