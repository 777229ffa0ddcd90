-- ===== src/Xtask/World.antt =====
-- xtask/src/xfel.rs, `Package` and `Target` of xtask/src/main.rs: what the tool reads and changes. The files
-- of the host, the board's RAM and its NAND flash are the world, and each program that the tool
-- starts is an operation on it.
use rustsbi_d.Base.{
  ℕ, ◌≡◌, refl, ◌∙◌, Bool, true, false, ◌&&◌, Option, none, some, List, arith, ◌==◌, if◌then◌else◌,
  ==_iff, length,
}
use rustsbi_d.Base.Ram.{place, peek}
use native.Mathlib.Omega.{arith}
use rustsbi_d.Xtask.Result.{IoErrorKind, Result, ok, ◌>>=◌, unwrap}
use rustsbi_d.Common.Dtb.{HeaderError, Dtb}

pub data Package : Type 0 where
  spl see test_kernel : Package

-- The files that the tool makes in its target directory, `tree` for the device tree compiled from a source of the
-- given stem, `target_dir` and `listing` for the directory and the files of assembler, and `other` for the files that only the user names.
pub data FilePath : Type 0 where
  bin : Package → FilePath
  checked meta_ram meta_flash : FilePath
  tree other : ℕ → FilePath
  target_dir : FilePath
  listing : FilePath → Package → FilePath

abbrev pub same_package : Package → Package → Bool
same_package spl spl = true
same_package see see = true
same_package test_kernel test_kernel = true
same_package _ _ = false

abbrev pub same : FilePath → FilePath → Bool
same (bin k) (bin l) = same_package k l
same checked checked = true
same meta_ram meta_ram = true
same meta_flash meta_flash = true
same (tree m) (tree n) = m == n
same (other m) (other n) = m == n
same target_dir target_dir = true
same (listing p k) (listing q l) = same p q && same_package k l
same _ _ = false

pub record Target : Type 0 where
  pub spl : Option FilePath
  pub see : Option FilePath
  pub kernel : Option FilePath
  pub dtb : Option FilePath

-- What the tool finds on the host: the binary that cargo and objcopy make of a package, the extension and the stem of
-- a path, dtc, the tree that dtb-walker finds in a buffer with the given bytes, what xfel does to the flash, and whether its
-- reset succeeds; and where the user's paths do not let the tool write: the error of writing a file there, and of making a
-- directory, if any, and whether a missing parent can be made. The tool's own directory, where cargo has just built, takes the
-- tool's own files.
pub record Host : Type 1 where
  pub build : Package → List ℕ
  pub disassembly : Package → List ℕ
  pub is_dts : FilePath → Bool
  pub stem : FilePath → ℕ
  pub dtc : List ℕ → List ℕ
  pub from_raw : List ℕ → (HeaderError → Bool) → Option Dtb
  pub program : ℕ → List ℕ → (ℕ → ℕ) → ℕ → ℕ
  pub reset : Bool
  pub write_error : FilePath → Option IoErrorKind
  pub create_dir_error : FilePath → Option IoErrorKind
  pub create_parent : FilePath → Bool

-- `entry` is where the board was last told to execute, `ddr` whether its DRAM was set up by xfel.
pub record World : Type 0 where
  pub files : FilePath → Option (List ℕ)
  pub dirs : FilePath → Bool
  pub ram : ℕ → ℕ
  pub flash : ℕ → ℕ
  pub ddr : Bool
  pub entry : Option ℕ

unfoldable pub write_file : FilePath → List ℕ → World → World
write_file p bytes w = record w { files = λ q. if same p q then some bytes else w.files q }

-- `Package::objcopy`, with the build that it starts.
abbrev pub objcopy : Host → Package → World → FilePath × World
objcopy h k w = (bin k, write_file (bin k) (h.build k) w)

-- `Xfel::ddr`, `write`, `exec`, `spinand_read` and `spinand_write`, each invoked.
unfoldable pub ddr : World → World
ddr w = record w { ddr = true }

unfoldable pub write : ℕ → FilePath → World → Result World
write address file w = do
  bytes ← unwrap (w.files file)
  ok (record w { ram = place address bytes w.ram })

unfoldable pub exec : ℕ → World → World
exec address w = record w { entry = some address }

unfoldable pub spinand_read : ℕ → ℕ → FilePath → World → World
spinand_read address length file w = write_file file (peek address length w.flash) w

unfoldable pub spinand_write : Host → ℕ → FilePath → World → Result World
spinand_write h address file w = do
  bytes ← unwrap (w.files file)
  ok (record w { flash = h.program address bytes w.flash })

pub same_refl : (p : FilePath) → same p p ≡ true
same_refl (bin spl) = refl
same_refl (bin see) = refl
same_refl (bin test_kernel) = refl
same_refl checked = refl
same_refl meta_ram = refl
same_refl meta_flash = refl
same_refl (tree n) = (==_iff n n).1 refl
same_refl (other n) = (==_iff n n).1 refl
same_refl target_dir = refl
same_refl (listing p spl) = rw (same_refl p) refl
same_refl (listing p see) = rw (same_refl p) refl
same_refl (listing p test_kernel) = rw (same_refl p) refl

-- The file that was just written, and every other one.
pub files-write_file :
    (p : FilePath) (bytes : List ℕ) (w : World) → (write_file p bytes w).files p ≡ some bytes
unfolding write_file
files-write_file p bytes w = rw (same_refl p) refl

pub files-write_file_other :
    (p q : FilePath) (bytes : List ℕ) (w : World)
    → same p q ≡ false
    → (write_file p bytes w).files q ≡ w.files q
unfolding write_file
files-write_file_other p q bytes w h = rw h refl

-- The files that the tool writes besides the ones that `make` names.
abbrev pub is_output : FilePath → Bool
is_output checked = true
is_output meta_ram = true
is_output meta_flash = true
is_output _ = false

-- A payload, or none, as the bytes of its file, which is no output.
pub data Holds (files : FilePath → Option (List ℕ))
    : Option FilePath → Option (List ℕ) → Type 0 where
  absent : Holds files none none
  present :
      {p : FilePath} {bytes : List ℕ}
      → is_output p ≡ false
      → files p ≡ some bytes
      → Holds files (some p) (some bytes)

same_output : (p q : FilePath) → is_output q ≡ false → is_output p ≡ true → same p q ≡ false
same_output checked (bin k) hq hp = refl
same_output checked (tree n) hq hp = refl
same_output checked (other n) hq hp = refl
same_output checked target_dir hq hp = refl
same_output checked (listing q k) hq hp = refl
same_output meta_ram (bin k) hq hp = refl
same_output meta_ram (tree n) hq hp = refl
same_output meta_ram (other n) hq hp = refl
same_output meta_ram target_dir hq hp = refl
same_output meta_ram (listing q k) hq hp = refl
same_output meta_flash (bin k) hq hp = refl
same_output meta_flash (tree n) hq hp = refl
same_output meta_flash (other n) hq hp = refl
same_output meta_flash target_dir hq hp = refl
same_output meta_flash (listing q k) hq hp = refl
same_output p checked hq hp = absurd (ground arith)
same_output p meta_ram hq hp = absurd (ground arith)
same_output p meta_flash hq hp = absurd (ground arith)
same_output (bin k) q hq hp = absurd (ground arith)
same_output (tree n) q hq hp = absurd (ground arith)
same_output (other n) q hq hp = absurd (ground arith)
same_output target_dir q hq hp = absurd (ground arith)
same_output (listing p k) q hq hp = absurd (ground arith)

-- An output that is written is no payload.
pub Holds-write_file :
    (p : FilePath) (bytes : List ℕ) (w : World) (t : Option FilePath) (b : Option (List ℕ))
    → is_output p ≡ true
    → Holds w.files t b
    → Holds (write_file p bytes w).files t b
Holds-write_file p bytes w none none hp absent = absent
Holds-write_file p bytes w (some q) (some b) hp (present hq e) =
    present hq (files-write_file_other p q bytes w (same_output p q hq hp) ∙ e)
Holds-write_file p bytes w none (some b) hp x = elim x [ ]
Holds-write_file p bytes w (some q) none hp x = elim x [ ]
