-- ===== src/Xtask/Make.antt =====
-- xtask/src/components.rs, `Components::make`: the files that the tool builds or finds, and the check of the
-- loader's stamp.
pub mod Stamp
use rustsbi_d.Base.{
  ℕ, zero, suc, ◌+◌, ◌-◌, ◌*◌, ◌/◌, ◌%◌, ◌^◌, ◌≤◌, ◌<◌, min, max, bit_and, bit_or, ◌≡◌, refl, sym,
  ap, ◌∙◌, fun_ext, ◌≢◌, ◌↔◌, ◌⊎◌, inl, inr, Bool, true, false, not, ◌&&◌, ◌||◌, Option, none, some,
  List, [], ◌∷◌, ◌++◌, map, arith, ltb, leb, ◌==◌, if◌then◌else◌, Bool-cases, Option-cases, ltb→lt,
  lt→ltb, le→ltb_false, ==_iff, length, get_elem?, get_or, set, take, drop, replicate,
  length-append, length-set, get_or-set_self, get_or-set_ne, length-replicate, u8, u32, u64,
  u32_max, u64_max, ◌<<<◌, ◌>>>◌, complement,
}
use rustsbi_d.Common.Payload.{stamp}
use rustsbi_d.Common.Bytes.{le_word}
use rustsbi_d.Xtask.Result.{
  invalid_stamp, io_error, not_found, unexpected_eof, Result, ok, err, ◌>>=◌, or_err,
}
use rustsbi_d.Xtask.World.{
  spl, see, test_kernel, FilePath, tree, Target, Host, World, write_file, objcopy,
}

-- The argument `::test`, or the path of a file.
pub data Kernel : Type 0 where
  test : Kernel
  user : FilePath → Kernel

pub record Components : Type 0 where
  pub spl : Bool
  pub see : Bool
  pub kernel : Option Kernel
  pub dt : Option FilePath

abbrev pub default_target : Target
default_target = record { spl = none; see = none; kernel = none; dtb = none }

-- `size_of::<EgonHead>()`
abbrev pub head_len : ℕ
head_len = 8 + 8 * 4 + 13 * 4

-- `seek(SeekFrom::Start(4))` and `read_exact` of the head.
abbrev read_head : List ℕ → Option (List ℕ)
read_head bytes =
    let head = take head_len (drop 4 bytes) in
    if ltb (length head) head_len then none else some head

-- The field `checksum` of the head.
abbrev head_checksum : List ℕ → ℕ
head_checksum head =
    le_word (get_or head 8 0) (get_or head 9 0) (get_or head 10 0) (get_or head 11 0)

module _ (h : Host) where
  unfoldable pub make_spl : Bool → Target × World → Result (Target × World)
  make_spl false s = ok s
  make_spl true (t, w) = do
    let (file, w1) = objcopy h spl w
    bytes ← or_err (io_error not_found) (w1.files file)
    head ← or_err (io_error unexpected_eof) (read_head bytes)
    if head_checksum head == stamp then ok (record t { spl = some file }, w1) else err invalid_stamp

  unfoldable pub make_see : Bool → Target × World → Result (Target × World)
  make_see false s = ok s
  make_see true (t, w) = let (file, w1) = objcopy h see w in ok (record t { see = some file }, w1)

  unfoldable pub make_kernel : Option Kernel → Target × World → Result (Target × World)
  make_kernel none s = ok s
  make_kernel (some test) (t, w) =
      let (file, w1) = objcopy h test_kernel w in ok (record t { kernel = some file }, w1)
  make_kernel (some (user path)) (t, w) = do
    bytes ← or_err (io_error not_found) (w.files path)
    ok (record t { kernel = some path }, w)

  -- A device tree in source form is compiled into the target directory.
  abbrev compiled : FilePath → List ℕ → Target × World → Target × World
  compiled dt source (t, w) =
      let dtb = tree (h.stem dt) in (record t { dtb = some dtb }, write_file dtb (h.dtc source) w)

  unfoldable pub make_dtb : Option FilePath → Target × World → Result (Target × World)
  make_dtb none s = ok s
  make_dtb (some dt) (t, w) = do
    source ← or_err (io_error not_found) (w.files dt)
    ok (if h.is_dts dt then compiled dt source (t, w) else (record t { dtb = some dt }, w))

  unfoldable pub make : Components → World → Result (Target × World)
  make c w = do
    s1 ← make_spl c.spl (default_target, w)
    s2 ← make_see c.see s1
    s3 ← make_kernel c.kernel s2
    make_dtb c.dt s3
