-- ===== src/Xtask/Asm.antt =====
-- xtask/src/components.rs, `Components::asm`: listings of the packages, each into a file.
use rustsbi_d.Base.{
  ℕ, ◌≡◌, refl, ap, ◌∙◌, ◌⊎◌, inl, inr, Bool, true, false, ◌&&◌, Option, none, some, List, [], ◌∷◌,
  ◌++◌, arith, if◌then◌else◌,
}
use native.Mathlib.Omega.{arith}
use rustsbi_d.Xtask.World.{
  same, same_refl, same_package, bin, checked, meta_ram, meta_flash, tree, other,
}
use rustsbi_d.Xtask.Result.{
  IoErrorKind, already_exists, is_a_directory, io_error, panicked, Result, ok, err, ◌>>=◌,
}
use rustsbi_d.Xtask.World.{
  same, Package, FilePath, target_dir, listing, Host, World, write_file, spl, see,
}
use rustsbi_d.Xtask.Make.{Components}

abbrev picked : Package → Bool → List Package
picked k true = k ∷ []
picked k false = []

-- Without a choice, both.
abbrev or_both : List Package → List Package
or_both [] = spl ∷ see ∷ []
or_both (k ∷ ks) = k ∷ ks

abbrev packages : Components → List Package
packages c = or_both (picked spl c.spl ++ picked see c.see)

-- What the system answers: its error, or the changed world.
abbrev unless : Option IoErrorKind → World → Result World
unless none w = ok w
unless (some e) w = err (io_error e)

module _ (h : Host) where
  -- `fs::write`: a directory is not written over, and whatever else the system refuses is its error.
  unfoldable pub fs_write : FilePath → List ℕ → World → Result World
  fs_write path bytes w =
      if w.dirs path
      then err (io_error is_a_directory)
      else unless (h.write_error path) (write_file path bytes w)

  -- `Package::objdump`, with the build that it starts.
  abbrev pub objdump : Package → FilePath → World → Result World
  objdump k path w = fs_write path (h.disassembly k) w

  abbrev pub objdump_all : List Package → FilePath → World → Result World
  objdump_all [] output w = ok w
  objdump_all (k ∷ ks) output w = do w1 ← objdump k (listing output k) w; objdump_all ks output w1

  abbrev is_none : Option (List ℕ) → Bool
  is_none none = true
  is_none (some bytes) = false

  -- `fs::create_dir_all`
  unfoldable pub create_dir_all : FilePath → World → Result World
  create_dir_all path w =
      unless (h.create_dir_error path)
        (record w { dirs = λ q. if same path q then true else w.dirs q })

  -- A directory for several listings: there already, or made, unless a file has its name.
  unfoldable pub output_dir : FilePath → World → Result World
  output_dir output w =
      if w.dirs output
      then ok w
      else if is_none (w.files output)
      then create_dir_all output w
      else err (io_error already_exists)

  -- One listing goes into the directory, or to the file that the output names, whose parent is made first.
  unfoldable pub dump_one : Package → FilePath → World → Result World
  dump_one k output w =
      if w.dirs output
      then objdump k (listing output k) w
      else if h.create_parent output
      then objdump k output w
      else panicked

  unfoldable pub dump : List Package → FilePath → World → Result World
  dump (k ∷ []) output w = dump_one k output w
  dump ks output w = do w1 ← output_dir output w; objdump_all ks output w1

  abbrev or_target : Option FilePath → FilePath
  or_target none = target_dir
  or_target (some path) = path

  unfoldable pub asm : Components → Option FilePath → World → Result World
  asm c output w = dump (packages c) (or_target output) w

both_packages : (a b : Bool) → a ≡ b → or_both (picked spl a ++ picked see b) ≡ spl ∷ see ∷ []
both_packages true true e = refl
both_packages false false e = refl
both_packages true false e = absurd (ground arith)
both_packages false true e = absurd (ground arith)

-- A path that can be written as a file: no directory, and nothing that the system refuses.
pub record CanWrite (h : Host) (w : World) (path : FilePath) : Type 0 where
  pub no_dir : w.dirs path ≡ false
  pub allowed : h.write_error path ≡ none

fs_write_lem :
    (h : Host) (path : FilePath) (bytes : List ℕ) (w : World)
    → w.dirs path ≡ false
    → h.write_error path ≡ none
    → fs_write h path bytes w ≡ ok (write_file path bytes w)
unfolding fs_write
fs_write_lem h path bytes w no_dir can = rw (no_dir, can) refl

listing_other : (output : FilePath) (k : Package) → same output (listing output k) ≡ false
listing_other (bin l) k = refl
listing_other checked k = refl
listing_other meta_ram k = refl
listing_other meta_flash k = refl
listing_other (tree n) k = refl
listing_other (other n) k = refl
listing_other target_dir k = refl
listing_other (listing p l) k = ap (λ b. b && same_package l k) (listing_other p l)

-- The two listings, in a directory that is there.
both_listings :
    (h : Host) (output : FilePath) (w : World)
    → w.dirs (listing output spl) ≡ false
    → w.dirs (listing output see) ≡ false
    → h.write_error (listing output spl) ≡ none
    → h.write_error (listing output see) ≡ none
    → objdump_all h (spl ∷ see ∷ []) output w
      ≡ ok (
          write_file
            (listing output see)
            (h.disassembly see)
            (write_file (listing output spl) (h.disassembly spl) w))
unfolding write_file
both_listings h output w d1 d2 e1 e2 =
    let w1 = write_file (listing output spl) (h.disassembly spl) w in
    rw
      (
        fs_write_lem h (listing output spl) (h.disassembly spl) w d1 e1,
        fs_write_lem h (listing output see) (h.disassembly see) w1 d2 e2,
      )
      refl

-- A directory that was made is not the place of a listing.
made_dir :
    (output : FilePath) (k : Package) (w : World)
    → w.dirs (listing output k) ≡ false
    → (if same output (listing output k) then true else w.dirs (listing output k)) ≡ false
made_dir output k w e = rw (listing_other output k) e

same_listings : (output : FilePath) → same (listing output see) (listing output spl) ≡ false
same_listings output = rw (same_refl output) refl

asm_both :
    (h : Host) (c : Components) (output : FilePath) (w w1 : World)
    → c.spl ≡ c.see
    → output_dir h output w ≡ ok w1
    → CanWrite h w1 (listing output spl)
    → CanWrite h w1 (listing output see)
    → asm h c (some output) w
      ≡ ok (
          write_file
            (listing output see)
            (h.disassembly see)
            (write_file (listing output spl) (h.disassembly spl) w1))
unfolding asm dump
asm_both h c output w w1 chosen made can_spl can_see =
    rw (both_packages c.spl c.see chosen, made)
      (both_listings h output w1 can_spl.no_dir can_see.no_dir can_spl.allowed can_see.allowed)

listed :
    (h : Host) (output : FilePath) (w : World)
    → let w1 =
        write_file
          (listing output see)
          (h.disassembly see)
          (write_file (listing output spl) (h.disassembly spl) w) in
      (w1.dirs ≡ w.dirs)
      × (w1.files (listing output spl) ≡ some (h.disassembly spl))
      × (w1.files (listing output see) ≡ some (h.disassembly see))
unfolding write_file
listed h output w =
    (refl, rw (same_listings output, same_refl output) refl, rw (same_refl output) refl)

output_dir_there :
    (h : Host) (output : FilePath) (w : World) → w.dirs output ≡ true → output_dir h output w ≡ ok w
unfolding output_dir
output_dir_there h output w there = rw there refl

create_dir_lem :
    (h : Host) (output : FilePath) (w : World)
    → h.create_dir_error output ≡ none
    → create_dir_all h output w
      ≡ ok (record w { dirs = λ q. if same output q then true else w.dirs q })
unfolding create_dir_all
create_dir_lem h output w can = rw can refl

output_dir_made :
    (h : Host) (output : FilePath) (w : World)
    → w.dirs output ≡ false
    → w.files output ≡ none
    → h.create_dir_error output ≡ none
    → output_dir h output w ≡ ok (record w { dirs = λ q. if same output q then true else w.dirs q })
unfolding output_dir
output_dir_made h output w no_dir no_file can = rw (no_dir, no_file) (create_dir_lem h output w can)

-- With both packages or none chosen, an output that is a directory, or neither that nor a file and can be made one, and two
-- listings below it that can be written: `asm` succeeds, the output is a directory afterwards, with both listings in
-- it, each of its own package.
pub asm-listings :
    (h : Host) (c : Components) (output : FilePath) (w : World)
    → c.spl ≡ c.see
    → (w.dirs output ≡ true)
      ⊎ ((w.dirs output ≡ false) × (w.files output ≡ none) × (h.create_dir_error output ≡ none))
    → CanWrite h w (listing output spl)
    → CanWrite h w (listing output see)
    → (w1 : World) × (asm h c (some output) w ≡ ok w1)
      × (w1.dirs output ≡ true)
      × (w1.files (listing output spl) ≡ some (h.disassembly spl))
      × (w1.files (listing output see) ≡ some (h.disassembly see))
asm-listings h c output w chosen (inl there) can_spl can_see =
    let (kept, has_spl, has_see) = listed h output w in
    (
      write_file (listing output see) (h.disassembly see)
          (write_file (listing output spl) (h.disassembly spl) w),
      asm_both h c output w w chosen (output_dir_there h output w there) can_spl can_see,
      ap (λ d. d output) kept ∙ there,
      has_spl,
      has_see,
    )
asm-listings h c output w chosen (inr (no_dir, no_file, can)) can_spl can_see =
    let w0 : World = record w { dirs = λ q. if same output q then true else w.dirs q } in
    let (kept, has_spl, has_see) = listed h output w0 in
    let still : (k : Package) → CanWrite h w (listing output k) → CanWrite h w0 (listing output k) =
      λ k able. record { no_dir = made_dir output k w able.no_dir; allowed = able.allowed } in
    (
      write_file (listing output see) (h.disassembly see)
          (write_file (listing output spl) (h.disassembly spl) w0),
      asm_both h c output w w0 chosen (output_dir_made h output w no_dir no_file can)
          (still spl can_spl) (still see can_see),
      ap (λ d. d output) kept ∙ rw (same_refl output) refl,
      has_spl,
      has_see,
    )
