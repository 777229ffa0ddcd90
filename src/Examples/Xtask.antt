-- ===== src/Examples/Xtask.antt =====
-- Examples for the tool on the host: an xfel that programs byte by byte, a loader that is only its head, a SEE and
-- two files of the user.
use rustsbi_d.Base.{
  ℕ, ◌≡◌, refl, inl, inr, true, false, none, some, List, [], ◌∷◌, ◌++◌, arith, ◌==◌, if◌then◌else◌,
  length, get_or, replicate,
}
use rustsbi_d.Base.Ram.{place, peek, peek-place, place_out}
use rustsbi_d.Common.Payload.{stamp}
use rustsbi_d.Common.Memory as memory
use rustsbi_d.Common.Memory.{dram, kernel_base, meta_base}
use rustsbi_d.Common.FlashMeta as flash_meta
use rustsbi_d.See.Pmp.{Pmp}
use rustsbi_d.See.Pmp.Protect.{rights}
use rustsbi_d.See.Pmp.{Region}
use rustsbi_d.See.Start.{supervise, rust_main, banner}
use rustsbi_d.Examples.Start.{closed, allowed, tree}
use rustsbi_d.Examples.Start.{set_cfg, set_cfg-SetsByte, reset}
use rustsbi_d.Xtask.Result.{ok, err, invalid_stamp}
use rustsbi_d.Xtask.World.{
  spl, see, test_kernel, bin, other, Target, Host, World, write_file, Holds, absent, present,
}
use rustsbi_d.Xtask.World.{listing}
use rustsbi_d.Xtask.Asm.{asm, asm-listings}
use rustsbi_d.Xtask.Make.{user, Components, make_spl, make_see, make_kernel, make_dtb, make}
use rustsbi_d.Xtask.Make.Stamp.{make_refuses}
use rustsbi_d.Xtask.Image.{flag_at, checked_image, IsBootable}
use rustsbi_d.Xtask.Image.Checksum.{checked_image-IsBootable}
use rustsbi_d.Xtask.Spinand.{FlashArgs, flash}
use rustsbi_d.Xtask.Spinand.Layout.{IsProgram}
use rustsbi_d.Xtask.Spinand.Run.{start_table, new_table}
use rustsbi_d.Xtask.Spinand.Flashed.{Flashed}
use rustsbi_d.Xtask.Spinand.Laws.{image_of, flash-Flashed}
use rustsbi_d.Xtask.Debug.{debug}
use rustsbi_d.Xtask.Debug.Debugged.{Debugged}
use rustsbi_d.Xtask.Debug.Start.{debug-rust_main}
use rustsbi_d.Common.Payload.{stamp}
use rustsbi_d.Common.Bytes.{le_bytes}
use rustsbi_d.Common.Payload.{default_head}

-- The loader: 4 bytes, the magic and the stamp, and room.
abbrev pub spl_binary : List ℕ
spl_binary = replicate 12 0 ++ (le_bytes stamp ++ replicate 84 0)

abbrev pub host : Host
host = record {
  build = λ k. elim k [ spl ↦ spl_binary | see ↦ 1 ∷ 2 ∷ [] | test_kernel ↦ 3 ∷ [] ];
  disassembly = λ k. elim k [ spl ↦ 10 ∷ [] | see ↦ 11 ∷ [] | test_kernel ↦ 12 ∷ [] ];
  is_dts = λ p. false;
  stem = λ p. 0;
  dtc = λ source. source;
  from_raw = λ bytes f. if length bytes == 1 then some tree else none;
  program = place;
  reset = false;
  write_error = λ p. none;
  create_dir_error = λ p. none;
  create_parent = λ p. true;
}

pub host-IsProgram : IsProgram host.program
host-IsProgram = record {
  written = peek-place;
  kept = λ pos bytes f a apart.
      place_out pos a bytes f
        (elim apart [ inl h ↦ inl (omega arith) | inr h ↦ inr (omega arith) ]);
}

abbrev pub world : World
world = record {
  files =
      λ p. elim p [ other n ↦ (if n == 7 then some (4 ∷ 5 ∷ []) else some (6 ∷ [])) | _ ↦ none ];
  dirs = λ p. false;
  ram = λ a. 0;
  flash = λ a. 0xff;
  ddr = false;
  entry = none;
}

abbrev pub all : Components
all = record { spl = true; see = true; kernel = some (user (other 7)); dt = some (other 8) }

abbrev pub made_all : Target × World
made_all = (
  record {
    spl = some (bin spl);
    see = some (bin see);
    kernel = some (other 7);
    dtb = some (other 8);
  },
  write_file (bin see) (1 ∷ 2 ∷ []) (write_file (bin spl) spl_binary world),
)

pub made : make host all world ≡ ok made_all
unfolding make make_spl make_see make_kernel make_dtb write_file
made = refl

checked_image-IsBootable_example :
    (length (checked_image spl_binary) ≡ default_head.length)
    × (get_or (checked_image spl_binary) flag_at 0 ≡ 1)
    × IsBootable (checked_image spl_binary)
checked_image-IsBootable_example = checked_image-IsBootable spl_binary refl

-- A loader whose stamp was already replaced.
abbrev filled : Host
filled = record host { build = λ k. replicate 100 1 }

make_refuses_example : make filled all world ≡ err invalid_stamp
make_refuses_example = make_refuses filled all world refl (inr (λ e. absurd (omega (arith, e))))

abbrev pub args : FlashArgs
args = record { reset = false; boot = true }

pub see_held : Holds made_all.1.files (some (bin see)) (some (1 ∷ 2 ∷ []))
unfolding write_file
see_held = present refl refl

pub spl_held : Holds made_all.1.files (some (bin spl)) (some spl_binary)
unfolding write_file
spl_held = present refl refl

pub kernel_held : Holds made_all.1.files (some (other 7)) (some (4 ∷ 5 ∷ []))
unfolding write_file
kernel_held = present refl refl

pub dtb_held : Holds made_all.1.files (some (other 8)) (some (6 ∷ []))
unfolding write_file
dtb_held = present refl refl

flash-Flashed_example :
    (m : flash_meta.Meta) × (w2 : World) × (start_table false made_all.1.flash ≡ some m)
    × (flash host all args world ≡ ok w2)
    × Flashed made_all.1.flash w2.flash
        (image_of (some spl_binary))
        (some (1 ∷ 2 ∷ []))
        (some (4 ∷ 5 ∷ []))
        (some (6 ∷ []))
        (new_table (some (1 ∷ 2 ∷ [])) (some (4 ∷ 5 ∷ [])) (some (6 ∷ [])) m)
unfolding write_file
flash-Flashed_example =
    flash-Flashed host all args world made_all.1 made_all.0 (some spl_binary) (some (1 ∷ 2 ∷ []))
      (some (4 ∷ 5 ∷ [])) (some (6 ∷ [])) host-IsProgram made spl_held see_held kernel_held dtb_held
      refl (λ a. omega arith) (omega arith) (omega arith) (omega arith)

abbrev no_loader : Components
no_loader = record { spl = false; see = true; kernel = some (user (other 7)); dt = none }

abbrev made_two : Target × World
made_two = (
  record { spl = none; see = some (bin see); kernel = some (other 7); dtb = none },
  write_file (bin see) (1 ∷ 2 ∷ []) world,
)

two : make host no_loader world ≡ ok made_two
unfolding make make_spl make_see make_kernel make_dtb write_file
two = refl

see_two : Holds made_two.1.files (some (bin see)) (some (1 ∷ 2 ∷ []))
unfolding write_file
see_two = present refl refl

kernel_two : Holds made_two.1.files (some (other 7)) (some (4 ∷ 5 ∷ []))
unfolding write_file
kernel_two = present refl refl

abbrev with_tree : Components
with_tree = record no_loader { dt = some (other 8) }

abbrev made_tree : Target × World
made_tree = (record made_two.0 { dtb = some (other 8) }, made_two.1)

debug-rust_main_example :
    (m : memory.Meta) × (w2 : World) × (q : Pmp) × (l : List Region) × (debug host no_loader world
      ≡ ok w2)
    × (memory.of_bytes (peek meta_base 16 w2.ram) ≡ some m)
    × (rust_main set_cfg (λ p f. none) 0x40000000 m reset closed
        ≡ some (
          banner 0x40000000 kernel_base none,
          supervise (record { start_addr = kernel_base; opaque = 0 }) q allowed l,
        ))
    × (peek kernel_base 2 w2.ram ≡ 4 ∷ 5 ∷ [])
    × (rights 8 0 0 q 0x40001234 ≡ some 0)
debug-rust_main_example =
    debug-rust_main host no_loader world made_two.1 made_two.0 (1 ∷ 2 ∷ []) (4 ∷ 5 ∷ []) set_cfg
      (λ p f. none) 0x40000000 reset closed 0x40001234 refl refl two absent see_two kernel_two
      absent (omega arith) set_cfg-SetsByte (omega arith) (omega arith)

-- Before the directory for the listings exists.
abbrev empty_world : World
empty_world = record world { files = λ p. none }

asm-listings_example :
    (w1 : World) × (asm host all (some (other 9)) empty_world ≡ ok w1)
    × (w1.dirs (other 9) ≡ true)
    × (w1.files (listing (other 9) spl) ≡ some (10 ∷ []))
    × (w1.files (listing (other 9) see) ≡ some (11 ∷ []))
asm-listings_example =
    asm-listings host all (other 9) empty_world refl (inr (refl, refl, refl))
      (record { no_dir = refl; allowed = refl }) (record { no_dir = refl; allowed = refl })
