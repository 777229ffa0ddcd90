-- ===== src/Examples/FlashBoot.antt =====
-- The flash that the tool wrote, booted down to the kernel.
use rustsbi_d.Base.{◌^◌, ◌≡◌, refl, true, some, List, [], ◌∷◌, arith}
use rustsbi_d.Common.Memory as memory
use rustsbi_d.Common.Memory.{dram, kernel_base, meta_base, dtb_offset}
use rustsbi_d.See.Pmp.{Pmp}
use rustsbi_d.See.Pmp.Protect.{rights}
use rustsbi_d.See.Pmp.{Region}
use rustsbi_d.See.Start.{supervise, rust_main, banner}
use rustsbi_d.Examples.Start.{closed, allowed}
use rustsbi_d.Spl.Boot.{Loader, jump, main}
use rustsbi_d.Common.Dtb.{visit_size}
use rustsbi_d.Examples.Start.{size_in_tree, tree, tree_only, found_board}
use rustsbi_d.See.Board.{visit}
use rustsbi_d.See.Execute.{prepare}
use rustsbi_d.Spl.Boot.Chain.{IsEntered}
use rustsbi_d.Examples.Run.{machine}
use rustsbi_d.Xtask.Spinand.Chain.{flash-rust_main}
use rustsbi_d.Examples.Models.{riscv-IsRiscv, riscv, Nand, busy, loaded, nand, nand-IsNand}
use rustsbi_d.Examples.Start.{set_cfg, set_cfg-SetsByte, reset}
use rustsbi_d.Xtask.Result.{ok}
use rustsbi_d.Xtask.World.{World, write_file}
use rustsbi_d.Xtask.Spinand.{flash}
use rustsbi_d.Xtask.Spinand.Boots.{pages_of, Ready}
use rustsbi_d.Examples.Xtask.{
  host, all, args, world, made_all, spl_binary, host-IsProgram, made, spl_held, see_held,
  kernel_held, dtb_held,
}

abbrev loader : Loader Nand
loader = record {
  meta = record memory.default { from_flash = true };
  mem = λ a. 0;
  chip = (true, 0);
}

flash-rust_main_example :
    (w2 : World) × (l : Loader Nand) × (q : Pmp) × (regions : List Region) × (flash host all args
        world
      ≡ ok w2)
    × (main (nand (pages_of w2.flash)) size_in_tree 2 loader ≡ some (jump dram, l))
    × (rust_main set_cfg (λ ptr f. some tree) 0x40000000 l.meta reset closed
        ≡ some (
          banner 0x40000000 kernel_base (some found_board),
          supervise (record { start_addr = kernel_base; opaque = 0x5fe00000 }) q allowed regions,
        ))
    × IsEntered kernel_base 0x5fe00000 (prepare riscv 0x40000100 kernel_base 0x5fe00000 machine).0
    × Ready (1 ∷ 2 ∷ []) (4 ∷ 5 ∷ []) (6 ∷ []) (dtb_offset (2 ^ 29)) l
    × (rights 8 0 0 q 0x40001234 ≡ some 0)
unfolding write_file dtb_offset visit_size visit
flash-rust_main_example =
    flash-rust_main host all args world made_all.1 made_all.0 (some spl_binary) (1 ∷ 2 ∷ [])
      (4 ∷ 5 ∷ []) (6 ∷ []) (λ f. nand (pages_of f)) (λ mem ptr f. some tree) busy loaded 1 2
      (2 ^ 29) loader tree found_board set_cfg riscv 0x40000000 0x40000100 0x40001234 reset closed
      machine host-IsProgram made spl_held see_held kernel_held dtb_held refl (λ a. omega arith)
      (omega arith) (omega arith) (omega arith) (λ f. nand-IsNand (pages_of f)) (omega arith) refl
      (omega arith) (omega arith) (λ mem a e. refl) tree_only refl refl (omega arith) (omega arith)
      (omega arith) (omega arith) (omega arith) set_cfg-SetsByte riscv-IsRiscv
