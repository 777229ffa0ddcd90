-- ===== src/Xtask/Main.antt =====
-- xtask/src/main.rs, `main`: the four commands. Reading the command line and starting the logger are left out.
use rustsbi_d.Base.{Option}
use rustsbi_d.Xtask.Result.{Result, ok, ◌>>=◌}
use rustsbi_d.Xtask.World.{FilePath, Host, World}
use rustsbi_d.Xtask.Make.{Components}
use rustsbi_d.Xtask.Spinand.{FlashArgs}
use rustsbi_d.Xtask.Make as components
use rustsbi_d.Xtask.Asm as listings
use rustsbi_d.Xtask.Debug as debugging
use rustsbi_d.Xtask.Spinand as flashing

-- `asm` has the output of `AsmArg`.
pub data Commands : Type 0 where
  make debug : Commands
  asm : Option FilePath → Commands
  flash : FlashArgs → Commands

pub main : Host → Commands → Components → World → Result World
main h make c w = components.make h c w >>= λ made. ok made.1
main h (asm output) c w = listings.asm h c output w
main h debug c w = debugging.debug h c w
main h (flash args) c w = flashing.flash h c args w
