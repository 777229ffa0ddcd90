-- ===== src/Spl/Flash/Controller.antt =====
-- The flash driver over `Spi::transfer`: reading the flash through the registers of the controller.
use rustsbi_d.Base.{
  ℕ, ◌+◌, ◌^◌, ◌≤◌, ◌<◌, ◌≡◌, refl, ap, ◌∙◌, Option, none, some, List, [], arith, length,
}
use rustsbi_d.Base.Both.{Both-some}
use rustsbi_d.Base.Ram.{peek}
use rustsbi_d.Hal.Transfer.{Port, transfer}
use rustsbi_d.Hal.Transfer.Bus.{Burst, IsController}
use rustsbi_d.Hal.Transfer.Exchange.{transfer-exchange}
use rustsbi_d.Spl.Flash.{copy_into}
use rustsbi_d.Spl.Flash.Chip.{image, flash, IsNand}
use rustsbi_d.Spl.Flash.Laws.{copy_into-image}
use rustsbi_d.Spl.Flash.Over.{Same, Simulates, copy_into-Both}

-- One exchange with the chip, as a bus of its own.
abbrev pub exchange :
    {C : Type 0}
    → (List ℕ → ℕ → C → ℕ → ℕ)
    → (List ℕ → ℕ → ℕ → C → C)
    → List ℕ
    → ℕ
    → ℕ
    → C
    → List ℕ × C
exchange wire next x dummy count c =
    (peek (length x + dummy) count (wire x dummy c), next x dummy count c)

abbrev pub or_nothing : {D : Type 0} → Option (List ℕ × D) → D → List ℕ × D
or_nothing none d = ([], d)
or_nothing (some r) d = r

-- The transfer of the registers as the driver's bus. A transfer that spins on or fails its assertion would bring
-- nothing; under the conditions of the theorem none does.
abbrev pub carried : {D : Type 0} → Port D → ℕ → List ℕ → ℕ → ℕ → D → List ℕ × D
carried port polls x dummy count d = or_nothing (transfer port polls x dummy count d) d

module _ {D C : Type 0} (port : Port D) (burst : D → Option Burst) (chip : D → C)
    (wire : List ℕ → ℕ → C → ℕ → ℕ) (next : List ℕ → ℕ → ℕ → C → C) (delay : D → ℕ)
    (latency polls : ℕ) (c : IsController port burst chip wire next delay latency)
    (enough : latency < polls) where
  abbrev pub Idle : D → C → Type 0
  Idle d s = (burst d ≡ none) × (chip d ≡ s)

  pub carried-Simulates : Simulates (carried port polls) (exchange wire next) Idle
  unfolding Simulates Same
  carried-Simulates x dummy count d s short few page (idle, e) =
      let (d', goes, idle', chip') =
        transfer-exchange port burst chip wire next delay latency polls dummy count x d c idle
          enough (omega (arith, short)) (omega (arith, few)) (omega (arith, short, few, page)) in
      rw goes (
        (ap (λ s. peek (length x + dummy) count (wire x dummy s)) e),
        (idle', chip' ∙ ap (next x dummy count) e),
      )

  copy_into_idle :
      (nand_polls size base : ℕ) (page : ℕ → ℕ → ℕ) (busy loaded : C → ℕ) (nand_latency : ℕ) (d : D)
      → IsNand (exchange wire next) page busy loaded nand_latency
      → nand_latency < nand_polls
      → base + size ≤ 2 ^ 32
      → burst d ≡ none
      → (d' : D) × (copy_into (carried port polls) nand_polls size base size d
          ≡ some (image (flash page) base size, d'))
        × (burst d' ≡ none)
  unfolding Same
  copy_into_idle nand_polls size base page busy loaded nand_latency d chip_ok more fits idle =
      let t = carried port polls in
      let u = exchange wire next in
      let (c', e) =
        copy_into-image u page busy loaded nand_latency nand_polls base size (chip d) chip_ok more
          fits in
      let held =
        copy_into-Both t u Idle carried-Simulates nand_polls size base size d (chip d)
          (idle, refl) in
      let (a, goes, (same, rest)) =
        Both-some (Same t u Idle) (copy_into t nand_polls size base size d)
          (image (flash page) base size, c') (rw e at held) in
      (a.1, goes ∙ ap (λ l. some (l, a.1)) same, rest.0)

-- With a controller that keeps `IsController` and no burst running, a flash chip behind it that keeps
-- `IsNand` over its exchanges, more polls in each loop than the latency of the one it waits for, and a range
-- below 4 GiB, `copy_into` over the registers ends, with exactly the bytes of the flash from `base` on, and
-- no burst runs afterwards.
pub copy_into-carried :
    {D C : Type 0} (port : Port D) (burst : D → Option Burst) (chip : D → C)
    (wire : List ℕ → ℕ → C → ℕ → ℕ) (next : List ℕ → ℕ → ℕ → C → C) (delay : D → ℕ)
    (latency polls nand_polls size base : ℕ) (page : ℕ → ℕ → ℕ) (busy loaded : C → ℕ)
    (nand_latency : ℕ) (d : D)
    → IsController port burst chip wire next delay latency
    → latency < polls
    → IsNand (exchange wire next) page busy loaded nand_latency
    → nand_latency < nand_polls
    → base + size ≤ 2 ^ 32
    → burst d ≡ none
    → (d' : D) × (copy_into (carried port polls) nand_polls size base size d
        ≡ some (image (flash page) base size, d'))
      × (burst d' ≡ none)
copy_into-carried port burst chip wire next delay latency polls nand_polls size base page busy
      loaded nand_latency d c enough =
    copy_into_idle port burst chip wire next delay latency polls c enough nand_polls size base page
      busy loaded nand_latency d
