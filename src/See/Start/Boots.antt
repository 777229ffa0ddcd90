-- ===== src/See/Start/Boots.antt =====
-- see/src/main.rs, `rust_main`: the SEE runs the kernel under a protection that keeps it out of the SEE.
use rustsbi_d.Base.{
  ℕ, ◌+◌, ◌*◌, ◌%◌, ◌^◌, ◌≤◌, ◌<◌, ◌≡◌, refl, ap, ◌∙◌, Bool, false, Option, none, some, List, arith,
  ltb, ◌==◌, if◌then◌else◌, lt→ltb, le→ltb_false, u64,
}
use rustsbi_d.Common.Dtb.{HeaderError, is_version_16, Dtb, OnlyCalls}
use rustsbi_d.Common.Memory as memory
use rustsbi_d.Common.Memory.{dram}
use rustsbi_d.Hal.Plic.{Plic, allow_supervisor}
use rustsbi_d.See.Board.{BoardInfo, blank, visit, parse_board_info, parse_board_info-Fits}
use rustsbi_d.See.Pmp.{Pmp, Range, Permission, Region, SetsByte, set_pmp}
use rustsbi_d.See.Pmp.Protect.{rights, set_pmp-rights, set_pmp-off}
use rustsbi_d.See.Pmp.Shows.{print_pmps-some}
use rustsbi_d.See.Start.{
  banner, supervise, mem_or, dtb_or, board_info, protected, launch, rust_main,
}

module _ (set_cfg : ℕ → Range → Permission → ℕ → ℕ)
    (from_raw : ℕ → (HeaderError → Bool) → Option Dtb) (entry : ℕ) where
  launch_lem :
      (kernel : ℕ) (info : Option BoardInfo) (p : Pmp) (plic : Plic)
      → SetsByte set_cfg
      → (l : List Region) × (launch set_cfg from_raw entry kernel info p plic
          ≡ some (
              supervise
                (record { start_addr = kernel; opaque = dtb_or info })
                (protected set_cfg from_raw entry kernel info p)
                (allow_supervisor plic)
                l))
  unfolding launch
  launch_lem kernel info p plic sets =
      let q = protected set_cfg from_raw entry kernel info p in
      let (l, e) =
        print_pmps-some q (set_pmp-off set_cfg (mem_or info).0 (mem_or info).1 kernel p sets) in
      (l, rw e refl)

  rust_main_go :
      (meta : memory.Meta) (p : Pmp) (plic : Plic) (v : ℕ) (info : Option BoardInfo)
      → SetsByte set_cfg
      → memory.read_kernel meta ≡ some (dram + v)
      → board_info set_cfg from_raw entry (memory.read_dtb meta) ≡ some info
      → (l : List Region) × (rust_main set_cfg from_raw entry meta p plic
          ≡ some (
            banner entry (dram + v) info,
            supervise
                (record { start_addr = dram + v; opaque = dtb_or info })
                (protected set_cfg from_raw entry (dram + v) info p)
                (allow_supervisor plic)
                l,
          ))
  unfolding rust_main
  rust_main_go meta p plic v info sets kernel board =
      let (l, e) = launch_lem (dram + v) info p plic sets in
      let z : (dram + v == 0) ≡ false = ground arith in (l, rw (board, kernel) (rw z (rw e refl)))

-- With a kernel at an offset `v` of the DRAM below 512 MiB, a multiple of 4, and no device tree, under a
-- CSR crate that sets one byte of pmpcfg, the SEE runs the kernel at its address with S mode let into the
-- interrupt controller, under a protection that denies S mode every address from the start of the DRAM, where
-- the SEE lies, to the kernel.
pub rust_main-rights :
    (set_cfg : ℕ → Range → Permission → ℕ → ℕ) (from_raw : ℕ → (HeaderError → Bool) → Option Dtb)
    (entry v a : ℕ) (meta : memory.Meta) (p : Pmp) (plic : Plic)
    → SetsByte set_cfg
    → memory.read_kernel meta ≡ some (dram + v)
    → memory.read_dtb meta ≡ none
    → v % 4 ≡ 0
    → v < 512 * 2 ^ 20
    → dram ≤ a
    → a < dram + v
    → (q : Pmp) × (l : List Region) × (rust_main set_cfg from_raw entry meta p plic
        ≡ some (
          banner entry (dram + v) none,
          supervise (record { start_addr = dram + v; opaque = 0 }) q (allow_supervisor plic) l,
        ))
      × (rights 8 0 0 q a ≡ some 0)
rust_main-rights set_cfg from_raw entry v a meta p plic sets kernel dtb four small low high =
    let (l, e) = rust_main_go set_cfg from_raw entry meta p plic v none sets kernel (rw dtb refl) in
    (
      set_pmp set_cfg dram (dram + 512 * 2 ^ 20) (dram + v) p,
      l,
      e,
      set_pmp-rights set_cfg dram (dram + 512 * 2 ^ 20) (dram + v) a p sets (omega arith)
            (omega arith) (omega arith) (omega arith) (omega arith) (omega arith)
          ∙ rw (le→ltb_false a dram low, lt→ltb a (dram + v) high) refl,
    )

-- With a kernel at an offset `v` of the DRAM and a device tree at `addr` whose walk only calls its callback and
-- finds the memory `s` to `e`, with `s`, `e` and `v` multiples of 4 and the kernel in that memory, under a CSR crate
-- that sets one byte of pmpcfg, the SEE shows the range of the tree and runs the kernel at its address with
-- the address of the tree: below `s` data can be read and written, from `s` to the kernel nothing is allowed,
-- and from the kernel to `e` everything.
pub rust_main-board :
    (set_cfg : ℕ → Range → Permission → ℕ → ℕ) (from_raw : ℕ → (HeaderError → Bool) → Option Dtb)
    (entry v a addr : ℕ) (t : Dtb) (i : BoardInfo) (meta : memory.Meta) (p : Pmp) (plic : Plic)
    → SetsByte set_cfg
    → memory.read_kernel meta ≡ some (dram + v)
    → memory.read_dtb meta ≡ some addr
    → from_raw addr is_version_16 ≡ some t
    → OnlyCalls t
    → t.walk visit (blank addr t) ≡ some i
    → i.mem.0 % 4 ≡ 0
    → v % 4 ≡ 0
    → i.mem.1 % 4 ≡ 0
    → i.mem.0 ≤ dram + v
    → dram + v ≤ i.mem.1
    → a < i.mem.1
    → (q : Pmp) × (l : List Region) × (rust_main set_cfg from_raw entry meta p plic
        ≡ some (
          banner entry (dram + v) (some i),
          supervise (record { start_addr = dram + v; opaque = addr }) q (allow_supervisor plic) l,
        ))
      × (i.dtb ≡ (addr, u64 (addr + t.total_size)))
      × (rights 8 0 0 q a ≡ some (if ltb a i.mem.0 then 3 else if ltb a (dram + v) then 0 else 7))
unfolding parse_board_info
rust_main-board set_cfg from_raw entry v a addr t i meta p plic sets kernel dtb found only walked s4
      v4 e4 sk ke ae =
    let parsed : parse_board_info from_raw addr ≡ some (some i) = rw (found, walked) refl in
    let fits = parse_board_info-Fits from_raw addr t i only found parsed in
    let (l, e) =
      rust_main_go set_cfg from_raw entry meta p plic v (some i) sets kernel
        (rw (dtb, found, walked) refl) in
    let q = set_pmp set_cfg i.mem.0 i.mem.1 (dram + v) p in
    (
      q,
      l,
      e
          ∙ ap
              (λ o. some (
                banner entry (dram + v) (some i),
                supervise (record { start_addr = dram + v; opaque = o }) q (allow_supervisor plic)
                    l,
              ))
              (ap (λ r. r.0) fits.0),
      fits.0,
      set_pmp-rights set_cfg i.mem.0 i.mem.1 (dram + v) a p sets s4 (omega (arith, v4)) e4 sk ke ae,
    )
