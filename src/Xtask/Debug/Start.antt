-- ===== src/Xtask/Debug/Start.antt =====
-- `Components::debug` as a whole, and the SEE of see/src/main.rs that it starts.
use rustsbi_d.Base.{
  ℕ, ◌+◌, ◌-◌, ◌^◌, ◌≤◌, ◌<◌, ◌≡◌, refl, ◌⊎◌, inl, inr, Bool, true, false, Option, none, some, List,
  arith, length, u32,
}
use rustsbi_d.Base.Ram.{peek, place}
use rustsbi_d.Common.Memory.{dram, kernel_base, meta_base, Meta}
use rustsbi_d.See.Pmp.{Pmp, Range, Permission, SetsByte}
use rustsbi_d.See.Pmp.Protect.{rights}
use rustsbi_d.Common.Dtb.{HeaderError, Dtb}
use rustsbi_d.Hal.Plic.{Plic, allow_supervisor}
use rustsbi_d.See.Pmp.{Region}
use rustsbi_d.See.Start.{banner, supervise, rust_main}
use rustsbi_d.See.Start.Boots.{rust_main-rights}
use rustsbi_d.Xtask.Debug.Laws.{put_at, debug_see_lem, meta_of, offset_of, Sized}
use rustsbi_d.Xtask.Debug.Debugged.{LoadedAt, final_ram_lem, Debugged, final_ram}
use rustsbi_d.Xtask.World.{
  ddr, meta_ram, Target, Host, World, write_file, write, exec, Holds, absent, FilePath,
}
use rustsbi_d.Xtask.Result.{invalid_procedure, ok, err}
use rustsbi_d.Xtask.Make.{Components, make}
use rustsbi_d.Xtask.Debug.{is_some, debug_spl, start, debug}
use rustsbi_d.Xtask.Spinand.Layout.{len_of}
use rustsbi_d.Common.Memory as memory

debug_spl_lem :
    (h : Host) (t : Option FilePath) (w : World)
    → Holds w.files t none
    → debug_spl h t w ≡ ok (dram, w)
unfolding debug_spl
debug_spl_lem h none w absent = refl
debug_spl_lem h (some p) w x = elim x [ ]

start_lem :
    (h : Host) (m : Meta) (w : World)
    → (w2 : World) × (start h m (dram, w) ≡ ok w2)
      × (w2.ram ≡ place meta_base (memory.as_bytes m) w.ram)
      × (w2.ddr ≡ w.ddr)
      × (w2.entry ≡ some dram)
unfolding start write exec write_file
start_lem h m w = (
  record (write_file meta_ram (memory.as_bytes m) w) {
    ram = place meta_base (memory.as_bytes m) w.ram;
    entry = some dram;
  },
  refl,
  refl,
  refl,
  refl,
)

pub debug-Debugged :
    (h : Host) (c : Components) (w w1 : World) (t : Target) (size : ℕ) (see : List ℕ)
    (kernel dtb : Option (List ℕ))
    → c.spl ≡ false
    → c.see ≡ true
    → make h c w ≡ ok (t, w1)
    → Holds w1.files t.spl none
    → Holds w1.files t.see (some see)
    → Holds w1.files t.kernel kernel
    → Holds w1.files t.dtb dtb
    → Sized h size dtb
    → length see ≤ kernel_base - dram
    → 2 ^ 21 ≤ u32 size
    → ((bytes : List ℕ)
        → dtb ≡ some bytes
        → kernel_base - dram + len_of kernel ≤ offset_of size dtb)
    → (m : Meta) × (w2 : World) × (debug h c w ≡ ok w2) × Debugged size see kernel dtb m w2
unfolding debug final_ram ddr
debug-Debugged h c w w1 t size see kernel dtb no_spl with_see made has_spl has_see has_kernel
      has_dtb sized see_fits ample kernel_fits =
    let m = meta_of size kernel dtb in
    let v : World = record (ddr w1) {
      ram =
          put_at (dram + offset_of size dtb) dtb
            (put_at kernel_base kernel (place dram see w1.ram));
    } in
    let run =
      debug_see_lem h size t.see t see kernel dtb memory.default w1 has_see has_kernel has_dtb
        sized in
    let (w2, started, ram, ready, entry) = start_lem h m v in
    (
      m,
      w2,
      rw (made, run, debug_spl_lem h t.spl v has_spl, started, no_spl, with_see) refl,
      final_ram_lem size see kernel dtb w2 w1.ram see_fits ample kernel_fits ram ready entry,
    )

-- The loader together with the SEE, or a kernel without the SEE, is refused before anything is built.
pub debug_refuses :
    (h : Host) (c : Components) (w : World)
    → ((c.spl ≡ true) × (c.see ≡ true)) ⊎ ((c.see ≡ false) × (is_some c.kernel ≡ true))
    → debug h c w ≡ err invalid_procedure
unfolding debug
debug_refuses h c w (inl (s, e)) = rw (s, e) refl
debug_refuses h c w (inr (e, k)) = rw (e, k) (ground arith)

-- A debug run of a SEE of at most 2 MiB with a kernel, without loader and device tree, once `make` has found the files, under a
-- CSR crate that sets one byte of pmpcfg: `debug` succeeds; from the meta data that lies at its fixed place in SRAM the
-- SEE goes to the kernel, with S mode let into the interrupt controller; bytes lie at the address where the SEE jumps, and S mode has no right to any address
-- of the DRAM below them.
pub debug-rust_main :
    (h : Host) (c : Components) (w w1 : World) (t : Target) (see kernel : List ℕ)
    (set_cfg : ℕ → Range → Permission → ℕ → ℕ) (from_raw : ℕ → (HeaderError → Bool) → Option Dtb)
    (entry : ℕ) (p : Pmp) (plic : Plic) (a : ℕ)
    → c.spl ≡ false
    → c.see ≡ true
    → make h c w ≡ ok (t, w1)
    → Holds w1.files t.spl none
    → Holds w1.files t.see (some see)
    → Holds w1.files t.kernel (some kernel)
    → Holds w1.files t.dtb none
    → length see ≤ kernel_base - dram
    → SetsByte set_cfg
    → dram ≤ a
    → a < kernel_base
    → (m : Meta) × (w2 : World) × (q : Pmp) × (l : List Region) × (debug h c w ≡ ok w2)
      × (memory.of_bytes (peek meta_base 16 w2.ram) ≡ some m)
      × (rust_main set_cfg from_raw entry m p plic
          ≡ some (
            banner entry kernel_base none,
            supervise (record { start_addr = kernel_base; opaque = 0 }) q (allow_supervisor plic) l,
          ))
      × (peek kernel_base (length kernel) w2.ram ≡ kernel)
      × (rights 8 0 0 q a ≡ some 0)
debug-rust_main h c w w1 t see kernel set_cfg from_raw entry p plic a no_spl with_see made has_spl
      has_see has_kernel has_dtb fits sets low high =
    let (m, w2, run, d) =
      debug-Debugged h c w w1 t (2 ^ 21) see (some kernel) none no_spl with_see made has_spl has_see
        has_kernel has_dtb (λ bytes e. absurd (cc e)) fits (omega arith)
        (λ bytes e. absurd (cc e)) in
    let (q, l, main, denied) =
      rust_main-rights set_cfg from_raw entry (kernel_base - dram) a m p plic sets d.kernel_read
        d.dtb_read (omega arith) (omega arith) low high in
    (m, w2, q, l, run, d.meta_loaded, main, (unfold LoadedAt in d.kernel_loaded), denied)
