-- ===== src/Spl/Boot/Over.antt =====
-- The loader over two buses of which one simulates the other.
use rustsbi_d.Base.{
  ℕ, ◌+◌, ◌-◌, ◌≡◌, refl, sym, ap, Bool, true, false, not, Option, none, some, List, ◌==◌,
  if◌then◌else◌, u32, ◌>>=◌,
}
use mathlib.Core.Path.{subst}
use rustsbi_d.Base.Both.{Both, neither, both, Both-bind}
use rustsbi_d.Base.Ram.{place}
use rustsbi_d.Common.Memory as memory
use rustsbi_d.Common.Memory.{dram, kernel_base, dtb_offset, no_offset}
use rustsbi_d.Common.FlashMeta as flash
use rustsbi_d.Common.FlashMeta.{meta_pos}
use rustsbi_d.Spl.Flash.{read_id, copy_into}
use rustsbi_d.Spl.Flash.Over.{Same, Simulates, copy_into-Both, read_id-Both}
use rustsbi_d.Spl.Boot.{
  Loader, Next, idle, jump, load, copy_nonoverlapping, load_dtb, load_see, load_kernel, load_all,
  main,
}

module _ {D C : Type 0} (t : List ℕ → ℕ → ℕ → D → List ℕ × D) (u : List ℕ → ℕ → ℕ → C → List ℕ × C)
    (R : D → C → Type 0) (memory_size : (ℕ → ℕ) → Option ℕ) (polls : ℕ) where
  abbrev pub with_chip : C → Loader D → Loader C
  with_chip c s = record { meta = s.meta; mem = s.mem; chip = c }

  -- The same meta data and memory, and related chips.
  abbrev pub SameLoader : Loader D → Loader C → Type 0
  SameLoader s k = (c : C) × (k ≡ with_chip c s) × R s.chip c

  -- The same next stage, and loaders that are the same.
  abbrev pub SameEnd : Next × Loader D → Next × Loader C → Type 0
  SameEnd p q = (p.0 ≡ q.0) × SameLoader p.1 q.1

  on-SameLoader :
      {A B : Type 0} (Q : A → B → Type 0) (f : Loader D → Option A) (g : Loader C → Option B)
      (s : Loader D) (k : Loader C)
      → SameLoader s k
      → ((c : C) → R s.chip c → Both Q (f s) (g (with_chip c s)))
      → Both Q (f s) (g k)
  on-SameLoader Q f g s k (c, e, r) go = subst (λ k. Both Q (f s) (g k)) (sym e) (go c r)

  pure-bind :
      {X A B : Type 0} (Q : A → B → Type 0) (o : Option X) (f : X → Option A) (g : X → Option B)
      → ((x : X) → Both Q (f x) (g x))
      → Both Q (o >>= f) (o >>= g)
  pure-bind Q none f g go = neither
  pure-bind Q (some x) f g go = go x

  if-Both :
      {A B : Type 0} (Q : A → B → Type 0) (b : Bool) (x : Option A) (x' : Option B) (y : Option A)
      (y' : Option B)
      → Both Q x x'
      → Both Q y y'
      → Both Q (if b then x else y) (if b then x' else y')
  if-Both Q true x x' y y' p q = p
  if-Both Q false x x' y y' p q = q

  module _ (sim : Simulates t u R) where
    load-Both :
        (base pos len : ℕ) (s : Loader D) (k : Loader C)
        → SameLoader s k
        → Both SameLoader
            (load t memory_size polls base pos len s)
            (load u memory_size polls base pos len k)
    unfolding load Same
    load-Both base pos len s k same =
        on-SameLoader SameLoader (load t memory_size polls base pos len)
          (load u memory_size polls base pos len) s k same
          (λ c r.
            Both-bind (Same t u R) SameLoader
              (λ part. some (record s { mem = place base part.0 s.mem; chip = part.1 }))
              (λ part.
                some (record (with_chip c s) { mem = place base part.0 s.mem; chip = part.1 }))
              (copy_into t polls len pos len s.chip) (copy_into u polls len pos len c)
              (copy_into-Both t u R sim polls len pos len s.chip c r)
              (λ p q z.
                both (record s { mem = place base p.0 s.mem; chip = p.1 })
                  (record (with_chip c s) { mem = place base q.0 s.mem; chip = q.1 })
                  (
                    q.1,
                    ap (λ bytes. with_chip q.1 (record s { mem = place base bytes s.mem }))
                        (sym z.0),
                    z.1,
                  )))

    -- What follows a copy, on the meta data and the memory alone.
    then-Both :
        (base pos len : ℕ) (s : Loader D) (k : Loader C) (f : Loader D → Option (Loader D))
        (g : Loader C → Option (Loader C))
        → SameLoader s k
        → ((l : Loader D) (c : C) → R l.chip c → Both SameLoader (f l) (g (with_chip c l)))
        → Both SameLoader
            (load t memory_size polls base pos len s >>= f)
            (load u memory_size polls base pos len k >>= g)
    then-Both base pos len s k f g same go =
        Both-bind SameLoader SameLoader f g (load t memory_size polls base pos len s)
          (load u memory_size polls base pos len k) (load-Both base pos len s k same)
          (λ l m z. on-SameLoader SameLoader f g l m z (go l))

    load_dtb-Both :
        (dtb : Option (ℕ × ℕ)) (s : Loader D) (k : Loader C)
        → SameLoader s k
        → Both SameLoader (load_dtb t memory_size polls dtb s) (load_dtb u memory_size polls dtb k)
    unfolding load_dtb
    load_dtb-Both none s k same = both s k same
    load_dtb-Both (some (pos, len)) s k same =
        let copy : ℕ → (ℕ → ℕ) → Option (ℕ → ℕ) =
          λ size mem. copy_nonoverlapping dram (u32 (dram + dtb_offset size)) len mem in
        then-Both dram pos len s k
          (λ l. memory_size l.mem >>= λ size. copy size l.mem >>= λ mem.
            some (record l { meta = memory.set_dtb (dtb_offset size) l.meta; mem = mem }))
          (λ l. memory_size l.mem >>= λ size. copy size l.mem >>= λ mem.
            some (record l { meta = memory.set_dtb (dtb_offset size) l.meta; mem = mem }))
          same
          (λ l c r.
            pure-bind SameLoader (memory_size l.mem)
              (λ size. copy size l.mem >>= λ mem.
                some (record l { meta = memory.set_dtb (dtb_offset size) l.meta; mem = mem }))
              (λ size. copy size l.mem >>= λ mem. some (record (with_chip c l) {
                meta = memory.set_dtb (dtb_offset size) l.meta;
                mem = mem;
              }))
              (λ size.
                pure-bind SameLoader (copy size l.mem)
                  (λ mem.
                    some (record l { meta = memory.set_dtb (dtb_offset size) l.meta; mem = mem }))
                  (λ mem. some (record (with_chip c l) {
                    meta = memory.set_dtb (dtb_offset size) l.meta;
                    mem = mem;
                  }))
                  (λ mem.
                    both (record l { meta = memory.set_dtb (dtb_offset size) l.meta; mem = mem })
                      (record (with_chip c l) {
                        meta = memory.set_dtb (dtb_offset size) l.meta;
                        mem = mem;
                      })
                      (c, refl, r))))

    load_see-Both :
        (see : ℕ × ℕ) (s : Loader D) (k : Loader C)
        → SameLoader s k
        → Both SameLoader (load_see t memory_size polls see s) (load_see u memory_size polls see k)
    unfolding load_see
    load_see-Both (pos, len) s k same =
        then-Both dram pos len s k (λ l. some (record l { meta = memory.set_see 0 l.meta }))
          (λ l. some (record l { meta = memory.set_see 0 l.meta })) same
          (λ l c r.
            both (record l { meta = memory.set_see 0 l.meta })
              (record (with_chip c l) { meta = memory.set_see 0 l.meta }) (c, refl, r))

    load_kernel-Both :
        (kernel : Option (ℕ × ℕ)) (s : Loader D) (k : Loader C)
        → SameLoader s k
        → Both SameLoader
            (load_kernel t memory_size polls kernel s)
            (load_kernel u memory_size polls kernel k)
    unfolding load_kernel
    load_kernel-Both none s k same = both s k same
    load_kernel-Both (some (pos, len)) s k same =
        then-Both kernel_base pos len s k
          (λ l. some (record l { meta = memory.set_kernel (kernel_base - dram) l.meta }))
          (λ l. some (record l { meta = memory.set_kernel (kernel_base - dram) l.meta })) same
          (λ l c r.
            both (record l { meta = memory.set_kernel (kernel_base - dram) l.meta })
              (record (with_chip c l) { meta = memory.set_kernel (kernel_base - dram) l.meta })
              (c, refl, r))

    load_all-Both :
        (see : Option (ℕ × ℕ)) (table : flash.Meta) (s : Loader D) (k : Loader C)
        → SameLoader s k
        → Both SameEnd
            (load_all t memory_size polls see table s)
            (load_all u memory_size polls see table k)
    unfolding load_all
    load_all-Both none table s k same = both (idle, s) (idle, k) (refl, same)
    load_all-Both (some see) table s k same =
        Both-bind SameLoader SameEnd
          (λ s1. load_see t memory_size polls see s1 >>= λ s2.
            load_kernel t memory_size polls (flash.read_kernel table) s2 >>= λ s3.
            some (jump dram, s3))
          (λ s1. load_see u memory_size polls see s1 >>= λ s2.
            load_kernel u memory_size polls (flash.read_kernel table) s2 >>= λ s3.
            some (jump dram, s3))
          (load_dtb t memory_size polls (flash.read_dtb table) s)
          (load_dtb u memory_size polls (flash.read_dtb table) k)
          (load_dtb-Both (flash.read_dtb table) s k same)
          (λ s1 k1 z1.
            Both-bind SameLoader SameEnd
              (λ s2. load_kernel t memory_size polls (flash.read_kernel table) s2 >>= λ s3.
                some (jump dram, s3))
              (λ s2. load_kernel u memory_size polls (flash.read_kernel table) s2 >>= λ s3.
                some (jump dram, s3))
              (load_see t memory_size polls see s1) (load_see u memory_size polls see k1)
              (load_see-Both see s1 k1 z1)
              (λ s2 k2 z2.
                Both-bind SameLoader SameEnd (λ s3. some (jump dram, s3))
                  (λ s3. some (jump dram, s3))
                  (load_kernel t memory_size polls (flash.read_kernel table) s2)
                  (load_kernel u memory_size polls (flash.read_kernel table) k2)
                  (load_kernel-Both (flash.read_kernel table) s2 k2 z2)
                  (λ s3 k3 z3. both (jump dram, s3) (jump dram, k3) (refl, z3))))

    -- The three copies, by the table that was read.
    table-Both :
        (v : List ℕ × D) (w : List ℕ × C) (s : Loader D) (c : C)
        → Same t u R v w
        → Both SameEnd
            (flash.of_bytes v.0 >>= λ table.
              load_all t memory_size polls (flash.read_see table) table (record s { chip = v.1 }))
            (flash.of_bytes w.0 >>= λ table.
              load_all u memory_size polls
                (flash.read_see table)
                table
                (record (with_chip c s) { chip = w.1 }))
    unfolding Same
    table-Both v w s c (same, r) = rw (← same) (
        pure-bind SameEnd (flash.of_bytes v.0)
          (λ table.
            load_all t memory_size polls (flash.read_see table) table (record s { chip = v.1 }))
          (λ table.
            load_all u memory_size polls (flash.read_see table) table
              (record (with_chip c s) { chip = w.1 }))
          (λ table.
            load_all-Both (flash.read_see table) table (record s { chip = v.1 })
              (record (with_chip c s) { chip = w.1 }) (w.1, refl, r)))

    pub main-Both :
        (s : Loader D) (c : C)
        → R s.chip c
        → Both SameEnd (main t memory_size polls s) (main u memory_size polls (with_chip c s))
    unfolding main Same
    main-Both s c r =
        if-Both SameEnd (not s.meta.from_flash)
          (some ((if s.meta.see == no_offset then idle else jump (dram + s.meta.see)), s))
          (some
            ((if s.meta.see == no_offset then idle else jump (dram + s.meta.see)), with_chip c s))
          (read_id t polls s.chip >>= λ id. copy_into t polls 24 meta_pos 24 id.1 >>= λ part.
            flash.of_bytes part.0 >>= λ table.
            load_all t memory_size polls (flash.read_see table) table (record s { chip = part.1 }))
          (read_id u polls c >>= λ id. copy_into u polls 24 meta_pos 24 id.1 >>= λ part.
            flash.of_bytes part.0 >>= λ table.
            load_all u memory_size polls (flash.read_see table) table
              (record (with_chip c s) { chip = part.1 }))
          (both ((if s.meta.see == no_offset then idle else jump (dram + s.meta.see)), s)
            ((if s.meta.see == no_offset then idle else jump (dram + s.meta.see)), with_chip c s)
            (refl, (c, refl, r)))
          (Both-bind (Same t u R) SameEnd
            (λ id. copy_into t polls 24 meta_pos 24 id.1 >>= λ part.
              flash.of_bytes part.0 >>= λ table.
              load_all t memory_size polls (flash.read_see table) table
                (record s { chip = part.1 }))
            (λ id. copy_into u polls 24 meta_pos 24 id.1 >>= λ part.
              flash.of_bytes part.0 >>= λ table.
              load_all u memory_size polls (flash.read_see table) table
                (record (with_chip c s) { chip = part.1 }))
            (read_id t polls s.chip) (read_id u polls c) (read_id-Both t u R sim polls s.chip c r)
            (λ p q z.
              Both-bind (Same t u R) SameEnd
                (λ part. flash.of_bytes part.0 >>= λ table.
                  load_all t memory_size polls (flash.read_see table) table
                    (record s { chip = part.1 }))
                (λ part. flash.of_bytes part.0 >>= λ table.
                  load_all u memory_size polls (flash.read_see table) table
                    (record (with_chip c s) { chip = part.1 }))
                (copy_into t polls 24 meta_pos 24 p.1) (copy_into u polls 24 meta_pos 24 q.1)
                (copy_into-Both t u R sim polls 24 meta_pos 24 p.1 q.1 z.1)
                (λ v w y. table-Both v w s c y)))
