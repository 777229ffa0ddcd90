-- ===== src/See/Pmp/Protect.antt =====
-- The protection that `set_pmp` sets up, by the rules of the RISC-V privileged architecture.
use rustsbi_d.Base.{
  ℕ, zero, suc, ◌+◌, ◌*◌, ◌/◌, ◌%◌, ◌^◌, ◌≤◌, ◌<◌, ◌≡◌, refl, ap, ◌∙◌, inl, inr, Bool, true, false,
  ◌&&◌, Option, none, some, [], ◌∷◌, arith, ltb, leb, ◌==◌, if◌then◌else◌, Bool-cases, lt→ltb,
  le→ltb_false, u64,
}
use rustsbi_d.Base.{le→leb, refl, inl, inr, lt→ltb, ◌∷◌, []}
use native.Mathlib.Decide.{dec_lt}
use rustsbi_d.Base.Fields.{with_field}
use rustsbi_d.See.Pmp.{
  entry, entries, Region, print_pmps, Pmp, Range, off, tor, Permission, no_access, read_write,
  read_write_execute, SetsByte, set_pmp, trailing_ones,
}

-- The byte of an entry below 8, and the mode in it.
abbrev pub cfg_byte : Pmp → ℕ → ℕ
cfg_byte p i = p.cfg0 / 2 ^ (i * 8) % 256

-- The architecture's test of an address against an entry, by the entry's mode.
abbrev pub hits : ℕ → ℕ → ℕ → ℕ → Bool
hits mode below top word =
    let block = 2 ^ (trailing_ones 64 top + 1) in
    if mode == 0
    then false
    else if mode == 1
    then leb below word && ltb word top
    else if mode == 2
    then word == top
    else word / block == top / block

-- The permission bits of the first of the `left` entries from `i` on that the address hits.
abbrev pub rights : ℕ → ℕ → ℕ → Pmp → ℕ → Option ℕ
rights zero i below p a = none
rights (suc left) i below p a =
    let later = rights left (i + 1) (p.addr i) p a in
    if hits (cfg_byte p i / 8 % 4) below (p.addr i) (a / 4) then some (cfg_byte p i % 8) else later

module _ (set_cfg : ℕ → Range → Permission → ℕ → ℕ) (sets : SetsByte set_cfg) where
  set_pmp_cfg :
      (s e k : ℕ) (p : Pmp) → (set_pmp set_cfg s e k p).cfg0 ≡ p.cfg0 / 2 ^ 32 * 2 ^ 32 + 0x0F080B00
  unfolding set_pmp
  set_pmp_cfg s e k p = rw (sets 0 off no_access p.cfg0) (
      rw (sets 1 tor read_write (with_field 0 8 0 p.cfg0)) (
        rw (sets 2 tor no_access (with_field 8 8 11 (with_field 0 8 0 p.cfg0))) (
          rw
            (sets 3 tor read_write_execute
              (with_field 16 8 8 (with_field 8 8 11 (with_field 0 8 0 p.cfg0))))
            (omega arith))))

rights_off :
    (left i below : ℕ) (p : Pmp) (a : ℕ)
    → cfg_byte p i / 8 % 4 ≡ 0
    → rights (suc left) i below p a ≡ rights left (i + 1) (p.addr i) p a
rights_off left i below p a h = rw h refl

rights_above :
    (left i below : ℕ) (p : Pmp) (a : ℕ)
    → cfg_byte p i / 8 % 4 ≡ 1
    → p.addr i ≤ a / 4
    → rights (suc left) i below p a ≡ rights left (i + 1) (p.addr i) p a
rights_above left i below p a h top = rw h (
    rw (le→ltb_false (a / 4) (p.addr i) top)
      (elim (Bool-cases (leb below (a / 4))) [ inl t ↦ rw t refl | inr f ↦ rw f refl ]))

rights_inside :
    (left i below : ℕ) (p : Pmp) (a : ℕ)
    → cfg_byte p i / 8 % 4 ≡ 1
    → below ≤ a / 4
    → a / 4 < p.addr i
    → rights (suc left) i below p a ≡ some (cfg_byte p i % 8)
rights_inside left i below p a h low top =
    rw h (rw (le→leb below (a / 4) low) (rw (lt→ltb (a / 4) (p.addr i) top) refl))

module _ (set_cfg : ℕ → Range → Permission → ℕ → ℕ) (sets : SetsByte set_cfg) (s e k : ℕ)
    (p : Pmp) where
  after : Pmp
  after = set_pmp set_cfg s e k p

  after_cfg : after.cfg0 ≡ p.cfg0 / 2 ^ 32 * 2 ^ 32 + 0x0F080B00
  unfolding after
  after_cfg = set_pmp_cfg set_cfg sets s e k p

  after_addr :
      (after.addr 0 ≡ 0) × (after.addr 1 ≡ s / 4) × (after.addr 2 ≡ k / 4) × (after.addr 3 ≡ e / 4)
  unfolding after set_pmp
  after_addr = (refl, refl, refl, refl)

  after_bytes :
      (cfg_byte after 0 ≡ 0)
      × (cfg_byte after 1 ≡ 11)
      × (cfg_byte after 2 ≡ 8)
      × (cfg_byte after 3 ≡ 15)
  after_bytes = (
    omega (arith, after_cfg),
    omega (arith, after_cfg),
    omega (arith, after_cfg),
    omega (arith, after_cfg),
  )

  after-rights :
      (a : ℕ)
      → s % 4 ≡ 0
      → k % 4 ≡ 0
      → e % 4 ≡ 0
      → s ≤ k
      → k ≤ e
      → a < e
      → rights 8 0 0 after a ≡ some (if ltb a s then 3 else if ltb a k then 0 else 7)
  after-rights a s4 k4 e4 sk ke ae =
      let (b0, b1, b2, b3) = after_bytes in
      let (a0, a1, a2, a3) = after_addr in
      rights_off 7 0 0 after a (omega (arith, b0)) ∙ (elim (dec_lt a s) [
        | yes p1 ↦
            rights_inside 6 1 (after.addr 0) after a (omega (arith, b1)) (omega (arith, a0))
              (omega (arith, a1))
            ∙ rw (lt→ltb a s p1) (ap some (omega (arith, b1)))
        | no n1 ↦
            rights_above 6 1 (after.addr 0) after a (omega (arith, b1)) (omega (arith, a1))
            ∙ rw (le→ltb_false a s (omega arith)) (elim (dec_lt a k) [
              | yes p2 ↦
                  rights_inside 5 2 (after.addr 1) after a (omega (arith, b2)) (omega (arith, a1))
                    (omega (arith, a2))
                  ∙ rw (lt→ltb a k p2) (ap some (omega (arith, b2)))
              | no n2 ↦
                  rights_above 5 2 (after.addr 1) after a (omega (arith, b2)) (omega (arith, a2))
                  ∙ rights_inside 4 3 (after.addr 2) after a (omega (arith, b3)) (omega (arith, a2))
                      (omega (arith, a3))
                  ∙ rw (le→ltb_false a k (omega arith)) (ap some (omega (arith, b3)))
            ])
      ])

-- `set_pmp` leaves entry 0 off.
pub set_pmp-off :
    (set_cfg : ℕ → Range → Permission → ℕ → ℕ) (s e k : ℕ) (p : Pmp)
    → SetsByte set_cfg
    → cfg_byte (set_pmp set_cfg s e k p) 0 ≡ 0
set_pmp-off set_cfg s e k p sets = omega (arith, set_pmp_cfg set_cfg sets s e k p)

-- What `set_pmp` sets up, with addresses in the order start of memory, kernel, end of memory and each a
-- multiple of 4: below the start of memory data can be read and written, from there to the kernel (where
-- the SEE lies) nothing is allowed, and from the kernel to the end of memory everything; whatever the
-- entries held before.
pub set_pmp-rights :
    (set_cfg : ℕ → Range → Permission → ℕ → ℕ) (mem_start mem_end kernel a : ℕ) (p : Pmp)
    → SetsByte set_cfg
    → mem_start % 4 ≡ 0
    → kernel % 4 ≡ 0
    → mem_end % 4 ≡ 0
    → mem_start ≤ kernel
    → kernel ≤ mem_end
    → a < mem_end
    → rights 8 0 0 (set_pmp set_cfg mem_start mem_end kernel p) a
      ≡ some (if ltb a mem_start then 3 else if ltb a kernel then 0 else 7)
unfolding after
set_pmp-rights set_cfg s e k a p sets s4 k4 e4 sk ke ae =
    after-rights set_cfg sets s e k p a s4 k4 e4 sk ke ae

abbrev pub region : ℕ → ℕ → ℕ → Bool → Bool → Bool → Region
region i s e x w r = record { index = i; start = s; end = e; x = x; w = w; r = r }

print_set :
    (set_cfg : ℕ → Range → Permission → ℕ → ℕ) (s e k : ℕ) (p : Pmp)
    → SetsByte set_cfg
    → p.cfg0 ≡ 0
    → p.cfg2 ≡ 0
    → print_pmps (set_pmp set_cfg s e k p)
      ≡ some (
          region 1 0 (u64 (s / 4 * 4)) false true true
          ∷ region 2 (u64 (s / 4 * 4)) (u64 (k / 4 * 4)) false false false
          ∷ region 3 (u64 (k / 4 * 4)) (u64 (e / 4 * 4)) true true true
          ∷ [])
unfolding print_pmps entries entry set_pmp
print_set set_cfg s e k p sets z0 z2 =
    let c : (set_pmp set_cfg s e k p).cfg0 ≡ 0x0F080B00 =
      set_pmp_cfg set_cfg sets s e k p ∙ omega (arith, z0) in
    rw c (rw z2 refl)

-- On a machine whose entries were all off, `print_pmps` shows exactly the three regions that `set_pmp` set
-- up, for addresses of 64 bits that are multiples of 4.
pub print_pmps-set_pmp :
    (set_cfg : ℕ → Range → Permission → ℕ → ℕ) (mem_start mem_end kernel : ℕ) (p : Pmp)
    → SetsByte set_cfg
    → p.cfg0 ≡ 0
    → p.cfg2 ≡ 0
    → mem_start % 4 ≡ 0
    → kernel % 4 ≡ 0
    → mem_end % 4 ≡ 0
    → mem_start < 2 ^ 64
    → kernel < 2 ^ 64
    → mem_end < 2 ^ 64
    → print_pmps (set_pmp set_cfg mem_start mem_end kernel p)
      ≡ some (
          region 1 0 mem_start false true true
          ∷ region 2 mem_start kernel false false false
          ∷ region 3 kernel mem_end true true true
          ∷ [])
print_pmps-set_pmp set_cfg s e k p sets z0 z2 s4 k4 e4 sb kb eb =
    print_set set_cfg s e k p sets z0 z2
    ∙ rw ((let q : u64 (s / 4 * 4) ≡ s = omega arith in q)) (
        rw ((let q : u64 (k / 4 * 4) ≡ k = omega arith in q))
          (rw ((let q : u64 (e / 4 * 4) ≡ e = omega arith in q)) refl))
