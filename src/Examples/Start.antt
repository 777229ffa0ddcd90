-- ===== src/Examples/Start.antt =====
-- Examples for the start of the SEE, its protection and its extensions.
use rustsbi_d.Base.{
  ℕ, ◌+◌, ◌*◌, ◌/◌, ◌^◌, ◌≡◌, refl, ap, inl, inr, Bool, true, false, Option, none, some, List, [],
  ◌∷◌, ◌++◌, arith, ◌==◌, if◌then◌else◌, Bool-cases, Option-cases, u64, ◌>>=◌,
}
use rustsbi_d.Base.Fields.{with_field}
use rustsbi_d.Common.Memory as memory
use rustsbi_d.See.Execute.{Machine}
use rustsbi_d.See.Pmp.{
  Pmp, Range, Permission, range_code, permission_code, SetsByte, set_pmp, print_pmps,
}
use rustsbi_d.See.Pmp.{entry, dump_pmp}
use rustsbi_d.See.Pmp.Napot.{entry-hits}
use rustsbi_d.See.Pmp.Protect.{hits, rights, set_pmp-rights, region, print_pmps-set_pmp}
use rustsbi_d.Common.Dtb.{
  parse_memory_size, sub_node, model_property, reg_property, memory_name, step_over, step_out,
  terminate,
}
use rustsbi_d.Hal.Plic.{Plic, Ctrl, ms}
use rustsbi_d.Common.Dtb.{DtbObj, WalkOperation, Dtb, OnlyCalls}
use rustsbi_d.See.Board.{BoardInfo, visit, visit-either_order}

abbrev pub set_cfg : ℕ → Range → Permission → ℕ → ℕ
set_cfg i r q x = with_field (i * 8) 8 (range_code r * 8 + permission_code q) x

pub set_cfg-SetsByte : SetsByte set_cfg
set_cfg-SetsByte i r q x = refl

abbrev pub reset : Pmp
reset = record { cfg0 = 0; cfg2 = 0; addr = λ i. 0 }

set_pmp-rights_example :
    rights 8 0 0 (set_pmp set_cfg 0x40000000 0x60000000 0x40200000 reset) 0x40001234 ≡ some 0
set_pmp-rights_example =
    set_pmp-rights set_cfg 0x40000000 0x60000000 0x40200000 0x40001234 reset set_cfg-SetsByte
      (omega arith) (omega arith) (omega arith) (omega arith) (omega arith) (omega arith)

print_pmps-set_pmp_example :
    print_pmps (set_pmp set_cfg 0x40000000 0x60000000 0x40200000 reset)
    ≡ some (
        region 1 0 0x40000000 false true true
        ∷ region 2 0x40000000 0x40200000 false false false
        ∷ region 3 0x40200000 0x60000000 true true true
        ∷ [])
print_pmps-set_pmp_example =
    print_pmps-set_pmp set_cfg 0x40000000 0x60000000 0x40200000 reset set_cfg-SetsByte refl refl
      (omega arith) (omega arith) (omega arith) (omega arith) (omega arith) (omega arith)

abbrev blank : BoardInfo
blank = record { any = false; dtb = (0x5ff00000, 0x5ff00100); model = []; mem = (0, 0) }

visit-either_order_example :
    let found : BoardInfo = record {
      any = true;
      dtb = (0x5ff00000, 0x5ff00100);
      model = b'D' ∷ b'1' ∷ [];
      mem = (0x40000000, 0x60000000);
    } in
    let m = model_property true (b'D' ∷ b'1' ∷ []) in
    let r = reg_property (memory_name ++ (b'@' ∷ [])) ((0x40000000, 0x60000000) ∷ []) in
    (b1 : BoardInfo) × (b2 : BoardInfo) × (visit m blank ≡ some (step_over, b1))
    × (visit r b1 ≡ some (terminate, found))
    × (visit r blank ≡ some (step_out, b2))
    × (visit m b2 ≡ some (terminate, found))
visit-either_order_example =
    visit-either_order (b'D' ∷ b'1' ∷ []) (memory_name ++ (b'@' ∷ [])) (0x40000000, 0x60000000) []
      blank (omega arith) refl refl

abbrev booted : memory.Meta
booted = record memory.default { see = 0; kernel = 0x200000 }

abbrev pub closed : Plic
closed = record { ctrl = Ctrl.m }

abbrev pub allowed : Plic
allowed = record { ctrl = ms }

-- A walk that hands over a list of objects, until the callback ends it.
abbrev is_end : WalkOperation → Bool
is_end terminate = true
is_end _ = false

abbrev walk_on :
    {S : Type 0}
    → (DtbObj → S → Option (WalkOperation × S))
    → List DtbObj
    → WalkOperation × S
    → Option S
walk_on visit [] r = some r.1
walk_on visit (obj ∷ objs) r =
    if is_end r.0 then some r.1 else (visit obj r.1 >>= walk_on visit objs)

some_or : {S : Type 0} → S → Option S → S
some_or s none = s
some_or s (some t) = t

some_P : {S : Type 0} (P : S → Type 0) (s s' : S) → P s → some s ≡ some s' → P s'
unfolding some_or
some_P P s s' h e = let same : s ≡ s' = ap (some_or s) e in rw (← same) h

walk_on_lem :
    (S : Type 0) (visit : DtbObj → S → Option (WalkOperation × S)) (P : S → Type 0)
    → ((obj : DtbObj) (op : WalkOperation) (s s' : S) → P s → visit obj s ≡ some (op, s') → P s')
    → (objs : List DtbObj) (r : WalkOperation × S) (s' : S) → P r.1
    → walk_on visit objs r ≡ some s'
    → P s'
walk_on_lem S visit P keeps [] r s' h e = some_P P r.1 s' h e
walk_on_lem S visit P keeps (obj ∷ objs) r s' h e = elim (Bool-cases (is_end r.0)) [
  | inl t ↦ some_P P r.1 s' h (rw t at e)
  | inr t ↦ elim (Option-cases (visit obj r.1)) [
    | inl v ↦ absurd (cc (rw (t, v) at e))
    | inr (n, v) ↦
        walk_on_lem S visit P keeps objs n s' (keeps obj n.0 r.1 n.1 h v) (rw (t, v) at e)
  ]
]

abbrev pub tree : Dtb
tree = record {
  total_size = 0x100;
  walk = λ visit s.
      walk_on visit
        (model_property true (b'D' ∷ b'1' ∷ [])
          ∷ sub_node true memory_name
          ∷ reg_property memory_name ((0x40000000, 0x60000000) ∷ [])
          ∷ [])
        (step_over, s);
}

-- The size of the memory in that tree, wherever it lies.
abbrev pub size_in_tree : (ℕ → ℕ) → Option ℕ
size_in_tree mem = parse_memory_size (λ ptr f. some tree) 0x40000000

pub tree_only : OnlyCalls tree
tree_only S visit P keeps s s' h e =
    walk_on_lem S visit P keeps
      (model_property true (b'D' ∷ b'1' ∷ [])
        ∷ sub_node true memory_name
        ∷ reg_property memory_name ((0x40000000, 0x60000000) ∷ [])
        ∷ [])
      (step_over, s) s' h e

abbrev pub found_board : BoardInfo
found_board = record {
  any = true;
  dtb = (0x5fe00000, 0x5fe00100);
  model = b'D' ∷ b'1' ∷ [];
  mem = (0x40000000, 0x60000000);
}

abbrev with_tree : memory.Meta
with_tree = record booted { dtb = 0x1fe00000 }

abbrev machine : Machine
machine = record {
  mstatus = 0;
  mtval = 0;
  scause = 0;
  stval = 0;
  sepc = 0;
  stvec = 0;
  mip = 34;
  mie = 0;
  mideleg = 0;
  medeleg = 0;
  mtvec = 0;
  time = 77;
  clint = record { msip = 1; mtimecmpl = 7; mtimecmph = 1; ssip = 0; stimecmpl = 0; stimecmph = 0 };
}

-- An entry with two ones below 0x1000: it covers 8 words, and 16 bytes are shown.
abbrev napot_entry : Pmp
napot_entry = record { cfg0 = 0x1F; cfg2 = 0; addr = λ i. 0x8003 }

entry-hits_example :
    (s : ℕ) × (entry 0 0x1F napot_entry ≡ some (dump_pmp 0 s (u64 (s + 2 ^ 4)) 0x1F ∷ []))
    × ((below word : ℕ) → hits 3 below 0x8003 word ≡ (word / 2 ^ 3 == 0x1000))
entry-hits_example = entry-hits 0 0x1F 2 0x1000 napot_entry refl (omega arith) refl
