-- ===== src/See/Switch/Laws.antt =====
-- `m_to_s` and `s_to_m`: the registers, the context and the frame after each.
use rustsbi_d.Base.{
  ℕ, ◌+◌, ◌-◌, ◌*◌, ◌^◌, ◌≤◌, ◌<◌, ◌≡◌, ap, ◌∙◌, ◌≢◌, ◌⊎◌, inl, inr, [], ◌∷◌, ◌++◌, arith, u64,
}
use native.Mathlib.Decide.{ℕ_discrete}
use rustsbi_d.See.Cpu.{Cpu, exec, sd, csrrw, mscratch, mstatus, mepc, run, run-append}
use rustsbi_d.See.Switch.{
  push_frame, pop_frame, csrs_of_context, csrs_to_context, swap_stacks, sp, a0, saves, loads,
  m_to_s, s_to_m,
}
use rustsbi_d.See.Switch.Blocks.{saved, loaded, run-saves, run-loads}

-- The frame on the machine's own stack.
abbrev pub frame : Cpu → ℕ
frame m = u64 (m.x sp + (2 ^ 64 - 32 * 8))

framed : Cpu → Cpu
framed m = exec push_frame m

saved_m : Cpu → Cpu
unfolding framed
saved_m m = let m1 = framed m in record m1 { mem = saved 31 1 (m1.x sp) m1.x m1.mem }

-- The machine after `m_to_s`, with its loops summed up.
entered : Cpu → Cpu
unfolding saved_m
entered m =
    let m3 = run csrs_of_context (saved_m m) in
    run swap_stacks (record m3 { x = loaded 29 3 (m3.x sp) m3.x m3.mem })

run-m_to_s : (m : Cpu) → run m_to_s m ≡ entered m
unfolding m_to_s entered
run-m_to_s m =
    run-append (saves 31 1) (csrs_of_context ++ (loads 29 3 ++ swap_stacks)) (framed m)
    ∙ ap (run (csrs_of_context ++ (loads 29 3 ++ swap_stacks))) (run-saves 31 1 (framed m))
    ∙ run-append (loads 29 3) swap_stacks (run csrs_of_context (saved_m m))
    ∙ ap (run swap_stacks) (run-loads 29 3 (run csrs_of_context (saved_m m)) (inr (omega arith)))

caught : Cpu → Cpu
caught s = run (csrrw sp mscratch sp ∷ sd 1 (1 * 8) sp ∷ []) s

saved_s : Cpu → Cpu
unfolding caught
saved_s s = let s1 = caught s in record s1 { mem = saved 29 3 (s1.x sp) s1.x s1.mem }

handed : Cpu → Cpu
unfolding saved_s
handed s = run csrs_to_context (saved_s s)

-- The machine after `s_to_m`.
left : Cpu → Cpu
left s = let s3 = handed s in run pop_frame (record s3 { x = loaded 31 1 (s3.x sp) s3.x s3.mem })

run-s_to_m :
    (s : Cpu) → let s3 = handed s in s3.mem (s3.x sp + sp * 8) ≡ s3.x sp → run s_to_m s ≡ left s
unfolding s_to_m left handed
run-s_to_m s h =
    run-append (saves 29 3) (csrs_to_context ++ (loads 31 1 ++ pop_frame)) (caught s)
    ∙ ap (run (csrs_to_context ++ (loads 31 1 ++ pop_frame))) (run-saves 29 3 (caught s))
    ∙ run-append (loads 31 1) pop_frame (run csrs_to_context (saved_s s))
    ∙ ap (run pop_frame) (run-loads 31 1 (run csrs_to_context (saved_s s)) (inl h))

-- The stack has room for the frame, and the frame and the context do not overlap.
pub record HasRoom (m : Cpu) (c : ℕ) : Type 0 where
  pub stack_low : 32 * 8 ≤ m.x sp
  pub stack_high : m.x sp < 2 ^ 64
  pub apart : (c + 34 * 8 ≤ m.x sp - 32 * 8) ⊎ (m.x sp ≤ c)

entered_reg :
    (m : Cpu) (n : ℕ)
    → HasRoom m (m.x a0)
    → 1 ≤ n
    → n ≤ 31
    → (entered m).x n ≡ m.mem (m.x a0 + n * 8)
unfolding entered
entered_reg m n r lo hi = ground arith

entered_mem :
    (m : Cpu) (p : ℕ)
    → HasRoom m (m.x a0)
    → (p < frame m) ⊎ (frame m + 32 * 8 ≤ p)
    → p ≢ m.x a0
    → (entered m).mem p ≡ m.mem p
unfolding entered
entered_mem m p r away ne = ground arith

entered-frame :
    (m : Cpu) (n : ℕ)
    → HasRoom m (m.x a0)
    → 1 ≤ n
    → n ≤ 31
    → n ≢ sp
    → (entered m).mem (frame m + n * 8) ≡ m.x n
unfolding entered
entered-frame m n r lo hi ne = ground arith

entered-sp :
    (m : Cpu)
    → HasRoom m (m.x a0)
    → ((entered m).mem (frame m + sp * 8) ≡ frame m) × ((entered m).mem (m.x a0) ≡ frame m)
unfolding entered
entered-sp m r = ground arith

entered_csr :
    (m : Cpu)
    → HasRoom m (m.x a0)
    → ((entered m).csr mscratch ≡ m.x a0)
      × ((entered m).csr mstatus ≡ m.mem (m.x a0 + 32 * 8))
      × ((entered m).csr mepc ≡ m.mem (m.x a0 + 33 * 8))
unfolding entered
entered_csr m r = ground arith

-- With room for the frame, `m_to_s` gives the supervisor the 31 registers, `mstatus` and `mepc` of the context that `a0`
-- points to, keeps the context's address in `mscratch`, and writes memory only in the frame and in
-- the context's first word.
pub m_to_s_lem :
    (m : Cpu) (n p : ℕ)
    → HasRoom m (m.x a0)
    → 1 ≤ n
    → n ≤ 31
    → (p < frame m) ⊎ (frame m + 32 * 8 ≤ p)
    → p ≢ m.x a0
    → let s = run m_to_s m in
      (s.x n ≡ m.mem (m.x a0 + n * 8))
      × (s.csr mstatus ≡ m.mem (m.x a0 + 32 * 8))
      × (s.csr mepc ≡ m.mem (m.x a0 + 33 * 8))
      × (s.csr mscratch ≡ m.x a0)
      × (s.mem p ≡ m.mem p)
m_to_s_lem m n p r lo hi away ne =
    let (scratch, status, pc) = entered_csr m r in
    rw (run-m_to_s m) (entered_reg m n r lo hi, status, pc, scratch, entered_mem m p r away ne)

-- What the trap handler finds: the context in `mscratch`, and in it the frame.
record IsTrapped (s : Cpu) (c f : ℕ) : Type 0 where
  context : s.csr mscratch ≡ c
  stack : s.mem c ≡ f
  frame_sp : s.mem (f + sp * 8) ≡ f
  top : f + 32 * 8 < 2 ^ 64
  apart : (c + 34 * 8 ≤ f) ⊎ (f + 32 * 8 ≤ c)

module _ (s : Cpu) (c f : ℕ) (t : IsTrapped s c f) where
  handed-sp : (handed s).x sp ≡ f
  unfolding handed
  handed-sp = ground (arith, t.context, t.stack, t.top, t.apart)

  handed_frame : (n : ℕ) → n ≤ 31 → (handed s).mem (f + n * 8) ≡ s.mem (f + n * 8)
  unfolding handed
  handed_frame n hi = ground (arith, t.context, t.top, t.apart)

  handed_base : (handed s).mem ((handed s).x sp + sp * 8) ≡ (handed s).x sp
  handed_base = ground (arith, handed-sp, handed_frame sp, t.frame_sp)

  left_reg : (n : ℕ) → 1 ≤ n → n ≤ 31 → n ≢ sp → (left s).x n ≡ s.mem (f + n * 8)
  unfolding left
  left_reg n lo hi ne = ground (arith, handed-sp, handed_frame n)

  left-sp : (left s).x sp ≡ f + 32 * 8
  unfolding left
  left-sp = ground (arith, handed-sp, handed_frame sp, t.frame_sp, t.top)

  left_context : (n : ℕ) → 1 ≤ n → n ≤ 31 → (left s).mem (c + n * 8) ≡ s.x n
  unfolding left handed
  left_context n lo hi = ground (arith, t.context, t.stack, t.top, t.apart)

  left_csrs : ((left s).mem (c + 32 * 8) ≡ s.csr mstatus) × ((left s).mem (c + 33 * 8) ≡ s.csr mepc)
  unfolding left handed
  left_csrs = ground (arith, t.context, t.stack, t.top, t.apart)

-- The supervisor ran between: it kept `mscratch`, and the machine's frame and the
-- context's first word are as they were.
pub record Kept (before after : Cpu) (c f : ℕ) : Type 0 where
  pub scratch : after.csr mscratch ≡ before.csr mscratch
  pub first : after.mem c ≡ before.mem c
  pub stack : (n : ℕ) → 1 ≤ n → n ≤ 31 → after.mem (f + n * 8) ≡ before.mem (f + n * 8)

Kept-IsTrapped :
    (m s : Cpu)
    → HasRoom m (m.x a0)
    → Kept (run m_to_s m) s (m.x a0) (frame m)
    → IsTrapped s (m.x a0) (frame m)
Kept-IsTrapped m s r k =
    let run_eq = run-m_to_s m in
    let k' : Kept (entered m) s (m.x a0) (frame m) = rw run_eq at k in
    record {
      context = k'.scratch ∙ (entered_csr m r).0;
      stack = k'.first ∙ (entered-sp m r).1;
      frame_sp = k'.stack sp (omega arith) (omega arith) ∙ (entered-sp m r).0;
      top = omega (arith, r.stack_low, r.stack_high);
      apart = ground (arith, r.stack_low, r.stack_high, r.apart);
    }

restored :
    (m s : Cpu) (n : ℕ)
    → HasRoom m (m.x a0)
    → Kept (run m_to_s m) s (m.x a0) (frame m)
    → 1 ≤ n
    → n ≤ 31
    → (left s).x n ≡ m.x n
restored m s n r k lo hi =
    let t = Kept-IsTrapped m s r k in
    let k' : Kept (entered m) s (m.x a0) (frame m) = rw (run-m_to_s m) at k in
    elim (ℕ_discrete n sp) [
      | yes e ↦ rw e (ground (arith, left-sp s (m.x a0) (frame m) t, r.stack_low, r.stack_high))
      | no ne ↦
          left_reg s (m.x a0) (frame m) t n lo hi ne
          ∙ k'.stack n lo hi
          ∙ entered-frame m n r lo hi ne
    ]

-- If the supervisor kept `mscratch`, the context's first word and the frame, a trap back into machine mode
-- gives each of the 31 registers of the call of `m_to_s` its value again, and leaves in the context each
-- register, `mstatus` and `mepc` as the trap found them.
pub s_to_m-m_to_s :
    (m s : Cpu) (n : ℕ)
    → HasRoom m (m.x a0)
    → Kept (run m_to_s m) s (m.x a0) (frame m)
    → 1 ≤ n
    → n ≤ 31
    → let back = run s_to_m s in
      (back.x n ≡ m.x n)
      × (back.mem (m.x a0 + n * 8) ≡ s.x n)
      × (back.mem (m.x a0 + 32 * 8) ≡ s.csr mstatus)
      × (back.mem (m.x a0 + 33 * 8) ≡ s.csr mepc)
s_to_m-m_to_s m s n r k lo hi =
    let c = m.x a0 in
    let f = frame m in
    let t = Kept-IsTrapped m s r k in
    rw (run-s_to_m s (handed_base s c f t)) (
      restored m s n r k lo hi,
      left_context s c f t n lo hi,
      (left_csrs s c f t).0,
      (left_csrs s c f t).1,
    )
