-- ===== src/See/Switch/Blocks.antt =====
-- What the expanded loops of saves and loads do to the machine.
use rustsbi_d.Base.{
  ℕ, zero, suc, ◌+◌, ◌-◌, ◌*◌, ◌/◌, ◌%◌, ◌<◌, ◌≡◌, ap, ◌∙◌, fun_ext, ◌⊎◌, ◌&&◌, arith, ltb, leb,
  ◌==◌, if◌then◌else◌,
}
use rustsbi_d.See.Cpu.{Cpu, run, write_reg}
use rustsbi_d.See.Switch.{sp, saves, loads}

-- Memory after `count` registers from `n` on were saved at 8 bytes each above `base`.
abbrev pub saved : ℕ → ℕ → ℕ → (ℕ → ℕ) → (ℕ → ℕ) → ℕ → ℕ
saved count n base x mem p =
    if (leb (base + n * 8) p && ltb p (base + (n + count) * 8)) && ((p - base) % 8 == 0)
    then x ((p - base) / 8)
    else mem p

pub run-saves :
    (count n : ℕ) (s : Cpu)
    → run (saves count n) s ≡ record s { mem = saved count n (s.x sp) s.x s.mem }
unfolding saves
run-saves zero n s = ap (λ m. record s { mem = m }) (fun_ext (λ p. ground arith))
run-saves (suc count) n s =
    run-saves count (n + 1) _ ∙ ap (λ m. record s { mem = m }) (fun_ext (λ p. ground arith))

-- Registers after `count` of them from `n` on were loaded from above `base`.
abbrev pub loaded : ℕ → ℕ → ℕ → (ℕ → ℕ) → (ℕ → ℕ) → ℕ → ℕ
loaded count n base x mem j = if leb n j && ltb j (n + count) then mem (base + j * 8) else x j

-- The base register itself may be among them, where its own slot holds its value.
pub run-loads :
    (count n : ℕ) (s : Cpu)
    → s.mem (s.x sp + sp * 8) ≡ s.x sp ⊎ sp < n
    → run (loads count n) s ≡ record s { x = loaded count n (s.x sp) s.x s.mem }
unfolding loads
run-loads zero n s h = ap (λ m. record s { x = m }) (fun_ext (λ p. ground arith))
run-loads (suc count) n s h =
    let s' : Cpu = write_reg n (s.mem (s.x sp + n * 8)) s in
    let same : s'.x sp ≡ s.x sp = ground arith in
    run-loads count (n + 1) s' (ground arith)
    ∙ ap (λ f. record s { x = f }) (fun_ext (λ j. ground arith))
