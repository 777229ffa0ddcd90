-- ===== src/See/Cpu.antt =====
-- The instructions that the naked functions of see/src/execute.rs are written in. A register is
-- named by its number, memory is read and written in double words at byte addresses.
use rustsbi_d.Base.{ℕ, ◌+◌, ◌≡◌, refl, List, [], ◌∷◌, ◌++◌, ◌==◌, if◌then◌else◌, u64}

pub data Csr : Type 0 where
  mscratch mstatus mepc : Csr

pub data Instr : Type 0 where
  sd : ℕ → ℕ → ℕ → Instr
  ld : ℕ → ℕ → ℕ → Instr
  mv : ℕ → ℕ → Instr
  addi : ℕ → ℕ → ℕ → Instr
  csrr : ℕ → Csr → Instr
  csrw : Csr → ℕ → Instr
  csrrw : ℕ → Csr → ℕ → Instr

pub record Cpu : Type 0 where
  pub x : ℕ → ℕ
  pub mem : ℕ → ℕ
  pub csr : Csr → ℕ

abbrev pub write_reg : ℕ → ℕ → Cpu → Cpu
write_reg n v s = record s { x = λ j. if j == n then v else s.x j }

abbrev pub write_mem : ℕ → ℕ → Cpu → Cpu
write_mem p v s = record s { mem = λ q. if q == p then v else s.mem q }

abbrev pub set_csr : (Csr → ℕ) → Csr → ℕ → Csr → ℕ
set_csr f mscratch v mscratch = v
set_csr f mscratch v mstatus = f mstatus
set_csr f mscratch v mepc = f mepc
set_csr f mstatus v mscratch = f mscratch
set_csr f mstatus v mstatus = v
set_csr f mstatus v mepc = f mepc
set_csr f mepc v mscratch = f mscratch
set_csr f mepc v mstatus = f mstatus
set_csr f mepc v mepc = v

abbrev pub write_csr : Csr → ℕ → Cpu → Cpu
write_csr c v s = record s { csr = set_csr s.csr c v }

-- `sd src, off(base)`, `ld dst, off(base)`, `mv dst, src`, `addi dst, src, imm` with a wrapping
-- sum, `csrr dst, csr`, `csrw csr, src` and `csrrw dst, csr, src`.
abbrev pub exec : Instr → Cpu → Cpu
exec (sd src off base) s = write_mem (s.x base + off) (s.x src) s
exec (ld dst off base) s = write_reg dst (s.mem (s.x base + off)) s
exec (mv dst src) s = write_reg dst (s.x src) s
exec (addi dst src imm) s = write_reg dst (u64 (s.x src + imm)) s
exec (csrr dst c) s = write_reg dst (s.csr c) s
exec (csrw c src) s = write_csr c (s.x src) s
exec (csrrw dst c src) s = write_reg dst (s.csr c) (write_csr c (s.x src) s)

abbrev pub run : List Instr → Cpu → Cpu
run [] s = s
run (i ∷ is) s = run is (exec i s)

pub run-append : (is js : List Instr) (s : Cpu) → run (is ++ js) s ≡ run js (run is s)
run-append [] js s = refl
run-append (i ∷ is) js s = run-append is js (exec i s)
