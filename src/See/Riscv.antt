-- ===== src/See/Riscv.antt =====
-- What see/src/execute.rs and see/src/main.rs use of the crates riscv and rustsbi: operations on CSR
-- words and the constants of the SBI specification. Neither crate is part of the repository, so
-- they are parameters with their documented effect.
use rustsbi_d.Base.{ℕ, ◌/◌, ◌%◌, ◌^◌, ◌≡◌, Bool, ◌==◌}
use rustsbi_d.Base.Fields.{with_field}

pub data Spp : Type 0 where
  user supervisor : Spp

abbrev pub spp_bit : Spp → ℕ
spp_bit user = 0
spp_bit supervisor = 1

-- A field of `w` bits at bit `s` of a word.
abbrev pub bits : ℕ → ℕ → ℕ → ℕ
bits s w x = x / 2 ^ s % 2 ^ w

-- riscv: each setter writes one field of the CSR and keeps the others.
pub record Riscv : Type 0 where
  pub set_mpp_supervisor : ℕ → ℕ
  pub set_mie : ℕ → ℕ
  pub clear_mie : ℕ → ℕ
  pub set_spp : Spp → ℕ → ℕ
  pub sie : ℕ → Bool
  pub set_spie : ℕ → ℕ
  pub clear_sie : ℕ → ℕ
  pub set_load_page_fault : ℕ → ℕ
  pub set_store_page_fault : ℕ → ℕ
  pub set_user_env_call : ℕ → ℕ
  pub set_mext : ℕ → ℕ
  pub set_msoft : ℕ → ℕ
  pub set_mtimer : ℕ → ℕ
  pub set_stimer : ℕ → ℕ
  pub clear_stimer : ℕ → ℕ
  pub set_ssoft : ℕ → ℕ
  pub stvec_address : ℕ → ℕ
  pub illegal_instruction : ℕ

pub record IsRiscv (r : Riscv) : Type 0 where
  pub mpp : (x : ℕ) → r.set_mpp_supervisor x ≡ with_field 11 2 1 x
  pub mie_set : (x : ℕ) → r.set_mie x ≡ with_field 3 1 1 x
  pub mie_clear : (x : ℕ) → r.clear_mie x ≡ with_field 3 1 0 x
  pub spp : (p : Spp) (x : ℕ) → r.set_spp p x ≡ with_field 8 1 (spp_bit p) x
  pub sie_read : (x : ℕ) → r.sie x ≡ (bits 1 1 x == 1)
  pub spie_set : (x : ℕ) → r.set_spie x ≡ with_field 5 1 1 x
  pub sie_clear : (x : ℕ) → r.clear_sie x ≡ with_field 1 1 0 x
  pub stip_set : (x : ℕ) → r.set_stimer x ≡ with_field 5 1 1 x
  pub stip_clear : (x : ℕ) → r.clear_stimer x ≡ with_field 5 1 0 x
  pub ssip_set : (x : ℕ) → r.set_ssoft x ≡ with_field 1 1 1 x

-- rustsbi::spec, the numbers that `handle_ecall` compares with.
pub record SbiSpec : Type 0 where
  pub ret_success : ℕ
  pub eid_hsm : ℕ
  pub hart_stop : ℕ
  pub hart_suspend : ℕ
  pub hart_suspend_type_non_retentive : ℕ
  pub eid_srst : ℕ
  pub system_reset : ℕ
  pub reset_type_cold_reboot : ℕ
  pub reset_type_warm_reboot : ℕ

pub record SbiRet : Type 0 where
  pub error : ℕ
  pub value : ℕ
