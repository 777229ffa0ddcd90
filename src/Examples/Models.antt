-- ===== src/Examples/Models.antt =====
-- A CSR crate, the SBI numbers, a NAND chip and a UART, as functions.
use rustsbi_d.Base.{
  ℕ, ◌+◌, ◌-◌, ◌*◌, ◌%◌, ◌^◌, ◌≤◌, min, ◌≡◌, refl, Bool, true, false, List, [], ◌∷◌, ◌++◌, arith,
  ltb, ◌==◌, replicate,
}
use rustsbi_d.Base.Fields.{with_field}
use rustsbi_d.See.Riscv.{Riscv, IsRiscv, SbiSpec, spp_bit, bits}
use rustsbi_d.See.Execute.Ecall.{IsSbiSpec}
use rustsbi_d.Spl.Flash.{first_or}
use rustsbi_d.Spl.Flash.Chip.{image, IsNand}
use rustsbi_d.Spl.Logging.Uart.{IsUart}

abbrev pub riscv : Riscv
riscv = record {
  set_mpp_supervisor = with_field 11 2 1;
  set_mie = with_field 3 1 1;
  clear_mie = with_field 3 1 0;
  set_spp = λ p. with_field 8 1 (spp_bit p);
  sie = λ x. bits 1 1 x == 1;
  set_spie = with_field 5 1 1;
  clear_sie = with_field 1 1 0;
  set_load_page_fault = with_field 13 1 1;
  set_store_page_fault = with_field 15 1 1;
  set_user_env_call = with_field 8 1 1;
  set_mext = with_field 11 1 1;
  set_msoft = with_field 3 1 1;
  set_mtimer = with_field 7 1 1;
  set_stimer = with_field 5 1 1;
  clear_stimer = with_field 5 1 0;
  set_ssoft = with_field 1 1 1;
  stvec_address = λ x. x - x % 4;
  illegal_instruction = 2;
}

pub riscv-IsRiscv : IsRiscv riscv
riscv-IsRiscv = record {
  mpp = λ x. refl;
  mie_set = λ x. refl;
  mie_clear = λ x. refl;
  spp = λ p x. refl;
  sie_read = λ x. refl;
  spie_set = λ x. refl;
  sie_clear = λ x. refl;
  stip_set = λ x. refl;
  stip_clear = λ x. refl;
  ssip_set = λ x. refl;
}

abbrev pub spec : SbiSpec
spec = record {
  ret_success = 0;
  eid_hsm = 0x48534D;
  hart_stop = 1;
  hart_suspend = 3;
  hart_suspend_type_non_retentive = 0x80000000;
  eid_srst = 0x53525354;
  system_reset = 0;
  reset_type_cold_reboot = 1;
  reset_type_warm_reboot = 2;
}

pub spec-IsSbiSpec : IsSbiSpec spec
spec-IsSbiSpec = record {
  extensions = omega arith;
  functions = omega arith;
  suspend_fits = omega arith;
  cold_fits = omega arith;
  warm_fits = omega arith;
}

-- The chip tells its commands apart by their length, and is busy for one poll after each page command; the second part is the page in its cache.
abbrev pub Nand : Type 0
Nand = Bool × ℕ

abbrev pub busy : Nand → ℕ
busy (true, p) = 1
busy (false, p) = 0

abbrev pub loaded : Nand → ℕ
loaded d = d.1

module _ (page : ℕ → ℕ → ℕ) where
  abbrev pub nand : List ℕ → ℕ → ℕ → Nand → List ℕ × Nand
  nand (cmd ∷ key ∷ []) dummy count d = (busy d ∷ [], (false, loaded d))
  nand (cmd ∷ hi ∷ mid ∷ lo ∷ []) dummy count d = ([], (true, hi * 2 ^ 16 + mid * 2 ^ 8 + lo))
  nand (cmd ∷ hi ∷ lo ∷ []) dummy count d = (image (page (loaded d)) (hi * 2 ^ 8 + lo) count, d)
  nand _ dummy count d = (replicate count 0xEF, d)

  pub nand_prompt : (d : Nand) → busy d ≤ 1
  nand_prompt (true, p) = omega arith
  nand_prompt (false, p) = omega arith

  nand_status :
      (d : Nand)
      → let (got, d') = nand (0x0f ∷ 0xc0 ∷ []) 0 1 d in
        (first_or 0 got % 2 ≡ min 1 (busy d)) × (busy d' ≡ busy d - 1) × (loaded d' ≡ loaded d)
  nand_status (true, p) = (refl, refl, refl)
  nand_status (false, p) = (refl, refl, refl)

  pub nand-IsNand : IsNand nand page busy loaded 1
  nand-IsNand = record {
    prompt = nand_prompt;
    status = nand_status;
    page_read = λ d hi mid lo _ _ _ _. refl;
    cache_read = λ d hi lo count _ _ _ _. refl;
  }

-- A UART whose FIFO is full at one poll after each byte, and loses what is written then.
abbrev pub Uart : Type 0
Uart = Bool × List ℕ

abbrev pub is_full : Uart → Bool × Uart
is_full u = (u.0, (false, u.1))

abbrev pub thr_write : ℕ → Uart → Uart
thr_write ch (false, l) = (true, l ++ (ch ∷ []))
thr_write ch (true, l) = (true, l)

abbrev pub sent : Uart → List ℕ
sent u = u.1

abbrev pub delay : Uart → ℕ
delay (true, l) = 1
delay (false, l) = 0

uart_prompt : (u : Uart) → delay u ≤ 1
uart_prompt (true, p) = omega arith
uart_prompt (false, p) = omega arith

uart_poll :
    (u : Uart)
    → let (full, u') = is_full u in
      (full ≡ ltb 0 (delay u)) × (delay u' ≡ delay u - 1) × (sent u' ≡ sent u)
uart_poll (true, p) = (refl, refl, refl)
uart_poll (false, p) = (refl, refl, refl)

uart_write : (ch : ℕ) (u : Uart) → delay u ≡ 0 → sent (thr_write ch u) ≡ sent u ++ (ch ∷ [])
uart_write ch (false, l) e = refl
uart_write ch (true, l) e = absurd (omega (arith, e))

pub is_full-IsUart : IsUart is_full thr_write sent delay 1
is_full-IsUart = record { prompt = uart_prompt; poll = uart_poll; write = uart_write }
