-- ===== src/See/Execute.antt =====
-- see/src/execute.rs: the loop that runs the supervisor and handles its traps. The machine's
-- registers and the CLINT are a record; the run of the supervisor between two traps is what
-- `Switch` describes.
pub mod Rdtime
pub mod Ecall
pub mod Transfer
pub mod Loop
pub mod Run
use rustsbi_d.Base.{
  ℕ, zero, suc, ◌+◌, ◌-◌, ◌*◌, ◌/◌, ◌%◌, ◌^◌, ◌≤◌, ◌<◌, min, max, bit_and, bit_or, ◌≡◌, refl, sym,
  ap, ◌∙◌, fun_ext, ◌≢◌, ◌↔◌, ◌⊎◌, inl, inr, Bool, true, false, not, ◌&&◌, ◌||◌, Option, none, some,
  List, [], ◌∷◌, ◌++◌, map, arith, ltb, leb, ◌==◌, if◌then◌else◌, Bool-cases, Option-cases, ltb→lt,
  lt→ltb, le→ltb_false, ==_iff, length, get_elem?, get_or, set, take, drop, replicate,
  length-append, length-set, get_or-set_self, get_or-set_ne, length-replicate, u8, u32, u64,
  u32_max, u64_max, ◌<<<◌, ◌>>>◌, complement,
}
use mathlib.Core.Option
use rustsbi_d.Hal.Clint.{Clint, mtimecmp_write, msip_clear}
use rustsbi_d.See.Riscv.{Riscv, SbiSpec, SbiRet, Spp, user, supervisor}

pub record Machine : Type 0 where
  pub mstatus : ℕ
  pub mtval : ℕ
  pub scause : ℕ
  pub stval : ℕ
  pub sepc : ℕ
  pub stvec : ℕ
  pub mip : ℕ
  pub mie : ℕ
  pub mideleg : ℕ
  pub medeleg : ℕ
  pub mtvec : ℕ
  pub time : ℕ
  pub clint : Clint

-- `x` holds the registers 1 to 31.
pub record Context : Type 0 where
  pub msp : ℕ
  pub x : List ℕ
  pub mstatus : ℕ
  pub mepc : ℕ

abbrev pub reg : ℕ → Context → ℕ
reg n c = get_or c.x (n - 1) 0

abbrev pub set_reg : ℕ → ℕ → Context → Context
set_reg n v c = record c { x = set c.x (n - 1) v }

abbrev pub arg : ℕ → Context → ℕ
arg n c = reg (n + 10) c

abbrev pub set_arg : ℕ → ℕ → Context → Context
set_arg n v c = set_reg (n + 10) v c

-- `wrapping_add(4)` on the program counter.
abbrev pub skip : Context → Context
skip c = record c { mepc = u64 (c.mepc + 4) }

-- `Context::new`
unfoldable pub new : ℕ → ℕ → Machine → Context
new start_addr opaque m =
    set_arg 1 opaque
      (set_arg 0 0 (record { msp = 0; x = replicate 31 0; mstatus = m.mstatus; mepc = start_addr }))

-- `((1 << 5) - 1) << 7`; its `trailing_zeros` is 7.
abbrev pub rd_mask : ℕ
rd_mask = 31 * 2 ^ 7

abbrev pub rdtime_code : ℕ
rdtime_code = 0xC010_2073

unfoldable pub emulate_rdtime : ℕ → ℕ → Context → Context × Bool
emulate_rdtime time ins c =
    if bit_and ins (complement 64 rd_mask) == rdtime_code
    then (let rd = bit_and ins rd_mask >>> 7 in
        (skip (if rd == 0 then c else set_reg rd time c), true))
    else (c, false)

module _ (spec : SbiSpec) where
  -- The calls that end the execution when they succeed; `a0` must fit 32 bits to be compared.
  unfoldable pub leaves : ℕ → ℕ → ℕ → Bool
  leaves extension function a0 =
      if extension == spec.eid_hsm
      then (if function == spec.hart_stop
          then true
          else if function == spec.hart_suspend
          then ltb a0 (2 ^ 32) && (a0 == spec.hart_suspend_type_non_retentive)
          else false)
      else if extension == spec.eid_srst
      then (if function == spec.system_reset
          then ltb a0 (2 ^ 32)
            && ((a0 == spec.reset_type_cold_reboot) || (a0 == spec.reset_type_warm_reboot))
          else false)
      else false

  -- `rustsbi::ecall` is the parameter `ecall`; `false` asks the loop to return.
  unfoldable pub handle_ecall :
      (ℕ → ℕ → List ℕ → Machine → SbiRet × Machine) → Context → Machine → Context × Machine × Bool
  handle_ecall ecall c m =
      let extension = arg 7 c in
      let function = arg 6 c in
      let args = arg 0 c ∷ arg 1 c ∷ arg 2 c ∷ arg 3 c ∷ arg 4 c ∷ arg 5 c ∷ [] in
      let (ans, m') = ecall extension function args m in
      if (ans.error == spec.ret_success) && leaves extension function (arg 0 c)
      then (c, m', false)
      else (skip (set_arg 1 ans.value (set_arg 0 ans.error c)), m', true)

-- The previous privilege, from bits 11 and 12 of the saved `mstatus`; the other values hit
-- `unreachable!`.
abbrev pub spp_of : ℕ → Option Spp
spp_of zero = some user
spp_of (suc zero) = some supervisor
spp_of (suc (suc n)) = none

module _ (r : Riscv) where
  -- After the privilege is known.
  unfoldable pub deliver : Spp → ℕ → Context → Machine → Context × Machine
  deliver spp cause c m =
      let w = r.set_spp spp (r.set_mpp_supervisor m.mstatus) in
      let w' = if r.sie w then r.clear_sie (r.set_spie w) else w in
      (
        record c { mstatus = w'; mepc = r.stvec_address m.stvec },
        record m { mstatus = w'; scause = cause; stval = m.mtval; sepc = c.mepc },
      )

  -- `none` is the panic of `unreachable!`.
  unfoldable pub do_transfer_trap : ℕ → Context → Machine → Option (Context × Machine)
  do_transfer_trap cause c m =
      Option.map (λ spp. deliver spp cause c m) (spp_of (bit_and (c.mstatus >>> 11) 0b11))

-- The causes that the loop tells apart.
pub data Trap : Type 0 where
  machine_timer machine_soft supervisor_env_call illegal_instruction other : Trap

-- `stop` is `trap_stop`, which reports and spins; `panic` is `unreachable!`.
pub data Outcome : Type 0 where
  resume leave : Context → Machine → Outcome
  stop panic : Outcome

abbrev pub resumed : Option (Context × Machine) → Outcome
resumed none = panic
resumed (some (c, m)) = resume c m

abbrev pub left : Context × Machine × Bool → Outcome
left (c, m, true) = resume c m
left (c, m, false) = leave c m

module _ (r : Riscv) (spec : SbiSpec) (ecall : ℕ → ℕ → List ℕ → Machine → SbiRet × Machine) where
  abbrev pub illegal : Context × Bool → Machine → Outcome
  illegal (c, true) m = resume c m
  illegal (c, false) m = resumed (do_transfer_trap r r.illegal_instruction c m)

  -- One round of the `loop`, after `m_to_s` came back.
  unfoldable pub handle : Trap → Context → Machine → Outcome
  handle machine_timer c m =
      resume c (record m { clint = mtimecmp_write u64_max m.clint; mip = r.set_stimer m.mip })
  handle machine_soft c m =
      resume c (record m { clint = msip_clear m.clint; mip = r.set_ssoft m.mip })
  handle supervisor_env_call c m = left (handle_ecall spec ecall c m)
  handle illegal_instruction c m = illegal (emulate_rdtime m.time m.mtval c) m
  handle other c m = stop

module _ (r : Riscv) (handler : ℕ) where
  -- The body of `execute_supervisor` before its loop; `handler` is the address of `s_to_m`.
  unfoldable pub prepare : ℕ → ℕ → Machine → Context × Machine
  unfolding new
  prepare start_addr opaque m =
      let m1 = record m { mstatus = r.set_mie (r.set_mpp_supervisor m.mstatus) } in
      let c = new start_addr opaque m1 in
      let m2 = record m1 {
        mip = 0;
        mideleg = u64_max;
        mstatus = r.clear_mie m1.mstatus;
        medeleg = r.set_user_env_call (r.set_store_page_fault (r.set_load_page_fault m.medeleg));
        mtvec = handler;
        mie = r.set_mtimer (r.set_msoft (r.set_mext m.mie));
      } in
      (c, m2)
