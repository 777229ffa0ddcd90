-- ===== src/See/Execute/Ecall.antt =====
-- `handle_ecall`: when the loop returns, and what the supervisor gets back otherwise.
use rustsbi_d.Base.{
  ℕ, ◌+◌, ◌^◌, ◌≤◌, ◌<◌, ◌≡◌, ◌∙◌, ◌≢◌, ◌↔◌, ◌⊎◌, true, false, List, [], ◌∷◌, arith, ◌==◌,
  if◌then◌else◌, length, length-set, u64,
}
use rustsbi_d.Base.{length-set, ◌∙◌}
use rustsbi_d.See.Riscv.{SbiSpec, SbiRet}
use rustsbi_d.See.Execute.{Machine, Context, reg, arg, set_arg, leaves, handle_ecall}
use rustsbi_d.See.Execute.Rdtime.{reg-set_reg}

-- The specification's numbers are told apart and fit 32 bits.
pub record IsSbiSpec (spec : SbiSpec) : Type 0 where
  pub extensions : spec.eid_hsm ≢ spec.eid_srst
  pub functions : spec.hart_stop ≢ spec.hart_suspend
  pub suspend_fits : spec.hart_suspend_type_non_retentive < 2 ^ 32
  pub cold_fits : spec.reset_type_cold_reboot < 2 ^ 32
  pub warm_fits : spec.reset_type_warm_reboot < 2 ^ 32

-- The calls after which the loop is left: stopping the hart, a suspend that loses its state, and the two
-- reboots. A shutdown is not among them.
abbrev pub Leaves : SbiSpec → ℕ → ℕ → ℕ → Type 0
Leaves spec e f a =
    ((e ≡ spec.eid_hsm) × (f ≡ spec.hart_stop))
    ⊎ ((e ≡ spec.eid_hsm) × (f ≡ spec.hart_suspend) × (a ≡ spec.hart_suspend_type_non_retentive))
    ⊎ ((e ≡ spec.eid_srst) × (f ≡ spec.system_reset) × (a ≡ spec.reset_type_cold_reboot))
    ⊎ ((e ≡ spec.eid_srst) × (f ≡ spec.system_reset) × (a ≡ spec.reset_type_warm_reboot))

leaves_iff :
    (spec : SbiSpec) (e f a : ℕ) → IsSbiSpec spec → (leaves spec e f a ≡ true) ↔ Leaves spec e f a
unfolding leaves
leaves_iff spec e f a k =
    ground (arith, k.extensions, k.functions, k.suspend_fits, k.cold_fits, k.warm_fits)

module _ (spec : SbiSpec) (ecall : ℕ → ℕ → List ℕ → Machine → SbiRet × Machine) where
  -- What `rustsbi::ecall` answers to the call in the context.
  abbrev pub answer : Context → Machine → SbiRet × Machine
  answer c m =
      ecall (arg 7 c) (arg 6 c) (arg 0 c ∷ arg 1 c ∷ arg 2 c ∷ arg 3 c ∷ arg 4 c ∷ arg 5 c ∷ []) m

  -- With the distinct numbers of the SBI specification, `handle_ecall` asks the loop to return exactly when the call
  -- succeeded and is a stop of the hart, a non-retentive suspend, a cold reboot or a warm reboot; after every other
  -- call, a shutdown that reports success and a suspend or reboot type of more than 32 bits among them, the
  -- supervisor is resumed.
  pub handle_ecall-Leaves_iff :
      (c : Context) (m : Machine)
      → IsSbiSpec spec
      → ((handle_ecall spec ecall c m).2 ≡ false)
        ↔ (((answer c m).0.error ≡ spec.ret_success) × Leaves spec (arg 7 c) (arg 6 c) (arg 0 c))
  unfolding handle_ecall
  handle_ecall-Leaves_iff c m k = ground (arith, leaves_iff spec (arg 7 c) (arg 6 c) (arg 0 c) k)

  -- A call that does not end the loop comes back behind its instruction with the error in a0, the value in
  -- a1 and every other register as it was.
  pub handle_ecall_returns :
      (c : Context) (m : Machine) (n : ℕ)
      → length c.x ≡ 31
      → 1 ≤ n
      → n ≤ 31
      → (handle_ecall spec ecall c m).2 ≡ true
      → let (c', m', _) = handle_ecall spec ecall c m in
        (m' ≡ (answer c m).1)
        × (c'.mepc ≡ u64 (c.mepc + 4))
        × (c'.mstatus ≡ c.mstatus)
        × (reg n c' ≡ (
            if n == 10
            then (answer c m).0.error
            else if n == 11
            then (answer c m).0.value
            else reg n c))
  unfolding handle_ecall
  handle_ecall_returns c m n len lo hi t =
      let r = (answer c m).0 in
      let c0 = set_arg 0 r.error c in
      (
        ground arith,
        ground arith,
        ground arith,
        ground (
          arith,
          reg-set_reg n 11 r.value c0 (length-set c.x 9 r.error ∙ len) lo,
          reg-set_reg n 10 r.error c len lo,
        ),
      )
