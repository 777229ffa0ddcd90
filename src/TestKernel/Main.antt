-- ===== src/TestKernel/Main.antt =====
-- test-kernel/src/main.rs: the tests that the kernel asks for, and how it ends. The tests (of the crate sbi_testing)
-- are the parameter `test`, which says whether they came back or a test panicked.
-- The clearing of bss and the texts are left out.
use rustsbi_d.Base.{ℕ, ◌-◌, Bool, if◌then◌else◌, ◌<<<◌}

-- `sbi_testing::Testing`
pub record Testing : Type 0 where
  pub hartid : ℕ
  pub hart_mask : ℕ
  pub hart_mask_base : ℕ
  pub delay : ℕ

-- What is asked of the SBI in the end: always a shutdown, with a reason.
pub data Reason : Type 0 where
  no_reason system_failure : Reason

abbrev pub smp : ℕ
smp = 1

abbrev pub frequency : ℕ
frequency = 24000000

abbrev pub testing : ℕ → Testing
testing hartid = record {
  hartid = hartid;
  hart_mask = (1 <<< smp) - 1;
  hart_mask_base = 0;
  delay = frequency;
}

module _ {W : Type 0} (test : Testing → W → Bool × W) (system_reset : Reason → W → W) where
  -- The panic handler: a shutdown, for a failure.
  abbrev pub panic : W → W
  panic w = system_reset system_failure w

  -- A shutdown that comes back reaches `unreachable!`.
  unfoldable pub rust_main : ℕ → W → W
  rust_main hartid w =
      let (passed, w') = test (testing hartid) w in
      if passed then panic (system_reset no_reason w') else panic w'
