-- ===== src/Hal/Plic.antt =====
-- hal/src/plic.rs: whether S mode may use the interrupt controller.
pub data Ctrl : Type 0 where
  m ms : Ctrl

pub record Plic : Type 0 where
  pub ctrl : Ctrl

abbrev pub allow_supervisor : Plic → Plic
allow_supervisor p = record p { ctrl = ms }

abbrev pub deny_supervisor : Plic → Plic
deny_supervisor p = record p { ctrl = m }
