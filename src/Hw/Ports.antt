-- ===== src/Hw/Ports.antt =====
-- kernel/src/io/pio.c: what the instructions for ports are to the code that uses them.
use limix.Base.{ℕ}

-- The machine behind the ports.
pub record Ports : Type 1 where
  pub State : Type 0
  pub outb : ℕ → ℕ → State → State
  pub inb : ℕ → State → ℕ × State
