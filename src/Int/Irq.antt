-- ===== src/Int/Irq.antt =====
-- kernel/src/hw/cpu/irq.c: the handlers of the sixteen interrupt lines.
pub mod Dispatch
mod Tests
use limix.Base.{ℕ, zero, ◌+◌, ◌%◌, ◌^◌, ◌==◌, if◌then◌else◌, bit_and}
use limix.Hw.Ports.{Ports}
use limix.Hw.Pic.{pic_get_isr, pic_send_eoi}

-- `handlers`: the addresses of functions, 0 for none.
abbrev pub Handlers : Type 0
Handlers = ℕ → ℕ

-- The kmemset of irq_init; irq_attach stands with the table of gates.
unfoldable pub irq_init : Handlers → Handlers
irq_init h = λ line. 0

-- `irq` is a byte below 16.
unfoldable pub irq_register : ℕ → ℕ → Handlers → Handlers
irq_register handler irq h = λ line. if line == irq then handler else h line

-- `call` runs the function at an address.
unfoldable pub irq_handler :
    (P : Ports) → (ℕ → P.State → P.State) → Handlers → ℕ → P.State → P.State
unfolding pic_get_isr
irq_handler P call h irq s =
    let (isr, s1) = pic_get_isr P s in
    if bit_and isr (2 ^ irq) == 0
    then s1
    else if h irq == 0
    then pic_send_eoi P irq s1
    else call (h irq) s1
