-- ===== src/Int.antt =====
-- kernel/src/int and kernel/src/hw/cpu/irq.c: the interrupt vectors and their handlers.
pub mod Idt
pub mod Irq
