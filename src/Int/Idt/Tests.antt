-- ===== src/Int/Idt/Tests.antt =====
-- Entry points at addresses that tell them apart.
use limix.Base.{◌+◌, ◌*◌, ◌%◌, ◌^◌, ◌≡◌, refl, arith, some}
use limix.Int.Idt.{Idt, Stubs, zero_gate, idt_init, irq_attach}
use limix.Int.Idt.Vectors.{AreAddresses, vector_target, target_of, irq_attach-idt_init}

abbrev stubs : Stubs
stubs = record {
  isr_stub_table = λ i. (0xffff800000100000 + 16 * i) % 2 ^ 64;
  irq_stub_table = λ i. (0xffff800000200000 + 16 * i) % 2 ^ 64;
  panic = 0xffff800000300000;
  syscall = 0xffff800000400000;
  g_idt_address = 0xffff800000500000;
}

stubs-AreAddresses : AreAddresses stubs
stubs-AreAddresses = record {
  isr_small = λ i. omega arith;
  irq_small = λ i. omega arith;
  panic_small = omega arith;
  syscall_small = omega arith;
}

abbrev at_boot : Idt
at_boot = record {
  g_idt = λ v. zero_gate;
  idtr = record { size = 0; addr = 0 };
  loaded = record { size = 0; addr = 0 };
}

irq_attach-idt_init_example :
    target_of 0x21 (irq_attach stubs (idt_init stubs at_boot)) ≡ vector_target stubs 0x21
irq_attach-idt_init_example = irq_attach-idt_init stubs at_boot 0x21 stubs-AreAddresses

keyboard_vector : vector_target stubs 0x21 ≡ some (0xffff800000200010, 0)
keyboard_vector = refl
