-- ===== src/Int/Idt.antt =====
-- kernel/src/int/idt.c, isr_init of isr.c, and irq_attach of kernel/src/hw/cpu/irq.c: the table of
-- interrupt gates. The entry points in assembly are known by their addresses.
pub mod Vectors
mod Tests
use limix.Base.{ℕ, zero, suc, ◌+◌, ◌-◌, ◌/◌, ◌%◌, ◌^◌, ◌==◌, if◌then◌else◌, bit_or}

abbrev pub idt_flags_gate_type_int : ℕ
idt_flags_gate_type_int = 0xe

abbrev pub idt_flags_dpl0 : ℕ
idt_flags_dpl0 = 0x00

abbrev pub idt_flags_dpl3 : ℕ
idt_flags_dpl3 = 0x60

abbrev pub idt_flags_present : ℕ
idt_flags_present = 0x80

pub record IdtGate : Type 0 where
  pub offset_low : ℕ
  pub segment_selector : ℕ
  pub ist : ℕ
  pub flags : ℕ
  pub offset_mid : ℕ
  pub offset_high : ℕ
  pub reserved : ℕ

pub record IdtDescriptor : Type 0 where
  pub size : ℕ
  pub addr : ℕ

-- `g_idt` and `IDTR`, with what lidt loaded last
pub record Idt : Type 0 where
  pub g_idt : ℕ → IdtGate
  pub idtr : IdtDescriptor
  pub loaded : IdtDescriptor

-- The entry points in assembly, and the address of `g_idt`
pub record Stubs : Type 0 where
  pub isr_stub_table : ℕ → ℕ
  pub irq_stub_table : ℕ → ℕ
  pub panic : ℕ
  pub syscall : ℕ
  pub g_idt_address : ℕ

-- A handler is a u64; id, flags and ist are bytes.
unfoldable pub idt_add_handler : ℕ → ℕ → ℕ → ℕ → Idt → Idt
idt_add_handler id handler flags ist s = record s {
  g_idt = λ k.
      if k == id % 256
      then record {
        offset_low = handler % 2 ^ 16;
        segment_selector = 0x08;
        ist = ist % 256;
        flags = flags % 256;
        offset_mid = handler / 2 ^ 16 % 2 ^ 16;
        offset_high = handler / 2 ^ 32 % 2 ^ 32;
        reserved = 0;
      }
      else s.g_idt k;
}

-- `for (i = ...; i < n; i++) idt_add_handler(first + i, table[i], flags, 0)`, with the rounds left
unfoldable pub add_stubs : ℕ → ℕ → ℕ → (ℕ → ℕ) → ℕ → Idt → Idt
add_stubs zero i first table flags s = s
add_stubs (suc left) i first table flags s =
    add_stubs left (i + 1) first table flags (idt_add_handler (first + i) (table i) flags 0 s)

unfoldable pub isr_init : Stubs → Idt → Idt
isr_init k s = add_stubs 32 0 0 k.isr_stub_table 0x8e s

abbrev pub int_flags : ℕ → ℕ
int_flags dpl = bit_or (bit_or dpl idt_flags_present) idt_flags_gate_type_int

unfoldable pub panic_init : Stubs → Idt → Idt
panic_init k s = idt_add_handler 0x40 k.panic (int_flags idt_flags_dpl0) 0 s

-- Without the two instructions that hold interrupts off.
unfoldable pub idt_load : Idt → Idt
idt_load s = record s { loaded = s.idtr }

abbrev pub zero_gate : IdtGate
zero_gate = record {
  offset_low = 0;
  segment_selector = 0;
  ist = 0;
  flags = 0;
  offset_mid = 0;
  offset_high = 0;
  reserved = 0;
}

-- kmemset of the whole table leaves zero gates.
unfoldable pub idt_init : Stubs → Idt → Idt
unfolding isr_init panic_init idt_load
idt_init k s =
    let s1 = isr_init k (record s { g_idt = λ v. zero_gate }) in
    let s2 = panic_init k s1 in
    let s3 = idt_add_handler 0x80 k.syscall (int_flags idt_flags_dpl3) 0 s2 in
    idt_load (record s3 { idtr = record { size = 4096 - 1; addr = k.g_idt_address } })

unfoldable pub irq_attach : Stubs → Idt → Idt
irq_attach k s = add_stubs 16 0 0x20 k.irq_stub_table (int_flags idt_flags_dpl0) s
